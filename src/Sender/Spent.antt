-- ===== src/Sender/Spent.antt =====
-- Each step of the sender leaves less work, unless a task arrives or the timer of an empty batch
-- expires.
use triggerhook.Base.{
  ℕ, ◌+◌, ◌*◌, ◌<◌, List, [], ◌∷◌, true, Option, none, some, Option-cases, inl, inr, length,
  get_elem?, set, ◌≡◌, refl, sym, ap, subst, ◌∙◌, arith,
}
use triggerhook.Domain.{Task}
use triggerhook.Contracts.Errors.{TmError}
use triggerhook.TaskManager.Interface.{World}
use triggerhook.TaskManager.Operations.{TaskManager, confirm_execution}
use triggerhook.Sender.Batcher.{Collector, collecting, done, pushed}
use triggerhook.Sender.Pipeline.{
  Worker, receiving, holding, called, Pipeline, Act, batches, measures, works, measuring,
  take_batch, called_with, settled, worker_step, put_worker, working, act,
}
use triggerhook.Sender.Hands.{some_inj}
use triggerhook.Sender.Work.{
  batcher_work, measure_work, worker_work, workers_work, work, goes_on, workers_work-set,
  batching-less,
}

module _ {R C : Type 0} (s : TaskManager R C) where
  measuring-less :
      (c : Collector) (batch : List Task) (p : Pipeline R) {p' : Pipeline R}
      → p.unmeasured ≡ batch
      → measuring s c batch p ≡ some p'
      → work p' < work p
  unfolding measuring
  measuring-less collecting (t ∷ ts) p e q =
      subst (λ x. work x < work p) (some_inj q) (rw e (omega arith))
  measuring-less collecting [] p e q = cc q
  measuring-less done batch p e q = cc q
  measuring-less pushed batch p e q = cc q

  -- The step of a worker, next to what is left for the others.
  record Cheaper (k : Worker) (p : Pipeline R) (k' : Worker) (p' : Pipeline R) : Type 0 where
    workers : p'.workers ≡ p.workers
    batcher : p'.batcher ≡ p.batcher
    unmeasured : p'.unmeasured ≡ p.unmeasured
    cheaper : worker_work k' + 3 * length p'.channel < worker_work k + 3 * length p.channel

  take_batch-Cheaper :
      (bs : List (List Task)) (p : Pipeline R) {k' : Worker} {p' : Pipeline R}
      → p.channel ≡ bs
      → take_batch s bs p ≡ some (k', p')
      → Cheaper receiving p k' p'
  unfolding take_batch
  take_batch-Cheaper [] p e q = cc q
  take_batch-Cheaper (b ∷ rest) p e q =
      subst (λ x. Cheaper receiving p x.0 x.1) (some_inj q)
        (record { workers = refl; batcher = refl; unmeasured = refl; cheaper = rw e (omega arith) })

  called_with-Cheaper :
      (batch : List Task) (r : Option TmError × World R) (p : Pipeline R)
      → Cheaper (holding batch) p (called_with s batch r p).0 (called_with s batch r p).1
  unfolding called_with settled
  called_with-Cheaper batch (none, w) p = record {
    workers = refl;
    batcher = refl;
    unmeasured = refl;
    cheaper = omega arith;
  }
  called_with-Cheaper batch (some e, w) p = record {
    workers = refl;
    batcher = refl;
    unmeasured = refl;
    cheaper = omega arith;
  }

  worker_step-Cheaper :
      (k : Worker) (p : Pipeline R) (k' : Worker) (x : Pipeline R)
      → worker_step s k p ≡ some (k', x)
      → Cheaper k p k' x
  unfolding worker_step
  worker_step-Cheaper receiving p k' x q = take_batch-Cheaper p.channel p refl q
  worker_step-Cheaper (holding batch) p k' x q =
      subst (λ x. Cheaper (holding batch) p x.0 x.1) (some_inj q)
        (called_with-Cheaper batch (confirm_execution s batch p.world) p)
  worker_step-Cheaper (called batch err) p k' x q =
      subst (λ x. Cheaper (called batch err) p x.0 x.1) (some_inj q)
        (record { workers = refl; batcher = refl; unmeasured = refl; cheaper = omega arith })

  put_worker-less :
      (i : ℕ) (k : Worker) (p : Pipeline R) (o : Option (Worker × Pipeline R)) {p' : Pipeline R}
      → get_elem? p.workers i ≡ some k
      → ((k' : Worker) (x : Pipeline R) → o ≡ some (k', x) → Cheaper k p k' x)
      → put_worker s i o ≡ some p'
      → work p' < work p
  unfolding put_worker
  put_worker-less i k p none h m q = cc q
  put_worker-less i k p (some (k', x)) h m q =
      let d = m k' x refl in
      subst (λ x. work x < work p) (some_inj q)
        (let b = ap batcher_work d.batcher in
          let u = ap measure_work d.unmeasured in
          let g = ap (λ ks. workers_work (set ks i k')) d.workers in
          let l = workers_work-set p.workers i k k' h in omega (arith, b, u, g, l, d.cheaper))

  working-less :
      (i : ℕ) (p : Pipeline R) {p' : Pipeline R} → working s i p ≡ some p' → work p' < work p
  unfolding working
  working-less i p q = elim (Option-cases (get_elem? p.workers i)) [
    | inl h ↦ cc (h, q)
    | inr (k, h) ↦
        put_worker-less i k p (worker_step s k p) h (worker_step-Cheaper k p)
          (sym (rw (working, h) refl) ∙ q)
  ]

  -- Every step that goes on with what is there leaves less work.
  pub act-less :
      (max : ℕ) (a : Act) (p : Pipeline R) {p' : Pipeline R}
      → goes_on a p ≡ true
      → act s max a p ≡ some p'
      → work p' < work p
  unfolding act
  act-less max (batches e) p g q = batching-less max e p g q
  act-less max measures p g q = measuring-less p.batcher.collector p.unmeasured p refl q
  act-less max (works i) p g q = working-less i p q
