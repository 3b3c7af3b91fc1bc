-- ===== src/Sender/Staff.antt =====
-- No step of the sender changes the number of its workers.
use triggerhook.Base.{
  ℕ, zero, suc, List, [], ◌∷◌, Bool-cases, Option, none, some, Option-cases, inl, inr, length,
  length-set, get_elem?, ◌≡◌, refl, sym, ap, ◌∙◌, arith,
}
use triggerhook.Domain.{Task}
use triggerhook.TaskManager.Interface.{World}
use triggerhook.TaskManager.Operations.{TaskManager}
use triggerhook.Sender.Batcher.{Batcher, Collector, collecting, done, pushed, Event, step}
use triggerhook.Sender.Pipeline.{
  Worker, Pipeline, Act, batches, measures, works, start_workers, run, put_batcher, batching,
  is_allowed, measuring, worker_step, put_worker, working, act, Reach, after_run, after,
}
use triggerhook.Sender.Hands.{some_inj}
use triggerhook.Sender.Carried.{worker_step-Moved}

workers-put_batcher :
    {R : Type 0} (e : Event) (p : Pipeline R) (o : Option Batcher) {p' : Pipeline R}
    → put_batcher e p o ≡ some p'
    → p'.workers ≡ p.workers
unfolding put_batcher
workers-put_batcher e p none q = cc q
workers-put_batcher e p (some b) q = ap (λ x. x.workers) (sym (some_inj q))

workers-batching :
    {R : Type 0} (max : ℕ) (e : Event) (p : Pipeline R) {p' : Pipeline R}
    → batching max e p ≡ some p'
    → p'.workers ≡ p.workers
unfolding batching
workers-batching max e p q = elim (Bool-cases (is_allowed e p)) [
  | inl b ↦ workers-put_batcher e p (step max e p.batcher) (sym (rw b refl) ∙ q)
  | inr b ↦ cc (b, q)
]

module _ {R C : Type 0} (s : TaskManager R C) where
  workers-measuring :
      (c : Collector) (batch : List Task) (p : Pipeline R) {p' : Pipeline R}
      → measuring s c batch p ≡ some p'
      → p'.workers ≡ p.workers
  unfolding measuring
  workers-measuring collecting (t ∷ ts) p q = ap (λ x. x.workers) (sym (some_inj q))
  workers-measuring collecting [] p q = cc q
  workers-measuring done batch p q = cc q
  workers-measuring pushed batch p q = cc q

  length-put_worker :
      (i : ℕ) (k : Worker) (p : Pipeline R) (o : Option (Worker × Pipeline R)) {p' : Pipeline R}
      → worker_step s k p ≡ o
      → put_worker s i o ≡ some p'
      → length p'.workers ≡ length p.workers
  unfolding put_worker
  length-put_worker i k p none h q = cc q
  length-put_worker i k p (some (k', x)) h q =
      ap (λ x. length x.workers) (sym (some_inj q))
      ∙ length-set x.workers i k'
      ∙ ap length (worker_step-Moved s (λ bs r. Unit {0}) (λ batch bs w n. tt) k p k' x h).workers

  length-working :
      (i : ℕ) (p : Pipeline R) {p' : Pipeline R}
      → working s i p ≡ some p'
      → length p'.workers ≡ length p.workers
  unfolding working
  length-working i p q = elim (Option-cases (get_elem? p.workers i)) [
    | inl h ↦ cc (h, q)
    | inr (k, h) ↦ length-put_worker i k p (worker_step s k p) refl (sym (rw (working, h) refl) ∙ q)
  ]

  length-act :
      (max : ℕ) (a : Act) (p : Pipeline R) {p' : Pipeline R}
      → act s max a p ≡ some p'
      → length p'.workers ≡ length p.workers
  unfolding act
  length-act max (batches e) p q = ap length (workers-batching max e p q)
  length-act max measures p q = ap length (workers-measuring p.batcher.collector p.unmeasured p q)
  length-act max (works i) p q = length-working i p q

  length-start : (n : ℕ) → length (start_workers n) ≡ n
  unfolding start_workers
  length-start zero = refl
  length-start (suc n) = omega (arith, length-start n)

  pub Reach-workers :
      {max n : ℕ} {w : World R} {p : Pipeline R} → Reach s max n w p → length p.workers ≡ n
  unfolding run
  Reach-workers {n = n} after_run = length-start n
  Reach-workers {max} (after {p = p} a r q) = length-act max a p q ∙ Reach-workers r
