-- ===== src/Sender/Carried.antt =====
-- What a step of the sender keeps of its tasks.
use triggerhook.Base.{
  ℕ, ◌+◌, List, [], ◌∷◌, ◌++◌, Bool, Option, none, some, Option-cases, inl, inr, get_elem?, set,
  ◌≡◌, refl, sym, ap, subst, ◌∙◌, arith,
}
use triggerhook.Domain.{Task}
use triggerhook.Contracts.Errors.{TmError}
use triggerhook.TaskManager.Interface.{World}
use triggerhook.TaskManager.Operations.{TaskManager, confirm_execution}
use triggerhook.Preloader.Shares.{count, count-append}
use triggerhook.Sender.Sizes.{flatten, flatten-append}
use triggerhook.Sender.Batcher.{Batcher, Collector, collecting, done, pushed, Event, at_start, step}
use triggerhook.Sender.Batcher as Batching
use triggerhook.Sender.Pipeline.{
  Worker, receiving, holding, called, Pipeline, Act, batches, measures, works, take_batch,
  called_with, settled, worker_step, put_worker, working, act,
}
use triggerhook.Sender.Hands.{in_hand, in_hands, some_inj, in_hands-set}
use triggerhook.Sender.Placed.{
  Accounted, repo-batch_confirmed, batching-Accounted, measuring-Accounted,
}

-- The confirmed batches once ConfirmExecution has returned for this one.
abbrev pub confirmed_with : List Task → Option TmError → List (List Task) → List (List Task)
confirmed_with batch none bs = bs ++ batch ∷ []
confirmed_with batch (some err) bs = bs

module _ {R C : Type 0} (s : TaskManager R C) (Stored : List (List Task) → R → Type 0)
    (stores : (batch : List Task) (bs : List (List Task)) (w : World R)
      → Stored bs w.repo
      → Stored
          (confirmed_with batch (confirm_execution s batch w).0 bs)
          (confirm_execution s batch w).1.repo) where
  -- A step of a worker, next to the batch in its hand.
  pub record Moved (k : Worker) (p : Pipeline R) (k' : Worker) (p' : Pipeline R) : Type 0 where
    pub workers : p'.workers ≡ p.workers
    pub batcher : p'.batcher ≡ p.batcher
    moved :
        (f : Task → Bool)
        → count f (flatten p'.confirmed)
            + count f (flatten p'.failed)
            + count f (in_hand k')
            + count f (flatten p'.channel)
          ≡ count f (flatten p.confirmed)
            + count f (flatten p.failed)
            + count f (in_hand k)
            + count f (flatten p.channel)
    removed : Stored p.confirmed p.world.repo → Stored p'.confirmed p'.world.repo

  take_batch-Moved :
      (bs : List (List Task)) (p : Pipeline R) {k' : Worker} {p' : Pipeline R}
      → p.channel ≡ bs
      → take_batch s bs p ≡ some (k', p')
      → Moved receiving p k' p'
  unfolding take_batch flatten
  take_batch-Moved [] p h q = cc q
  take_batch-Moved (b ∷ rest) p h q =
      subst (λ x. Moved receiving p x.0 x.1) (some_inj q)
        (record {
          workers = refl;
          batcher = refl;
          moved = λ f.
              let l = count-append f b (flatten rest) in
              let c = ap (λ bs. count f (flatten bs)) h in omega (arith, l, c);
          removed = λ r. r;
        })

  one_more :
      (f : Task → Bool) (bs : List (List Task)) (b : List Task)
      → count f (flatten (bs ++ b ∷ [])) ≡ count f (flatten bs) + count f b
  one_more f bs b = ap (count f) (flatten-append bs b) ∙ count-append f (flatten bs) b

  called_with-Moved :
      (batch : List Task) (p : Pipeline R) (r : Option TmError × World R)
      → (Stored p.confirmed p.world.repo → Stored (confirmed_with batch r.0 p.confirmed) r.1.repo)
      → Moved (holding batch) p (called_with s batch r p).0 (called_with s batch r p).1
  unfolding called_with settled
  called_with-Moved batch p (none, w) k = record {
    workers = refl;
    batcher = refl;
    moved = λ f. let l = one_more f p.confirmed batch in omega (arith, l);
    removed = k;
  }
  called_with-Moved batch p (some e, w) k = record {
    workers = refl;
    batcher = refl;
    moved = λ f. let l = one_more f p.failed batch in omega (arith, l);
    removed = k;
  }

  put_worker-Accounted :
      {max : ℕ} (i : ℕ) (k : Worker) (p : Pipeline R) (o : Option (Worker × Pipeline R))
      {p' : Pipeline R}
      → get_elem? p.workers i ≡ some k
      → ((k' : Worker) (x : Pipeline R) → o ≡ some (k', x) → Moved k p k' x)
      → put_worker s i o ≡ some p'
      → Accounted s Stored max p
      → Accounted s Stored max p'
  unfolding put_worker
  put_worker-Accounted i k p none h m q a = cc q
  put_worker-Accounted {max} i k p (some (k', x)) h m q a =
      let d = m k' x refl in
      subst (Accounted s Stored max) (some_inj q) (record {
        reached = subst (Batching.Reach max) (sym d.batcher) a.reached;
        shared = λ f.
            let e = ap (λ b. count f (flatten b.handed_over)) d.batcher in
            let g = ap (λ ks. in_hands f (set ks i k')) d.workers in
            omega (arith, e, g, d.moved f, a.shared f, in_hands-set f p.workers i k k' h);
        removed = d.removed a.removed;
      })

  pub worker_step-Moved :
      (k : Worker) (p : Pipeline R) (k' : Worker) (x : Pipeline R)
      → worker_step s k p ≡ some (k', x)
      → Moved k p k' x
  unfolding worker_step
  worker_step-Moved receiving p k' x q = take_batch-Moved p.channel p refl q
  worker_step-Moved (holding batch) p k' x q =
      subst (λ x. Moved (holding batch) p x.0 x.1) (some_inj q)
        (called_with-Moved batch p (confirm_execution s batch p.world)
          (stores batch p.confirmed p.world))
  worker_step-Moved (called batch err) p k' x q =
      subst (λ x. Moved (called batch err) p x.0 x.1) (some_inj q)
        (record {
          workers = refl;
          batcher = refl;
          moved = λ f. refl;
          removed = λ r.
              subst (Stored p.confirmed) (sym (repo-batch_confirmed s Stored batch err p.world)) r;
        })

  working-Accounted :
      {max : ℕ} (i : ℕ) (p : Pipeline R) {p' : Pipeline R}
      → working s i p ≡ some p'
      → Accounted s Stored max p
      → Accounted s Stored max p'
  unfolding working
  working-Accounted i p q a = elim (Option-cases (get_elem? p.workers i)) [
    | inl h ↦ cc (h, q)
    | inr (k, h) ↦
        put_worker-Accounted i k p (worker_step s k p) h (worker_step-Moved k p)
          (sym (rw (working, h) refl) ∙ q) a
  ]

  pub act-Accounted :
      {max : ℕ} (a : Act) (p : Pipeline R) {p' : Pipeline R}
      → act s max a p ≡ some p'
      → Accounted s Stored max p
      → Accounted s Stored max p'
  unfolding act
  act-Accounted (batches e) p q h = batching-Accounted s Stored e p q h
  act-Accounted measures p q h = measuring-Accounted s Stored p.batcher.collector p.unmeasured p q h
  act-Accounted (works i) p q h = working-Accounted i p q h
