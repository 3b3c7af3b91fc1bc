-- ===== src/Sender/Received.antt =====
-- What a step of the sender receives.
use triggerhook.Base.{
  append-nil, ℕ, List, [], ◌∷◌, ◌++◌, Bool-cases, Option, none, some, Option-cases, inl, inr,
  get_elem?, ◌≡◌, refl, sym, ap, ◌∙◌,
}
use triggerhook.Domain.{Task}
use triggerhook.TaskManager.Operations.{TaskManager}
use triggerhook.Sender.Batcher.{Batcher, step, Collector, collecting, done, pushed, Event}
use triggerhook.Sender.Pipeline.{
  Worker, Pipeline, Act, batches, measures, works, put_batcher, batching, is_allowed, measuring,
  worker_step, put_worker, working, act,
}
use triggerhook.Sender.Hands.{some_inj}
use triggerhook.Sender.Flow.{brought, step-Passed}
use triggerhook.Sender.Carried.{worker_step-Moved}

abbrev pub brings : Act → List Task
brings (batches e) = brought e
brings measures = []
brings (works i) = []

abbrev Grown : List Task → Batcher → Batcher → Type 0
Grown ts b b' = b'.received ≡ b.received ++ ts

add_nothing : {A : Type 0} {xs ys : List A} → xs ≡ ys → ys ≡ xs ++ []
add_nothing {xs} e = sym e ∙ sym (append-nil xs)

put_batcher-Grown :
    {R : Type 0} (max : ℕ) (e : Event) (p : Pipeline R) (o : Option Batcher) {p' : Pipeline R}
    → step max e p.batcher ≡ o
    → put_batcher e p o ≡ some p'
    → Grown (brought e) p.batcher p'.batcher
unfolding put_batcher
put_batcher-Grown max e p none h q = cc q
put_batcher-Grown max e p (some b) h q =
    ap (λ p. p.batcher.received) (sym (some_inj q)) ∙ (step-Passed max e p.batcher h).received

batching-Grown :
    {R : Type 0} (max : ℕ) (e : Event) (p : Pipeline R) {p' : Pipeline R}
    → batching max e p ≡ some p'
    → Grown (brought e) p.batcher p'.batcher
unfolding batching
batching-Grown max e p q = elim (Bool-cases (is_allowed e p)) [
  | inl b ↦ put_batcher-Grown max e p (step max e p.batcher) refl (sym (rw b refl) ∙ q)
  | inr b ↦ cc (b, q)
]

module _ {R C : Type 0} (s : TaskManager R C) where
  measuring-Grown :
      (c : Collector) (batch : List Task) (p : Pipeline R) {p' : Pipeline R}
      → measuring s c batch p ≡ some p'
      → Grown [] p.batcher p'.batcher
  unfolding measuring
  measuring-Grown collecting (t ∷ ts) p q = add_nothing (ap (λ p. p.batcher.received) (some_inj q))
  measuring-Grown collecting [] p q = cc q
  measuring-Grown done batch p q = cc q
  measuring-Grown pushed batch p q = cc q

  put_worker-Grown :
      (i : ℕ) (k : Worker) (p : Pipeline R) (o : Option (Worker × Pipeline R)) {p' : Pipeline R}
      → worker_step s k p ≡ o
      → put_worker s i o ≡ some p'
      → Grown [] p.batcher p'.batcher
  unfolding put_worker
  put_worker-Grown i k p none h q = cc q
  put_worker-Grown i k p (some (k', x)) h q =
      let d = worker_step-Moved s (λ bs r. Unit {0}) (λ batch bs w n. tt) k p k' x h in
      add_nothing (ap (λ b. b.received) (sym d.batcher) ∙ ap (λ p. p.batcher.received) (some_inj q))

  working-Grown :
      (i : ℕ) (p : Pipeline R) {p' : Pipeline R}
      → working s i p ≡ some p'
      → Grown [] p.batcher p'.batcher
  unfolding working
  working-Grown i p q = elim (Option-cases (get_elem? p.workers i)) [
    | inl h ↦ cc (h, q)
    | inr (k, h) ↦ put_worker-Grown i k p (worker_step s k p) refl (sym (rw (working, h) refl) ∙ q)
  ]

  -- The tasks received grow by what the step brings.
  pub act-received :
      (max : ℕ) (a : Act) (p : Pipeline R) {p' : Pipeline R}
      → act s max a p ≡ some p'
      → p'.batcher.received ≡ p.batcher.received ++ brings a
  unfolding act
  act-received max (batches e) p q = batching-Grown max e p q
  act-received max measures p q = measuring-Grown p.batcher.collector p.unmeasured p q
  act-received max (works i) p q = working-Grown i p q
