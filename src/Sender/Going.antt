-- ===== src/Sender/Going.antt =====
-- Steps that the sender can make with what is there.
use triggerhook.Base.{
  ℕ, suc, ◌+◌, ◌<◌, ◌⊎◌, ◌≢◌, List, [], ◌∷◌, Bool, true, Option, none, some, Option-cases, inl, inr,
  length, get_elem?, ◌≡◌, refl, subst, arith,
}
use triggerhook.Domain.{Task}
use triggerhook.Contracts.Errors.{TmError}
use triggerhook.TaskManager.Operations.{TaskManager}
use triggerhook.Sender.Batcher.{Batcher, step, Event}
use triggerhook.Sender.Pipeline.{
  Worker, receiving, holding, called, Pipeline, Act, batches, works, is_allowed, put_batcher,
  batching, take_batch, worker_step, put_worker, working, act,
}
use triggerhook.Sender.Hands.{in_hands}
use triggerhook.Sender.Work.{goes_on}

module _ {R C : Type 0} (s : TaskManager R C) (max : ℕ) where
  abbrev pub CanGo : Pipeline R → Type 0
  CanGo p = (a : Act) × (p' : Pipeline R) × (goes_on a p ≡ true) × (act s max a p ≡ some p')

  pub can_go : (a : Act) (p : Pipeline R) → goes_on a p ≡ true → act s max a p ≢ none → CanGo p
  can_go a p g n = elim (Option-cases (act s max a p)) [
    | inl h ↦ absurd (n h)
    | inr (p', h) ↦ (a, p', g, h)
  ]

  -- A step of the batcher that is allowed.
  pub can_batch :
      (e : Event) (p : Pipeline R) (b : Batcher)
      → goes_on (batches e) p ≡ true
      → is_allowed e p ≡ true
      → step max e p.batcher ≡ some b
      → CanGo p
  unfolding put_batcher act
  can_batch e p b g h q =
      let r : act s max (batches e) p ≡ put_batcher e p (some b) = rw (act, batching, h, q) refl in
      can_go (batches e) p g (λ n. cc (r, n))

  can_work :
      (i : ℕ) (k : Worker) (p : Pipeline R) (x : Worker × Pipeline R)
      → get_elem? p.workers i ≡ some k
      → worker_step s k p ≡ some x
      → CanGo p
  unfolding goes_on put_worker act
  can_work i k p x h q =
      let r : act s max (works i) p ≡ put_worker s i (some x) = rw (act, working, h, q) refl in
      can_go (works i) p refl (λ n. cc (r, n))

  -- A worker that holds a batch, or has called ConfirmExecution, can go on.
  can_confirm :
      (i : ℕ) (b : List Task) (p : Pipeline R) → get_elem? p.workers i ≡ some (holding b) → CanGo p
  unfolding worker_step
  can_confirm i b p h = can_work i (holding b) p _ h refl

  can_report :
      (i : ℕ) (b : List Task) (err : Option TmError) (p : Pipeline R)
      → get_elem? p.workers i ≡ some (called b err)
      → CanGo p
  unfolding worker_step
  can_report i b err p h = can_work i (called b err) p _ h refl

  -- One of the workers from `i` on can go on, or they hold nothing.
  pub can_any :
      (ks : List Worker) (i : ℕ) (p : Pipeline R)
      → ((j : ℕ) (k : Worker) → get_elem? ks j ≡ some k → get_elem? p.workers (i + j) ≡ some k)
      → CanGo p ⊎ ((f : Task → Bool) → in_hands f ks ≡ 0)
  can_any [] i p h = inr (λ f. refl)
  can_any (holding b ∷ ks) i p h = inl (can_confirm (i + 0) b p (h 0 (holding b) refl))
  can_any (called b err ∷ ks) i p h = inl (can_report (i + 0) b err p (h 0 (called b err) refl))
  can_any (receiving ∷ ks) i p h =
      elim (can_any ks (suc i) p
        (λ j k e. subst (λ m. get_elem? p.workers m ≡ some k) (omega arith) (h (suc j) k e))) [
          | inl c ↦ inl c
          | inr z ↦ inr (λ f. omega (arith, z f))
        ]

  -- A batch in the channel is received by the first worker, unless that one can go on anyway.
  pub can_receive :
      (ks : List Worker) (b : List Task) (bs : List (List Task)) (p : Pipeline R)
      → p.workers ≡ ks
      → 0 < length ks
      → p.channel ≡ b ∷ bs
      → CanGo p
  unfolding worker_step take_batch
  can_receive [] b bs p w l e = absurd (omega arith)
  can_receive (holding c ∷ ks) b bs p w l e = can_confirm 0 c p (rw w refl)
  can_receive (called c err ∷ ks) b bs p w l e = can_report 0 c err p (rw w refl)
  can_receive (receiving ∷ ks) b bs p w l e =
      can_work 0 receiving p (holding b, record p { channel = bs }) (rw w refl) (rw e refl)
