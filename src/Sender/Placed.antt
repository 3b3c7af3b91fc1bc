-- ===== src/Sender/Placed.antt =====
-- What a pipeline keeps of its tasks, and that the batcher and its measurement keep it.
use triggerhook.Base.{
  ℕ, ◌+◌, List, [], ◌∷◌, Bool, Bool-cases, Option, none, some, inl, inr, ℤ, ◌≡◌, refl, sym, ap,
  subst, ◌∙◌, arith,
}
use triggerhook.Domain.{Task}
use triggerhook.Contracts.{Topic}
use triggerhook.Contracts.Errors.{TmError}
use triggerhook.TaskManager.Interface.{World, publish}
use triggerhook.TaskManager.Operations.{TaskManager}
use triggerhook.Preloader.Shares.{count}
use triggerhook.Sender.Sizes.{flatten}
use triggerhook.Sender.Batcher.{Batcher, Collector, collecting, done, pushed, Event, at_start, step}
use triggerhook.Sender.Batcher as Batching
use triggerhook.Sender.Confirmation.{batch_confirmed}
use triggerhook.Sender.Pipeline.{Pipeline, sent, put_batcher, batching, is_allowed, measuring}
use triggerhook.Sender.Hands.{in_hands, some_inj, count-flatten}
use triggerhook.Sender.Flow.{step-Passed}

-- The tasks that are settled, in hand and in the channel.
abbrev pub placed : {R : Type 0} → (Task → Bool) → Pipeline R → ℕ
placed f p =
    count f (flatten p.confirmed)
    + count f (flatten p.failed)
    + in_hands f p.workers
    + count f (flatten p.channel)

-- `Stored` relates the batches confirmed to the repository.
module _ {R C : Type 0} (s : TaskManager R C) (Stored : List (List Task) → R → Type 0) where
  -- What a pipeline keeps.
  pub record Accounted (max : ℕ) (p : Pipeline R) : Type 0 where
    pub reached : Batching.Reach max p.batcher
    pub shared : (f : Task → Bool) → count f (flatten p.batcher.handed_over) ≡ placed f p
    pub removed : Stored p.confirmed p.world.repo

  repo-publish : (topic : Topic) (n : ℤ) (w : World R) → (publish s.known topic n w).repo ≡ w.repo
  unfolding publish
  repo-publish topic n w = elim (Bool-cases (s.known topic)) [
    | inl b ↦ rw b refl
    | inr b ↦ rw b refl
  ]

  pub repo-batch_confirmed :
      (batch : List Task) (err : Option TmError) (w : World R)
      → (batch_confirmed s batch (err, w)).repo ≡ w.repo
  unfolding batch_confirmed
  repo-batch_confirmed batch none w = repo-publish _ _ _ ∙ repo-publish _ _ _
  repo-batch_confirmed batch (some e) w = repo-publish _ _ _ ∙ repo-publish _ _ _

  put_batcher-Accounted :
      {max : ℕ} (e : Event) (p : Pipeline R) (o : Option Batcher) {p' : Pipeline R}
      → step max e p.batcher ≡ o
      → put_batcher e p o ≡ some p'
      → Accounted max p
      → Accounted max p'
  unfolding put_batcher
  put_batcher-Accounted e p none h q a = cc q
  put_batcher-Accounted {max} e p (some b) h q a = subst (Accounted max) (some_inj q) (record {
    reached = Batching.after e a.reached h;
    shared = λ f.
        let k = ap (λ bs. count f (flatten bs)) (step-Passed max e p.batcher h).handed_over in
        let l = count-flatten f p.batcher.handed_over (sent e p.batcher) in
        let r = count-flatten f p.channel (sent e p.batcher) in omega (arith, k, l, r, a.shared f);
    removed = a.removed;
  })

  pub batching-Accounted :
      {max : ℕ} (e : Event) (p : Pipeline R) {p' : Pipeline R}
      → batching max e p ≡ some p'
      → Accounted max p
      → Accounted max p'
  unfolding batching
  batching-Accounted {max} e p q a = elim (Bool-cases (is_allowed e p)) [
    | inl b ↦ put_batcher-Accounted e p (step max e p.batcher) refl (sym (rw b refl) ∙ q) a
    | inr b ↦ cc (b, q)
  ]

  pub measuring-Accounted :
      {max : ℕ} (c : Collector) (batch : List Task) (p : Pipeline R) {p' : Pipeline R}
      → measuring s c batch p ≡ some p'
      → Accounted max p
      → Accounted max p'
  unfolding measuring
  measuring-Accounted {max} collecting (t ∷ ts) p q a = subst (Accounted max) (some_inj q) (record {
    reached = a.reached;
    shared = a.shared;
    removed = subst (Stored p.confirmed) (sym (repo-publish _ _ p.world)) a.removed;
  })
  measuring-Accounted collecting [] p q a = cc q
  measuring-Accounted done batch p q a = cc q
  measuring-Accounted pushed batch p q a = cc q
