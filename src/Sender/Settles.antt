-- ===== src/Sender/Settles.antt =====
-- The sender goes on until the tasks that it has received are settled.
use triggerhook.Base.{
  ℕ, suc, ◌+◌, ◌<◌, ◌≤◌, ◌⊎◌, pos_part, List, [], ◌∷◌, Bool, true, false, some, inl, inr, length,
  get_elem?, ◌≡◌, refl, sym, ap, subst, arith,
}
use triggerhook.Domain.{Task}
use triggerhook.Contracts.{all}
use triggerhook.TaskManager.Interface.{World}
use triggerhook.TaskManager.Operations.{TaskManager}
use triggerhook.TaskManager.Laws.{RepositoryLaws}
use triggerhook.Preloader.Shares.{count}
use triggerhook.Sender.Queue.{pop}
use triggerhook.Sender.Sizes.{flatten}
use triggerhook.Sender.Batcher.{
  finish, signal, hand_over, collect_step, send_step, step, Collector, collecting, done, pushed,
  Sender, popping, waiting, expire, collect, send,
}
use triggerhook.Sender.Batches.{IsAwaited, sender-IsAwaited}
use triggerhook.Sender.Pipeline.{
  Pipeline, Act, measures, is_measured, can_send, is_allowed, measuring, act, Reach, after,
}
use triggerhook.Sender.Hands.{in_hands}
use triggerhook.Sender.Accounted.{Reach-Accounted, run-Accounted}
use triggerhook.Sender.Work.{goes_on, work}
use triggerhook.Sender.Spent.{act-less}
use triggerhook.Sender.Going.{CanGo, can_go, can_batch, can_any, can_receive}
use triggerhook.Sender.Staff.{Reach-workers}

-- Every task received is in a batch that ConfirmExecution has returned for.
pub record Settled {R : Type 0} (p : Pipeline R) : Type 0 where
  pub all_returned :
      (f : Task → Bool)
      → count f p.batcher.received ≡ count f (flatten p.confirmed) + count f (flatten p.failed)
  pub measured : p.unmeasured ≡ []

-- Nothing is on its way.
record Drained {R : Type 0} (p : Pipeline R) : Type 0 where
  batch : p.batcher.batch ≡ []
  queue : p.batcher.queue.queue ≡ []
  channel : p.channel ≡ []
  hands : (f : Task → Bool) → in_hands f p.workers ≡ 0
  measured : p.unmeasured ≡ []

module _ {R C : Type 0} (s : TaskManager R C) (max : ℕ) where
  -- A number of steps that go on with what is there.
  pub data GoesOn : ℕ → Pipeline R → Pipeline R → Type 0 where
    stays : {p : Pipeline R} → GoesOn 0 p p
    goes :
        {k : ℕ} {p p' p'' : Pipeline R} (a : Act)
        → goes_on a p ≡ true
        → act s max a p ≡ some p'
        → GoesOn k p' p''
        → GoesOn (suc k) p p''

  GoesOn-work : {k : ℕ} {p p' : Pipeline R} → GoesOn k p p' → k ≤ work p
  GoesOn-work stays = omega arith
  GoesOn-work (goes {p = p} a g q r) =
      let l = act-less s max a p g q in let h = GoesOn-work r in omega (arith, l, h)

  GoesOn-Reach :
      {n k : ℕ} {w : World R} {p p' : Pipeline R}
      → Reach s max n w p
      → GoesOn k p p'
      → Reach s max n w p'
  GoesOn-Reach r stays = r
  GoesOn-Reach r (goes a g q h) = GoesOn-Reach (after a r q) h

  -- The goroutine that hands over, when the channel is empty.
  hands_over :
      (k : Sender) (u : Bool) (p : Pipeline R)
      → p.batcher.sender ≡ k
      → p.batcher.update_queue ≡ u
      → p.batcher.collector ≡ collecting
      → p.channel ≡ []
      → (p.batcher.sender ≡ waiting → IsAwaited p.batcher)
      → CanGo s max p ⊎ (p.batcher.queue.queue ≡ [])
  unfolding is_allowed can_send step send_step goes_on
  hands_over popping u p k e c h a = inl (
      can_batch s max send p (hand_over (pop p.batcher.queue) p.batcher) refl (rw (k, h) refl)
        (rw k refl))
  hands_over waiting true p k e c h a = inl (
      can_batch s max send p (record p.batcher { sender = popping; update_queue = false }) refl
        (rw k refl) (rw (k, e) refl))
  hands_over waiting false p k e c h a = elim (a k) [
    | inl q ↦ inr q
    | inr (inl q) ↦ cc (e, q)
    | inr (inr q) ↦ cc (c, q)
  ]

  confirms :
      (bs : List (List Task)) (p : Pipeline R)
      → p.channel ≡ bs
      → p.batcher.collector ≡ collecting
      → p.batcher.batch ≡ []
      → p.unmeasured ≡ []
      → 0 < length p.workers
      → ((f : Task → Bool) → in_hands f p.workers ≡ 0)
      → (p.batcher.sender ≡ waiting → IsAwaited p.batcher)
      → CanGo s max p ⊎ Drained p
  confirms (b ∷ bs) p h c e m l z a = inl (can_receive s max p.workers b bs p refl l h)
  confirms [] p h c e m l z a =
      elim (hands_over p.batcher.sender p.batcher.update_queue p refl refl c h a) [
        | inl g ↦ inl g
        | inr q ↦ inr (record { batch = e; queue = q; channel = h; hands = z; measured = m })
      ]

  collects :
      (c : Collector) (batch before : List Task) (p : Pipeline R)
      → p.batcher.collector ≡ c
      → p.batcher.batch ≡ batch
      → p.unmeasured ≡ before
      → 0 < length p.workers
      → (p.batcher.sender ≡ waiting → IsAwaited p.batcher)
      → CanGo s max p ⊎ Drained p
  unfolding is_allowed is_measured step collect_step goes_on act measuring
  collects done batch before p c e m l a =
      inl (can_batch s max collect p (finish p.batcher.batch p.batcher) refl refl (rw c refl))
  collects pushed batch before p c e m l a =
      inl (can_batch s max collect p (signal p.batcher) refl refl (rw c refl))
  collects collecting batch (t ∷ ts) p c e m l a =
      let r : act s max measures p ≡ measuring s collecting (t ∷ ts) p = rw (c, m) refl in
      inl (can_go s max measures p refl (λ n. cc (r, n)))
  collects collecting (t ∷ ts) [] p c e m l a = inl (
      can_batch s max expire p (record p.batcher { collector = done }) (rw e refl) (rw m refl)
        (rw c refl))
  collects collecting [] [] p c e m l a =
      elim (can_any s max p.workers 0 p
        (λ j k q. subst (λ i. get_elem? p.workers i ≡ some k) (omega arith) q)) [
          | inl g ↦ inl g
          | inr z ↦ confirms p.channel p refl c e m l z a
        ]

  module _ (laws : RepositoryLaws (s.repository)) (tries : 0 < pos_part (s.max_retry))
      (known : s.known all ≡ true) where
    Drained-Settled :
        {n : ℕ} {w : World R} {p : Pipeline R} → 0 < max → Reach s max n w p → Drained p → Settled p
    unfolding flatten
    Drained-Settled {p = p} m r d = record {
      all_returned = λ f.
          let a = (run-Accounted s laws tries known f m r).0 in
          let q = ap (λ q. count f (flatten q)) d.queue in
          let b = ap (count f) d.batch in
          let c = ap (λ q. count f (flatten q)) d.channel in omega (arith, a, q, b, c, d.hands f);
      measured = d.measured;
    }

    -- If the repository rolls back the calls that fail and otherwise stores and deletes what it is
    -- asked to, MaxRetry is positive and the topic of all tasks is initialized, then with a
    -- positive BatchMaxItems and at least one confirmation worker: from every state that Run of
    -- the sender reaches, its goroutines, however they interleave, make only a bounded number of
    -- steps while no further task arrives and no timer of an empty batch expires; and then either
    -- another such step is possible, or every task received is in a batch that ConfirmExecution
    -- has returned for and every pushed batch is measured.
    pub run-Settles :
        {n k : ℕ} {w : World R} {p p' : Pipeline R}
        → 0 < max
        → 0 < n
        → Reach s max n w p
        → GoesOn k p p'
        → (k ≤ work p) × (CanGo s max p' ⊎ Settled p')
    run-Settles {p' = p'} m l r g =
        let r' = GoesOn-Reach r g in
        let a = Reach-Accounted s laws tries known r' in
        let b =
          collects p'.batcher.collector p'.batcher.batch p'.unmeasured p' refl refl refl
            (subst (λ n. 0 < n) (sym (Reach-workers s r')) l) (sender-IsAwaited m a.reached) in
        (GoesOn-work g, elim b [ inl c ↦ inl c | inr d ↦ inr (Drained-Settled m r' d) ])
