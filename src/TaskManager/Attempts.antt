-- ===== src/TaskManager/Attempts.antt =====
-- The tries that retry makes of its callback.
use triggerhook.Base.{
  ◌<◌, ℕ, zero, suc, ◌≤◌, ℤ, pos, negsuc, pos_part, List, true, false, Option, none, some, ◌≡◌,
  refl, arith, Bool-cases, Option-cases, inl, inr, sym,
}
use triggerhook.Contracts.Errors.{RepoError}
use triggerhook.TaskManager.Interface.{World}
use triggerhook.TaskManager.Retry.{Try, contains, note_failure, retry_loop, retry}

module _ {R A : Type 0} (callback : World R → Try R A) (retryable : List RepoError) where
  -- `Attempts left w n r`: with `left` tries left, `n` tries from the world `w` on end in `r`.
  -- All but the last have failed with a retryable error, which is noted before the next; the last
  -- has succeeded, has failed with an error not retryable, or was the last that was left.
  pub data Attempts : ℕ → World R → ℕ → Try R A → Type 0 where
    succeeded :
        {left : ℕ} {w w' : World R} {a : A}
        → callback w ≡ (a, none, w')
        → Attempts (suc left) w 1 (a, none, w')
    refused :
        {left : ℕ} {w w' : World R} {a : A} {e : RepoError}
        → callback w ≡ (a, some e, w')
        → contains retryable e ≡ false
        → Attempts (suc left) w 1 (a, some e, w')
    exhausted :
        {w w' : World R} {a : A} {e : RepoError}
        → callback w ≡ (a, some e, w')
        → contains retryable e ≡ true
        → Attempts 1 w 1 (a, some e, note_failure 0 e w')
    again :
        {left n : ℕ} {w w' : World R} {a : A} {e : RepoError} {r : Try R A}
        → callback w ≡ (a, some e, w')
        → contains retryable e ≡ true
        → Attempts (suc left) (note_failure (suc left) e w') n r
        → Attempts (suc (suc left)) w (suc n) r

  -- The value, the error and the world that a run of tries ends in, with their number.
  pub record Tried (left : ℕ) (w : World R) (r : Try R A) : Type 0 where
    pub count : ℕ
    pub attempts : Attempts left w count r

  pub Attempts-count :
      {left n : ℕ} {w : World R} {r : Try R A} → Attempts left w n r → (1 ≤ n) × (n ≤ left)
  Attempts-count (succeeded e) = (omega arith, omega arith)
  Attempts-count (refused e b) = (omega arith, omega arith)
  Attempts-count (exhausted e b) = (omega arith, omega arith)
  Attempts-count (again e b h) = let (l, m) = Attempts-count h in (omega arith, omega arith)

  pub callback_eq :
      {w : World R} {o : Option RepoError}
      → (callback w).1 ≡ o
      → callback w ≡ ((callback w).0, o, (callback w).2)
  callback_eq h = rw (sym h) refl

  -- One turn of the loop, given what follows a retryable failure.
  turn :
      (left : ℕ) (a : A) (err : Option RepoError) (w : World R)
      → ((e : RepoError)
          → (callback w).1 ≡ some e
          → contains retryable e ≡ true
          → Tried (suc left) w (
              retry_loop callback retryable left
                (callback w).0
                (some e)
                (note_failure left e (callback w).2)))
      → Tried (suc left) w (retry_loop callback retryable (suc left) a err w)
  unfolding retry_loop
  turn left a err w follow = elim (Option-cases (callback w).1) [
    | inl h ↦ rw (retry_loop, h) (record { count = 1; attempts = succeeded (callback_eq h) })
    | inr (e, h) ↦ elim (Bool-cases (contains retryable e)) [
      | inl b ↦ rw (retry_loop, h, b) (follow e h b)
      | inr b ↦ rw (retry_loop, h, b) (record { count = 1; attempts = refused (callback_eq h) b })
    ]
  ]

  pub retry_loop-Tried :
      (left : ℕ) (a : A) (err : Option RepoError) (w : World R)
      → Tried (suc left) w (retry_loop callback retryable (suc left) a err w)
  unfolding retry_loop
  retry_loop-Tried zero a err w =
      turn 0 a err w (λ e h b. record { count = 1; attempts = exhausted (callback_eq h) b })
  retry_loop-Tried (suc left) a err w = turn (suc left) a err w (λ e h b.
      let rest =
        retry_loop-Tried left (callback w).0 (some e) (note_failure (suc left) e (callback w).2) in
      record { count = suc rest.count; attempts = again (callback_eq h) b rest.attempts })

  -- With a positive MaxRetry, retry ends after at least one and at most MaxRetry tries in the
  -- result of its last try: every try before it failed with a retryable error, which was reported
  -- and slept on, and the last one succeeded, failed with an error that is not retryable, or was
  -- the last allowed.
  pub retry-Tried :
      (max_retry : ℤ)
      → 0 < pos_part max_retry
      → (a : A) (w : World R)
      → Tried (pos_part max_retry) w (retry callback retryable max_retry a w)
  unfolding retry
  retry-Tried (pos (suc n)) p a w = retry_loop-Tried n a none w
  retry-Tried (pos zero) p a w = absurd (omega arith)
  retry-Tried (negsuc n) p a w = absurd (omega arith)
