-- ===== src/TaskManager/Settled.antt =====
-- How a retry ends for a callback that changes nothing when it fails.
use triggerhook.Base.{
  ℕ, suc, ◌<◌, ℤ, pos_part, List, ◌≡◌, refl, subst, none, some, inl, inr, ◌⊎◌, ◌∙◌, ap, Bool-cases,
  ◌==◌,
}
use triggerhook.Domain.{Task}
use triggerhook.Contracts.Errors.{RepoError}
use triggerhook.TaskManager.Interface.{World}
use triggerhook.TaskManager.Retry.{Try, retry, note_failure}
use triggerhook.TaskManager.Attempts.{Attempts, succeeded, refused, exhausted, again, retry-Tried}

module _ {R : Type 0} (contents : R → List Task) where
  -- Two worlds that differ at most in the events reported and the sleeps.
  pub record Same (w v : World R) : Type 0 where
    pub repo : contents w.repo ≡ contents v.repo
    pub published : w.published ≡ v.published

  pub note-Same : (left : ℕ) (e : RepoError) (w : World R) → Same (note_failure left e w) w
  unfolding note_failure
  note-Same left e w = elim (Bool-cases (left == 0)) [
    | inl b ↦ rw (note_failure, b) (record { repo = refl; published = refl })
    | inr b ↦ rw (note_failure, b) (record { repo = refl; published = refl })
  ]

  Same-trans : {u v w : World R} → Same u v → Same v w → Same u w
  Same-trans s t = record { repo = s.repo ∙ t.repo; published = s.published ∙ t.published }

module _ {R A : Type 0} (contents : R → List Task) (callback : World R → Try R A) where
  -- A callback that leaves the repository and the measurements as they were when it fails.
  abbrev pub RollsBack : Type 0
  RollsBack =
      (w : World R) (e : RepoError) → (callback w).1 ≡ some e → Same contents (callback w).2 w

  -- The end of a retry: a try from an unchanged repository that succeeded, or an error and
  -- nothing changed.
  abbrev pub Settled : World R → Try R A → Type 0
  Settled w r =
      (((v : World R) × Same contents v w × (callback v ≡ r) × (r.1 ≡ none)))
      ⊎ ((e : RepoError) × (r.1 ≡ some e) × Same contents r.2 w)

  Attempts-Settled :
      RollsBack
      → (retryable : List RepoError) {left n : ℕ} {w : World R} {r : Try R A}
      → Attempts callback retryable left w n r
      → Settled w r
  Attempts-Settled back retryable (succeeded {w = w} eq) =
      inl (w, record { repo = refl; published = refl }, eq, refl)
  Attempts-Settled back retryable (refused {w = w} {e = e} eq b) =
      inr (e, refl, subst (λ t. Same contents t.2 w) eq (back w e (ap (λ t. t.1) eq)))
  Attempts-Settled back retryable (exhausted {w = w} {w' = w'} {e = e} eq b) = inr (
    e,
    refl,
    Same-trans contents (note-Same contents 0 e w')
        (subst (λ t. Same contents t.2 w) eq (back w e (ap (λ t. t.1) eq))),
  )
  Attempts-Settled back retryable (again {left = left} {w = w} {w' = w'} {e = e} eq b h) =
      let first =
        Same-trans contents (note-Same contents (suc left) e w')
          (subst (λ t. Same contents t.2 w) eq (back w e (ap (λ t. t.1) eq))) in
      elim (Attempts-Settled back retryable h) [
        | inl (v, s, q, n) ↦ inl (v, Same-trans contents s first, q, n)
        | inr (e', q, s) ↦ inr (e', q, Same-trans contents s first)
      ]

  pub retry-Settled :
      RollsBack
      → (retryable : List RepoError) (max_retry : ℤ) → 0 < pos_part max_retry
      → (a : A) (w : World R) → Settled w (retry callback retryable max_retry a w)
  retry-Settled back retryable max_retry p a w =
      Attempts-Settled back retryable (retry-Tried callback retryable max_retry p a w).attempts
