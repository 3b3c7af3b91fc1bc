-- ===== src/Sender/Lending.antt =====
-- How often a handle is processed, and what happens to one that is used after it was put back.
use triggerhook.Base.{
  ℕ, ◌==◌, List, [], ◌∷◌, ◌++◌, true, false, Bool-cases, inl, inr, ◌≡◌, refl, ap, ◌∙◌, arith,
}
use triggerhook.Domain.{Task}
use triggerhook.Sender.Handles.{Handles, get, consume, confirm, rollback}

-- A call of a method of a handle.
pub data Use : Type 0 where
  confirms rolls_back : Use

unfoldable pub use_handle : ℕ → Use → Handles → Handles
unfolding confirm rollback
use_handle h confirms s = confirm h s
use_handle h rolls_back s = rollback h s

unfoldable pub uses : ℕ → List Use → Handles → Handles
unfolding use_handle
uses h [] s = s
uses h (u ∷ rest) s = uses h rest (use_handle h u s)

same_address : (h : ℕ) → (h == h) ≡ true
same_address h = ground arith

use_processed :
    (h : ℕ) (u : Use) (s : Handles) → (s.store h).is_processed ≡ true → use_handle h u s ≡ s
unfolding use_handle confirm rollback
use_processed h confirms s e = rw e refl
use_processed h rolls_back s e = rw e refl

uses_processed :
    (h : ℕ) (us : List Use) (s : Handles) → (s.store h).is_processed ≡ true → uses h us s ≡ s
unfolding uses
uses_processed h [] s e = refl
uses_processed h (u ∷ rest) s e =
    ap (uses h rest) (use_processed h u s e) ∙ uses_processed h rest s e

processed_after : (h : ℕ) (u : Use) (s : Handles) → ((use_handle h u s).store h).is_processed ≡ true
unfolding use_handle confirm rollback
processed_after h confirms s = elim (Bool-cases ((s.store h).is_processed)) [
  | inl e ↦ rw (e) e
  | inr e ↦ rw (e, same_address h) refl
]
processed_after h rolls_back s = elim (Bool-cases ((s.store h).is_processed)) [
  | inl e ↦ rw (e) e
  | inr e ↦ rw (e, same_address h) refl
]

pub use_handle-once :
    (h : ℕ) (u : Use) (us : List Use) (s : Handles)
    → uses h us (use_handle h u s) ≡ use_handle h u s
use_handle-once h u us s = uses_processed h us (use_handle h u s) (processed_after h u s)

-- The states of a handle that is rolled back, lent again for `task`, and confirmed by its first holder.
pub record Stolen (h : ℕ) (task : Task) (s : Handles) : Type 0 where
  pub lent : (consume task (rollback h s)).0 ≡ h
  pub confirmed : (confirm h (consume task (rollback h s)).1).confirmed ≡ s.confirmed ++ task ∷ []
  pub rolled_back :
      (confirm h (consume task (rollback h s)).1).rolled_back
      ≡ s.rolled_back ++ (s.store h).task ∷ []
  pub later :
      rollback h (confirm h (consume task (rollback h s)).1)
      ≡ confirm h (consume task (rollback h s)).1

-- If a handle that is not processed is rolled back, Consume then lends the same handle for another
-- task, and the first holder calls Confirm on it, then that other task is confirmed, the first one
-- has been rolled back, and a later Rollback of the second holder has no effect.
pub rollback-Stolen :
    (h : ℕ) (task : Task) (s : Handles) → (s.store h).is_processed ≡ false → Stolen h task s
unfolding consume rollback confirm get uses use_handle
rollback-Stolen h task s e = record {
  lent = rw (e) refl;
  confirmed = rw (e, same_address h) refl;
  rolled_back = rw (e, same_address h) refl;
  later = use_handle-once h confirms (rolls_back ∷ []) ((consume task (rollback h s)).1);
}
