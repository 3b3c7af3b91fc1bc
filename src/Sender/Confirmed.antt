-- ===== src/Sender/Confirmed.antt =====
-- What a confirmation worker leaves of a batch.
use triggerhook.Base.{
  ◌-◌, ◌≤◌, suc, Bool, false, ◌-ℤ◌, ℤ, pos, int64, String, List, [], ◌∷◌, ◌++◌, true, if◌then◌else◌,
  length, ◌≡◌, refl, ap, arith,
}
use triggerhook.Domain.{Task}
use triggerhook.Contracts.{
  Level, fatal, debug, Topic, all, waiting_for_confirmation, confirmation_rate,
}
use triggerhook.Contracts.Errors.{TmError, tm_text}
use triggerhook.TaskManager.Interface.{World}
use triggerhook.TaskManager.Operations.{TaskManager}
use triggerhook.TaskManager.Laws.{without, is_named}
use triggerhook.TaskManager.Accounting.{length-without}
use triggerhook.TaskManager.Atomic.{gone}

-- The measurements of a batch that is no longer waiting.
abbrev pub measured : List Task → List (Topic × ℤ)
measured batch =
    (waiting_for_confirmation, int64 (pos 0 -ℤ pos (length batch)))
    ∷ (confirmation_rate, pos (length batch))
    ∷ []

-- The tasks of a batch are no longer stored; or they all are, and a fatal event has been reported.
pub data Confirmed {R : Type 0} (contents : R → List Task) (batch : List Task) (w : World R)
    : World R → Type 0 where
  all_gone :
      {w' : World R} (n : ℤ)
      → contents w'.repo ≡ without batch (contents w.repo)
      → w'.published ≡ w.published ++ (all, n) ∷ measured batch
      → Confirmed contents batch w w'
  refused :
      {w' : World R} (e : TmError) (before : List (Level × String))
      → contents w'.repo ≡ contents w.repo
      → w'.reported ≡ before ++ (fatal, tm_text e) ∷ (debug, "confirmed tasks") ∷ []
      → w'.published ≡ w.published ++ measured batch
      → Confirmed contents batch w w'

kept_head :
    (b : Bool) (t : Task) (rest kept : List Task)
    → length kept ≤ length rest
    → suc (length rest) - length (if b then kept else t ∷ kept) ≡ 0
    → (length rest - length kept ≡ 0 → kept ≡ rest)
    → (if b then kept else t ∷ kept) ≡ t ∷ rest
kept_head true t rest kept le e k = absurd (omega arith)
kept_head false t rest kept le e k = ap (λ l. t ∷ l) (k (omega arith))

pub without_same :
    (tasks stored : List Task) → gone tasks stored ≡ 0 → without tasks stored ≡ stored
unfolding without
without_same tasks [] e = refl
without_same tasks (t ∷ rest) e =
    kept_head (is_named t.id tasks) t rest (without tasks rest) (length-without tasks rest) e
      (without_same tasks rest)
