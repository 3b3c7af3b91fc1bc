-- ===== src/TaskManager/Retry.antt =====
-- task_manager.go, retry.
use triggerhook.Base.{
  ℕ, zero, suc, ℤ, pos_part, List, [], ◌∷◌, Bool, false, ◌||◌, Option, none, some, ◌==◌,
  if◌then◌else◌,
}
use triggerhook.Contracts.{error}
use triggerhook.Contracts.Errors.{RepoError, repo_text, same_error}
use triggerhook.TaskManager.Interface.{World, report, sleep}

-- util.Contains
unfoldable pub contains : List RepoError → RepoError → Bool
contains [] e = false
contains (a ∷ s) e = same_error a e || contains s e

-- What a try gives: the value that the callback assigns, its error, and the world after it.
abbrev pub Try : Type 0 → Type 0 → Type 0
Try R A = A × Option RepoError × World R

-- The report of a failed try, and the sleep that follows all but the last.
unfoldable pub note_failure : {R : Type 0} → ℕ → RepoError → World R → World R
note_failure left e w = let w' = report error (repo_text e) w in if left == 0 then w' else sleep w'

-- The loop with `left` tries left and `value` and `err` assigned by the tries before.
unfoldable pub retry_loop :
    {R A : Type 0}
    → (World R → Try R A)
    → List RepoError
    → ℕ
    → A
    → Option RepoError
    → World R
    → Try R A
unfolding contains note_failure
retry_loop callback retryable zero value err w = (value, err, w)
retry_loop callback retryable (suc left) value err w =
    let (value', err', w') = callback w in
    elim err' [
      | none ↦ (value', none, w')
      | some e ↦
          let again = retry_loop callback retryable left value' (some e) (note_failure left e w') in
          if contains retryable e then again else (value', some e, w')
    ]

-- `maxRetry` is an int: a negative one makes no try, and the nil error is returned.
unfoldable pub retry :
    {R A : Type 0} → (World R → Try R A) → List RepoError → ℤ → A → World R → Try R A
unfolding retry_loop
retry callback retryable max_retry value w =
    retry_loop callback retryable (pos_part max_retry) value none w
