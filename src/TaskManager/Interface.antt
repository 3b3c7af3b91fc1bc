-- ===== src/TaskManager/Interface.antt =====
-- What the task manager calls: the repository, the monitoring and the event handler.
use triggerhook.Base.{ℕ, ◌+◌, ℤ, String, List, [], ◌∷◌, ◌++◌, Bool, Option, if◌then◌else◌}
use triggerhook.Domain.{Task}
use triggerhook.Contracts.{Level, error, Topic}
use triggerhook.Contracts.Errors.{RepoError}

-- contracts.RepositoryInterface, for a repository with the state `R` and collections `C`. A call
-- returns its results and the new state; `none` is a nil error.
pub record Repository (R C : Type 0) : Type 0 where
  pub create : Task → Bool → R → Option RepoError × R
  pub delete : List Task → R → ℤ × Option RepoError × R
  pub find_by_sec_to_exec_time : ℤ → R → Option C × Option RepoError × R

-- The repository with what the task manager has told the others: events, measurements, and how
-- often it slept between two tries.
pub record World (R : Type 0) : Type 0 where
  pub repo : R
  pub reported : List (Level × String)
  pub published : List (Topic × ℤ)
  pub slept : ℕ

module _ {R : Type 0} where
  -- `s.eh.New(level, message, ...)`
  abbrev pub report : Level → String → World R → World R
  report level message w = record w { reported = w.reported ++ (level, message) ∷ [] }

  abbrev pub sleep : World R → World R
  sleep w = record w { slept = w.slept + 1 }

  -- `s.monitoring.Publish`, whose error is reported. `known` says which topics are initialized.
  unfoldable pub publish : (Topic → Bool) → Topic → ℤ → World R → World R
  publish known topic n w =
      if known topic
      then record w { published = w.published ++ (topic, n) ∷ [] }
      else report error "the topic is not initialized" w
