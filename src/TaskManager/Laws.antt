-- ===== src/TaskManager/Laws.antt =====
-- What the task manager relies on in its repository, in terms of the tasks that are stored: a call
-- that fails has rolled back, and one that succeeds has stored or deleted what it was asked to.
use triggerhook.Base.{
  ◌-◌, ◌<◌, ◌^◌, ℤ, pos, String, str_eq, Bool, false, ◌||◌, List, [], ◌∷◌, none, some, ◌≡◌, length,
  if◌then◌else◌,
}
use triggerhook.Domain.{Task}
use triggerhook.Contracts.Errors.{RepoError}
use triggerhook.TaskManager.Interface.{Repository}

-- The id of a task stands among those of `tasks`.
unfoldable pub is_named : String → List Task → Bool
is_named id [] = false
is_named id (task ∷ tasks) = str_eq task.id id || is_named id tasks

-- The stored tasks without those named.
unfoldable pub without : List Task → List Task → List Task
unfolding is_named
without tasks [] = []
without tasks (task ∷ rest) =
    if is_named task.id tasks then without tasks rest else task ∷ without tasks rest

pub record RepositoryLaws {R C : Type 0} (repository : Repository R C) : Type 0 where
  pub contents : R → List Task
  pub contents_fit : (r : R) → length (contents r) < 2 ^ 63
  pub create_rolls_back :
      (task : Task) (is_taken : Bool) (r : R) (e : RepoError)
      → (repository.create task is_taken r).0 ≡ some e
      → contents (repository.create task is_taken r).1 ≡ contents r
  pub create_stores :
      (task : Task) (is_taken : Bool) (r : R)
      → (repository.create task is_taken r).0 ≡ none
      → contents (repository.create task is_taken r).1 ≡ task ∷ contents r
  pub delete_rolls_back :
      (tasks : List Task) (r : R) (e : RepoError)
      → (repository.delete tasks r).1 ≡ some e
      → contents (repository.delete tasks r).2 ≡ contents r
  pub delete_removes :
      (tasks : List Task) (r : R)
      → (repository.delete tasks r).1 ≡ none
      → contents (repository.delete tasks r).2 ≡ without tasks (contents r)
  pub delete_affects :
      (tasks : List Task) (r : R)
      → (repository.delete tasks r).1 ≡ none
      → (repository.delete tasks r).0
        ≡ pos (length (contents r) - length (without tasks (contents r)))
  pub find_keeps :
      (range : ℤ) (r : R) → contents (repository.find_by_sec_to_exec_time range r).2 ≡ contents r
