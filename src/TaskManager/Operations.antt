-- ===== src/TaskManager/Operations.antt =====
-- task_manager.go: Create, Delete, GetTasksToComplete and ConfirmExecution.
use triggerhook.Base.{
  ◌||◌, ℤ, pos, ◌-ℤ◌, ltb_ℤ, String, str_eq, List, [], ◌∷◌, Bool, Option, none, some, if◌then◌else◌,
  int_eq, int64,
}
use triggerhook.Domain.{Task}
use triggerhook.Contracts.{error, debug, all, Topic}
use triggerhook.Contracts.Errors.{
  same_error, TmError, repo_text, task_exist, deadlock, lock_wait_timeout, no_tasks_found,
  creating_tasks, uuid_is_not_correct, get_tasks, collections_not_found, deleting_task,
  task_not_found, confirmation_tasks,
}
use triggerhook.TaskManager.Interface.{Repository, World, report, publish}
use triggerhook.TaskManager.Retry.{Try, retry}

-- The taskManager, with what it finds around it: which topics are initialized, `util.IsIdValid`.
pub record TaskManager (R C : Type 0) : Type 0 where
  pub repository : Repository R C
  pub max_retry : ℤ
  pub known : Topic → Bool
  pub is_id_valid : String → Bool

-- The task with its time moved up to now, and with an id of `util.NewId` if it has none.
unfoldable pub prepared : ℤ → String → Task → Task
prepared now new_id task =
    let exec_time = if ltb_ℤ task.exec_time now then now else task.exec_time in
    let id = if str_eq task.id "" then new_id else task.id in
    record task { exec_time = exec_time; id = id }

module _ {R C : Type 0} (s : TaskManager R C) where
  -- `s.repository.Create`, as the callback of a retry; it assigns nothing.
  unfoldable pub try_create : Task → Bool → World R → Try R (Unit {0})
  try_create task is_taken w =
      let (err, r) = s.repository.create task is_taken w.repo in (tt, err, record w { repo = r })

  -- `s.repository.Delete`, as the callback of a retry, which assigns `affected`.
  unfoldable pub try_delete : List Task → World R → Try R ℤ
  try_delete tasks w =
      let (affected, err, r) = s.repository.delete tasks w.repo in
      (affected, err, record w { repo = r })

  -- `s.repository.FindBySecToExecTime`, as the callback of a retry, which assigns `collections`.
  unfoldable pub try_find : ℤ → World R → Try R (Option C)
  try_find range w =
      let (found, err, r) = s.repository.find_by_sec_to_exec_time range w.repo in
      (found, err, record w { repo = r })

  -- Create, after its retry.
  unfoldable pub created : Try R (Unit {0}) → Option TmError × World R
  unfolding publish
  created (_, none, w) = (none, publish s.known all (pos 1) w)
  created (_, some e, w) =
      if same_error e task_exist
      then (some task_exist, report debug (repo_text e) w)
      else (some creating_tasks, report error (repo_text e) w)

  -- Create: its result, the task that it leaves behind the pointer, and the world.
  unfoldable pub create : ℤ → String → Task → Bool → World R → Option TmError × Task × World R
  unfolding retry created prepared
  create now new_id task is_taken w =
      let task' = prepared now new_id task in
      let (err, w') =
        created (retry (try_create task' is_taken) (deadlock ∷ []) s.max_retry tt w) in
      if str_eq task.id "" || s.is_id_valid task.id
      then (err, task', w')
      else (some uuid_is_not_correct, task', w)

  -- Delete, after its retry.
  unfoldable pub deleted : Try R ℤ → Option TmError × World R
  unfolding publish
  deleted (affected, some e, w) = (some deleting_task, report error (repo_text e) w)
  deleted (affected, none, w) =
      if int_eq affected (pos 0)
      then (some task_not_found, w)
      else (none, publish s.known all (int64 (pos 0 -ℤ affected)) w)

  unfoldable pub delete : String → World R → Option TmError × World R
  unfolding retry deleted
  delete task_id w =
      let task : Task = record { id = task_id; exec_time = pos 0 } in
      deleted (retry (try_delete (task ∷ [])) (deadlock ∷ []) s.max_retry (pos 0) w)

  -- GetTasksToComplete, after its retry.
  unfoldable pub got : Try R (Option C) → Option C × Option TmError × World R
  got (found, none, w) = (found, none, w)
  got (found, some e, w) =
      if same_error e no_tasks_found
      then (none, some collections_not_found, w)
      else (found, some get_tasks, report error (repo_text e) w)

  unfoldable pub get_tasks_to_complete : ℤ → World R → Option C × Option TmError × World R
  unfolding retry got
  get_tasks_to_complete range w =
      got (retry (try_find range) (deadlock ∷ lock_wait_timeout ∷ []) s.max_retry none w)

  -- ConfirmExecution, after its retry.
  unfoldable pub confirmed : Try R ℤ → Option TmError × World R
  unfolding publish
  confirmed (affected, some e, w) = (some confirmation_tasks, report error (repo_text e) w)
  confirmed (affected, none, w) = (none, publish s.known all (int64 (pos 0 -ℤ affected)) w)

  unfoldable pub confirm_execution : List Task → World R → Option TmError × World R
  unfolding retry confirmed
  confirm_execution tasks w =
      confirmed (retry (try_delete tasks) (deadlock ∷ []) s.max_retry (pos 0) w)
