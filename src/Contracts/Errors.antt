-- ===== src/Contracts/Errors.antt =====
-- contracts/contracts.go: the error values, which are compared by identity, and their texts.
use triggerhook.Base.{ℕ, String, Bool, ◌==◌}

pub data RepoError : Type 0 where
  counting_tasks creating_task deleting_task getting_tasks finding_tasks no_tasks_found : RepoError
  no_collections task_exist deadlock lock_wait_timeout schema_setup : RepoError

pub data TmError : Type 0 where
  creating_tasks uuid_is_not_correct task_exist confirmation_tasks get_tasks : TmError
  collections_not_found deleting_task task_not_found : TmError

-- `err.Error()`
unfoldable pub repo_text : RepoError → String
repo_text counting_tasks = "counting the task was fail"
repo_text creating_task = "creating the task was fail"
repo_text deleting_task = "deleting the task was fail"
repo_text getting_tasks = "getting the tasks were fail"
repo_text finding_tasks = "finding the tasks were fail"
repo_text no_tasks_found = "no tasks found"
repo_text no_collections = "collections are over"
repo_text task_exist = "task with the uuid already exist"
repo_text deadlock = "deadlock, please retry"
repo_text lock_wait_timeout = "lock wait timeout exceeded"
repo_text schema_setup = "schema setup failed"

-- The error values number apart.
abbrev pub repo_code : RepoError → ℕ
repo_code counting_tasks = 0
repo_code creating_task = 1
repo_code deleting_task = 2
repo_code getting_tasks = 3
repo_code finding_tasks = 4
repo_code no_tasks_found = 5
repo_code no_collections = 6
repo_code task_exist = 7
repo_code deadlock = 8
repo_code lock_wait_timeout = 9
repo_code schema_setup = 10

-- `a == e`
abbrev pub same_error : RepoError → RepoError → Bool
same_error a e = repo_code a == repo_code e

-- `err.Error()`
unfoldable pub tm_text : TmError → String
tm_text creating_tasks = "cannot create task"
tm_text uuid_is_not_correct = "uuid of the task is not correct"
tm_text task_exist = "task with this uuid already exist"
tm_text confirmation_tasks = "cannot confirm execution of tasks"
tm_text get_tasks = "cannot get any tasks"
tm_text collections_not_found = "collections not found"
tm_text deleting_task = "cannot delete task"
tm_text task_not_found = "task not found"

-- The error values number apart.
abbrev pub tm_code : TmError → ℕ
tm_code creating_tasks = 0
tm_code uuid_is_not_correct = 1
tm_code task_exist = 2
tm_code confirmation_tasks = 3
tm_code get_tasks = 4
tm_code collections_not_found = 5
tm_code deleting_task = 6
tm_code task_not_found = 7

-- `err == e`
abbrev pub same_tm_error : TmError → TmError → Bool
same_tm_error err e = tm_code err == tm_code e
