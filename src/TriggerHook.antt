-- ===== src/TriggerHook.antt =====
-- trigger_hook.go: the interface of the library, whose calls go to the services. Create and Delete
-- are CreateCtx and DeleteCtx with a context that never ends.
pub mod Undo
mod Tests
use triggerhook.Base.{ℕ, ℤ, String, List, ◌++◌, Option}
use triggerhook.Domain.{Task}
use triggerhook.Contracts.Errors.{TmError}
use triggerhook.TaskManager.Interface.{World}
use triggerhook.TaskManager.Operations.{TaskManager}
use triggerhook.Preloader.Service.{PreloadingService, add_new_task, cancel_if_exist}
use triggerhook.Sender.Handles.{Handles}
use triggerhook.Sender.Handles

-- The triggerHook, by what its services are configured with.
pub record TriggerHook (R C : Type 0) : Type 0 where
  pub preloading_service : PreloadingService
  pub task_manager : TaskManager R C

-- What the calls change: the repository with what is told to the others, what has been sent to the
-- channels of preloaded tasks and of cancelled ids, and the handles.
pub record State (R : Type 0) : Type 0 where
  pub world : World R
  pub preloaded_tasks : List Task
  pub canceled_tasks : List String
  pub handles : Handles

module _ {R C : Type 0} (s : TriggerHook R C) where
  abbrev pub preloads :
      Option TmError × Task × List Task × World R → State R → Option TmError × Task × State R
  preloads (err, task, sent, w) st =
      (err, task, record st { world = w; preloaded_tasks = st.preloaded_tasks ++ sent })

  abbrev pub cancels : Option TmError × List String × World R → State R → Option TmError × State R
  cancels (err, sent, w) st =
      (err, record st { world = w; canceled_tasks = st.canceled_tasks ++ sent })

  -- CreateCtx, for the two times that are read and the id that `util.NewId` would give.
  unfoldable pub create_ctx : ℤ → ℤ → String → Task → State R → Option TmError × Task × State R
  unfolding add_new_task
  create_ctx now later new_id task st =
      preloads (add_new_task s.task_manager s.preloading_service now later new_id task st.world) st

  unfoldable pub delete_ctx : String → State R → Option TmError × State R
  unfolding cancel_if_exist
  delete_ctx task_id st = cancels (cancel_if_exist s.task_manager task_id st.world) st

  -- Consume, for a task that the sender receives.
  unfoldable pub consume : Task → State R → ℕ × State R
  unfolding Handles.consume
  consume task st =
      let (h, handles) = Handles.consume task st.handles in (h, record st { handles = handles })
