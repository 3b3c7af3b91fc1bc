-- ===== src/Preloader/Service.antt =====
-- preloader_service.go: AddNewTask and getBunchOfTask; and CancelIfExist of
-- waiting_service/waiting_service.go, which deletes what AddNewTask stored.
use triggerhook.Base.{
  ℤ, pos, ◌-ℤ◌, ◌*ℤ◌, int64, ltb_ℤ, String, List, [], ◌∷◌, ◌++◌, Bool, Option, none, some,
  if◌then◌else◌, length,
}
use triggerhook.Domain.{Task}
use triggerhook.Contracts.{fatal, debug, creating_rate, deleting_rate, preloading_rate}
use triggerhook.Contracts.Errors.{RepoError, TmError, no_collections, same_error}
use triggerhook.TaskManager.Interface.{World, report, publish}
use triggerhook.TaskManager.Operations.{TaskManager, create, delete}

-- Nanoseconds, an int64 as time.Duration is.
abbrev pub second : ℤ
second = pos 1000000000

-- The settings of the preloadingService that a new task depends on.
pub record PreloadingService : Type 0 where
  pub time_preload : ℤ
  pub coef_time_preload_of_new_task : ℤ

-- `isTaken`, for a task with that time.
unfoldable pub is_taken : PreloadingService → ℤ → ℤ → Bool
is_taken p now exec_time =
    let relative_time_to_exec = int64 (int64 (exec_time -ℤ now) *ℤ second) in
    ltb_ℤ relative_time_to_exec (int64 (p.time_preload *ℤ p.coef_time_preload_of_new_task))

-- What goes to the channel of preloaded tasks.
abbrev pub preloaded : Bool → Task → List Task
preloaded taken task = if taken then task ∷ [] else []

module _ {R C : Type 0} (s : TaskManager R C) where
  -- AddNewTask after its call of Create.
  unfoldable pub hand_on :
      Bool → Option TmError × Task × World R → Option TmError × Task × List Task × World R
  unfolding publish
  hand_on taken (some e, task, w) = (some e, task, [], w)
  hand_on taken (none, task, w) =
      (none, task, preloaded taken task, publish s.known creating_rate (pos 1) w)

  -- AddNewTask, which reads the clock and then calls Create, which reads it again: its error, the
  -- task behind the pointer, what it sends to the channel, and the world.
  unfoldable pub add_new_task :
      PreloadingService
      → ℤ
      → ℤ
      → String
      → Task
      → World R
      → Option TmError × Task × List Task × World R
  unfolding create hand_on is_taken
  add_new_task p now later new_id task w =
      let taken = is_taken p now task.exec_time in
      hand_on taken (create s later new_id task taken w)

  -- CancelIfExist after its call of Delete.
  unfoldable pub cancel : String → Option TmError × World R → Option TmError × List String × World R
  unfolding publish
  cancel task_id (some e, w) = (some e, [], w)
  cancel task_id (none, w) = (none, task_id ∷ [], publish s.known deleting_rate (pos 1) w)

  -- CancelIfExist: its error, what it sends to the channel of cancelled ids, and the world.
  unfoldable pub cancel_if_exist : String → World R → Option TmError × List String × World R
  unfolding delete cancel
  cancel_if_exist task_id w = cancel task_id (delete s task_id w)

  -- A turn of the loop of getBunchOfTask that has got tasks.
  abbrev pub take_bunch : List Task → World R → World R
  take_bunch tasks w =
      publish s.known preloading_rate (pos (length tasks)) (report debug "preloaded tasks" w)

  -- getBunchOfTask, for the collections that Next gives and the error that it then gives: what it
  -- sends to the channel of preloaded tasks, and the world.
  unfoldable pub get_bunch_of_task : List (List Task) → RepoError → World R → List Task × World R
  unfolding publish
  get_bunch_of_task [] err w =
      if same_error err no_collections
      then ([], report debug "end" w)
      else ([], report fatal "cannot get tasks for doing" w)
  get_bunch_of_task (tasks ∷ rest) err w =
      let (sent, w') = get_bunch_of_task rest err (take_bunch tasks w) in (tasks ++ sent, w')
