-- ===== src/Preloader/Intake.antt =====
-- What a new task and a cancellation leave in the repository and in the channels.
use triggerhook.Base.{
  str_eq, ◌||◌, Bool-cases, ◌<◌, ℤ, pos, pos_part, String, List, [], ◌∷◌, ◌≡◌, refl, ap, ◌∙◌, Bool,
  true, false, Option, none, some, inl, inr, if◌then◌else◌,
}
use triggerhook.Domain.{Task}
use triggerhook.Contracts.{all, Topic, creating_rate, deleting_rate}
use triggerhook.Contracts.Errors.{TmError, deleting_task, deadlock, uuid_is_not_correct}
use triggerhook.TaskManager.Interface.{World, publish}
use triggerhook.TaskManager.Operations.{created, try_create, TaskManager, prepared, create, delete}
use triggerhook.TaskManager.Retry.{retry}
use triggerhook.TaskManager.Laws.{RepositoryLaws, without}
use triggerhook.TaskManager.Atomic.{
  Creation, is_stored, exists_already, id_is_wrong, has_failed, Deletion, are_deleted, none_found,
  not_deleted, create-Creation, delete-Deletion,
}
use triggerhook.Preloader.Service.{
  hand_on, cancel, PreloadingService, is_taken, preloaded, add_new_task, cancel_if_exist,
}

-- A new task is stored, and preloaded if it was stored as taken; or nothing has happened.
pub data Intake {R : Type 0} (contents : R → List Task) (taken : Bool) (task : Task) (w : World R)
    : Option TmError × List Task × World R → Type 0 where
  accepted :
      {w' : World R}
      → contents w'.repo ≡ task ∷ contents w.repo
      → Intake contents taken task w (none, preloaded taken task, w')
  rejected :
      {w' : World R} {e : TmError}
      → contents w'.repo ≡ contents w.repo
      → Intake contents taken task w (some e, [], w')

-- The task is deleted and its id goes to the waiting service; or nothing is sent there.
pub data Cancellation {R : Type 0} (contents : R → List Task) (id : String) (w : World R)
    : Option TmError × List String × World R → Type 0 where
  cancels :
      {w' : World R}
      → contents w'.repo ≡ without (record { id = id; exec_time = pos 0 } ∷ []) (contents w.repo)
      → Cancellation contents id w (none, id ∷ [], w')
  refuses : {w' : World R} {e : TmError} → Cancellation contents id w (some e, [], w')

module _ {R C : Type 0} (s : TaskManager R C) where
  pub publish-repo :
      (topic : Topic) (n : ℤ) (w : World R) → (publish s.known topic n w).repo ≡ w.repo
  unfolding publish
  publish-repo topic n w = elim (Bool-cases (s.known topic)) [
    | inl b ↦ rw b refl
    | inr b ↦ rw b refl
  ]

  same_task :
      (b : Bool) (o e : Option TmError) (task : Task) (w w' : World R)
      → let r : Option TmError × Task × World R = if b then (o, task, w) else (e, task, w') in
        r.1 ≡ task
  same_task true o e task w w' = refl
  same_task false o e task w w' = refl

  create-prepared :
      (later : ℤ) (new_id : String) (task : Task) (taken : Bool) (w : World R)
      → (create s later new_id task taken w).1 ≡ prepared later new_id task
  unfolding create
  create-prepared later new_id task taken w =
      let task' = prepared later new_id task in
      let t = created s (retry (try_create s task' taken) (deadlock ∷ []) s.max_retry tt w) in
      same_task (str_eq task.id "" || s.is_id_valid task.id) t.0 (some uuid_is_not_correct) task'
        t.1 w

  hand_on-Intake :
      (contents : R → List Task) (taken : Bool) (task : Task) (w : World R)
      (t : Option TmError × Task × World R)
      → t.1 ≡ task
      → Creation contents task w t.0 t.2
      → let r = hand_on s taken t in Intake contents taken task w (r.0, r.2, r.3)
  unfolding hand_on
  hand_on-Intake contents taken task w (none, task', w') e (is_stored c) =
      rw e (accepted (ap contents (publish-repo creating_rate (pos 1) w') ∙ c.repo))
  hand_on-Intake contents taken task w (some x, task', w') e (exists_already same) =
      rejected same.repo
  hand_on-Intake contents taken task w (some x, task', w') e (id_is_wrong same) = rejected same.repo
  hand_on-Intake contents taken task w (some x, task', w') e (has_failed same) = rejected same.repo

  cancel-Cancellation :
      (contents : R → List Task) (id : String) (w : World R) (t : Option TmError × World R)
      → Deletion contents deleting_task (record { id = id; exec_time = pos 0 } ∷ []) w t.0 t.1
      → Cancellation contents id w (cancel s id t)
  unfolding cancel
  cancel-Cancellation contents id w (none, w') (are_deleted c) =
      cancels (ap contents (publish-repo deleting_rate (pos 1) w') ∙ c.repo)
  cancel-Cancellation contents id w (some x, w') (none_found _ _ _) = refuses
  cancel-Cancellation contents id w (some x, w') (not_deleted same) = refuses

  module _ (laws : RepositoryLaws (s.repository)) (tries : 0 < pos_part (s.max_retry))
      (known : s.known all ≡ true) where
    pub add_new_task-Intake :
        (p : PreloadingService) (now later : ℤ) (new_id : String) (task : Task) (w : World R)
        → let r = add_new_task s p now later new_id task w in
          Intake laws.contents
            (is_taken p now task.exec_time)
            (prepared later new_id task)
            w
            (r.0, r.2, r.3)
    unfolding add_new_task
    add_new_task-Intake p now later new_id task w =
        let taken = is_taken p now task.exec_time in
        hand_on-Intake laws.contents taken (prepared later new_id task) w
          (create s later new_id task taken w) (create-prepared later new_id task taken w)
          (create-Creation s laws tries known later new_id task taken w)

    -- If the repository rolls back the calls that fail and otherwise stores and deletes what it is
    -- asked to, MaxRetry is positive and the topic of all tasks is initialized, then CancelIfExist
    -- either returns nil, the task with the id is no longer stored, and the id has been sent to
    -- the waiting loop; or it returns an error and has sent nothing there.
    pub cancel_if_exist-Cancellation :
        (id : String) (w : World R) → Cancellation laws.contents id w (cancel_if_exist s id w)
    unfolding cancel_if_exist
    cancel_if_exist-Cancellation id w =
        cancel-Cancellation laws.contents id w (delete s id w)
          (delete-Deletion s laws tries known id w)
