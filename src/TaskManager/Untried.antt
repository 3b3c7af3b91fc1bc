-- ===== src/TaskManager/Untried.antt =====
-- Create with a negative number of tries.
use triggerhook.Base.{
  ℤ, pos, pos_part, String, str_eq, [], ◌∷◌, ◌++◌, ◌≡◌, refl, Bool, true, false, Option, none, some,
  ◌||◌, if◌then◌else◌, subst, sym,
}
use triggerhook.Domain.{Task}
use triggerhook.Contracts.{all}
use triggerhook.Contracts.Errors.{TmError, deadlock, uuid_is_not_correct}
use triggerhook.TaskManager.Interface.{World, publish}
use triggerhook.TaskManager.Retry.{Try, retry, retry_loop}
use triggerhook.TaskManager.Operations.{TaskManager, try_create, prepared, created, create}

-- The call has told its caller and the monitoring that it stored a task, and has called nothing.
pub record NothingStored {R : Type 0} (w : World R) (err : Option TmError) (w' : World R)
    : Type 0 where
  pub err_nil : err ≡ none
  pub repo : w'.repo ≡ w.repo
  pub reported : w'.reported ≡ w.reported
  pub published : w'.published ≡ w.published ++ (all, pos 1) ∷ []

module _ {R C : Type 0} (s : TaskManager R C) (untried : pos_part (s.max_retry) ≡ 0)
    (known : s.known all ≡ true) where
  retry_untried :
      {A : Type 0} (callback : World R → Try R A) (a : A) (w : World R)
      → retry callback (deadlock ∷ []) s.max_retry a w ≡ (a, none, w)
  unfolding retry retry_loop
  retry_untried callback a w = rw untried refl

  created_untried :
      (w : World R) → NothingStored w (created s (tt, none, w)).0 (created s (tt, none, w)).1
  unfolding created publish
  created_untried w =
      rw known (record { err_nil = refl; repo = refl; reported = refl; published = refl })

  guarded :
      (allowed : Bool) (task : Task) {w w' : World R} {o : Option TmError} (e : Option TmError)
      → allowed ≡ true
      → NothingStored w o w'
      → let r : Option TmError × Task × World R = if allowed then (o, task, w') else (e, task, w) in
        NothingStored w r.0 r.2
  guarded true task e h n = n
  guarded false task e h n = cc h

  -- If MaxRetry is negative or zero in the task manager and the topic of all tasks is initialized,
  -- Create of a task without an id or with a valid one calls no repository and yet returns nil,
  -- reports nothing and publishes one more task.
  pub create-NothingStored :
      (now : ℤ) (new_id : String) (task : Task) (is_taken : Bool) (w : World R)
      → str_eq task.id "" || s.is_id_valid task.id ≡ true
      → let r = create s now new_id task is_taken w in NothingStored w r.0 r.2
  unfolding create
  create-NothingStored now new_id task is_taken w valid =
      let callback = try_create s (prepared now new_id task) is_taken in
      guarded (str_eq task.id "" || s.is_id_valid task.id) (prepared now new_id task)
        (some uuid_is_not_correct) valid
        (subst (λ t. NothingStored w (created s t).0 (created s t).1)
          (sym (retry_untried callback tt w)) (created_untried w))
