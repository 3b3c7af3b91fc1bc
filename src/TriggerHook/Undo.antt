-- ===== src/TriggerHook/Undo.antt =====
-- A task that is created and then deleted.
use triggerhook.Base.{
  ◌<◌, pos, pos_part, ℤ, String, str_eq, eq_iff, Bool, true, false, ◌||◌, Bool-cases, List, [], ◌∷◌,
  ◌++◌, append-nil, Option, none, some, inl, inr, ◌≡◌, refl, sym, ap, ◌∙◌, arith,
}
use triggerhook.Domain.{Task}
use triggerhook.Contracts.{all, deleting_rate}
use triggerhook.Contracts.Errors.{TmError, deleting_task}
use triggerhook.TaskManager.Interface.{World}
use triggerhook.TaskManager.Operations.{prepared, delete}
use triggerhook.TaskManager.Laws.{RepositoryLaws, is_named, without}
use triggerhook.TaskManager.Atomic.{
  gone, Deletion, are_deleted, none_found, not_deleted, delete-Deletion,
}
use triggerhook.Preloader.Service.{cancel, cancel_if_exist}
use triggerhook.Preloader.Intake.{Intake, accepted, rejected, add_new_task-Intake, publish-repo}
use triggerhook.TriggerHook.{TriggerHook, State, create_ctx, delete_ctx, cancels}

abbrev with_id : String → List Task
with_id id = record { id = id; exec_time = pos 0 } ∷ []

both_false : (a b : Bool) → a || b ≡ false → (a ≡ false) × (b ≡ false)
both_false true b h = cc h
both_false false b h = (refl, h)

differs : (a b : String) → str_eq a b ≡ false → str_eq b a ≡ false
differs a b h = elim (Bool-cases (str_eq b a)) [
  | inl e ↦ cc (h, (eq_iff a b).1 (sym ((eq_iff b a).0 e)))
  | inr e ↦ e
]

-- Deleting an id that no stored task has leaves the tasks as they are.
without_unnamed :
    (id : String) (tasks : List Task)
    → is_named id tasks ≡ false
    → without (with_id id) tasks ≡ tasks
unfolding without is_named
without_unnamed id [] h = refl
without_unnamed id (t ∷ rest) h =
    let (other, later) = both_false (str_eq t.id id) (is_named id rest) h in
    rw (differs t.id id other) (ap (λ ts. t ∷ ts) (without_unnamed id rest later))

without_head :
    (task : Task) (tasks : List Task)
    → is_named task.id tasks ≡ false
    → without (with_id task.id) (task ∷ tasks) ≡ tasks
unfolding without is_named
without_head task tasks h = rw ((eq_iff task.id task.id).1 refl) (without_unnamed task.id tasks h)

-- What DeleteCtx leaves of the tasks `stored` and the new one: it undoes the creation and tells the
-- waiting service, or it fails to delete and leaves both.
pub data Undone {R : Type 0} (contents : R → List Task) (task : Task) (stored : List Task)
    (st : State R) : Option TmError × State R → Type 0 where
  undone :
      {st' : State R}
      → contents st'.world.repo ≡ stored
      → st'.canceled_tasks ≡ st.canceled_tasks ++ task.id ∷ []
      → Undone contents task stored st (none, st')
  not_undone :
      {st' : State R}
      → contents st'.world.repo ≡ task ∷ stored
      → st'.canceled_tasks ≡ st.canceled_tasks
      → Undone contents task stored st (some deleting_task, st')

one_gone :
    (task : Task) (stored : List Task)
    → is_named task.id stored ≡ false
    → gone (with_id task.id) (task ∷ stored) ≡ 1
one_gone task stored h = rw (without_head task stored h) (omega arith)

accepted_contents :
    {R : Type 0} {contents : R → List Task} {taken : Bool} {task : Task} {w : World R}
    {r : Option TmError × List Task × World R}
    → Intake contents taken task w r
    → r.0 ≡ none
    → contents r.2.repo ≡ task ∷ contents w.repo
accepted_contents (accepted c) e = c
accepted_contents (rejected c) e = cc e

module _ {R C : Type 0} (s : TriggerHook R C) where
  cancels-Undone :
      (contents : R → List Task) (task : Task) (stored : List Task) (st : State R)
      (t : Option TmError × World R)
      → is_named task.id stored ≡ false
      → contents st.world.repo ≡ task ∷ stored
      → Deletion contents deleting_task (with_id task.id) st.world t.0 t.1
      → Undone contents task stored st (cancels s (cancel s.task_manager task.id t) st)
  unfolding cancel
  cancels-Undone contents task stored st (none, w') new e (are_deleted c) =
      undone
        (ap contents (publish-repo s.task_manager deleting_rate (pos 1) w')
          ∙ c.repo
          ∙ ap (without (with_id task.id)) e
          ∙ without_head task stored new)
        refl
  cancels-Undone contents task stored st (some x, w') new e (none_found q g p) =
      absurd (
        let n = one_gone task stored new in ground (arith, sym (ap (gone (with_id task.id)) e) ∙ g))
  cancels-Undone contents task stored st (some x, w') new e (not_deleted same) =
      not_undone (same.repo ∙ e) (append-nil _)

  module _ (laws : RepositoryLaws (s.task_manager.repository))
      (tries : 0 < pos_part (s.task_manager.max_retry))
      (known : s.task_manager.known all ≡ true) where
    created_contents :
        (now later : ℤ) (new_id : String) (task : Task) (st : State R)
        → (create_ctx s now later new_id task st).0 ≡ none
        → laws.contents (create_ctx s now later new_id task st).2.world.repo
          ≡ prepared later new_id task ∷ laws.contents st.world.repo
    unfolding create_ctx
    created_contents now later new_id task st e =
        accepted_contents
          (add_new_task-Intake s.task_manager laws tries known s.preloading_service now later new_id
            task st.world)
          e

    -- If the repository rolls back the calls that fail and otherwise stores and deletes what it is
    -- asked to, MaxRetry is positive and the topic of all tasks is initialized, then after a
    -- CreateCtx that returns no error, of a task whose id was not stored, DeleteCtx of that id
    -- either returns no error, leaves exactly the tasks stored before the creation and sends the
    -- id to the waiting service; or it returns that deleting failed, and leaves the new task
    -- stored with the others and sends nothing. It never returns that the task is not found.
    pub create-delete :
        (now later : ℤ) (new_id : String) (task : Task) (st : State R)
        → let id = (prepared later new_id task).id in
          let r = create_ctx s now later new_id task st in
          r.0 ≡ none
          → is_named id (laws.contents st.world.repo) ≡ false
          → Undone laws.contents
              (prepared later new_id task)
              (laws.contents st.world.repo)
              r.2
              (delete_ctx s id r.2)
    unfolding delete_ctx cancel_if_exist
    create-delete now later new_id task st e new =
        let task' = prepared later new_id task in
        let st' = (create_ctx s now later new_id task st).2 in
        cancels-Undone laws.contents task' (laws.contents st.world.repo) st'
          (delete s.task_manager task'.id st'.world) new
          (created_contents now later new_id task st e)
          (delete-Deletion s.task_manager laws tries known task'.id st'.world)
