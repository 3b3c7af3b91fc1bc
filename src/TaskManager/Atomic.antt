-- ===== src/TaskManager/Atomic.antt =====
-- Create, Delete and ConfirmExecution as single changes of the stored tasks.
use triggerhook.Base.{
  ℕ, ◌-◌, ◌<◌, ℤ, pos, ◌-ℤ◌, pos_part, int64, int_eq, String, str_eq, List, [], ◌∷◌, ◌++◌, ◌≡◌,
  refl, sym, ap, subst, ◌∙◌, arith, Bool, true, false, Bool-cases, Option, none, some, inl, inr,
  ◌||◌, if◌then◌else◌, length,
}
use triggerhook.Domain.{Task}
use triggerhook.Contracts.{all}
use triggerhook.Contracts.Errors.{
  same_error, TmError, deadlock, task_not_found, task_exist, uuid_is_not_correct, deleting_task,
  creating_tasks, confirmation_tasks,
}
use triggerhook.TaskManager.Interface.{World, publish}
use triggerhook.TaskManager.Retry.{Try}
use triggerhook.TaskManager.Operations.{
  TaskManager, try_create, try_delete, prepared, created, create, deleted, delete, confirmed,
  confirm_execution,
}
use triggerhook.TaskManager.Laws.{RepositoryLaws, without}
use triggerhook.TaskManager.Settled.{Same, RollsBack, Settled, retry-Settled}

ap2 : {A B D : Type 0} (f : A → B → D) {a a' : A} {b b' : B} → a ≡ a' → b ≡ b' → f a b ≡ f a' b'
ap2 f e h = cc (e, h)

-- The stored tasks and the measurements after a call, which has published `n` for all tasks.
pub record Changed {R : Type 0} (contents : R → List Task) (stored : List Task) (n : ℤ)
    (w w' : World R) : Type 0 where
  pub repo : contents w'.repo ≡ stored
  pub published : w'.published ≡ w.published ++ (all, n) ∷ []

-- What a call that stores a task may do.
pub data Creation {R : Type 0} (contents : R → List Task) (task : Task) (w : World R)
    : Option TmError → World R → Type 0 where
  is_stored :
      {w' : World R}
      → Changed contents (task ∷ contents w.repo) (pos 1) w w'
      → Creation contents task w none w'
  exists_already :
      {w' : World R} → Same contents w' w → Creation contents task w (some task_exist) w'
  id_is_wrong :
      {w' : World R} → Same contents w' w → Creation contents task w (some uuid_is_not_correct) w'
  has_failed :
      {w' : World R} → Same contents w' w → Creation contents task w (some creating_tasks) w'

abbrev pub gone : List Task → List Task → ℕ
gone tasks stored = length stored - length (without tasks stored)

-- What a call that deletes tasks may do, where `failure` is its error for a failed deletion.
pub data Deletion {R : Type 0} (contents : R → List Task) (failure : TmError) (tasks : List Task)
    (w : World R) : Option TmError → World R → Type 0 where
  are_deleted :
      {w' : World R}
      → Changed contents
          (without tasks (contents w.repo))
          (int64 (pos 0 -ℤ pos (gone tasks (contents w.repo))))
          w
          w'
      → Deletion contents failure tasks w none w'
  none_found :
      {w' : World R}
      → contents w'.repo ≡ without tasks (contents w.repo)
      → gone tasks (contents w.repo) ≡ 0
      → w'.published ≡ w.published
      → Deletion contents failure tasks w (some task_not_found) w'
  not_deleted :
      {w' : World R} → Same contents w' w → Deletion contents failure tasks w (some failure) w'

module _ {R C : Type 0} (s : TaskManager R C) (laws : RepositoryLaws (s.repository))
    (tries : 0 < pos_part (s.max_retry)) (known : s.known all ≡ true) where
  try_create-RollsBack :
      (task : Task) (is_taken : Bool) → RollsBack laws.contents (try_create s task is_taken)
  unfolding try_create
  try_create-RollsBack task is_taken w e h = record {
    repo = laws.create_rolls_back task is_taken w.repo e h;
    published = refl;
  }

  try_delete-RollsBack : (tasks : List Task) → RollsBack laws.contents (try_delete s tasks)
  unfolding try_delete
  try_delete-RollsBack tasks w e h = record {
    repo = laws.delete_rolls_back tasks w.repo e h;
    published = refl;
  }

  created-Creation :
      (task : Task) (is_taken : Bool) (w : World R) (t : Try R (Unit {0}))
      → Settled laws.contents (try_create s task is_taken) w t
      → Creation laws.contents task w (created s t).0 (created s t).1
  unfolding created try_create publish
  created-Creation task is_taken w (u, none, w') (inl (v, same, q, n)) = rw known (
      is_stored (record {
        repo =
            ap (λ t. laws.contents t.2.repo) (sym q)
            ∙ laws.create_stores task is_taken v.repo (ap (λ t. t.1) q)
            ∙ ap (λ l. task ∷ l) same.repo;
        published =
            ap (λ l. l ++ (all, pos 1) ∷ []) (ap (λ t. t.2.published) (sym q) ∙ same.published);
      }))
  created-Creation task is_taken w (u, none, w') (inr (e, q, same)) = cc q
  created-Creation task is_taken w (u, some e, w') (inl (v, same, q, n)) = cc n
  created-Creation task is_taken w (u, some e, w') (inr (e', q, same)) =
      elim (Bool-cases (same_error e task_exist)) [
        | inl b ↦ rw b (exists_already (record { repo = same.repo; published = same.published }))
        | inr b ↦ rw b (has_failed (record { repo = same.repo; published = same.published }))
      ]

  guarded :
      (allowed : Bool) {task : Task} {w w' : World R} {o : Option TmError}
      → Creation laws.contents task w o w'
      → let r : Option TmError × Task × World R =
          if allowed then (o, task, w') else (some uuid_is_not_correct, task, w) in
        Creation laws.contents task w r.0 r.2
  guarded true h = h
  guarded false h = id_is_wrong (record { repo = refl; published = refl })

  -- If the repository rolls back the calls that fail and otherwise stores and deletes what it is
  -- asked to, MaxRetry is positive and the topic of all tasks is initialized, then Create either
  -- returns nil, has stored the prepared task once and has published one more task; or it returns
  -- that the task exists, that its id is wrong or that creating failed, and has stored and
  -- published nothing.
  pub create-Creation :
      (now : ℤ) (new_id : String) (task : Task) (is_taken : Bool) (w : World R)
      → let r = create s now new_id task is_taken w in
        Creation laws.contents (prepared now new_id task) w r.0 r.2
  unfolding create
  create-Creation now new_id task is_taken w =
      let task' = prepared now new_id task in
      guarded (str_eq task.id "" || s.is_id_valid task.id) (
        created-Creation task' is_taken w _ (
          retry-Settled laws.contents (try_create s task' is_taken)
            (try_create-RollsBack task' is_taken) (deadlock ∷ []) s.max_retry tries tt w))

  -- What a try that succeeded has done.
  removed_as :
      (tasks : List Task) {w v w' : World R} {n : ℤ}
      → Same laws.contents v w
      → try_delete s tasks v ≡ (n, none, w')
      → laws.contents w'.repo ≡ without tasks (laws.contents w.repo)
  unfolding try_delete
  removed_as tasks {w} {v} same q =
      ap (λ t. laws.contents t.2.repo) (sym q)
      ∙ laws.delete_removes tasks v.repo (ap (λ t. t.1) q)
      ∙ ap (without tasks) same.repo

  affected_as :
      (tasks : List Task) {w v w' : World R} {n : ℤ}
      → Same laws.contents v w
      → try_delete s tasks v ≡ (n, none, w')
      → n ≡ pos (gone tasks (laws.contents w.repo))
  unfolding try_delete
  affected_as tasks {w} {v} same q =
      ap (λ t. t.0) (sym q)
      ∙ laws.delete_affects tasks v.repo (ap (λ t. t.1) q)
      ∙ ap (λ l. pos (gone tasks l)) same.repo

  published_as :
      (tasks : List Task) {w v w' : World R} {n : ℤ}
      → Same laws.contents v w
      → try_delete s tasks v ≡ (n, none, w')
      → w'.published ≡ w.published
  unfolding try_delete
  published_as tasks same q = ap (λ t. t.2.published) (sym q) ∙ same.published

  -- The measurement that follows.
  measured_as :
      (tasks : List Task) {w v w' : World R} {n : ℤ}
      → Same laws.contents v w
      → try_delete s tasks v ≡ (n, none, w')
      → w'.published ++ (all, int64 (pos 0 -ℤ n)) ∷ []
        ≡ w.published ++ (all, int64 (pos 0 -ℤ pos (gone tasks (laws.contents w.repo)))) ∷ []
  measured_as tasks {w} {w' = w'} same q =
      ap2 (λ l n. l ++ (all, int64 (pos 0 -ℤ n)) ∷ []) (published_as tasks same q)
        (affected_as tasks same q)

  confirmed-Deletion :
      (tasks : List Task) (w : World R) (t : Try R ℤ)
      → Settled laws.contents (try_delete s tasks) w t
      → Deletion laws.contents confirmation_tasks tasks w (confirmed s t).0 (confirmed s t).1
  unfolding confirmed publish
  confirmed-Deletion tasks w (u, none, w') (inl (v, same, q, n)) = rw known (
      are_deleted (record { repo = removed_as tasks same q; published = measured_as tasks same q }))
  confirmed-Deletion tasks w (u, none, w') (inr (e, q, same)) = cc q
  confirmed-Deletion tasks w (u, some e, w') (inl (v, same, q, n)) = cc n
  confirmed-Deletion tasks w (u, some e, w') (inr (e', q, same)) =
      not_deleted (record { repo = same.repo; published = same.published })

  no_gone : {n : ℤ} {k : ℕ} → n ≡ pos k → int_eq n (pos 0) ≡ true → k ≡ 0
  no_gone e z = let h = subst (λ n. int_eq n (pos 0) ≡ true) e z in ground arith

  deleted-Deletion :
      (tasks : List Task) (w : World R) (t : Try R ℤ)
      → Settled laws.contents (try_delete s tasks) w t
      → Deletion laws.contents deleting_task tasks w (deleted s t).0 (deleted s t).1
  unfolding deleted publish
  deleted-Deletion tasks w (u, none, w') (inl (v, same, q, n)) =
      elim (Bool-cases (int_eq u (pos 0))) [
        | inl b ↦ rw b (
            none_found (removed_as tasks same q) (no_gone (affected_as tasks same q) b)
              (published_as tasks same q))
        | inr b ↦
            rw (b, known)
              (are_deleted
                (record { repo = removed_as tasks same q; published = measured_as tasks same q }))
      ]
  deleted-Deletion tasks w (u, none, w') (inr (e, q, same)) = cc q
  deleted-Deletion tasks w (u, some e, w') (inl (v, same, q, n)) = cc n
  deleted-Deletion tasks w (u, some e, w') (inr (e', q, same)) =
      not_deleted (record { repo = same.repo; published = same.published })

  -- What ConfirmExecution may do.
  pub confirm_execution-Deletion :
      (tasks : List Task) (w : World R)
      → Deletion laws.contents confirmation_tasks tasks w
          (confirm_execution s tasks w).0
          (confirm_execution s tasks w).1
  unfolding confirm_execution
  confirm_execution-Deletion tasks w = confirmed-Deletion tasks w _ (
      retry-Settled laws.contents (try_delete s tasks) (try_delete-RollsBack tasks) (deadlock ∷ [])
        s.max_retry tries (pos 0) w)

  -- What Delete may do.
  pub delete-Deletion :
      (id : String) (w : World R)
      → Deletion laws.contents deleting_task
          (record { id = id; exec_time = pos 0 } ∷ [])
          w
          (delete s id w).0
          (delete s id w).1
  unfolding delete
  delete-Deletion id w =
      let tasks : List Task = record { id = id; exec_time = pos 0 } ∷ [] in
      deleted-Deletion tasks w _ (
        retry-Settled laws.contents (try_delete s tasks) (try_delete-RollsBack tasks)
          (deadlock ∷ []) s.max_retry tries (pos 0) w)
