-- ===== src/Repository/Contract.antt =====
-- The mysqlRepository does what the task manager relies on.
use triggerhook.Base.{
  ℕ, ◌-◌, ◌<◌, ◌^◌, ℤ, pos, pos_part, String, List, ◌∷◌, Bool, true, Option, none, some, length,
  ◌≡◌, sym, ap, subst, ◌∙◌, ◌+ℤ◌, int64, int64_eq, arith,
}
use triggerhook.Domain.{Task}
use triggerhook.Contracts.{Topic, all}
use triggerhook.Contracts.Errors.{RepoError}
use triggerhook.TaskManager.Interface.{World}
use triggerhook.TaskManager.Operations.{TaskManager}
use triggerhook.TaskManager.Laws.{RepositoryLaws, without}
use triggerhook.TaskManager.Totals.{total, zero_+ℤ}
use triggerhook.Monitoring.Registry.{Monitoring}
use triggerhook.Monitoring.Gauge.{publish_all, Reads, publish_all-Reads}
use triggerhook.TaskManager.Accounting.{Call, calls, IsBalanced, calls-IsBalanced}
use triggerhook.Repository.Failures.{MysqlRepository}
use triggerhook.Repository.Create.{CreateFailures}
use triggerhook.Repository.Contents.{length-contents_of}
use triggerhook.Repository.Stores.{tasks_in}
use triggerhook.Repository.Keeps.{Removes, removes, keeps, Deletion-Removes, find-Keeps}
use triggerhook.Repository.Session.{
  Session, next_answers, Creates, creates, refused, creation, creation-Creates, deletion,
  deletion-Deletion, session_create, session_delete, session_find, mysql,
}

-- The tasks that a session stands for.
abbrev pub stored : Session → List Task
stored s = tasks_in s.repository.db

created_rolls_back :
    {f : CreateFailures} {task : Task} {r : MysqlRepository} {e : RepoError}
    (t : Option RepoError × MysqlRepository)
    → Creates f task r t
    → t.0 ≡ some e
    → tasks_in t.1.db ≡ tasks_in r.db
created_rolls_back (none, r') (creates k q _) h = cc h
created_rolls_back (some x, r') (refused k _) h = k.tasks

created_stores :
    {f : CreateFailures} {task : Task} {r : MysqlRepository}
    (t : Option RepoError × MysqlRepository)
    → Creates f task r t
    → t.0 ≡ none
    → tasks_in t.1.db ≡ task ∷ tasks_in r.db
created_stores (none, r') (creates k q _) h = k.tasks
created_stores (some x, r') (refused k _) h = cc h

deleted_rolls_back :
    {tasks rest : List Task} {e : RepoError} (t : ℤ × Option RepoError × MysqlRepository)
    → Removes tasks rest t
    → t.1 ≡ some e
    → tasks_in t.2.db ≡ rest
deleted_rolls_back (n, none, r') (removes _ k) h = cc h
deleted_rolls_back (n, some x, r') (keeps k) h = k.tasks

deleted-Removes :
    {tasks rest : List Task} (t : ℤ × Option RepoError × MysqlRepository)
    → Removes tasks rest t
    → t.1 ≡ none
    → (tasks_in t.2.db ≡ without tasks rest)
      × (t.0 ≡ pos (length rest - length (without tasks rest)))
deleted-Removes (n, none, r') (removes e k) h = (k.tasks, e)
deleted-Removes (n, some x, r') (keeps k) h = cc h

module _ (s : Session) where
  pub session_create_rolls_back :
      (task : Task) (is_taken : Bool) (e : RepoError)
      → (session_create task is_taken s).0 ≡ some e
      → stored (session_create task is_taken s).1 ≡ stored s
  unfolding session_create
  session_create_rolls_back task is_taken e h =
      created_rolls_back (creation task is_taken s) (creation-Creates task is_taken s) h

  pub session_create_stores :
      (task : Task) (is_taken : Bool)
      → (session_create task is_taken s).0 ≡ none
      → stored (session_create task is_taken s).1 ≡ task ∷ stored s
  unfolding session_create
  session_create_stores task is_taken h =
      created_stores (creation task is_taken s) (creation-Creates task is_taken s) h

  removed : (tasks : List Task) → Removes tasks (stored s) (deletion tasks s)
  removed tasks = Deletion-Removes (deletion-Deletion tasks s) s.consistent

  pub session_delete_rolls_back :
      (tasks : List Task) (e : RepoError)
      → (session_delete tasks s).1 ≡ some e
      → stored (session_delete tasks s).2 ≡ stored s
  unfolding session_delete
  session_delete_rolls_back tasks e h = deleted_rolls_back (deletion tasks s) (removed tasks) h

  pub session_delete_removes :
      (tasks : List Task)
      → (session_delete tasks s).1 ≡ none
      → (stored (session_delete tasks s).2 ≡ without tasks (stored s))
        × ((session_delete tasks s).0 ≡ pos (length (stored s) - length (without tasks (stored s))))
  unfolding session_delete
  session_delete_removes tasks h = deleted-Removes (deletion tasks s) (removed tasks) h

  pub session_find_keeps : (range : ℤ) → stored (session_find range s).2 ≡ stored s
  unfolding session_find
  session_find_keeps range =
      (find-Keeps (next_answers s).in_find ((next_answers s).to_next_exec_time range) s.repository
        s.consistent).tasks

-- The mysqlRepository fulfils the laws, whatever the driver answers.
abbrev pub mysql_laws : RepositoryLaws mysql
mysql_laws = record {
  contents = stored;
  contents_fit = λ s. s.small;
  create_rolls_back = λ task is_taken s e h. session_create_rolls_back s task is_taken e h;
  create_stores = λ task is_taken s h. session_create_stores s task is_taken h;
  delete_rolls_back = λ tasks s e h. session_delete_rolls_back s tasks e h;
  delete_removes = λ tasks s h. (session_delete_removes s tasks h).0;
  delete_affects = λ tasks s h. (session_delete_removes s tasks h).1;
  find_keeps = λ range s. session_find_keeps s range;
}

rows_in : (s : Session) → length (stored s) ≡ length s.repository.db.rows
rows_in s = length-contents_of s.repository.db.collections s.repository.db.rows

-- A task manager over the mysqlRepository.
abbrev pub over_mysql : ℤ → (Topic → Bool) → (String → Bool) → TaskManager Session (List ℕ)
over_mysql max_retry known is_id_valid = record {
  repository = mysql;
  max_retry = max_retry;
  known = known;
  is_id_valid = is_id_valid;
}

-- calls-Counted
pub calls-Counted :
    (max_retry : ℤ) (known : Topic → Bool) (is_id_valid : String → Bool)
    → 0 < pos_part max_retry
    → known all ≡ true
    → (cs : List Call) (w : World Session)
    → total w.published ≡ pos (length w.repo.repository.db.rows)
    → let w' = calls (over_mysql max_retry known is_id_valid) cs w in
      total w'.published ≡ pos (length w'.repo.repository.db.rows)
calls-Counted max_retry known is_id_valid tries topic cs w b =
    let m = over_mysql max_retry known is_id_valid in
    let start : IsBalanced m mysql_laws w = record {
      balance = b ∙ ap pos (sym (rows_in w.repo));
    } in
    (calls-IsBalanced m mysql_laws tries topic cs w start).balance
    ∙ ap pos (rows_in (calls m cs w).repo)

read_as : {t : ℤ} {n : ℕ} → t ≡ pos n → n < 2 ^ 63 → int64 (pos 0 +ℤ t) ≡ pos n
read_as {t} {n} e small =
    ap int64 (zero_+ℤ t ∙ e) ∙ int64_eq (pos n) (record { above = omega arith; below = small })

-- For the task manager over the mysqlRepository, with a positive MaxRetry and the topic of all
-- tasks initialized: over any sequence of Create, Delete, GetTasksToComplete and ConfirmExecution,
-- with their retries, whatever statements of the database fail, if the measurements published for
-- all tasks add up to the number of rows of the table of tasks at first, then publishing all
-- measurements in order to a monitoring whose metric of all tasks is a fresh integral metric
-- leaves that metric at exactly the number of rows at the end. A table takes fewer than 2^63 rows,
-- the foreign key holds at first, the ids of collections are different and below the next one, and
-- the cleaning frequency is below 2^31.
pub calls-Read :
    (max_retry : ℤ) (known : Topic → Bool) (is_id_valid : String → Bool)
    → 0 < pos_part max_retry
    → known all ≡ true
    → (cs : List Call) (w : World Session)
    → total w.published ≡ pos (length w.repo.repository.db.rows)
    → (m : Monitoring) → Reads (pos 0) m
    → let w' = calls (over_mysql max_retry known is_id_valid) cs w in
      Reads (pos (length w'.repo.repository.db.rows)) (publish_all w'.published m)
calls-Read max_retry known is_id_valid tries topic cs w b m h =
    let w' = calls (over_mysql max_retry known is_id_valid) cs w in
    let c = calls-Counted max_retry known is_id_valid tries topic cs w b in
    let small = subst (λ n. n < 2 ^ 63) (rows_in w'.repo) w'.repo.small in
    subst (λ v. Reads v (publish_all w'.published m)) (read_as c small)
      (publish_all-Reads w'.published (pos 0) m
        (record { above = omega arith; below = omega arith }) h)
