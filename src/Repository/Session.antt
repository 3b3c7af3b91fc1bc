-- ===== src/Repository/Session.antt =====
-- The mysqlRepository behind the interface that the task manager calls. What the driver and the clocks
-- answer to each call is fixed beforehand, one set of answers for each; a table of 2^63 - 1 tasks
-- takes no more.
use triggerhook.Base.{
  ap, ℕ, suc, ◌<◌, ◌^◌, ℤ, pos, List, ◌∷◌, Bool, Bool-cases, Option, none, some, Option-cases, inl,
  inr, length, ltb, if◌then◌else◌, ◌≡◌, refl, sym, subst, arith, Returns-value, value,
}
use triggerhook.Domain.{Task}
use triggerhook.Contracts.Errors.{RepoError}
use triggerhook.TaskManager.Interface.{Repository}
use triggerhook.TaskManager.Accounting.{length-without}
use triggerhook.Repository.Tables.{Db}
use triggerhook.Repository.Failures.{SqlError, MysqlRepository}
use triggerhook.Repository.Create.{CreateFailures, create_task, create}
use triggerhook.Repository.Find.{FindFailures, find_by_sec_to_exec_time}
use triggerhook.Repository.Delete.{DeleteFailures, delete}
use triggerhook.Repository.Takes.{takes, fails, leaks, find-SearchEnd}
use triggerhook.Repository.Cleaning.{Fits, Deletion, deletes, fails_to, delete-Returns}
use triggerhook.Repository.Stores.{
  IsConsistent, tasks_in, Stores, stores, refuses, create_task-Stores,
}
use triggerhook.Repository.Keeps.{Keeps, find-Keeps, Removes, removes, keeps, Deletion-Removes}

-- What the driver and the clocks answer to a call; `to_next_exec_time` is the second that a range ends.
pub record Answers : Type 0 where
  pub in_create : CreateFailures
  pub in_delete : DeleteFailures
  pub in_find : FindFailures
  pub now : ℤ
  pub to_next_exec_time : ℤ → ℤ

pub record Session : Type 0 where
  pub repository : MysqlRepository
  pub consistent : IsConsistent repository.db
  pub frequency : Fits repository.cleaning_frequency
  pub small : length (tasks_in repository.db) < 2 ^ 63
  pub answers : ℕ → Answers
  pub calls : ℕ

-- The answers to the next call.
abbrev pub next_answers : Session → Answers
next_answers s = s.answers s.calls

-- ER_RECORD_FILE_FULL
abbrev pub table_full : SqlError
table_full = record { number = some 1114; text = "The table is full" }

abbrev pub limited : List Task → CreateFailures → CreateFailures
limited tasks f = record f {
  in_task = if ltb (suc (length tasks)) (2 ^ 63) then f.in_task else some table_full;
}

-- What a session knows of its repository.
pub record IsFit (r : MysqlRepository) : Type 0 where
  pub consistent : IsConsistent r.db
  pub frequency : Fits r.cleaning_frequency
  pub small : length (tasks_in r.db) < 2 ^ 63

-- The session after a call.
abbrev pub after_call : Session → (r : MysqlRepository) → IsFit r → Session
after_call s r fit = record {
  repository = r;
  consistent = fit.consistent;
  frequency = fit.frequency;
  small = fit.small;
  answers = s.answers;
  calls = suc s.calls;
}

Keeps-IsFit :
    {stored : List Task} {r : MysqlRepository}
    → Keeps stored r.db
    → Fits r.cleaning_frequency
    → length stored < 2 ^ 63
    → IsFit r
Keeps-IsFit k fits small = record {
  consistent = k.consistent;
  frequency = fits;
  small = subst (λ ts. length ts < 2 ^ 63) (sym k.tasks) small;
}

-- What Create does, of the repository.
pub data Creates (f : CreateFailures) (task : Task) (r : MysqlRepository)
    : Option RepoError × MysqlRepository → Type 0 where
  creates :
      {r' : MysqlRepository}
      → Keeps (task ∷ tasks_in r.db) r'.db
      → f.in_task ≡ none
      → r'.cleaning_frequency ≡ r.cleaning_frequency
      → Creates f task r (none, r')
  refused :
      {r' : MysqlRepository} {e : RepoError}
      → Keeps (tasks_in r.db) r'.db
      → r'.cleaning_frequency ≡ r.cleaning_frequency
      → Creates f task r (some e, r')

stored_of :
    {f : CreateFailures} {task : Task} {db : Db} {t : Option SqlError × Db}
    → Stores f task db t
    → t.0 ≡ none
    → Keeps (task ∷ tasks_in db) t.1 × (f.in_task ≡ none)
stored_of (stores c e q) n = (record { consistent = c; tasks = e }, q)
stored_of (refuses c e) n = cc n

kept_of :
    {f : CreateFailures} {task : Task} {db : Db} {t : Option SqlError × Db} {e : SqlError}
    → Stores f task db t
    → t.0 ≡ some e
    → Keeps (tasks_in db) t.1
kept_of (stores c e q) n = cc n
kept_of (refuses c e) n = record { consistent = c; tasks = e }

pub create-Creates :
    (f : CreateFailures) (task : Task) (is_taken : Bool) (r : MysqlRepository)
    → IsConsistent r.db
    → Creates f task r (create f task is_taken r)
unfolding create
create-Creates f task is_taken r c =
    let limit = r.max_count_tasks_in_collection in
    let t = create_task f r.app_instance_id task is_taken limit r.db in
    let h = create_task-Stores f r.app_instance_id task is_taken limit r.db c in
    elim (Option-cases t.0) [
      | inl n ↦ let (k, q) = stored_of h n in rw (create, n) (creates k q refl)
      | inr (e, n) ↦ let k = kept_of h n in rw (create, n) (refused k refl)
    ]

pub find-frequency :
    (f : FindFailures) (limit : ℤ) (r : MysqlRepository)
    → (find_by_sec_to_exec_time f limit r).repository.cleaning_frequency ≡ r.cleaning_frequency
find-frequency f limit r = elim (find-SearchEnd f r limit) [
  | takes _ _ _ _ _ k ↦ ap (λ x. x.0) k.settings
  | fails _ _ _ _ _ k ↦ ap (λ x. x.0) k.settings
  | leaks _ _ _ _ _ _ k ↦ ap (λ x. x.0) k.settings
]

pub Deletion-frequency :
    {tasks : List Task} {r : MysqlRepository} {t : ℤ × Option RepoError × MysqlRepository}
    → Deletion tasks r t
    → t.2.cleaning_frequency ≡ r.cleaning_frequency
Deletion-frequency (deletes _ _ _ e _) = ap (λ x. x.0) e
Deletion-frequency (fails_to _ _ e) = ap (λ x. x.0) e

pub room_for :
    (tasks : List Task) (f : CreateFailures)
    → (limited tasks f).in_task ≡ none
    → suc (length tasks) < 2 ^ 63
room_for tasks f h = elim (Bool-cases (ltb (suc (length tasks)) (2 ^ 63))) [
  | inl b ↦ ground (arith, b)
  | inr b ↦ cc (subst (λ x. (if x then f.in_task else some table_full) ≡ none) b h)
]

pub created-IsFit :
    (s : Session) (f : CreateFailures) {task : Task} (t : Option RepoError × MysqlRepository)
    → Creates (limited (tasks_in s.repository.db) f) task s.repository t
    → IsFit t.1
created-IsFit s f (none, r') (creates k q e) =
    Keeps-IsFit k (subst Fits (sym e) s.frequency) (room_for (tasks_in s.repository.db) f q)
created-IsFit s f (some e, r') (refused k q) =
    Keeps-IsFit k (subst Fits (sym q) s.frequency) s.small

pub deleted-IsFit :
    (s : Session) {tasks : List Task} (t : ℤ × Option RepoError × MysqlRepository)
    → Removes tasks (tasks_in s.repository.db) t
    → t.2.cleaning_frequency ≡ s.repository.cleaning_frequency
    → IsFit t.2
deleted-IsFit s {tasks} (n, none, r') (removes q k) e =
    Keeps-IsFit k (subst Fits (sym e) s.frequency)
      (let l = length-without tasks (tasks_in s.repository.db) in let m = s.small in omega arith)
deleted-IsFit s (n, some x, r') (keeps k) e = Keeps-IsFit k (subst Fits (sym e) s.frequency) s.small

pub found-IsFit :
    (s : Session) (f : FindFailures) (limit : ℤ)
    → IsFit (find_by_sec_to_exec_time f limit s.repository).repository
found-IsFit s f limit =
    Keeps-IsFit (find-Keeps f limit s.repository s.consistent)
      (subst Fits (sym (find-frequency f limit s.repository)) s.frequency) s.small

abbrev pub creation : Task → Bool → Session → Option RepoError × MysqlRepository
creation task is_taken s =
    create (limited (tasks_in s.repository.db) (next_answers s).in_create) task is_taken
      s.repository

pub creation-Creates :
    (task : Task) (is_taken : Bool) (s : Session)
    → Creates
        (limited (tasks_in s.repository.db) (next_answers s).in_create)
        task
        s.repository
        (creation task is_taken s)
creation-Creates task is_taken s =
    create-Creates (limited (tasks_in s.repository.db) (next_answers s).in_create) task is_taken
      s.repository s.consistent

-- Create, as the interface has it.
unfoldable pub session_create : Task → Bool → Session → Option RepoError × Session
unfolding create
session_create task is_taken s =
    let t = creation task is_taken s in
    (
      t.0,
      after_call s t.1
          (created-IsFit s (next_answers s).in_create t (creation-Creates task is_taken s)),
    )

-- What Delete returns; it does, as the cleaning frequency fits an int32.
abbrev pub deletion : List Task → Session → ℤ × Option RepoError × MysqlRepository
deletion tasks s =
    value (pos 0, none, s.repository)
      (delete (next_answers s).in_delete (next_answers s).now tasks s.repository)

pub deletion-Deletion :
    (tasks : List Task) (s : Session) → Deletion tasks s.repository (deletion tasks s)
deletion-Deletion tasks s =
    Returns-value (pos 0, none, s.repository)
      (delete-Returns (next_answers s).in_delete (next_answers s).now tasks s.repository
        s.frequency)

unfoldable pub session_delete : List Task → Session → ℤ × Option RepoError × Session
unfolding delete
session_delete tasks s =
    let t = deletion tasks s in
    let d = deletion-Deletion tasks s in
    (
      t.0,
      t.1,
      after_call s t.2 (deleted-IsFit s t (Deletion-Removes d s.consistent) (Deletion-frequency d)),
    )

unfoldable pub session_find : ℤ → Session → Option (List ℕ) × Option RepoError × Session
unfolding find_by_sec_to_exec_time
session_find range s =
    let f = (next_answers s).in_find in
    let limit = (next_answers s).to_next_exec_time range in
    let found = find_by_sec_to_exec_time f limit s.repository in
    (found.collections, found.err, after_call s found.repository (found-IsFit s f limit))

-- contracts.RepositoryInterface, as the mysqlRepository implements it.
abbrev pub mysql : Repository Session (List ℕ)
mysql = record {
  create = session_create;
  delete = session_delete;
  find_by_sec_to_exec_time = session_find;
}
