-- ===== src/Repository/Create.antt =====
-- Create and the stored procedure create_task.
use triggerhook.Base.{
  ℕ, suc, ℤ, pos, ltb_ℤ, int_eq, String, str_eq, List, [], ◌∷◌, Bool, not, ◌&&◌, Option, none, some,
  if◌then◌else◌,
}
use triggerhook.Domain.{Task}
use triggerhook.Contracts.Errors.{RepoError, creating_task, task_exist, deadlock}
use triggerhook.Repository.Tables.{Collection, Row, Db, count_in, has_uuid}
use triggerhook.Repository.Failures.{
  SqlError, has_number, er_dup_entry, er_lock_deadlock, MysqlRepository, report,
}

-- The failures of the statements of create_task, each of which commits by itself.
pub record CreateFailures : Type 0 where
  pub in_collection : Option SqlError
  pub in_task : Option SqlError

-- The collections that the first query of create_task selects.
unfoldable pub has_room : Bool → String → ℤ → ℤ → List Row → Collection → Bool
unfolding count_in
has_room is_taken app exec_time limit rows c =
    let mine = str_eq c.taken_by_instance app in
    int_eq c.exec_time exec_time
    && (if is_taken then mine else not mine)
    && ltb_ℤ (pos (count_in c.id rows)) limit

-- The query with its LIMIT 1: the model takes the first collection that it selects.
unfoldable pub find_collection : Bool → String → ℤ → ℤ → List Row → List Collection → Option ℕ
unfolding has_room
find_collection is_taken app exec_time limit rows [] = none
find_collection is_taken app exec_time limit rows (c ∷ rest) =
    let found = find_collection is_taken app exec_time limit rows rest in
    if has_room is_taken app exec_time limit rows c then some c.id else found

abbrev pub insert_collection : Bool → String → ℤ → Db → Db
insert_collection is_taken app exec_time db =
    let c : Collection = record {
      id = db.next_id;
      exec_time = exec_time;
      taken_by_instance = if is_taken then app else "";
    } in
    record { collections = c ∷ db.collections; rows = db.rows; next_id = suc db.next_id }

-- INSERT INTO task, under the primary key of its table.
unfoldable pub insert_task : Option SqlError → String → ℕ → Db → Option SqlError × Db
unfolding has_uuid
insert_task (some e) uuid id db = (some e, db)
insert_task none uuid id db =
    if has_uuid uuid db.rows
    then (some (record { number = some er_dup_entry; text = "Duplicate entry" }), db)
    else (none, record db { rows = record { uuid = uuid; collection_id = id } ∷ db.rows })

-- The collection that create_task adds the task to, and the database with it.
unfoldable pub collection_for : Bool → String → ℤ → ℤ → Db → ℕ × Db
unfolding find_collection
collection_for is_taken app exec_time limit db =
    elim (find_collection is_taken app exec_time limit db.rows db.collections) [
      | some id ↦ (id, db)
      | none ↦ (db.next_id, insert_collection is_taken app exec_time db)
    ]

unfoldable pub create_task : CreateFailures → String → Task → Bool → ℤ → Db → Option SqlError × Db
unfolding collection_for insert_task
create_task failures app task is_taken limit db =
    let (id, db') = collection_for is_taken app task.exec_time limit db in
    elim (failures.in_collection) [
      | some e ↦ (some e, db)
      | none ↦ insert_task failures.in_task task.id id db'
    ]

abbrev pub creating_error : SqlError → RepoError
creating_error e =
    if has_number er_dup_entry e
    then task_exist
    else if has_number er_lock_deadlock e
    then deadlock
    else creating_task

unfoldable pub create :
    CreateFailures → Task → Bool → MysqlRepository → Option RepoError × MysqlRepository
unfolding create_task
create failures task is_taken r =
    let (err, db) =
      create_task failures r.app_instance_id task is_taken r.max_count_tasks_in_collection r.db in
    let r' = record r { db = db } in
    elim err [ none ↦ (none, r') | some e ↦ (some (creating_error e), report e.text r') ]
