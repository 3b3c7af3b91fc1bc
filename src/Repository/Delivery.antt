-- ===== src/Repository/Delivery.antt =====
-- A task that is stored as not taken is found by the first search that reaches its time.
use triggerhook.Base.{
  ℕ, ℤ, ltb_ℤ, int_eq, String, str_eq, List, [], ◌∷◌, true, false, not, none, some, ◌≡◌, refl, sym,
  subst, arith,
}
use triggerhook.Domain.{Task}
use triggerhook.Repository.Tables.{Collection, Row, Db, is_among}
use triggerhook.Repository.Failures.{MysqlRepository}
use triggerhook.Repository.Create.{CreateFailures, create}
use triggerhook.Repository.Find.{
  Found, is_due, select_due, find_by_sec_to_exec_time, take_collections, read_rows, close_rows,
}
use triggerhook.Repository.Search.{ids_of, select_due-among}
use triggerhook.Repository.Takes.{no_failures}
use triggerhook.Repository.Placing.{create-IsStored}

-- The collection of the task, as it was stored, is among those found.
pub record IsFound (task : Task) (db : Db) (found : Found) : Type 0 where
  pub id : ℕ
  pub ids : List ℕ
  pub others : List Row
  pub row : db.rows ≡ record { uuid = task.id; collection_id = id } ∷ others
  pub searched : found.collections ≡ some ids
  pub among : is_among id ids ≡ true

-- A search without failures.
abbrev pub search : ℤ → MysqlRepository → Found
search limit r = find_by_sec_to_exec_time no_failures limit r

search_takes :
    (limit : ℤ) (r : MysqlRepository) (due : List Collection) (id : ℕ)
    → select_due limit r.app_instance_id r.db.collections ≡ due
    → is_among id (ids_of due) ≡ true
    → (search limit r).collections ≡ some (ids_of due)
unfolding find_by_sec_to_exec_time read_rows take_collections close_rows is_among
search_takes limit r [] id e a = cc a
search_takes limit r (c ∷ due) id e a = rw e refl

-- A collection with the task's time that is not taken is due when the task is.
place_due :
    (limit : ℤ) (app : String) (task : Task) (c : Collection)
    → ltb_ℤ limit task.exec_time ≡ false
    → int_eq c.exec_time task.exec_time ≡ true
    → not (str_eq c.taken_by_instance app) ≡ true
    → is_due limit app c ≡ true
place_due limit app task c reached timed owned = rw owned (ground arith)

-- If the instance has an id that is not empty and Create stores a task as not taken without an
-- error, then the next search of the repository that meets no failures and reaches the execution
-- time of the task returns ids of collections, among them the collection that the task was stored
-- in.
pub create-IsFound :
    (f : CreateFailures) (task : Task) (limit : ℤ) (r : MysqlRepository)
    → str_eq "" r.app_instance_id ≡ false
    → ltb_ℤ limit task.exec_time ≡ false
    → (create f task false r).0 ≡ none
    → IsFound task (create f task false r).1.db (search limit (create f task false r).1)
create-IsFound f task limit r ne reached h =
    let r' = (create f task false r).1 in
    let (s, app) = create-IsStored f task false r ne h in
    let p = s.place in
    let due = select_due limit r'.app_instance_id r'.db.collections in
    let d =
      place_due limit r'.app_instance_id task p.collection reached p.timed
        (subst (λ a. not (str_eq p.collection.taken_by_instance a) ≡ true) (sym app) p.owned) in
    let a = select_due-among limit r'.app_instance_id p.listed d in
    record {
      id = s.id;
      ids = ids_of due;
      others = s.others;
      row = s.row;
      searched = search_takes limit r' due p.collection.id refl a;
      among = subst (λ i. is_among i (ids_of due) ≡ true) p.named a;
    }
