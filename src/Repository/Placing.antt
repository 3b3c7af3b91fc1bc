-- ===== src/Repository/Placing.antt =====
-- Where create_task puts a task.
use triggerhook.Base.{
  ℕ, ℤ, pos, ltb_ℤ, int_eq, String, str_eq, List, [], ◌∷◌, Bool, true, false, not, ◌&&◌, Bool-cases,
  Option, none, some, Option-cases, if◌then◌else◌, inl, inr, ◌≡◌, refl, sym, ap, subst, ◌∙◌, arith,
}
use triggerhook.Domain.{Task}
use triggerhook.Repository.Tables.{Collection, Row, Db, count_in, has_uuid}
use triggerhook.Repository.Failures.{SqlError, MysqlRepository, er_dup_entry}
use triggerhook.Repository.Create.{
  creating_error, CreateFailures, has_room, find_collection, insert_task, collection_for,
  create_task, create,
}
use triggerhook.Repository.Linked.{collection_passes}
use triggerhook.Repository.Search.{In, here, there, str_eq_refl}

-- A collection that create_task may put a task of that time in.
pub record IsPlace (is_taken : Bool) (app : String) (exec_time : ℤ) (db : Db) (id : ℕ)
    : Type 0 where
  pub collection : Collection
  pub listed : In collection db.collections
  pub named : collection.id ≡ id
  pub timed : int_eq collection.exec_time exec_time ≡ true
  pub owned :
      (if is_taken
        then str_eq collection.taken_by_instance app
        else not (str_eq collection.taken_by_instance app))
      ≡ true

and_left : {a : Bool} (b : Bool) → a && b ≡ true → a ≡ true
and_left {a = true} b h = refl
and_left {a = false} b h = h

and_right : (a : Bool) {b : Bool} → a && b ≡ true → b ≡ true
and_right true h = h
and_right false h = cc h

int_eq_refl : (a : ℤ) → int_eq a a ≡ true
int_eq_refl a = ground arith

some_inj : {a b : ℕ} → some a ≡ some b → a ≡ b
some_inj e = cc e

new_owned :
    (is_taken : Bool) (app : String)
    → str_eq "" app ≡ false
    → (if is_taken
        then str_eq (if is_taken then app else "") app
        else not (str_eq (if is_taken then app else "") app))
      ≡ true
new_owned true app ne = str_eq_refl app
new_owned false app ne = rw ne refl

has_room-parts :
    (is_taken : Bool) (app : String) (exec_time limit : ℤ) (rows : List Row) (c : Collection)
    → has_room is_taken app exec_time limit rows c ≡ true
    → (int_eq c.exec_time exec_time ≡ true)
      × ((if is_taken then str_eq c.taken_by_instance app else not (str_eq c.taken_by_instance app))
          ≡ true)
unfolding has_room
has_room-parts is_taken app exec_time limit rows c b =
    let mine = str_eq c.taken_by_instance app in
    let owner : Bool = if is_taken then mine else not mine in
    let room = ltb_ℤ (pos (count_in c.id rows)) limit in
    let both : int_eq c.exec_time exec_time && owner ≡ true = and_left room b in
    (and_left owner both, and_right (int_eq c.exec_time exec_time) both)

find_collection-IsPlace :
    (is_taken : Bool) (app : String) (exec_time limit : ℤ) (db : Db) (cs : List Collection) {id : ℕ}
    → ((c : Collection) → In c cs → In c db.collections)
    → find_collection is_taken app exec_time limit db.rows cs ≡ some id
    → IsPlace is_taken app exec_time db id
unfolding find_collection has_room
find_collection-IsPlace is_taken app exec_time limit db [] m h = cc h
find_collection-IsPlace is_taken app exec_time limit db (c ∷ cs) {id} m h =
    elim (Bool-cases (has_room is_taken app exec_time limit db.rows c)) [
      | inl b ↦
          let (timed, owned) = has_room-parts is_taken app exec_time limit db.rows c b in
          record {
            collection = c;
            listed = m c here;
            named = some_inj (
                subst
                  (λ x.
                    (if x
                      then some c.id
                      else find_collection is_taken app exec_time limit db.rows cs)
                    ≡ some id)
                  b h);
            timed = timed;
            owned = owned;
          }
      | inr b ↦
          find_collection-IsPlace is_taken app exec_time limit db cs (λ x i. m x (there i))
            (subst
              (λ x.
                (if x then some c.id else find_collection is_taken app exec_time limit db.rows cs)
                ≡ some id)
              b h)
    ]

collection_for-IsPlace :
    (is_taken : Bool) (app : String) (exec_time limit : ℤ) (db : Db)
    → str_eq "" app ≡ false
    → IsPlace is_taken app exec_time
        (collection_for is_taken app exec_time limit db).1
        (collection_for is_taken app exec_time limit db).0
unfolding collection_for
collection_for-IsPlace is_taken app exec_time limit db ne =
    elim (Option-cases (find_collection is_taken app exec_time limit db.rows db.collections)) [
      | inr (id, h) ↦
          rw (collection_for, h)
            (find_collection-IsPlace is_taken app exec_time limit db db.collections (λ c i. i) h)
      | inl h ↦
          rw (collection_for, h)
            (record {
              collection = record {
                id = db.next_id;
                exec_time = exec_time;
                taken_by_instance = if is_taken then app else "";
              };
              listed = here;
              named = refl;
              timed = int_eq_refl exec_time;
              owned = new_owned is_taken app ne;
            })
    ]

-- A task that create_task has stored without an error.
pub record IsStored (is_taken : Bool) (app : String) (task : Task) (db : Db) : Type 0 where
  pub id : ℕ
  pub place : IsPlace is_taken app task.exec_time db id
  pub others : List Row
  pub row : db.rows ≡ record { uuid = task.id; collection_id = id } ∷ others

insert_twice :
    (uuid : String) (id : ℕ) (db : Db)
    → has_uuid uuid db.rows ≡ true
    → (insert_task none uuid id db).0
      ≡ some (record { number = some er_dup_entry; text = "Duplicate entry" })
unfolding insert_task
insert_twice uuid id db b = rw b refl

insert_task-IsStored :
    (failure : Option SqlError) (is_taken : Bool) (app : String) (task : Task) (id : ℕ) (db : Db)
    → IsPlace is_taken app task.exec_time db id
    → (insert_task failure task.id id db).0 ≡ none
    → IsStored is_taken app task (insert_task failure task.id id db).1
unfolding insert_task
insert_task-IsStored (some e) is_taken app task id db p h = cc h
insert_task-IsStored none is_taken app task id db p h =
    elim (Bool-cases (has_uuid task.id db.rows)) [
      | inl b ↦ cc (insert_twice task.id id db b, h)
      | inr b ↦ rw b (record {
        id = id;
        place = record {
          collection = p.collection;
          listed = p.listed;
          named = p.named;
          timed = p.timed;
          owned = p.owned;
        };
        others = db.rows;
        row = refl;
      })
    ]

collection_fails :
    (f : CreateFailures) (app : String) (task : Task) (is_taken : Bool) (limit : ℤ) (db : Db)
    {e : SqlError}
    → f.in_collection ≡ some e
    → (create_task f app task is_taken limit db).0 ≡ some e
unfolding create_task
collection_fails f app task is_taken limit db k = rw k refl

create_passes :
    (f : CreateFailures) (task : Task) (is_taken : Bool) (r : MysqlRepository)
    → (create_task f r.app_instance_id task is_taken r.max_count_tasks_in_collection r.db).0 ≡ none
    → (create f task is_taken r).1 ≡ record r {
      db = (create_task f r.app_instance_id task is_taken r.max_count_tasks_in_collection r.db).1;
    }
unfolding create
create_passes f task is_taken r k = rw (create, k) refl

create_fails :
    (f : CreateFailures) (task : Task) (is_taken : Bool) (r : MysqlRepository) (e : SqlError)
    → (create_task f r.app_instance_id task is_taken r.max_count_tasks_in_collection r.db).0
      ≡ some e
    → (create f task is_taken r).0 ≡ some (creating_error e)
unfolding create
create_fails f task is_taken r e k = rw (create, k) refl

create_task-IsStored :
    (f : CreateFailures) (app : String) (task : Task) (is_taken : Bool) (limit : ℤ) (db : Db)
    → str_eq "" app ≡ false
    → (create_task f app task is_taken limit db).0 ≡ none
    → IsStored is_taken app task (create_task f app task is_taken limit db).1
create_task-IsStored f app task is_taken limit db ne h = elim (Option-cases (f.in_collection)) [
  | inr (e, k) ↦ cc (collection_fails f app task is_taken limit db k, h)
  | inl k ↦
      let eq = collection_passes f app task is_taken limit db k in
      let (id, db') = collection_for is_taken app task.exec_time limit db in
      rw eq (
        insert_task-IsStored f.in_task is_taken app task id db'
          (collection_for-IsPlace is_taken app task.exec_time limit db ne)
          (sym (ap (λ t. t.0) eq) ∙ h))
]

pub create-IsStored :
    (f : CreateFailures) (task : Task) (is_taken : Bool) (r : MysqlRepository)
    → str_eq "" r.app_instance_id ≡ false
    → (create f task is_taken r).0 ≡ none
    → IsStored is_taken r.app_instance_id task (create f task is_taken r).1.db
      × ((create f task is_taken r).1.app_instance_id ≡ r.app_instance_id)
create-IsStored f task is_taken r ne h =
    let stored =
      create_task f r.app_instance_id task is_taken r.max_count_tasks_in_collection r.db in
    elim (Option-cases stored.0) [
      | inl k ↦ rw (create_passes f task is_taken r k) (
        create_task-IsStored f r.app_instance_id task is_taken r.max_count_tasks_in_collection r.db
            ne k,
        refl,
      )
      | inr (e, k) ↦ cc (create_fails f task is_taken r e k, h)
    ]
