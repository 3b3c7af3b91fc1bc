-- ===== src/Repository/Stores.antt =====
-- What Create does to the tasks that the tables stand for.
use triggerhook.Base.{
  ℕ, ◌<◌, ◌==◌, ℤ, String, List, ◌∷◌, Bool, true, false, Bool-cases, Option, none, some,
  Option-cases, inl, inr, ◌≡◌, refl, ap, subst, ◌∙◌, arith,
}
use triggerhook.Domain.{Task}
use triggerhook.Repository.Tables.{Db, has_uuid, is_among}
use triggerhook.Repository.Failures.{SqlError}
use triggerhook.Repository.Create.{
  CreateFailures, find_collection, insert_collection, insert_task, collection_for, create_task,
}
use triggerhook.Repository.Search.{ids_of}
use triggerhook.Repository.Linked.{
  IsLinked, and_row, find_collection-among, collection_passes, eq_of, or_other,
  collection_for-IsLinked,
}
use triggerhook.Repository.Contents.{
  time_of, contents_of, contents_of-agree, Distinct, other_id, find_collection-time,
}

-- The foreign key holds, and the ids of the collections are different and have been given out.
pub record IsConsistent (db : Db) : Type 0 where
  pub linked : IsLinked db
  pub below : (id : ℕ) → is_among id (ids_of db.collections) ≡ true → id < db.next_id
  pub distinct : Distinct (ids_of db.collections)

-- The tasks of a database.
abbrev pub tasks_in : Db → List Task
tasks_in db = contents_of db.collections db.rows

-- The collection for a task is there, at its time, and no other task has changed.
record Placed (exec_time : ℤ) (db : Db) (x : ℕ × Db) : Type 0 where
  consistent : IsConsistent x.1
  there : is_among x.0 (ids_of x.1.collections) ≡ true
  at_time : time_of x.0 x.1.collections ≡ exec_time
  same : tasks_in x.1 ≡ tasks_in db
  rows : x.1.rows ≡ db.rows

not_yet :
    (ids : List ℕ) (n : ℕ) → ((id : ℕ) → is_among id ids ≡ true → id < n) → is_among n ids ≡ false
not_yet ids n below = elim (Bool-cases (is_among n ids)) [
  | inl b ↦ absurd (let l = below n b in omega arith)
  | inr b ↦ b
]

same_id : (id : ℕ) → (id == id) ≡ true
same_id id = ground arith

inserted-Placed :
    (is_taken : Bool) (app : String) (exec_time : ℤ) (db : Db)
    → IsConsistent db
    → IsLinked (insert_collection is_taken app exec_time db)
    → Placed exec_time db (db.next_id, insert_collection is_taken app exec_time db)
unfolding is_among
inserted-Placed is_taken app exec_time db c l =
    let new = not_yet (ids_of db.collections) db.next_id c.below in
    record {
      consistent = record {
        linked = l;
        below = λ id a. elim (Bool-cases (db.next_id == id)) [
          | inl e ↦ let q = eq_of e in omega arith
          | inr e ↦ let b = c.below id (or_other e a) in omega arith
        ];
        distinct = (new, c.distinct);
      };
      there = rw (same_id db.next_id) refl;
      at_time = rw (same_id db.next_id) refl;
      same =
          contents_of-agree db.collections (insert_collection is_taken app exec_time db).collections
            (λ id a n. rw (other_id db.next_id id (ids_of db.collections) new a) refl)
            c.linked.rows;
      rows = refl;
    }

inserted_when :
    (is_taken : Bool) (app : String) (exec_time limit : ℤ) (db : Db)
    → find_collection is_taken app exec_time limit db.rows db.collections ≡ none
    → collection_for is_taken app exec_time limit db
      ≡ (db.next_id, insert_collection is_taken app exec_time db)
unfolding collection_for
inserted_when is_taken app exec_time limit db h = rw (collection_for, h) refl

collection_for-Placed :
    (is_taken : Bool) (app : String) (exec_time limit : ℤ) (db : Db)
    → IsConsistent db
    → Placed exec_time db (collection_for is_taken app exec_time limit db)
unfolding collection_for
collection_for-Placed is_taken app exec_time limit db c =
    let (linked, among) = collection_for-IsLinked is_taken app exec_time limit db c.linked in
    elim (Option-cases (find_collection is_taken app exec_time limit db.rows db.collections)) [
      | inr (id, h) ↦
          rw (collection_for, h)
            (record {
              consistent = c;
              there = find_collection-among is_taken app exec_time limit db.rows db.collections h;
              at_time =
                  find_collection-time is_taken app exec_time limit db.rows db.collections
                    c.distinct h;
              same = refl;
              rows = refl;
            })
      | inl h ↦
          rw (collection_for, h)
            (inserted-Placed is_taken app exec_time db c (
              subst IsLinked (ap (λ x. x.1) (inserted_when is_taken app exec_time limit db h))
                linked))
    ]

-- A task is stored if no statement fails and its id is new; or nothing is.
pub data Stores (f : CreateFailures) (task : Task) (db : Db) : Option SqlError × Db → Type 0 where
  stores :
      {db' : Db}
      → IsConsistent db'
      → tasks_in db' ≡ task ∷ tasks_in db
      → f.in_task ≡ none
      → Stores f task db (none, db')
  refuses :
      {db' : Db} {e : SqlError}
      → IsConsistent db'
      → tasks_in db' ≡ tasks_in db
      → Stores f task db (some e, db')

insert_task-Stores :
    (f : CreateFailures) (failure : Option SqlError) (task : Task) (db : Db) (id : ℕ) (db' : Db)
    → f.in_task ≡ failure
    → Placed task.exec_time db (id, db')
    → Stores f task db (insert_task failure task.id id db')
unfolding insert_task
insert_task-Stores f (some e) task db id db' q p = refuses p.consistent p.same
insert_task-Stores f none task db id db' q p = elim (Bool-cases (has_uuid task.id db'.rows)) [
  | inl b ↦ rw b (refuses p.consistent p.same)
  | inr b ↦ rw b (
      stores
        (record {
          linked = record { rows = and_row p.there p.consistent.linked.rows };
          below = p.consistent.below;
          distinct = p.consistent.distinct;
        })
        (ap (λ t. record { id = task.id; exec_time = t } ∷ tasks_in db') p.at_time
          ∙ ap (λ ts. task ∷ ts) p.same)
        q)
]

pub create_task-Stores :
    (f : CreateFailures) (app : String) (task : Task) (is_taken : Bool) (limit : ℤ) (db : Db)
    → IsConsistent db
    → Stores f task db (create_task f app task is_taken limit db)
unfolding create_task
create_task-Stores f app task is_taken limit db c =
    let p = collection_for-Placed is_taken app task.exec_time limit db c in
    let (id, db') = collection_for is_taken app task.exec_time limit db in
    let h = insert_task-Stores f f.in_task task db id db' refl p in
    elim (Option-cases (f.in_collection)) [
      | inr (e, b) ↦ rw b (refuses c refl)
      | inl b ↦ rw (collection_passes f app task is_taken limit db b) h
    ]
