-- ===== src/Repository/Capacity.antt =====
-- How many tasks a collection gets.
use triggerhook.Base.{
  ℕ, suc, ◌-◌, ◌<◌, ◌≤◌, ◌==◌, ℤ, pos, negsuc, pos_part, ltb_ℤ, int_eq, String, str_eq, List, [],
  ◌∷◌, Bool, true, false, not, ◌&&◌, Bool-cases, Option, none, some, Option-cases, if◌then◌else◌,
  inl, inr, ◌≡◌, refl, subst, arith,
}
use triggerhook.Domain.{Task}
use triggerhook.Repository.Tables.{Collection, Row, Db, count_in, has_uuid, is_among}
use triggerhook.Repository.Failures.{SqlError}
use triggerhook.Repository.Create.{
  CreateFailures, has_room, find_collection, insert_task, insert_collection, collection_for,
  create_task,
}
use triggerhook.Repository.Find.{set_taken}
use triggerhook.Repository.Delete.{is_named, delete_rows, delete_collections}
use triggerhook.Repository.Search.{ids_of, or_right}
use triggerhook.Repository.Linked.{
  LinkedRows, no_rows, and_row, IsLinked, collection_passes, set_taken-ids, or_other, eq_of,
}

-- The most tasks that a collection gets: the limit, and one where it is lower.
abbrev pub most : ℤ → ℕ
most limit = suc (pos_part limit - 1)

pub record IsRoomy (limit : ℤ) (db : Db) : Type 0 where
  pub ids : (id : ℕ) → is_among id (ids_of db.collections) ≡ true → id < db.next_id
  pub room : (id : ℕ) → count_in id db.rows ≤ most limit

below : (n : ℕ) (limit : ℤ) → ltb_ℤ (pos n) limit ≡ true → n < most limit
below n (pos l) h = ground arith
below n (negsuc l) h = ground arith

last_of : (a : Bool) {c : Bool} → (a && c) ≡ true → c ≡ true
last_of true h = h
last_of false h = cc h

has_room-below :
    (is_taken : Bool) (app : String) (exec_time limit : ℤ) (rows : List Row) (c : Collection)
    → has_room is_taken app exec_time limit rows c ≡ true
    → count_in c.id rows < most limit
unfolding has_room
has_room-below is_taken app exec_time limit rows c h =
    let mine = str_eq c.taken_by_instance app in
    below (count_in c.id rows) limit
      (last_of (int_eq c.exec_time exec_time && (if is_taken then mine else not mine)) h)

some_inj : {a b : ℕ} → some a ≡ some b → a ≡ b
some_inj e = cc e

find_collection-below :
    (is_taken : Bool) (app : String) (exec_time limit : ℤ) (rows : List Row) (cs : List Collection)
    {id : ℕ}
    → find_collection is_taken app exec_time limit rows cs ≡ some id
    → count_in id rows < most limit
unfolding find_collection
find_collection-below is_taken app exec_time limit rows [] h = cc h
find_collection-below is_taken app exec_time limit rows (c ∷ cs) {id} h =
    let chosen : Bool → Type 0 = λ x.
      (if x then some c.id else find_collection is_taken app exec_time limit rows cs) ≡ some id in
    elim (Bool-cases (has_room is_taken app exec_time limit rows c)) [
      | inl b ↦
          subst (λ i. count_in i rows < most limit) (some_inj (subst chosen b h))
            (has_room-below is_taken app exec_time limit rows c b)
      | inr b ↦ find_collection-below is_taken app exec_time limit rows cs (subst chosen b h)
    ]

-- Nothing refers to a collection that is not there.
absent-count :
    {ids : List ℕ} {rows : List Row} (id : ℕ)
    → is_among id ids ≡ false
    → LinkedRows ids rows
    → count_in id rows ≡ 0
unfolding count_in
absent-count id n no_rows = refl
absent-count {ids} id n (and_row {row = row} {rows = rows} a l) =
    elim (Bool-cases (row.collection_id == id)) [
      | inl e ↦ cc (subst (λ i. is_among i ids ≡ true) (eq_of e) a, n)
      | inr e ↦ rw e (absent-count id n l)
    ]

-- The collection for a task has room for it, and is there.
pub record HasRoom (limit : ℤ) (id : ℕ) (db : Db) : Type 0 where
  pub roomy : IsRoomy limit db
  pub below : count_in id db.rows < most limit

new_collection-HasRoom :
    (is_taken : Bool) (app : String) (exec_time limit : ℤ) (db : Db)
    → IsLinked db
    → IsRoomy limit db
    → HasRoom limit db.next_id (insert_collection is_taken app exec_time db)
unfolding is_among
new_collection-HasRoom is_taken app exec_time limit db l r = record {
  roomy = record {
    ids = λ id a. elim (Bool-cases (db.next_id == id)) [
      | inl e ↦ let q = eq_of e in omega arith
      | inr e ↦ let h = r.ids id (or_other e a) in omega arith
    ];
    room = r.room;
  };
  below = elim (Bool-cases (is_among db.next_id (ids_of db.collections))) [
    | inl a ↦ let h = r.ids db.next_id a in absurd (omega arith)
    | inr n ↦ let h = absent-count db.next_id n l.rows in omega arith
  ];
}

collection_for-HasRoom :
    (is_taken : Bool) (app : String) (exec_time limit : ℤ) (db : Db)
    → IsLinked db
    → IsRoomy limit db
    → let (id, db') = collection_for is_taken app exec_time limit db in HasRoom limit id db'
unfolding collection_for
collection_for-HasRoom is_taken app exec_time limit db l r =
    elim (Option-cases (find_collection is_taken app exec_time limit db.rows db.collections)) [
      | inr (id, h) ↦
          rw (collection_for, h)
            (record {
              roomy = r;
              below = find_collection-below is_taken app exec_time limit db.rows db.collections h;
            })
      | inl h ↦ rw (collection_for, h) (new_collection-HasRoom is_taken app exec_time limit db l r)
    ]

insert_task-IsRoomy :
    (failure : Option SqlError) (uuid : String) (id : ℕ) (limit : ℤ) (db : Db)
    → HasRoom limit id db
    → IsRoomy limit (insert_task failure uuid id db).1
unfolding insert_task count_in
insert_task-IsRoomy (some e) uuid id limit db h = h.roomy
insert_task-IsRoomy none uuid id limit db h = elim (Bool-cases (has_uuid uuid db.rows)) [
  | inl b ↦ rw b h.roomy
  | inr b ↦ rw b (record {
    ids = h.roomy.ids;
    room = λ i. elim (Bool-cases (id == i)) [
      | inl e ↦ rw e (subst (λ i. count_in i db.rows < most limit) (eq_of e) h.below)
      | inr e ↦ rw e (h.roomy.room i)
    ];
  })
]

pub create_task-IsRoomy :
    (f : CreateFailures) (app : String) (task : Task) (is_taken : Bool) (limit : ℤ) (db : Db)
    → IsLinked db
    → IsRoomy limit db
    → IsRoomy limit (create_task f app task is_taken limit db).1
unfolding create_task
create_task-IsRoomy f app task is_taken limit db l r =
    let c = collection_for-HasRoom is_taken app task.exec_time limit db l r in
    let (id, db') = collection_for is_taken app task.exec_time limit db in
    let h = insert_task-IsRoomy f.in_task task.id id limit db' c in
    elim (Option-cases (f.in_collection)) [
      | inr (e, b) ↦ rw b (record { ids = r.ids; room = r.room })
      | inl b ↦ rw (collection_passes f app task is_taken limit db b) h
    ]

pub set_taken-IsRoomy :
    (app : String) (taken : List ℕ) (limit : ℤ) (db : Db)
    → IsRoomy limit db
    → IsRoomy limit (record db { collections = set_taken app taken db.collections })
set_taken-IsRoomy app taken limit db r = record {
  ids = λ id a.
      r.ids id (subst (λ ids. is_among id ids ≡ true) (set_taken-ids app taken db.collections) a);
  room = r.room;
}

delete_rows-count :
    (tasks : List Task) (rows : List Row) (id : ℕ)
    → count_in id (delete_rows tasks rows) ≤ count_in id rows
unfolding delete_rows count_in
delete_rows-count tasks [] id = omega arith
delete_rows-count tasks (row ∷ rows) id =
    let h = delete_rows-count tasks rows id in
    elim (Bool-cases (is_named row.uuid tasks)) [
      | inl b ↦ rw b (ground arith)
      | inr b ↦ rw b (ground arith)
    ]

pub delete_rows-IsRoomy :
    (tasks : List Task) (limit : ℤ) (db : Db)
    → IsRoomy limit db
    → IsRoomy limit (record db { rows = delete_rows tasks db.rows })
delete_rows-IsRoomy tasks limit db r = record {
  ids = r.ids;
  room = λ id. let h = delete_rows-count tasks db.rows id in let k = r.room id in omega arith;
}

delete_collections-from :
    (gone : List ℕ) (cs : List Collection) (id : ℕ)
    → is_among id (ids_of (delete_collections gone cs)) ≡ true
    → is_among id (ids_of cs) ≡ true
unfolding delete_collections is_among
delete_collections-from gone [] id a = cc a
delete_collections-from gone (c ∷ cs) id a =
    let rest = delete_collections-from gone cs id in
    let kept = delete_collections gone cs in
    let stands : Bool → Type 0 = λ x. is_among id (ids_of (if x then kept else c ∷ kept)) ≡ true in
    elim (Bool-cases (is_among c.id gone)) [
      | inl b ↦ or_right (c.id == id) (rest (subst stands b a))
      | inr b ↦ elim (Bool-cases (c.id == id)) [
        | inl e ↦ rw e refl
        | inr e ↦ or_right (c.id == id) (rest (or_other e (subst stands b a)))
      ]
    ]

pub delete_collections-IsRoomy :
    (gone : List ℕ) (limit : ℤ) (db : Db)
    → IsRoomy limit db
    → IsRoomy limit (record db { collections = delete_collections gone db.collections })
delete_collections-IsRoomy gone limit db r = record {
  ids = λ id a. r.ids id (delete_collections-from gone db.collections id a);
  room = r.room;
}
