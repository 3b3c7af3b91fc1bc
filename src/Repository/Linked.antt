-- ===== src/Repository/Linked.antt =====
-- Every task has its collection, whatever the repository does.
use triggerhook.Base.{
  ◌-ℤ◌, pos, ℕ, ◌==◌, ℤ, ltb_ℤ, String, List, [], ◌∷◌, Bool, true, false, ◌&&◌, ◌||◌, Bool-cases,
  Option, none, some, Option-cases, if◌then◌else◌, inl, inr, ◌≡◌, ◌≢◌, refl, subst, arith,
}
use triggerhook.Domain.{Task}
use triggerhook.Repository.Tables.{Collection, Row, Db, count_in, has_uuid, is_among}
use triggerhook.Repository.Failures.{SqlError}
use triggerhook.Repository.Create.{
  CreateFailures, has_room, find_collection, insert_task, collection_for, create_task,
}
use triggerhook.Repository.Find.{set_taken}
use triggerhook.Repository.Delete.{
  is_named, delete_rows, is_empty_and_past, empty_ids, delete_collections,
}
use triggerhook.Repository.Search.{ids_of, or_right}

-- The foreign key of `task`.
pub data LinkedRows (ids : List ℕ) : List Row → Type 0 where
  no_rows : LinkedRows ids []
  and_row :
      {row : Row} {rows : List Row}
      → is_among row.collection_id ids ≡ true
      → LinkedRows ids rows
      → LinkedRows ids (row ∷ rows)

pub record IsLinked (db : Db) : Type 0 where
  pub rows : LinkedRows (ids_of db.collections) db.rows

weaken :
    {ids ids' : List ℕ} {rows : List Row}
    → ((id : ℕ) → is_among id ids ≡ true → is_among id ids' ≡ true)
    → LinkedRows ids rows
    → LinkedRows ids' rows
weaken h no_rows = no_rows
weaken h (and_row {row = row} a l) = and_row (h row.collection_id a) (weaken h l)

and_right : (a : Bool) {b : Bool} → a && b ≡ true → b ≡ true
and_right true h = h
and_right false h = cc h

pub or_other : {a b : Bool} → a ≡ false → a || b ≡ true → b ≡ true
or_other {a} {b} e h = subst (λ x. x || b ≡ true) e h

pub eq_of : {a b : ℕ} → (a == b) ≡ true → a ≡ b
eq_of h = ground arith

some_inj : {a b : ℕ} → some a ≡ some b → a ≡ b
some_inj e = cc e

pub find_collection-among :
    (is_taken : Bool) (app : String) (exec_time limit : ℤ) (rows : List Row) (cs : List Collection)
    {id : ℕ}
    → find_collection is_taken app exec_time limit rows cs ≡ some id
    → is_among id (ids_of cs) ≡ true
unfolding find_collection is_among
find_collection-among is_taken app exec_time limit rows [] h = cc h
find_collection-among is_taken app exec_time limit rows (c ∷ cs) {id} h =
    elim (Bool-cases (has_room is_taken app exec_time limit rows c)) [
      | inl b ↦
          let e : c.id ≡ id = some_inj (
            subst
              (λ x.
                (if x then some c.id else find_collection is_taken app exec_time limit rows cs)
                ≡ some id)
              b h) in
          rw e (ground arith)
      | inr b ↦ or_right (c.id == id) (
          find_collection-among is_taken app exec_time limit rows cs (
            subst
              (λ x.
                (if x then some c.id else find_collection is_taken app exec_time limit rows cs)
                ≡ some id)
              b h))
    ]

-- The collection that a task is created in is there, and so are those that were there before.
pub collection_for-IsLinked :
    (is_taken : Bool) (app : String) (exec_time limit : ℤ) (db : Db)
    → IsLinked db
    → let (id, db') = collection_for is_taken app exec_time limit db in
      IsLinked db' × (is_among id (ids_of db'.collections) ≡ true)
unfolding collection_for is_among
collection_for-IsLinked is_taken app exec_time limit db l =
    elim (Option-cases (find_collection is_taken app exec_time limit db.rows db.collections)) [
      | inr (id, h) ↦
          rw (collection_for, h)
            (l, find_collection-among is_taken app exec_time limit db.rows db.collections h)
      | inl h ↦
          rw (collection_for, h)
            (record { rows = weaken (λ id a. or_right (db.next_id == id) a) l.rows }, ground arith)
    ]

pub insert_task-IsLinked :
    (failure : Option SqlError) (uuid : String) (id : ℕ) (db : Db)
    → is_among id (ids_of db.collections) ≡ true
    → IsLinked db
    → IsLinked (insert_task failure uuid id db).1
unfolding insert_task
insert_task-IsLinked (some e) uuid id db a l = l
insert_task-IsLinked none uuid id db a l = elim (Bool-cases (has_uuid uuid db.rows)) [
  | inl b ↦ rw b l
  | inr b ↦ rw b (record { rows = and_row a l.rows })
]

pub collection_passes :
    (f : CreateFailures) (app : String) (task : Task) (is_taken : Bool) (limit : ℤ) (db : Db)
    → f.in_collection ≡ none
    → create_task f app task is_taken limit db ≡ (
        let (id, db') = collection_for is_taken app task.exec_time limit db in
        insert_task f.in_task task.id id db')
unfolding create_task
collection_passes f app task is_taken limit db b = rw b refl

pub create_task-IsLinked :
    (f : CreateFailures) (app : String) (task : Task) (is_taken : Bool) (limit : ℤ) (db : Db)
    → IsLinked db
    → IsLinked (create_task f app task is_taken limit db).1
unfolding create_task
create_task-IsLinked f app task is_taken limit db l =
    let (l', a) = collection_for-IsLinked is_taken app task.exec_time limit db l in
    let (id, db') = collection_for is_taken app task.exec_time limit db in
    let h = insert_task-IsLinked f.in_task task.id id db' a l' in
    elim (Option-cases (f.in_collection)) [
      | inr (e, b) ↦ rw b (record { rows = l.rows })
      | inl b ↦ rw (collection_passes f app task is_taken limit db b) h
    ]

pub set_taken-ids :
    (app : String) (ids : List ℕ) (cs : List Collection) → ids_of (set_taken app ids cs) ≡ ids_of cs
unfolding set_taken
set_taken-ids app ids [] = refl
set_taken-ids app ids (c ∷ cs) = elim (Bool-cases (is_among c.id ids)) [
  | inl b ↦ rw (b, set_taken-ids app ids cs) refl
  | inr b ↦ rw (b, set_taken-ids app ids cs) refl
]

pub delete_rows-LinkedRows :
    {ids : List ℕ} (tasks : List Task) {rows : List Row}
    → LinkedRows ids rows
    → LinkedRows ids (delete_rows tasks rows)
unfolding delete_rows
delete_rows-LinkedRows tasks no_rows = no_rows
delete_rows-LinkedRows tasks (and_row {row = row} a l) =
    elim (Bool-cases (is_named row.uuid tasks)) [
      | inl b ↦ rw b (delete_rows-LinkedRows tasks l)
      | inr b ↦ rw b (and_row a (delete_rows-LinkedRows tasks l))
    ]

pub keep :
    {ids ids' : List ℕ} {rows : List Row}
    → ((id : ℕ) → is_among id ids ≡ true → count_in id rows ≢ 0 → is_among id ids' ≡ true)
    → LinkedRows ids rows
    → LinkedRows ids' rows
unfolding count_in
keep h no_rows = no_rows
keep h (and_row {row = row} {rows = rows} a l) =
    and_row (h row.collection_id a (λ e. ground arith))
      (keep (λ id m n. h id m (λ e. n (ground arith))) l)

-- Only collections without tasks are cleaned.
pub empty_ids-count :
    (now : ℤ) (rows : List Row) (cs : List Collection) (id : ℕ)
    → is_among id (empty_ids now rows cs) ≡ true
    → count_in id rows ≡ 0
unfolding empty_ids is_empty_and_past is_among
empty_ids-count now rows [] id h = cc h
empty_ids-count now rows (c ∷ cs) id h =
    let rest = empty_ids-count now rows cs id in
    elim (Bool-cases (is_empty_and_past now rows c)) [
      | inl b ↦
          let h' =
            subst
              (λ x.
                is_among id (if x then c.id ∷ empty_ids now rows cs else empty_ids now rows cs)
                ≡ true)
              b h in
          elim (Bool-cases (c.id == id)) [
            | inl e ↦
                subst (λ i. count_in i rows ≡ 0) (eq_of e)
                  (eq_of (and_right (ltb_ℤ c.exec_time (now -ℤ pos 5)) b))
            | inr e ↦ rest (or_other e h')
          ]
      | inr b ↦ rest (
          subst
            (λ x.
              is_among id (if x then c.id ∷ empty_ids now rows cs else empty_ids now rows cs)
              ≡ true)
            b h)
    ]

pub delete_collections-among :
    (gone : List ℕ) (cs : List Collection) (id : ℕ)
    → is_among id (ids_of cs) ≡ true
    → is_among id gone ≡ false
    → is_among id (ids_of (delete_collections gone cs)) ≡ true
unfolding delete_collections is_among
delete_collections-among gone [] id a n = cc a
delete_collections-among gone (c ∷ cs) id a n =
    let rest = delete_collections-among gone cs id in
    elim (Bool-cases (is_among c.id gone)) [
      | inl b ↦ elim (Bool-cases (c.id == id)) [
        | inl e ↦ cc (subst (λ i. is_among i gone ≡ true) (eq_of e) b, n)
        | inr e ↦ rw b (rest (or_other e a) n)
      ]
      | inr b ↦ elim (Bool-cases (c.id == id)) [
        | inl e ↦ rw (b, e) refl
        | inr e ↦ rw b (or_right (c.id == id) (rest (or_other e a) n))
      ]
    ]
