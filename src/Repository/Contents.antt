-- ===== src/Repository/Contents.antt =====
-- The tasks that the tables stand for: each row with the time of its collection.
use triggerhook.Base.{
  str_eq, ℕ, suc, ◌==◌, ℤ, pos, negsuc, int_eq, List, [], ◌∷◌, Bool, true, false, ◌&&◌, ◌||◌,
  Bool-cases, Option, not, ltb_ℤ, some, if◌then◌else◌, inl, inr, length, ◌≡◌, ◌≢◌, refl, ap, subst,
  ◌∙◌, arith, String,
}
use triggerhook.Domain.{Task}
use triggerhook.TaskManager.Laws.{is_named, without}
use triggerhook.Repository.Tables.{Collection, Row, count_in, is_among}
use triggerhook.Repository.Create.{find_collection, has_room}
use triggerhook.Repository.Find.{set_taken}
use triggerhook.Repository.Delete.{delete_rows, delete_collections}
use triggerhook.Repository.Delete as Deletion
use triggerhook.Repository.Search.{ids_of}
use triggerhook.Repository.Linked.{LinkedRows, no_rows, and_row, find_collection-among, eq_of}

-- The time of a collection, by its id.
abbrev pub time_of : ℕ → List Collection → ℤ
time_of id [] = pos 0
time_of id (c ∷ cs) = if c.id == id then c.exec_time else time_of id cs

abbrev pub contents_of : List Collection → List Row → List Task
contents_of cs [] = []
contents_of cs (row ∷ rows) =
    record { id = row.uuid; exec_time = time_of row.collection_id cs } ∷ contents_of cs rows

pub length-contents_of :
    (cs : List Collection) (rows : List Row) → length (contents_of cs rows) ≡ length rows
length-contents_of cs [] = refl
length-contents_of cs (row ∷ rows) = ap suc (length-contents_of cs rows)

-- Collections that give every collection with a row its time stand for the same tasks.
pub contents_of-agree :
    {ids : List ℕ} {rows : List Row} (cs cs' : List Collection)
    → ((id : ℕ) → is_among id ids ≡ true → count_in id rows ≢ 0 → time_of id cs' ≡ time_of id cs)
    → LinkedRows ids rows
    → contents_of cs' rows ≡ contents_of cs rows
unfolding count_in
contents_of-agree cs cs' h no_rows = refl
contents_of-agree cs cs' h (and_row {row = row} {rows = rows} a l) =
    ap (λ t. record { id = row.uuid; exec_time = t } ∷ contents_of cs' rows)
      (h row.collection_id a (λ e. ground arith))
    ∙ ap (λ ts. record { id = row.uuid; exec_time = time_of row.collection_id cs } ∷ ts)
        (contents_of-agree cs cs' (λ id m n. h id m (λ e. n (ground arith))) l)

pub set_taken-time :
    (app : String) (ids : List ℕ) (cs : List Collection) (id : ℕ)
    → time_of id (set_taken app ids cs) ≡ time_of id cs
unfolding set_taken
set_taken-time app ids [] id = refl
set_taken-time app ids (c ∷ cs) id = elim (Bool-cases (is_among c.id ids)) [
  | inl b ↦ rw (b, set_taken-time app ids cs id) refl
  | inr b ↦ rw (b, set_taken-time app ids cs id) refl
]

pub delete_collections-time :
    (gone : List ℕ) (cs : List Collection) (id : ℕ)
    → is_among id gone ≡ false
    → time_of id (delete_collections gone cs) ≡ time_of id cs
unfolding delete_collections
delete_collections-time gone [] id n = refl
delete_collections-time gone (c ∷ cs) id n =
    let rest = delete_collections-time gone cs id n in
    elim (Bool-cases (is_among c.id gone)) [
      | inl b ↦ elim (Bool-cases (c.id == id)) [
        | inl e ↦ cc (subst (λ i. is_among i gone ≡ true) (eq_of e) b, n)
        | inr e ↦ rw (b, e) rest
      ]
      | inr b ↦ rw (b, rest) refl
    ]

-- No id stands twice.
abbrev pub Distinct : List ℕ → Type 0
Distinct [] = Unit {0}
Distinct (id ∷ ids) = (is_among id ids ≡ false) × Distinct ids

int_eq-eq : (a b : ℤ) → int_eq a b ≡ true → a ≡ b
int_eq-eq (pos a) (pos b) h = ap pos (ground arith)
int_eq-eq (pos a) (negsuc b) h = absurd (ground arith)
int_eq-eq (negsuc a) (pos b) h = absurd (ground arith)
int_eq-eq (negsuc a) (negsuc b) h = ap negsuc (ground arith)

and_left : (a b : Bool) → a && b ≡ true → a ≡ true
and_left true b h = refl
and_left false b h = cc h

found_first : {a b : ℕ} → some a ≡ some b → a ≡ b
found_first e = cc e

same_id : (id : ℕ) → (id == id) ≡ true
same_id id = ground arith

pub other_id :
    (a id : ℕ) (ids : List ℕ) → is_among a ids ≡ false → is_among id ids ≡ true → (a == id) ≡ false
other_id a id ids n m = elim (Bool-cases (a == id)) [
  | inl e ↦ cc (subst (λ i. is_among i ids ≡ false) (eq_of e) n, m)
  | inr e ↦ e
]

-- What the query gives when the first collection is known to be selected or not.
has_first :
    {b v : Bool} (x : ℕ) (y : Option ℕ) {z : Option ℕ}
    → b ≡ v
    → (if b then some x else y) ≡ z
    → (if v then some x else y) ≡ z
has_first x y {z = z} e h = subst (λ b. (if b then some x else y) ≡ z) e h

has_room-time :
    (is_taken : Bool) (app : String) (exec_time limit : ℤ) (rows : List Row) (c : Collection)
    → has_room is_taken app exec_time limit rows c ≡ true
    → c.exec_time ≡ exec_time
unfolding has_room
has_room-time is_taken app exec_time limit rows c h =
    let mine = str_eq c.taken_by_instance app in
    int_eq-eq c.exec_time exec_time (
      and_left (int_eq c.exec_time exec_time) (if is_taken then mine else not mine)
        (and_left _ (ltb_ℤ (pos (count_in c.id rows)) limit) h))

-- The collection that is found has the time that was looked for.
pub find_collection-time :
    (is_taken : Bool) (app : String) (exec_time limit : ℤ) (rows : List Row) (cs : List Collection)
    {id : ℕ}
    → Distinct (ids_of cs)
    → find_collection is_taken app exec_time limit rows cs ≡ some id
    → time_of id cs ≡ exec_time
unfolding find_collection
find_collection-time is_taken app exec_time limit rows [] d h = cc h
find_collection-time is_taken app exec_time limit rows (c ∷ cs) {id} (n, d) h =
    elim (Bool-cases (has_room is_taken app exec_time limit rows c)) [
      | inl b ↦
          subst (λ i. time_of i (c ∷ cs) ≡ exec_time)
            (found_first
              (has_first c.id (find_collection is_taken app exec_time limit rows cs) b h))
            (rw (same_id c.id) (has_room-time is_taken app exec_time limit rows c b))
      | inr b ↦
          let later = has_first c.id (find_collection is_taken app exec_time limit rows cs) b h in
          let among = find_collection-among is_taken app exec_time limit rows cs later in
          rw (other_id c.id id (ids_of cs) n among)
            (find_collection-time is_taken app exec_time limit rows cs d later)
    ]

-- Deleting rows deletes the tasks that are named.
is_named-same :
    (uuid : String) (tasks : List Task) → Deletion.is_named uuid tasks ≡ is_named uuid tasks
unfolding is_named Deletion.is_named
is_named-same uuid [] = refl
is_named-same uuid (t ∷ ts) = ap (λ b. str_eq t.id uuid || b) (is_named-same uuid ts)

pub contents_of-delete_rows :
    (cs : List Collection) (tasks : List Task) (rows : List Row)
    → contents_of cs (delete_rows tasks rows) ≡ without tasks (contents_of cs rows)
unfolding delete_rows without
contents_of-delete_rows cs tasks [] = refl
contents_of-delete_rows cs tasks (row ∷ rows) =
    let rest = contents_of-delete_rows cs tasks rows in
    let same = is_named-same row.uuid tasks in
    elim (Bool-cases (is_named row.uuid tasks)) [
      | inl b ↦ rw (same, b) rest
      | inr b ↦
          rw (same, b)
            (ap (λ ts. record { id = row.uuid; exec_time = time_of row.collection_id cs } ∷ ts)
              rest)
    ]
