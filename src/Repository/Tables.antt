-- ===== src/Repository/Tables.antt =====
-- The tables `collection` and `task` of the schema in mysql_repository.go, and what the queries
-- select from them.
use triggerhook.Base.{
  ℕ, suc, ◌==◌, ℤ, String, str_eq, List, [], ◌∷◌, ◌++◌, Bool, false, ◌||◌, if◌then◌else◌,
}
use triggerhook.Domain.{Task}

-- A row of `collection`.
pub record Collection : Type 0 where
  pub id : ℕ
  pub exec_time : ℤ
  pub taken_by_instance : String

-- A row of `task`.
pub record Row : Type 0 where
  pub uuid : String
  pub collection_id : ℕ

-- The database; `next_id` is the AUTO_INCREMENT of `collection`.
pub record Db : Type 0 where
  pub collections : List Collection
  pub rows : List Row
  pub next_id : ℕ

-- count(t.uuid) of the join of a collection with its tasks.
unfoldable pub count_in : ℕ → List Row → ℕ
count_in id [] = 0
count_in id (row ∷ rest) = let n = count_in id rest in if row.collection_id == id then suc n else n

-- SELECT t.uuid, c.exec_time FROM task t INNER JOIN collection c for the one collection.
unfoldable pub tasks_of : Collection → List Row → List Task
tasks_of c [] = []
tasks_of c (row ∷ rest) =
    let tasks = tasks_of c rest in
    if row.collection_id == c.id
    then record { id = row.uuid; exec_time = c.exec_time } ∷ tasks
    else tasks

-- ... WHERE t.collection_id = ?
unfoldable pub select_tasks : ℕ → List Collection → List Row → List Task
unfolding tasks_of
select_tasks id [] rows = []
select_tasks id (c ∷ rest) rows =
    let tasks = select_tasks id rest rows in if c.id == id then tasks_of c rows ++ tasks else tasks

-- A uuid is the primary key of `task`.
unfoldable pub has_uuid : String → List Row → Bool
has_uuid uuid [] = false
has_uuid uuid (row ∷ rest) = str_eq row.uuid uuid || has_uuid uuid rest

-- `IN (?,...)` over ids of collections.
unfoldable pub is_among : ℕ → List ℕ → Bool
is_among id [] = false
is_among id (a ∷ ids) = a == id || is_among id ids
