-- ===== src/Repository/Find.antt =====
-- FindBySecToExecTime, getTasksByCollection and the Collections that a search returns.
use triggerhook.Base.{
  ltb, length, take, ℕ, ℤ, ltb_ℤ, String, str_eq, List, [], ◌∷◌, map, Bool, not, ◌&&◌, Option, none,
  some, if◌then◌else◌,
}
use triggerhook.Domain.{Task}
use triggerhook.Contracts.Errors.{
  RepoError, finding_tasks, no_tasks_found, deadlock, lock_wait_timeout, getting_tasks,
  no_collections,
}
use triggerhook.Repository.Tables.{Collection, is_among, select_tasks}
use triggerhook.Repository.Failures.{
  SqlError, has_number, er_lock_deadlock, er_lock_wait_timeout, MysqlRepository, report,
  child_error,
}

-- The failures of a search, one for each call of the driver.
pub record FindFailures : Type 0 where
  pub in_begin : Option SqlError
  pub in_query : Option SqlError
  pub in_scan : Option SqlError
  pub in_rows : Option SqlError
  pub in_update : Option SqlError
  pub in_commit : Option SqlError
  pub in_rollback : Option SqlError
  pub in_close : Option SqlError

-- Which call has ended the transaction, if any.
pub data Transaction : Type 0 where
  not_begun committed rolled_back left_open : Transaction

pub record Found : Type 0 where
  pub collections : Option (List ℕ)
  pub err : Option RepoError
  pub transaction : Transaction
  pub repository : MysqlRepository

-- ORDER BY exec_time
unfoldable pub insert_by_time : Collection → List Collection → List Collection
insert_by_time c [] = c ∷ []
insert_by_time c (a ∷ rest) =
    let later = insert_by_time c rest in
    if ltb_ℤ a.exec_time c.exec_time then a ∷ later else c ∷ a ∷ rest

-- exec_time <= ? AND taken_by_instance != ?
abbrev pub is_due : ℤ → String → Collection → Bool
is_due limit app c = not (ltb_ℤ limit c.exec_time) && not (str_eq c.taken_by_instance app)

unfoldable pub select_due : ℤ → String → List Collection → List Collection
unfolding insert_by_time
select_due limit app [] = []
select_due limit app (c ∷ rest) =
    let due = select_due limit app rest in if is_due limit app c then insert_by_time c due else due

-- UPDATE collection SET taken_by_instance = ? WHERE id IN(?,...)
unfoldable pub set_taken : String → List ℕ → List Collection → List Collection
unfolding is_among
set_taken app ids [] = []
set_taken app ids (c ∷ rest) =
    let c' = if is_among c.id ids then record c { taken_by_instance = app } else c in
    c' ∷ set_taken app ids rest

abbrev pub failed : RepoError → Transaction → MysqlRepository → Found
failed e transaction r = record {
  collections = none;
  err = some e;
  transaction = transaction;
  repository = r;
}

-- `error`, by the number that the failed call looks for.
abbrev pub finding_error : ℕ → RepoError → SqlError → RepoError
finding_error n special e = if has_number n e then special else finding_tasks

abbrev pub roll_back : FindFailures → RepoError → SqlError → MysqlRepository → Found
roll_back f error e r = failed error rolled_back (report ((child_error e f.in_rollback).text) r)

-- From the update on.
unfoldable pub take_collections : FindFailures → List ℕ → MysqlRepository → Found
unfolding set_taken
take_collections f ids r = elim (f.in_update) [
  | some e ↦ roll_back f (finding_error er_lock_deadlock deadlock e) e r
  | none ↦ elim (f.in_commit) [
    | some e ↦ failed finding_tasks committed (report e.text r)
    | none ↦
        let db = record (r.db) { collections = set_taken r.app_instance_id ids r.db.collections } in
        record {
          collections = some ids;
          err = none;
          transaction = committed;
          repository = record r { db = db };
        }
  ]
]

-- When no collection is due.
unfoldable pub commit_empty : FindFailures → MysqlRepository → Found
commit_empty f r = elim (f.in_commit) [
  | some e ↦ failed finding_tasks committed (report e.text r)
  | none ↦ failed no_tasks_found committed r
]

-- From the loop over the rows on; a scan can only fail at a row.
unfoldable pub read_rows : FindFailures → List Collection → MysqlRepository → Found
unfolding take_collections commit_empty
read_rows f [] r = elim (f.in_rows) [
  | some e ↦ roll_back f (finding_error er_lock_wait_timeout lock_wait_timeout e) e r
  | none ↦ commit_empty f r
]
read_rows f (c ∷ due) r = elim (f.in_scan) [
  | some e ↦ failed finding_tasks left_open (report e.text r)
  | none ↦ elim (f.in_rows) [
    | some e ↦ roll_back f (finding_error er_lock_wait_timeout lock_wait_timeout e) e r
    | none ↦ take_collections f (map (λ c. c.id) (c ∷ due)) r
  ]
]

-- The deferred `rows.Close()`
unfoldable pub close_rows : Option SqlError → Found → Found
close_rows none found = found
close_rows (some e) found = record found { repository = report e.text found.repository }

unfoldable pub find_by_sec_to_exec_time : FindFailures → ℤ → MysqlRepository → Found
unfolding read_rows close_rows select_due
find_by_sec_to_exec_time f to_next_exec_time r = elim (f.in_begin) [
  | some e ↦ failed finding_tasks not_begun (report e.text r)
  | none ↦ elim (f.in_query) [
    | some e ↦ roll_back f (finding_error er_lock_deadlock deadlock e) e r
    | none ↦
        close_rows f.in_close
          (read_rows f (select_due to_next_exec_time r.app_instance_id r.db.collections) r)
  ]
]

-- The failures of getTasksByCollection; a scan fails after some rows have been read.
pub record GetFailures : Type 0 where
  pub in_query : Option SqlError
  pub in_scan : Option (ℕ × SqlError)
  pub in_rows : Option SqlError
  pub in_close : Option SqlError

abbrev pub report_if : Option SqlError → MysqlRepository → MysqlRepository
report_if e r = elim e [ none ↦ r | some e ↦ report e.text r ]

-- The loop over the rows: the tasks read, and the error that ended it.
unfoldable pub scan_tasks :
    Option (ℕ × SqlError) → Option SqlError → List Task → List Task × Option SqlError
scan_tasks none rows tasks = (tasks, rows)
scan_tasks (some (n, e)) rows tasks =
    if ltb n (length tasks) then (take n tasks, some e) else (tasks, rows)

unfoldable pub get_tasks_by_collection :
    GetFailures → ℕ → MysqlRepository → List Task × Option RepoError × MysqlRepository
unfolding select_tasks scan_tasks
get_tasks_by_collection f id r = elim (f.in_query) [
  | some e ↦ ([], some getting_tasks, report e.text r)
  | none ↦
      let (tasks, err) =
        scan_tasks f.in_scan f.in_rows (select_tasks id r.db.collections r.db.rows) in
      elim err [
        | some e ↦ (tasks, some getting_tasks, report_if f.in_close (report e.text r))
        | none ↦ (tasks, none, report_if f.in_close r)
      ]
]

-- takeCollectionId: the id taken, `none` at the end, and the ids that are left.
unfoldable pub take_collection_id : List ℕ → Option ℕ × List ℕ
take_collection_id [] = (none, [])
take_collection_id (id ∷ ids) = (some id, ids)

-- Next: the tasks, the error, the ids that are left and the repository.
unfoldable pub next :
    GetFailures → List ℕ → MysqlRepository → List Task × Option RepoError × List ℕ × MysqlRepository
unfolding take_collection_id get_tasks_by_collection
next f ids r =
    let (taken, rest) = take_collection_id ids in
    elim taken [
      | none ↦ ([], some no_collections, rest, r)
      | some id ↦
          let (tasks, err, r') = get_tasks_by_collection f id r in
          elim err [ some e ↦ ([], some e, rest, r') | none ↦ (tasks, none, rest, r') ]
    ]
