-- ===== src/Repository/Takes.antt =====
-- How a search ends, on every path of FindBySecToExecTime.
use triggerhook.Base.{ℤ, List, [], ◌∷◌, Option, none, some, Option-cases, inl, inr, ◌≡◌, ◌≢◌, refl}
use triggerhook.Contracts.Errors.{
  RepoError, finding_tasks, no_tasks_found, deadlock, lock_wait_timeout,
}
use triggerhook.Repository.Tables.{Collection}
use triggerhook.Repository.Failures.{
  SqlError, MysqlRepository, settings_of, er_lock_deadlock, er_lock_wait_timeout,
}
use triggerhook.Repository.Find.{
  FindFailures, Found, committed, left_open, select_due, set_taken, finding_error, take_collections,
  commit_empty, read_rows, close_rows, find_by_sec_to_exec_time,
}
use triggerhook.Repository.Search.{ids_of, set_taken-none_due, select_due-Covers}

-- The settings of a repository, which no call changes.
pub record Kept (r r' : MysqlRepository) : Type 0 where
  pub app : r'.app_instance_id ≡ r.app_instance_id
  pub settings : settings_of r' ≡ settings_of r

-- `due` are the collections selected. A search takes them all, or fails and leaves the database as
-- it was; it leaves the transaction open only if a scan has failed.
pub data SearchEnd (f : FindFailures) (r : MysqlRepository) (due : List Collection) (found : Found)
    : Type 0 where
  takes :
      found.err ≡ none
      → found.collections ≡ some (ids_of due)
      → due ≢ []
      → found.transaction ≡ committed
      → found.repository.db
        ≡ record (r.db) { collections = set_taken r.app_instance_id (ids_of due) r.db.collections }
      → Kept r found.repository
      → SearchEnd f r due found
  fails :
      (e : RepoError)
      → found.err ≡ some e
      → found.collections ≡ none
      → found.transaction ≢ left_open
      → found.repository.db ≡ r.db
      → Kept r found.repository
      → SearchEnd f r due found
  leaks :
      (e : SqlError)
      → f.in_scan ≡ some e
      → found.err ≡ some finding_tasks
      → found.collections ≡ none
      → found.transaction ≡ left_open
      → found.repository.db ≡ r.db
      → Kept r found.repository
      → SearchEnd f r due found

module _ (f : FindFailures) (r : MysqlRepository) where
  take_collections-SearchEnd :
      (c : Collection) (due : List Collection)
      → SearchEnd f r (c ∷ due) (take_collections f (ids_of (c ∷ due)) r)
  unfolding take_collections
  take_collections-SearchEnd c due = elim (Option-cases (f.in_update)) [
    | inr (e, h) ↦ rw h (
        fails (finding_error er_lock_deadlock deadlock e) refl refl (λ q. cc q) refl
          (record { app = refl; settings = refl }))
    | inl h ↦ elim (Option-cases (f.in_commit)) [
      | inr (e, k) ↦
          rw (h, k)
            (fails finding_tasks refl refl (λ q. cc q) refl
              (record { app = refl; settings = refl }))
      | inl k ↦
          rw (h, k) (takes refl refl (λ q. cc q) refl refl (record { app = refl; settings = refl }))
    ]
  ]

  commit_empty-SearchEnd : SearchEnd f r [] (commit_empty f r)
  unfolding commit_empty
  commit_empty-SearchEnd = elim (Option-cases (f.in_commit)) [
    | inr (e, k) ↦
        rw k
          (fails finding_tasks refl refl (λ q. cc q) refl (record { app = refl; settings = refl }))
    | inl k ↦
        rw k
          (fails no_tasks_found refl refl (λ q. cc q) refl (record { app = refl; settings = refl }))
  ]

  rows_pass : f.in_rows ≡ none → read_rows f [] r ≡ commit_empty f r
  unfolding read_rows
  rows_pass h = rw h refl

  scans_pass :
      (c : Collection) (due : List Collection)
      → f.in_scan ≡ none
      → f.in_rows ≡ none
      → read_rows f (c ∷ due) r ≡ take_collections f (ids_of (c ∷ due)) r
  unfolding read_rows
  scans_pass c due s h = rw s (rw h refl)

  query_passes :
      (limit : ℤ)
      → f.in_begin ≡ none
      → f.in_query ≡ none
      → find_by_sec_to_exec_time f limit r
        ≡ close_rows f.in_close
            (read_rows f (select_due limit r.app_instance_id r.db.collections) r)
  unfolding find_by_sec_to_exec_time
  query_passes limit b h = rw b (rw h refl)

  read_rows-SearchEnd : (due : List Collection) → SearchEnd f r due (read_rows f due r)
  unfolding read_rows
  read_rows-SearchEnd [] = elim (Option-cases (f.in_rows)) [
    | inr (e, h) ↦ rw h (
        fails (finding_error er_lock_wait_timeout lock_wait_timeout e) refl refl (λ q. cc q) refl
          (record { app = refl; settings = refl }))
    | inl h ↦ rw (rows_pass h) commit_empty-SearchEnd
  ]
  read_rows-SearchEnd (c ∷ due) = elim (Option-cases (f.in_scan)) [
    | inr (e, s) ↦
        leaks e s (rw s refl) (rw s refl) (rw s refl) (rw s refl)
          (rw s (record { app = refl; settings = refl }))
    | inl s ↦ elim (Option-cases (f.in_rows)) [
      | inr (e, h) ↦
          rw (s, h)
            (fails (finding_error er_lock_wait_timeout lock_wait_timeout e) refl refl (λ q. cc q)
              refl (record { app = refl; settings = refl }))
      | inl h ↦ rw (scans_pass c due s h) (take_collections-SearchEnd c due)
    ]
  ]

  close_rows-SearchEnd :
      {due : List Collection} {found : Found} (o : Option SqlError)
      → SearchEnd f r due found
      → SearchEnd f r due (close_rows o found)
  unfolding close_rows
  close_rows-SearchEnd none h = h
  close_rows-SearchEnd (some e) (takes a b c d g h) =
      takes a b c d g (record { app = h.app; settings = h.settings })
  close_rows-SearchEnd (some e) (fails x a b c d h) =
      fails x a b c d (record { app = h.app; settings = h.settings })
  close_rows-SearchEnd (some e) (leaks x s a b c d h) =
      leaks x s a b c d (record { app = h.app; settings = h.settings })

  -- On every path, whatever calls of the driver fail, a search either commits and returns the ids
  -- of exactly the collections that are due and not taken by the instance, at least one, and marks
  -- them as taken; or it returns an error and no collections and leaves the tables as they were.
  -- The transaction is left open only if a scan has failed, and then the error says that finding
  -- failed.
  pub find-SearchEnd :
      (limit : ℤ)
      → SearchEnd f r
          (select_due limit r.app_instance_id r.db.collections)
          (find_by_sec_to_exec_time f limit r)
  unfolding find_by_sec_to_exec_time
  find-SearchEnd limit = elim (Option-cases (f.in_begin)) [
    | inr (e, b) ↦
        rw b
          (fails finding_tasks refl refl (λ q. cc q) refl (record { app = refl; settings = refl }))
    | inl b ↦ elim (Option-cases (f.in_query)) [
      | inr (e, h) ↦
          rw (b, h)
            (fails (finding_error er_lock_deadlock deadlock e) refl refl (λ q. cc q) refl
              (record { app = refl; settings = refl }))
      | inl h ↦ rw (query_passes limit b h) (
          close_rows-SearchEnd f.in_close
            (read_rows-SearchEnd (select_due limit r.app_instance_id r.db.collections)))
    ]
  ]

-- A search without failures.
abbrev pub no_failures : FindFailures
no_failures = record {
  in_begin = none;
  in_query = none;
  in_scan = none;
  in_rows = none;
  in_update = none;
  in_commit = none;
  in_rollback = none;
  in_close = none;
}

nothing_due :
    (limit : ℤ) (r : MysqlRepository)
    → select_due limit r.app_instance_id r.db.collections ≡ []
    → (find_by_sec_to_exec_time no_failures limit r).err ≡ some no_tasks_found
unfolding find_by_sec_to_exec_time read_rows commit_empty close_rows
nothing_due limit r h = rw h refl

-- If a search returns no error, then the same search repeated on the repository that it leaves,
-- without failures, finds no tasks: what has been found is taken and is not handed out again.
pub find-takes_once :
    (f : FindFailures) (limit : ℤ) (r : MysqlRepository)
    → (find_by_sec_to_exec_time f limit r).err ≡ none
    → (find_by_sec_to_exec_time no_failures limit
        (find_by_sec_to_exec_time f limit r).repository).err
      ≡ some no_tasks_found
find-takes_once f limit r ok = elim (find-SearchEnd f r limit) [
  | takes _ _ _ _ d kept ↦ nothing_due limit _ (
      rw (kept.app, d)
        (set_taken-none_due limit r.app_instance_id _ r.db.collections
          (select_due-Covers limit r.app_instance_id r.db.collections)))
  | fails e h _ _ _ _ ↦ cc (ok, h)
  | leaks e _ h _ _ _ _ ↦ cc (ok, h)
]
