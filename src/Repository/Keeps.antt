-- ===== src/Repository/Keeps.antt =====
-- What a search and a deletion do to the tasks that the tables stand for.
use triggerhook.Base.{
  ℕ, ◌-◌, ◌==◌, ℤ, pos, String, List, [], ◌∷◌, true, false, Bool-cases, Option, none, some, inl,
  inr, length, if◌then◌else◌, ◌≡◌, refl, sym, ap, subst, ◌∙◌,
}
use triggerhook.Domain.{Task}
use triggerhook.Contracts.Errors.{RepoError}
use triggerhook.TaskManager.Laws.{without}
use triggerhook.Repository.Tables.{Collection, Row, Db, is_among}
use triggerhook.Repository.Failures.{MysqlRepository}
use triggerhook.Repository.Find.{FindFailures, set_taken, select_due, find_by_sec_to_exec_time}
use triggerhook.Repository.Delete.{delete_rows, delete_collections, empty_ids}
use triggerhook.Repository.Search.{ids_of, or_right}
use triggerhook.Repository.Linked.{or_other, set_taken-ids, delete_rows-LinkedRows, empty_ids-count}
use triggerhook.Repository.Takes.{takes, fails, leaks, find-SearchEnd}
use triggerhook.Repository.Cleaning.{
  Shrunk, as_before, emptied, Deletion, deletes, fails_to, delete_collections-IsLinked,
}
use triggerhook.Repository.Contents.{
  contents_of-agree, length-contents_of, set_taken-time, delete_collections-time, Distinct,
  contents_of-delete_rows,
}
use triggerhook.Repository.Stores.{IsConsistent, tasks_in}

-- A database that stands for the tasks `stored`.
pub record Keeps (stored : List Task) (db : Db) : Type 0 where
  pub consistent : IsConsistent db
  pub tasks : tasks_in db ≡ stored

set_taken-Keeps :
    (app : String) (ids : List ℕ) (db : Db)
    → IsConsistent db
    → Keeps (tasks_in db) (record db { collections = set_taken app ids db.collections })
set_taken-Keeps app ids db c =
    let same = set_taken-ids app ids db.collections in
    record {
      consistent = record {
        linked = record { rows = rw same c.linked.rows };
        below = λ id a. c.below id (subst (λ l. is_among id l ≡ true) same a);
        distinct = subst Distinct (sym same) c.distinct;
      };
      tasks =
          contents_of-agree db.collections (set_taken app ids db.collections)
            (λ id a n. set_taken-time app ids db.collections id) c.linked.rows;
    }

same-Keeps : {db db' : Db} → db' ≡ db → IsConsistent db → Keeps (tasks_in db) db'
same-Keeps {db} e c = subst (Keeps (tasks_in db)) (sym e) (record { consistent = c; tasks = refl })

pub find-Keeps :
    (f : FindFailures) (limit : ℤ) (r : MysqlRepository)
    → IsConsistent r.db
    → Keeps (tasks_in r.db) (find_by_sec_to_exec_time f limit r).repository.db
find-Keeps f limit r c = elim (find-SearchEnd f r limit) [
  | takes _ _ _ _ e _ ↦ subst (Keeps (tasks_in r.db)) (sym e) (
      set_taken-Keeps r.app_instance_id
        (ids_of (select_due limit r.app_instance_id r.db.collections)) r.db c)
  | fails _ _ _ _ e _ ↦ same-Keeps e c
  | leaks _ _ _ _ _ e _ ↦ same-Keeps e c
]

-- Deleting collections leaves no new ids.
still_among :
    (gone : List ℕ) (cs : List Collection) (id : ℕ)
    → is_among id (ids_of (delete_collections gone cs)) ≡ true
    → is_among id (ids_of cs) ≡ true
unfolding delete_collections is_among
still_among gone [] id a = a
still_among gone (c ∷ cs) id a = elim (Bool-cases (c.id == id)) [
  | inl e ↦ rw e refl
  | inr e ↦ or_right (c.id == id) (
      still_among gone cs id (elim (Bool-cases (is_among c.id gone)) [
        | inl b ↦
            subst
              (λ x.
                is_among id (
                  ids_of (if x then delete_collections gone cs else c ∷ delete_collections gone cs))
                ≡ true)
              b a
        | inr b ↦ or_other e (
            subst
              (λ x.
                is_among id (
                  ids_of (if x then delete_collections gone cs else c ∷ delete_collections gone cs))
                ≡ true)
              b a)
      ]))
]

not_among :
    (gone : List ℕ) (cs : List Collection) (id : ℕ)
    → is_among id (ids_of cs) ≡ false
    → is_among id (ids_of (delete_collections gone cs)) ≡ false
not_among gone cs id n = elim (Bool-cases (is_among id (ids_of (delete_collections gone cs)))) [
  | inl b ↦ cc (n, still_among gone cs id b)
  | inr b ↦ b
]

delete_collections-Distinct :
    (gone : List ℕ) (cs : List Collection)
    → Distinct (ids_of cs)
    → Distinct (ids_of (delete_collections gone cs))
unfolding delete_collections
delete_collections-Distinct gone [] d = tt
delete_collections-Distinct gone (c ∷ cs) (n, d) =
    let rest = delete_collections-Distinct gone cs d in
    elim (Bool-cases (is_among c.id gone)) [
      | inl b ↦ rw b rest
      | inr b ↦ rw b (not_among gone cs c.id n, rest)
    ]

-- Only collections without tasks are gone.
emptied-Keeps :
    (now : ℤ) (db : Db)
    → IsConsistent db
    → Keeps (tasks_in db) (record db {
      collections = delete_collections (empty_ids now db.rows db.collections) db.collections;
    })
emptied-Keeps now db c =
    let gone = empty_ids now db.rows db.collections in
    record {
      consistent = record {
        linked = delete_collections-IsLinked now db c.linked;
        below = λ id a. c.below id (still_among gone db.collections id a);
        distinct = delete_collections-Distinct gone db.collections c.distinct;
      };
      tasks =
          contents_of-agree db.collections (delete_collections gone db.collections)
            (λ id a n.
              delete_collections-time gone db.collections id (elim (Bool-cases (is_among id gone)) [
                | inl b ↦ absurd (n (empty_ids-count now db.rows db.collections id b))
                | inr b ↦ b
              ]))
            c.linked.rows;
    }

Shrunk-Keeps : {db db' : Db} → Shrunk db db' → IsConsistent db → Keeps (tasks_in db) db'
Shrunk-Keeps as_before c = record { consistent = c; tasks = refl }
Shrunk-Keeps {db} (emptied now) c = emptied-Keeps now db c

-- The tasks named are gone, and as many are affected; or the deletion has failed.
pub data Removes (tasks stored : List Task) : ℤ × Option RepoError × MysqlRepository → Type 0 where
  removes :
      {n : ℤ} {r' : MysqlRepository}
      → n ≡ pos (length stored - length (without tasks stored))
      → Keeps (without tasks stored) r'.db
      → Removes tasks stored (n, none, r')
  keeps :
      {n : ℤ} {e : RepoError} {r' : MysqlRepository}
      → Keeps stored r'.db
      → Removes tasks stored (n, some e, r')

affected :
    (tasks : List Task) (db : Db) {rows : List Row} {n : ℤ}
    → n ≡ pos (length db.rows - length rows)
    → rows ≡ delete_rows tasks db.rows
    → n ≡ pos (length (tasks_in db) - length (without tasks (tasks_in db)))
affected tasks db e q =
    e
    ∙ ap (λ l. pos (length db.rows - length l)) q
    ∙ ap (λ k. pos (length db.rows - k))
        (sym (length-contents_of db.collections (delete_rows tasks db.rows))
          ∙ ap length (contents_of-delete_rows db.collections tasks db.rows))
    ∙ ap (λ k. pos (k - length (without tasks (tasks_in db))))
        (sym (length-contents_of db.collections db.rows))

pub Deletion-Removes :
    {tasks : List Task} {r : MysqlRepository} {t : ℤ × Option RepoError × MysqlRepository}
    → Deletion tasks r t
    → IsConsistent r.db
    → Removes tasks (tasks_in r.db) t
Deletion-Removes {tasks} {r} (deletes {r' = r'} n q _ _ s) c =
    let k = Shrunk-Keeps s (record {
      linked = record { rows = delete_rows-LinkedRows tasks c.linked.rows };
      below = c.below;
      distinct = c.distinct;
    }) in
    removes (affected tasks r.db n q) (record {
      consistent = k.consistent;
      tasks = k.tasks ∙ contents_of-delete_rows r.db.collections tasks r.db.rows;
    })
Deletion-Removes (fails_to e q _) c = keeps (same-Keeps q c)
