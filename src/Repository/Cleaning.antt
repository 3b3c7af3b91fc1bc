-- ===== src/Repository/Cleaning.antt =====
-- Delete, with the cleaning that may follow it.
use triggerhook.Base.{
  ◌+◌, ◌-◌, ◌<◌, ◌^◌, ◌==◌, ℤ, pos, negsuc, pos_part, neg_part, ltb_ℤ, ◌+ℤ◌, List, [], ◌∷◌, length,
  Bool, true, false, Bool-cases, Option, none, some, Option-cases, if◌then◌else◌, inl, inr, ◌≡◌,
  ◌≢◌, refl, sym, ap, subst, arith, Run, ok, ◌>>=◌, Returns, returns, Returns-bind,
}
use triggerhook.Domain.{Task}
use triggerhook.Contracts.Errors.{RepoError}
use triggerhook.Repository.Tables.{Row, Db, is_among}
use triggerhook.Repository.Failures.{SqlError, MysqlRepository, settings_of}
use triggerhook.Repository.Delete.{
  clean_selected, DeleteFailures, delete_rows, empty_ids, delete_collections, report_error,
  delete_empty_collections, int32, divides, clean_sometimes, deleting_error, delete,
}
use triggerhook.Repository.Linked.{
  IsLinked, delete_rows-LinkedRows, keep, empty_ids-count, delete_collections-among,
}

-- The database as it was, or without the collections that were past and empty.
pub data Shrunk (db : Db) : Db → Type 0 where
  as_before : Shrunk db db
  emptied :
      (now : ℤ)
      → Shrunk db (record db {
        collections = delete_collections (empty_ids now db.rows db.collections) db.collections;
      })

-- What cleaning leaves alone: the tasks, and the settings of the repository.
pub record Cleaned (r r' : MysqlRepository) : Type 0 where
  pub linked : IsLinked r.db → IsLinked r'.db
  pub rows : r'.db.rows ≡ r.db.rows
  pub settings : settings_of r' ≡ settings_of r
  pub shrunk : Shrunk r.db r'.db

unchanged : {r r' : MysqlRepository} → r'.db ≡ r.db → settings_of r' ≡ settings_of r → Cleaned r r'
unchanged {r} e f = record {
  shrunk = subst (Shrunk r.db) (sym e) as_before;
  linked = λ l. subst IsLinked (sym e) l;
  rows = ap (λ d. d.rows) e;
  settings = f;
}

report_error-Cleaned :
    (o : Option SqlError) {r r' : MysqlRepository} → Cleaned r r' → Cleaned r (report_error o r')
unfolding report_error
report_error-Cleaned none h = h
report_error-Cleaned (some e) h = record {
  shrunk = h.shrunk;
  linked = h.linked;
  rows = h.rows;
  settings = h.settings;
}

pub delete_collections-IsLinked :
    (now : ℤ) (db : Db)
    → IsLinked db
    → IsLinked (record db {
      collections = delete_collections (empty_ids now db.rows db.collections) db.collections;
    })
delete_collections-IsLinked now db l =
    let gone = empty_ids now db.rows db.collections in
    record {
      rows =
          keep
            (λ id a n. elim (Bool-cases (is_among id gone)) [
              | inl b ↦ absurd (n (empty_ids-count now db.rows db.collections id b))
              | inr b ↦ delete_collections-among gone db.collections id a b
            ])
            l.rows;
    }

clean_selected-Cleaned :
    (in_rows in_clean : Option SqlError) (now : ℤ) (r : MysqlRepository)
    → Cleaned r (clean_selected in_rows in_clean now r).1
unfolding clean_selected
clean_selected-Cleaned (some e) in_clean now r = unchanged refl refl
clean_selected-Cleaned none none now r = record {
  shrunk = emptied now;
  linked = delete_collections-IsLinked now r.db;
  rows = refl;
  settings = refl;
}
clean_selected-Cleaned none (some e) now r =
    elim (Bool-cases (0 == length (empty_ids now r.db.rows r.db.collections))) [
      | inl b ↦ rw b (unchanged refl refl)
      | inr b ↦ rw b (unchanged refl refl)
    ]

delete_empty_collections-Cleaned :
    (f : DeleteFailures) (now : ℤ) (r : MysqlRepository)
    → Cleaned r (delete_empty_collections f now r).1
unfolding delete_empty_collections
delete_empty_collections-Cleaned f now r = elim (Option-cases (f.in_find)) [
  | inr (e, h) ↦ rw h (unchanged refl refl)
  | inl h ↦
      rw h (report_error-Cleaned f.in_close (clean_selected-Cleaned f.in_rows f.in_clean now r))
]

divides-Returns : (d n : ℤ) → pos_part d + neg_part d ≢ 0 → Returns (λ b. Unit {0}) (divides d n)
divides-Returns d n ne = elim (Bool-cases (pos_part d + neg_part d == 0)) [
  | inl b ↦ absurd (ne (ground arith))
  | inr b ↦ rw b (returns tt)
]

-- A cleaning frequency that an int32 holds.
abbrev pub Fits : ℤ → Type 0
Fits frequency = pos_part frequency < 2 ^ 31

int32-Fits : (a : ℤ) → Fits a → ltb_ℤ (pos 0) a ≡ true → pos_part (int32 a) + neg_part (int32 a) ≢ 0
unfolding int32
int32-Fits (pos n) h t e = ground arith
int32-Fits (negsuc n) h t e = ground arith

pick :
    (b : Bool) {r x y : MysqlRepository}
    → Cleaned r x
    → Cleaned r y
    → Cleaned r (if b then x else y)
pick true h k = h
pick false h k = k

reset_or_not :
    {division : Run Bool} {r : MysqlRepository} (reset counted : MysqlRepository)
    → Returns (λ b. Unit {0}) division
    → Cleaned r reset
    → Cleaned r counted
    → Returns (Cleaned r) (division >>= λ is_time. ok (if is_time then reset else counted))
reset_or_not reset counted d h k =
    Returns-bind {k = λ is_time. ok (if is_time then reset else counted)} d
      (λ is_time _. returns (pick is_time h k))

clean_sometimes-Returns :
    (f : DeleteFailures) (now : ℤ) (r : MysqlRepository)
    → Fits (r.cleaning_frequency)
    → Returns (Cleaned r) (clean_sometimes f now r)
unfolding clean_sometimes
clean_sometimes-Returns f now r fits =
    let count = int32 (r.clean_request_count +ℤ pos 1) in
    let counted : MysqlRepository = record r { clean_request_count = count } in
    let cleaned = delete_empty_collections f now counted in
    let told = report_error cleaned.0 cleaned.1 in
    let h = report_error-Cleaned cleaned.0 (delete_empty_collections-Cleaned f now counted) in
    let same : Cleaned r counted = unchanged refl refl in
    elim (Bool-cases (ltb_ℤ (pos 0) r.cleaning_frequency)) [
      | inr b ↦ rw b (returns same)
      | inl b ↦ rw b (
          reset_or_not (record told { clean_request_count = pos 0 }) counted
            (divides-Returns (int32 r.cleaning_frequency) count
              (int32-Fits r.cleaning_frequency fits b))
            (record { linked = h.linked; rows = h.rows; settings = h.settings; shrunk = h.shrunk })
            same)
    ]

-- What a deletion does: the tasks named are gone, and as many are affected; or it has failed.
pub data Deletion (tasks : List Task) (r : MysqlRepository)
    : ℤ × Option RepoError × MysqlRepository → Type 0 where
  deletes :
      {n : ℤ} {r' : MysqlRepository}
      → n ≡ pos (length r.db.rows - length r'.db.rows)
      → r'.db.rows ≡ delete_rows tasks r.db.rows
      → (IsLinked r.db → IsLinked r'.db)
      → settings_of r' ≡ settings_of r
      → Shrunk (record (r.db) { rows = delete_rows tasks r.db.rows }) r'.db
      → Deletion tasks r (n, none, r')
  fails_to :
      {r' : MysqlRepository} (e : RepoError)
      → r'.db ≡ r.db
      → settings_of r' ≡ settings_of r
      → Deletion tasks r (pos 0, some e, r')

delete_nothing : (rows : List Row) → delete_rows [] rows ≡ rows
unfolding delete_rows
delete_nothing [] = refl
delete_nothing (row ∷ rest) = ap (λ l. row ∷ l) (delete_nothing rest)

-- The repository once its rows are deleted, and before it is cleaned.
abbrev rows_deleted : List Task → MysqlRepository → MysqlRepository
rows_deleted tasks r = record r { db = record (r.db) { rows = delete_rows tasks r.db.rows } }

abbrev answer :
    List Task → MysqlRepository → MysqlRepository → Run (ℤ × Option RepoError × MysqlRepository)
answer tasks r r' = ok (pos (length r.db.rows - length (delete_rows tasks r.db.rows)), none, r')

delete_passes :
    (f : DeleteFailures) (now : ℤ) (task : Task) (tasks : List Task) (r : MysqlRepository)
    → f.in_delete ≡ none
    → delete f now (task ∷ tasks) r
      ≡ (clean_sometimes f now (rows_deleted (task ∷ tasks) r) >>= answer (task ∷ tasks) r)
unfolding delete
delete_passes f now task tasks r h = rw h refl

answer-Returns :
    (tasks : List Task) (r r' : MysqlRepository)
    → Cleaned (rows_deleted tasks r) r'
    → Returns (Deletion tasks r) (answer tasks r r')
answer-Returns tasks r r' c = returns (
    deletes (ap (λ l. pos (length r.db.rows - length l)) (sym c.rows)) c.rows
      (λ l. c.linked (record { rows = delete_rows-LinkedRows tasks l.rows })) c.settings c.shrunk)

pub delete-Returns :
    (f : DeleteFailures) (now : ℤ) (tasks : List Task) (r : MysqlRepository)
    → Fits (r.cleaning_frequency)
    → Returns (Deletion tasks r) (delete f now tasks r)
unfolding delete
delete-Returns f now [] r fits = returns (
    deletes (ap pos (omega arith)) (sym (delete_nothing r.db.rows)) (λ l. l) refl
      (subst (λ l. Shrunk (record (r.db) { rows = l }) r.db) (sym (delete_nothing r.db.rows))
        as_before))
delete-Returns f now (task ∷ tasks) r fits = elim (Option-cases (f.in_delete)) [
  | inr (e, h) ↦ rw h (returns (fails_to (deleting_error e) refl refl))
  | inl h ↦ rw (delete_passes f now task tasks r h) (
      Returns-bind {k = answer (task ∷ tasks) r}
        (clean_sometimes-Returns f now (rows_deleted (task ∷ tasks) r) fits)
        (answer-Returns (task ∷ tasks) r))
]
