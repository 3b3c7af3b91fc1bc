-- ===== src/Repository/Delete.antt =====
-- Delete, deleteEmptyCollections and Count.
use triggerhook.Base.{
  ℕ, ◌==◌, ◌+◌, ◌-◌, ◌%◌, ◌^◌, ℤ, pos, negsuc, ◌+ℤ◌, ◌-ℤ◌, pos_part, neg_part, ltb_ℤ, String,
  str_eq, List, [], ◌∷◌, Bool, false, ◌&&◌, ◌||◌, Option, none, some, if◌then◌else◌, length, ltb,
  Run, ok, panic, ◌>>=◌,
}
use triggerhook.Domain.{Task}
use triggerhook.Contracts.Errors.{RepoError, deleting_task, deadlock, counting_tasks}
use triggerhook.Repository.Tables.{Collection, Row, count_in, is_among}
use triggerhook.Repository.Failures.{
  SqlError, has_number, er_lock_deadlock, MysqlRepository, report, wrap,
}

-- The failures of a deletion and of the cleaning that may follow it.
pub record DeleteFailures : Type 0 where
  pub in_delete : Option SqlError
  pub in_find : Option SqlError
  pub in_rows : Option SqlError
  pub in_clean : Option SqlError
  pub in_close : Option SqlError

-- uuid IN (?,...)
unfoldable pub is_named : String → List Task → Bool
is_named uuid [] = false
is_named uuid (task ∷ tasks) = str_eq task.id uuid || is_named uuid tasks

-- DELETE FROM task WHERE uuid IN (?,...)
unfoldable pub delete_rows : List Task → List Row → List Row
unfolding is_named
delete_rows tasks [] = []
delete_rows tasks (row ∷ rest) =
    let kept = delete_rows tasks rest in if is_named row.uuid tasks then kept else row ∷ kept

-- c.exec_time < unix_timestamp()-5 AND NOT EXISTS (...)
unfoldable pub is_empty_and_past : ℤ → List Row → Collection → Bool
unfolding count_in
is_empty_and_past now rows c = ltb_ℤ c.exec_time (now -ℤ pos 5) && count_in c.id rows == 0

unfoldable pub empty_ids : ℤ → List Row → List Collection → List ℕ
unfolding is_empty_and_past
empty_ids now rows [] = []
empty_ids now rows (c ∷ rest) =
    let ids = empty_ids now rows rest in if is_empty_and_past now rows c then c.id ∷ ids else ids

-- DELETE FROM collection WHERE id IN(?,...)
unfoldable pub delete_collections : List ℕ → List Collection → List Collection
unfolding is_among
delete_collections ids [] = []
delete_collections ids (c ∷ rest) =
    let kept = delete_collections ids rest in if is_among c.id ids then kept else c ∷ kept

-- The report of an error, if any: that of the deferred `rows.Close()`, or of the cleaning.
unfoldable pub report_error : Option SqlError → MysqlRepository → MysqlRepository
report_error none r = r
report_error (some e) r = report e.text r

-- deleteEmptyCollections after its query, at the database's time `now`. The first failure is that
-- of a scan or of the rows, which are treated alike.
unfoldable pub clean_selected :
    Option SqlError → Option SqlError → ℤ → MysqlRepository → Option SqlError × MysqlRepository
unfolding empty_ids delete_collections
clean_selected (some e) in_clean now r = (some (wrap e "scan collection error"), r)
clean_selected none none now r =
    let ids = empty_ids now r.db.rows r.db.collections in
    let db = record (r.db) { collections = delete_collections ids r.db.collections } in
    (none, record r { db = db })
clean_selected none (some e) now r =
    if 0 == length (empty_ids now r.db.rows r.db.collections)
    then (none, r)
    else (some (wrap e "clearing collections was fail"), r)

unfoldable pub delete_empty_collections :
    DeleteFailures → ℤ → MysqlRepository → Option SqlError × MysqlRepository
unfolding clean_selected report_error
delete_empty_collections f now r =
    let (err, r') = clean_selected f.in_rows f.in_clean now r in
    elim (f.in_find) [
      | some e ↦ (some (wrap e "deleting empty collections is fail"), r)
      | none ↦ (err, report_error f.in_close r')
    ]

-- The int32 that an integer becomes.
unfoldable pub int32 : ℤ → ℤ
int32 a =
    let bits = (pos_part a + (2 ^ 32 - neg_part a % 2 ^ 32)) % 2 ^ 32 in
    if ltb bits (2 ^ 31) then pos bits else negsuc (2 ^ 32 - bits - 1)

-- `count%int32(frequency) == 0`, which panics for a frequency that is a multiple of 2^32.
abbrev pub divides : ℤ → ℤ → Run Bool
divides d n =
    let size = pos_part d + neg_part d in
    if size == 0 then panic else ok ((pos_part n + neg_part n) % size == 0)

-- The counting and the cleaning that follow a deletion.
unfoldable pub clean_sometimes : DeleteFailures → ℤ → MysqlRepository → Run MysqlRepository
unfolding delete_empty_collections int32
clean_sometimes f now r =
    let count = int32 (r.clean_request_count +ℤ pos 1) in
    let counted = record r { clean_request_count = count } in
    let cleaned = delete_empty_collections f now counted in
    let reset = record (report_error cleaned.0 cleaned.1) { clean_request_count = pos 0 } in
    if ltb_ℤ (pos 0) r.cleaning_frequency
    then (divides (int32 r.cleaning_frequency) count >>= λ is_time.
        ok (if is_time then reset else counted))
    else ok counted

abbrev pub deleting_error : SqlError → RepoError
deleting_error e = if has_number er_lock_deadlock e then deadlock else deleting_task

unfoldable pub delete :
    DeleteFailures → ℤ → List Task → MysqlRepository → Run (ℤ × Option RepoError × MysqlRepository)
unfolding delete_rows clean_sometimes
delete f now [] r = ok (pos 0, none, r)
delete f now (task ∷ tasks) r = elim (f.in_delete) [
  | some e ↦ ok (pos 0, some (deleting_error e), report e.text r)
  | none ↦
      let rows = delete_rows (task ∷ tasks) r.db.rows in
      let affected = pos (length r.db.rows - length rows) in
      let db = record (r.db) { rows = rows } in
      clean_sometimes f now (record r { db = db }) >>= λ r'. ok (affected, none, r')
]

unfoldable pub count : Option SqlError → MysqlRepository → ℤ × Option RepoError × MysqlRepository
count (some e) r = (pos 0, some counting_tasks, report e.text r)
count none r = (pos (length r.db.rows), none, r)
