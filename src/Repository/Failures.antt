-- ===== src/Repository/Failures.antt =====
-- The errors of the MySQL driver, which any statement may return, and the repository's state.
use triggerhook.Base.{ℕ, ◌==◌, ℤ, String, List, [], ◌∷◌, ◌++◌, Bool, false, Option, none, some}
use Prim.Native.String.{◌++◌ as str_append}
use triggerhook.Repository.Tables.{Db}

-- An error; `number` is there for a *mysql.MySQLError.
pub record SqlError : Type 0 where
  pub number : Option ℕ
  pub text : String

-- `err.(*mysql.MySQLError)` is there and has the number.
abbrev pub has_number : ℕ → SqlError → Bool
has_number n e = elim (e.number) [ none ↦ false | some m ↦ m == n ]

-- Constants of the package mysqlerr.
abbrev pub er_dup_entry : ℕ
er_dup_entry = 1062

abbrev pub er_lock_wait_timeout : ℕ
er_lock_wait_timeout = 1205

abbrev pub er_lock_deadlock : ℕ
er_lock_deadlock = 1213

abbrev pub er_sp_already_exists : ℕ
er_sp_already_exists = 1304

-- The mysqlRepository, with its database and the texts of the errors that it has reported.
pub record MysqlRepository : Type 0 where
  pub app_instance_id : String
  pub max_count_tasks_in_collection : ℤ
  pub cleaning_frequency : ℤ
  pub clean_request_count : ℤ
  pub db : Db
  pub events : List String

-- The cleaning frequency and the limit of a collection.
abbrev pub settings_of : MysqlRepository → ℤ × ℤ
settings_of r = (r.cleaning_frequency, r.max_count_tasks_in_collection)

-- `r.eh.New(contracts.LevelError, text, ...)`
abbrev pub report : String → MysqlRepository → MysqlRepository
report text r = record r { events = r.events ++ text ∷ [] }

-- `errors.Wrap(err, message)`
abbrev pub wrap : SqlError → String → SqlError
wrap e message = record { number = none; text = str_append message (str_append ": " e.text) }

-- The error of a statement, wrapped when the rollback after it fails as well.
abbrev pub child_error : SqlError → Option SqlError → SqlError
child_error e rollback = elim rollback [ none ↦ e | some b ↦ wrap e b.text ]
