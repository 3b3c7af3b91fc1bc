-- ===== src/Connection.antt =====
-- connection/mysql.go: the pool of connections, with `database/sql` as a parameter.
use triggerhook.Base.{
  ℤ, pos, ltb_ℤ, String, Option, none, some, if◌then◌else◌, Run, ok, panic, or_panic, ◌>>=◌,
}
use Prim.Native.String.{◌++◌ as str_append}
use triggerhook.Settings.{Merge, fill_int, fill_text, or_zero}
use triggerhook.Repository.Failures.{SqlError}
use triggerhook.Repository.Tables.{Db}

pub record Options : Type 0 where
  pub user : String
  pub password : String
  pub host : String
  pub db_name : String
  pub max_idle_conns : ℤ
  pub max_open_conns : ℤ

-- What `sql.Open` and `Ping` answer for a data source, and the database that stands behind it.
pub record Driver : Type 0 where
  pub open_error : String → Option SqlError
  pub ping_error : String → Option SqlError
  pub database : String → Db

-- The *sql.DB: its data source, and the limits that were set, if they were.
pub record Client : Type 0 where
  pub data_source_name : String
  pub max_idle_conns : Option ℤ
  pub max_open_conns : Option ℤ

abbrev pub zero_options : Options
zero_options = record {
  user = "";
  password = "";
  host = "";
  db_name = "";
  max_idle_conns = pos 0;
  max_open_conns = pos 0;
}

abbrev pub default_options : Options
default_options = record {
  user = "root";
  password = "";
  host = "127.0.0.1:3306";
  db_name = "task";
  max_idle_conns = pos 25;
  max_open_conns = pos 25;
}

-- "%s:%s@tcp(%s)/%s?charset=utf8"
unfoldable pub data_source_name_of : Options → String
data_source_name_of o = str_append o.user (
    str_append ":" (
      str_append o.password (
        str_append "@tcp("
          (str_append o.host (str_append ")/" (str_append o.db_name "?charset=utf8"))))))

-- The limit is set if it is positive.
abbrev pub limit : ℤ → Option ℤ
limit n = if ltb_ℤ (pos 0) n then some n else none

-- `if err != nil { panic(err) }`
abbrev pub unless_failed : {A : Type 0} → Option SqlError → Run A → Run A
unless_failed none r = r
unless_failed (some e) r = panic

unfoldable pub connect : Driver → Options → Run Client
unfolding data_source_name_of
connect driver o =
    let name = data_source_name_of o in
    unless_failed (driver.open_error name) (
      unless_failed (driver.ping_error name) (
        ok (record {
          data_source_name = name;
          max_idle_conns = limit o.max_idle_conns;
          max_open_conns = limit o.max_open_conns;
        })))

unfoldable pub new : Merge Options → Driver → Option Options → Run Client
unfolding connect
new merge driver options =
    or_panic (merge (or_zero zero_options options) default_options) >>= connect driver

-- What the merge does to these options.
unfoldable pub filled : Options → Options → Options
unfolding fill_int fill_text
filled dst src = record {
  user = fill_text dst.user src.user;
  password = fill_text dst.password src.password;
  host = fill_text dst.host src.host;
  db_name = fill_text dst.db_name src.db_name;
  max_idle_conns = fill_int dst.max_idle_conns src.max_idle_conns;
  max_open_conns = fill_int dst.max_open_conns src.max_open_conns;
}
