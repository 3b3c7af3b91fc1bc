-- ===== src/Repository/New.antt =====
-- mysql_repository.go: the package's New.
use triggerhook.Base.{ℤ, pos, String, [], Option, Run, ok, or_panic, ◌>>=◌}
use triggerhook.Settings.{Merge, fill_int, or_zero}
use triggerhook.Repository.Tables.{Db}
use triggerhook.Repository.Failures.{MysqlRepository}

pub record Options : Type 0 where
  pub max_count_tasks_in_collection : ℤ
  pub cleaning_frequency : ℤ

abbrev pub zero_options : Options
zero_options = record { max_count_tasks_in_collection = pos 0; cleaning_frequency = pos 0 }

abbrev pub default_options : Options
default_options = record { max_count_tasks_in_collection = pos 1000; cleaning_frequency = pos 10 }

unfoldable pub of_options : Db → String → Options → MysqlRepository
of_options db app_instance_id o = record {
  app_instance_id = app_instance_id;
  max_count_tasks_in_collection = o.max_count_tasks_in_collection;
  cleaning_frequency = o.cleaning_frequency;
  clean_request_count = pos 0;
  db = db;
  events = [];
}

-- New, for the database that the client is connected to.
unfoldable pub new : Merge Options → Db → String → Option Options → Run MysqlRepository
unfolding of_options
new merge db app_instance_id options = do
  o ← or_panic (merge (or_zero zero_options options) default_options)
  ok (of_options db app_instance_id o)

-- What the merge does to these options.
unfoldable pub filled : Options → Options → Options
unfolding fill_int
filled dst src = record {
  max_count_tasks_in_collection =
      fill_int dst.max_count_tasks_in_collection src.max_count_tasks_in_collection;
  cleaning_frequency = fill_int dst.cleaning_frequency src.cleaning_frequency;
}
