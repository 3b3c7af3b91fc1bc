-- ===== src/Repository/Up.antt =====
-- Up, which sets up the schema in a transaction.
use triggerhook.Base.{Option, none, some, if◌then◌else◌}
use triggerhook.Contracts.Errors.{RepoError, schema_setup, finding_tasks}
use triggerhook.Repository.Failures.{
  SqlError, has_number, er_sp_already_exists, MysqlRepository, report, child_error,
}
use triggerhook.Repository.Find.{Transaction, not_begun, committed, rolled_back}

pub record UpFailures : Type 0 where
  pub in_begin : Option SqlError
  pub in_collection_table : Option SqlError
  pub in_task_table : Option SqlError
  pub in_procedure : Option SqlError
  pub in_commit : Option SqlError
  pub in_rollback : Option SqlError

pub record Setup : Type 0 where
  pub err : Option RepoError
  pub transaction : Transaction
  pub repository : MysqlRepository

abbrev pub roll_back : UpFailures → SqlError → MysqlRepository → Setup
roll_back f e r = record {
  err = some schema_setup;
  transaction = rolled_back;
  repository = report ((child_error e f.in_rollback).text) r;
}

unfoldable pub commit : UpFailures → MysqlRepository → Setup
commit f r = elim (f.in_commit) [
  | some e ↦ record {
    err = some finding_tasks;
    transaction = committed;
    repository = report e.text r;
  }
  | none ↦ record { err = none; transaction = committed; repository = r }
]

-- The procedure may exist already.
unfoldable pub create_procedure : UpFailures → MysqlRepository → Setup
unfolding commit
create_procedure f r = elim (f.in_procedure) [
  | some e ↦ if has_number er_sp_already_exists e then commit f r else roll_back f e r
  | none ↦ commit f r
]

unfoldable pub up : UpFailures → MysqlRepository → Setup
unfolding create_procedure
up f r = elim (f.in_begin) [
  | some e ↦ record {
    err = some schema_setup;
    transaction = not_begun;
    repository = report e.text r;
  }
  | none ↦ elim (f.in_collection_table) [
    | some e ↦ roll_back f e r
    | none ↦ elim (f.in_task_table) [ some e ↦ roll_back f e r | none ↦ create_procedure f r ]
  ]
]
