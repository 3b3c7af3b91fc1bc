-- ===== src/Repository/SessionTests.antt =====
-- A session with one task, whose first deletion meets a deadlock.
use triggerhook.Base.{
  ℕ, pos, List, [], ◌∷◌, true, false, none, some, ◌==◌, ◌+ℤ◌, ◌-ℤ◌, if◌then◌else◌, length, update,
  ◌≡◌, refl, arith,
}
use triggerhook.Contracts.{all}
use triggerhook.TaskManager.Interface.{World}
use triggerhook.TaskManager.Totals.{total}
use triggerhook.Monitoring.Metrics.{integral}
use triggerhook.Monitoring.Registry.{Monitoring}
use triggerhook.Monitoring.Gauge.{publish_all, Reads}
use triggerhook.TaskManager.Accounting.{Call, creates, deletes_one, gets, calls}
use triggerhook.Repository.Tables.{Db, is_among}
use triggerhook.Repository.Failures.{SqlError, er_lock_deadlock}
use triggerhook.Repository.Linked.{and_row, no_rows}
use triggerhook.Repository.Stores.{IsConsistent}
use triggerhook.TaskManager.Retry.{retry, retry_loop}
use triggerhook.TaskManager.Operations.{try_delete, try_create, try_find, created, deleted, got}
use triggerhook.Repository.Delete.{delete}
use triggerhook.Repository.Create.{create}
use triggerhook.Repository.Session.{Answers, Session, session_create, session_delete, session_find}
use triggerhook.Repository.Contract.{over_mysql, calls-Read}

abbrev db : Db
db = record {
  collections = record { id = 1; exec_time = pos 5; taken_by_instance = "" } ∷ [];
  rows = record { uuid = "a"; collection_id = 1 } ∷ [];
  next_id = 2;
}

db-IsConsistent : IsConsistent db
unfolding is_among
db-IsConsistent = record {
  linked = record { rows = and_row refl no_rows };
  below = λ id a. ground arith;
  distinct = (refl, tt);
}

abbrev deadlocked : SqlError
deadlocked = record { number = some er_lock_deadlock; text = "deadlock" }

-- The first call fails in its deletion, the others do not fail.
abbrev answers : ℕ → Answers
answers n = record {
  in_create = record { in_collection = none; in_task = none };
  in_delete = record {
    in_delete = if n == 0 then some deadlocked else none;
    in_find = none;
    in_rows = none;
    in_clean = none;
    in_close = none;
  };
  in_find = record {
    in_begin = none;
    in_query = none;
    in_scan = none;
    in_rows = none;
    in_update = none;
    in_commit = none;
    in_rollback = none;
    in_close = none;
  };
  now = pos 20;
  to_next_exec_time = λ range. pos 20;
}

abbrev session : Session
session = record {
  repository = record {
    app_instance_id = "me";
    max_count_tasks_in_collection = pos 2;
    cleaning_frequency = pos 1;
    clean_request_count = pos 0;
    db = db;
    events = [];
  };
  consistent = db-IsConsistent;
  frequency = omega arith;
  small = omega arith;
  answers = answers;
  calls = 0;
}

abbrev world : World Session
world = record { repo = session; reported = []; published = (all, pos 1) ∷ []; slept = 0 }

abbrev history : List Call
history =
    deletes_one "a"
    ∷ creates (pos 9) "b" (record { id = ""; exec_time = pos 12 }) false
    ∷ gets (pos 5)
    ∷ []

abbrev monitoring : Monitoring
monitoring = record {
  metrics = update (λ _. none) "all" (some (integral (pos 0)));
  subscriptions = [];
  sent = [];
}

calls-Read_example :
    let w = calls (over_mysql (pos 3) (λ _. true) (λ _. true)) history world in
    Reads (pos (length w.repo.repository.db.rows)) (publish_all w.published monitoring)
unfolding total ◌+ℤ◌
calls-Read_example =
    calls-Read (pos 3) (λ _. true) (λ _. true) (omega arith) refl history world refl monitoring refl

-- The deadlocked deletion is tried again, and the new task is the only one left.
left :
    (calls (over_mysql (pos 3) (λ _. true) (λ _. true)) history world).repo.repository.db.rows
    ≡ record { uuid = "b"; collection_id = 2 } ∷ []
unfolding calls retry retry_loop try_delete try_create try_find session_create session_delete
    session_find created deleted got delete create ◌+ℤ◌ ◌-ℤ◌
left = refl
