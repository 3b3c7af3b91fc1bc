-- ===== src/Repository/Tests.antt =====
-- A repository with two collections, and the theorems on it.
use triggerhook.Base.{◌≡◌, refl, pos, List, [], ◌∷◌, true, false, none, some, arith, Returns}
use triggerhook.Domain.{Task}
use triggerhook.Contracts.Errors.{no_tasks_found, task_exist}
use triggerhook.Repository.Tables.{Collection, is_among, count_in}
use triggerhook.Repository.Failures.{SqlError, MysqlRepository}
use triggerhook.Repository.Create.{CreateFailures, create}
use triggerhook.Repository.Find.{select_due, left_open, find_by_sec_to_exec_time}
use triggerhook.Repository.Delete.{DeleteFailures}
use triggerhook.Repository.Takes.{SearchEnd, find-SearchEnd, no_failures, find-takes_once}
use triggerhook.Repository.Linked.{IsLinked, and_row, no_rows}
use triggerhook.Repository.Capacity.{IsRoomy}
use triggerhook.Repository.Actions.{
  Action, creates, finds, deletes_tasks, acts, IsSound, acts-IsSound,
}
use triggerhook.Repository.Delivery.{IsFound, search, create-IsFound}

abbrev early : Collection
early = record { id = 1; exec_time = pos 5; taken_by_instance = "" }

abbrev mine : Collection
mine = record { id = 2; exec_time = pos 9; taken_by_instance = "me" }

abbrev repository : MysqlRepository
repository = record {
  app_instance_id = "me";
  max_count_tasks_in_collection = pos 2;
  cleaning_frequency = pos 1;
  clean_request_count = pos 0;
  db = record {
    collections = mine ∷ early ∷ [];
    rows = record { uuid = "a"; collection_id = 1 } ∷ [];
    next_id = 3;
  };
  events = [];
}

abbrev smooth : CreateFailures
smooth = record { in_collection = none; in_task = none }

abbrev clean : DeleteFailures
clean = record {
  in_delete = none;
  in_find = none;
  in_rows = none;
  in_clean = none;
  in_close = none;
}

abbrev broken : SqlError
broken = record { number = none; text = "bad row" }

-- A task of the same second joins the collection; a uuid that exists is refused.
joins :
    (create smooth (record { id = "b"; exec_time = pos 5 }) false repository).1.db.rows
    ≡ record { uuid = "b"; collection_id = 1 } ∷ record { uuid = "a"; collection_id = 1 } ∷ []
unfolding create
joins = refl

refused :
    let (err, r) = create smooth (record { id = "a"; exec_time = pos 7 }) true repository in
    (err ≡ some task_exist) × (r.db.next_id ≡ 4)
unfolding create
refused = (refl, refl)

-- A failing scan leaves the transaction open.
leak :
    (find_by_sec_to_exec_time
      (record no_failures { in_scan = some broken })
      (pos 6)
      repository).transaction
    ≡ left_open
unfolding find_by_sec_to_exec_time
leak = refl

find-SearchEnd_example :
    SearchEnd no_failures repository
      (select_due (pos 6) "me" (mine ∷ early ∷ []))
      (find_by_sec_to_exec_time no_failures (pos 6) repository)
find-SearchEnd_example = find-SearchEnd no_failures repository (pos 6)

finds_early : (find_by_sec_to_exec_time no_failures (pos 6) repository).err ≡ none
unfolding find_by_sec_to_exec_time
finds_early = refl

find-takes_once_example :
    (find_by_sec_to_exec_time no_failures
      (pos 6)
      (find_by_sec_to_exec_time no_failures (pos 6) repository).repository).err
    ≡ some no_tasks_found
find-takes_once_example = find-takes_once no_failures (pos 6) repository finds_early

abbrev task_a : Task
task_a = record { id = "a"; exec_time = pos 5 }

linked : IsLinked repository.db
unfolding is_among
linked = record { rows = and_row refl no_rows }

roomy : IsRoomy (pos 2) repository.db
unfolding is_among count_in
roomy = record { ids = λ id a. ground arith; room = λ id. ground arith }

abbrev history : List Action
history =
    creates smooth (record { id = "b"; exec_time = pos 7 }) true
    ∷ finds no_failures (pos 6)
    ∷ deletes_tasks clean (pos 100) (task_a ∷ [])
    ∷ []

acts-IsSound_example : Returns IsSound (acts history repository)
acts-IsSound_example =
    acts-IsSound history repository (record { linked = linked; roomy = roomy; fits = omega arith })

abbrev task_b : Task
task_b = record { id = "b"; exec_time = pos 7 }

creates_b : (create smooth task_b false repository).0 ≡ none
unfolding create
creates_b = refl

create-IsFound_example :
    IsFound task_b
      (create smooth task_b false repository).1.db
      (search (pos 8) (create smooth task_b false repository).1)
create-IsFound_example = create-IsFound smooth task_b (pos 8) repository refl refl creates_b
