-- ===== src/TaskManager/Tests.antt =====
-- The task manager over a table of one row.
use triggerhook.Base.{pos, negsuc, List, [], ◌∷◌, ◌≡◌, refl, arith, false, none}
use triggerhook.Contracts.Errors.{deadlock}
use triggerhook.TaskManager.Retry.{retry}
use triggerhook.TaskManager.Attempts.{Tried, retry-Tried}
use triggerhook.TaskManager.Operations.{try_create, prepared, create}
use triggerhook.TaskManager.Atomic.{Creation, create-Creation}
use triggerhook.TaskManager.Accounting.{
  Call, creates, deletes_one, gets, calls, IsBalanced, calls-IsBalanced,
}
use triggerhook.TaskManager.Totals.{total}
use triggerhook.TaskManager.Untried.{NothingStored, create-NothingStored}
use triggerhook.TaskManager.OneRow.{laws, manager, world, late}

-- Create meets the deadlock, tries again, and moves the time of the task up to now.
creates_late :
    let r = create (manager (pos 3)) (pos 9) "b" late false (world []) in
    (r.0 ≡ none) × (r.2.repo.row ≡ record { id = "a"; exec_time = pos 9 } ∷ []) × (r.2.slept ≡ 1)
unfolding create try_create
creates_late = (refl, refl, refl)

retry-Tried_example :
    Tried
      (try_create (manager (pos 3)) late false)
      (deadlock ∷ [])
      3
      (world [])
      (retry (try_create (manager (pos 3)) late false) (deadlock ∷ []) (pos 3) tt (world []))
retry-Tried_example =
    retry-Tried (try_create (manager (pos 3)) late false) (deadlock ∷ []) (pos 3) (omega arith) tt
      (world [])

create-Creation_example :
    let r = create (manager (pos 3)) (pos 9) "b" late false (world []) in
    Creation laws.contents (prepared (pos 9) "b" late) (world []) r.0 r.2
create-Creation_example =
    create-Creation (manager (pos 3)) laws (omega arith) refl (pos 9) "b" late false (world [])

abbrev session : List Call
session = creates (pos 9) "b" late false ∷ gets (pos 5) ∷ deletes_one "a" ∷ deletes_one "a" ∷ []

calls-IsBalanced_example :
    IsBalanced (manager (pos 3)) laws (calls (manager (pos 3)) session (world []))
unfolding total
calls-IsBalanced_example =
    calls-IsBalanced (manager (pos 3)) laws (omega arith) refl session (world [])
      (record { balance = refl })

create-NothingStored_example :
    let r = create (manager (negsuc 0)) (pos 9) "b" late false (world []) in
    NothingStored (world []) r.0 r.2
create-NothingStored_example =
    create-NothingStored (manager (negsuc 0)) refl refl (pos 9) "b" late false (world []) refl
