-- ===== src/Preloader/Tests.antt =====
-- The preloader and the waiting service over the table of one row.
use triggerhook.Base.{int64, ◌*ℤ◌, ◌-ℤ◌, ◌≡◌, refl, pos, [], ◌∷◌, true, false, arith}
use triggerhook.Contracts.Errors.{no_collections}
use triggerhook.TaskManager.OneRow.{manager, laws, world, late}
use triggerhook.Preloader.Service.{PreloadingService, is_taken, cancel_if_exist, get_bunch_of_task}
use triggerhook.Preloader.Intake.{Intake, Cancellation, cancel_if_exist-Cancellation}

-- Five seconds of preloading, twice for a new task.
abbrev service : PreloadingService
service = record { time_preload = pos 5000000000; coef_time_preload_of_new_task = pos 2 }

near : is_taken service (pos 1) (pos 10) ≡ true
unfolding is_taken int64 ◌*ℤ◌ ◌-ℤ◌
near = refl

far : is_taken service (pos 1) (pos 11) ≡ false
unfolding is_taken int64 ◌*ℤ◌ ◌-ℤ◌
far = refl

bunches :
    (get_bunch_of_task
      (manager (pos 3))
      ((late ∷ []) ∷ (late ∷ late ∷ []) ∷ [])
      no_collections
      (world [])).0
    ≡ late ∷ late ∷ late ∷ []
unfolding get_bunch_of_task
bunches = refl

cancel_if_exist-Cancellation_example :
    Cancellation laws.contents "a"
      (world (late ∷ []))
      (cancel_if_exist (manager (pos 3)) "a" (world (late ∷ [])))
cancel_if_exist-Cancellation_example =
    cancel_if_exist-Cancellation (manager (pos 3)) laws (omega arith) refl "a" (world (late ∷ []))
