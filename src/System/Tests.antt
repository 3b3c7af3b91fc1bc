-- ===== src/System/Tests.antt =====
-- One task from the preloader to the sender, over the table of one row.
use triggerhook.Base.{int64, ◌*ℤ◌, ◌-ℤ◌, [], ◌∷◌, List, value, ◌≡◌, refl, pos}
use triggerhook.TaskManager.OneRow.{Table, manager, world, late}
use triggerhook.TriggerHook.{TriggerHook}
use triggerhook.Container.Heap
use triggerhook.Waiting.Items
use triggerhook.Waiting.Items.{items_heap}
use triggerhook.Waiting.TaskHeap.{add, take}
use triggerhook.Sender.Lending.{confirms}
use triggerhook.Sender.Lending
use triggerhook.System.{
  System, Act, fetches, rounds, on_preloaded, on_timer, consumes_due, uses, confirms, start, step,
  run, fetch,
}

abbrev hook : TriggerHook Table (Unit {0})
hook = record {
  preloading_service = record { time_preload = pos 10; coef_time_preload_of_new_task = pos 2 };
  task_manager = manager (pos 3);
}

abbrev begun : System Table
unfolding start
begun = start 1 (world (late ∷ []))

abbrev from_due : List Act
from_due = consumes_due ∷ uses 0 Lending.confirms ∷ confirms ∷ []

abbrev from_listed : List Act
from_listed = rounds on_timer (pos 0) ∷ from_due

abbrev from_fetched : List Act
from_fetched = rounds (on_preloaded 0) (pos 0) ∷ from_listed

abbrev whole_way : List Act
whole_way = fetches late ∷ from_fetched

goes_through : (value begun (run hook 5 2 whole_way begun)).sender.batcher.received ≡ late ∷ []
unfolding run begun take Items.len add Heap.push items_heap Heap.up Heap.pop Heap.down int64 ◌*ℤ◌
    ◌-ℤ◌
goes_through = refl

abbrev listed : System Table
listed = value begun (step hook 5 2 (rounds (on_preloaded 0) (pos 0)) (fetch late begun))

abbrev due : System Table
due = value begun (step hook 5 2 (rounds on_timer (pos 0)) listed)
