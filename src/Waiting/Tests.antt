-- ===== src/Waiting/Tests.antt =====
-- Runs of the waiting list and of its loop, and the theorems at concrete inputs.
use triggerhook.Base.{
  ℕ, ◌≡◌, refl, pos, String, List, [], ◌∷◌, Option, none, some, update, Run, ok, ◌>>=◌, value,
  Returns, Returns-value,
}
use triggerhook.Domain.{Task}
use triggerhook.Container.Heap
use triggerhook.Waiting.Items.{items_heap}
use triggerhook.Waiting.TaskHeap.{TaskHeap, empty, add, take, delete_if_exist, new_prioritized_task}
use triggerhook.Waiting.TaskHeap.Valid.{IsValid, tasks, empty-IsValid}
use triggerhook.Waiting.Loop.{greedy_add}
use triggerhook.Waiting.Filled.{new_prioritized_task-adds}
use triggerhook.Waiting.TaskHeap.Refines.{View, Refines, TakenFrom, add-Refines, take-Refines}

abbrev pub task : String → ℕ → Task
task id time = record { id = id; exec_time = pos time }

abbrev pub order : Run (List (Option Task))
order = do
  h ← new_prioritized_task (task "a" 30 ∷ task "b" 10 ∷ task "c" 20 ∷ [])
  h1 ← add h (task "d" 5)
  (known, h2) ← delete_if_exist h1 "b"
  (x, h3) ← take h2
  (y, h4) ← take h3
  (z, h5) ← take h4
  (w, h6) ← take h5
  ok (x ∷ y ∷ z ∷ w ∷ [])

order_lem : order ≡ ok (some (task "d" 5) ∷ some (task "c" 20) ∷ some (task "a" 30) ∷ none ∷ [])
unfolding new_prioritized_task add delete_if_exist take items_heap Heap.init Heap.up Heap.down
    Heap.push Heap.pop Heap.remove
order_lem = refl

unfoldable pub nothing : View
nothing id = none

pub empty-Refines : Refines empty nothing
unfolding nothing
empty-Refines = (empty-IsValid, refl)

-- The list with a task due at 10, and then another due at 20.
abbrev pub one : TaskHeap
one = value empty (add empty (task "a" 10))

abbrev pub one_view : View
one_view = update nothing "a" (some (task "a" 10))

pub one-Refines : Refines one one_view
unfolding nothing
one-Refines = Returns-value empty (add-Refines empty nothing (task "a" 10) empty-Refines refl)

abbrev pub two : TaskHeap
two = value empty (add one (task "b" 20))

abbrev pub two_view : View
two_view = update one_view "b" (some (task "b" 20))

two_added : Returns (λ h'. Refines h' two_view) (add one (task "b" 20))
unfolding nothing
two_added = add-Refines one one_view (task "b" 20) one-Refines refl

pub two-Refines : Refines two two_view
two-Refines = Returns-value empty two_added

take-Refines_example : Returns (λ (r, h'). TakenFrom two_view r h') (take two)
take-Refines_example = take-Refines two two_view two-Refines

-- As for `order`.
abbrev three : List Task
three = task "a" 30 ∷ task "b" 10 ∷ task "c" 20 ∷ []

new_prioritized_task-adds_example :
    Returns
      (λ h.
        Returns (λ h'. IsValid h × IsValid h' × (tasks h ≡ tasks h')) (greedy_add 3 three empty))
      (new_prioritized_task three)
new_prioritized_task-adds_example = new_prioritized_task-adds three (refl, (refl, (refl, tt)))
