-- ===== src/Waiting/TaskHeap/Refines.antt =====
-- The list of waiting tasks as a finite map from ids to tasks, and the methods as steps on it.
use mathlib.Core.Path.{fun_ext}
use triggerhook.Base.{
  ◌≡◌, sym, ◌∙◌, ap, ◌≤ℤ◌, String, Option, none, some, inl, inr, arith, update, is_some, Returns,
  Returns-map, Option-cases,
}
use triggerhook.Domain.{Task}
use triggerhook.Waiting.TaskHeap.{TaskHeap, add, take, delete_if_exist}
use triggerhook.Waiting.TaskHeap.Valid.{IsValid, tasks}
use triggerhook.Waiting.TaskHeap.Take.{Taken, take_lem, delete_lem}
use triggerhook.Waiting.TaskHeap.Add.{add_lem}

-- What the list stands for.
abbrev pub View : Type 0
View = String → Option Task

abbrev pub Refines : TaskHeap → View → Type 0
Refines h m = IsValid h × (tasks h ≡ m)

-- No waiting task is due before `x`.
abbrev pub IsFirst : View → Task → Type 0
IsFirst m x = (id : String) (y : Task) → m id ≡ some y → x.exec_time ≤ℤ y.exec_time

pub no_index : (h : TaskHeap) (id : String) → tasks h id ≡ none → h.index id ≡ none
no_index h id e = elim (Option-cases (h.index id)) [
  | inl absent ↦ absent
  | inr (a, found) ↦ absurd (ground (arith, found))
]

-- Add, on a list that refines a map without the id of the task, returns a list that refines the
-- map with the task under its id.
pub add-Refines :
    (h : TaskHeap) (m : View) (t : Task)
    → Refines h m
    → m t.id ≡ none
    → Returns (λ h'. Refines h' (update m t.id (some t))) (add h t)
add-Refines h m t (v, e) new =
    Returns-map (add_lem h t v (no_index h t.id (ap (λ (f : View). f t.id) e ∙ new)))
      λ h' a. (a.valid, fun_ext a.present ∙ ap (λ (f : View). update f t.id (some t)) e)

-- DeleteIfExist, on a list that refines a map, returns whether the map has the id, and a list that
-- refines the map without that id.
pub delete-Refines :
    (h : TaskHeap) (m : View) (id : String)
    → Refines h m
    → Returns
        (λ (known, h'). (known ≡ is_some (m id)) × Refines h' (update m id none))
        (delete_if_exist h id)
delete-Refines h m id (v, e) = Returns-map (delete_lem h id v) λ (known, h') d. (
  d.known ∙ ap (λ (f : View). is_some (f id)) e,
  (d.valid, fun_ext d.rest ∙ ap (λ (f : View). update f id none) e),
)

-- What Take gives: nothing of an empty map, or a first task, which it clears.
abbrev pub TakenFrom : View → Option Task → TaskHeap → Type 0
TakenFrom m none h' = Refines h' m × ((id : String) → m id ≡ none)
TakenFrom m (some x) h' = Refines h' (update m x.id none) × (m x.id ≡ some x) × IsFirst m x

taken_from :
    (h : TaskHeap) (m : View)
    → Refines h m
    → (r : Option Task) (h' : TaskHeap) → Taken h (r, h')
    → TakenFrom m r h'
taken_from h m (v, e) none h' (same, empty) =
    ((rw same v, rw same e), λ id. ap (λ (f : View). f id) (sym e) ∙ empty id)
taken_from h m (v, e) (some x) h' (gone, at, first) = (
  (gone.valid, fun_ext gone.rest ∙ ap (λ (f : View). update f x.id none) e),
  ap (λ (f : View). f x.id) (sym e) ∙ at,
  λ id y found. first id y (ap (λ (f : View). f id) e ∙ found),
)

-- Take, on a list that refines a map from ids to tasks, returns: nothing, with the list still
-- refining the map, if the map is empty; otherwise a task of the map, no task of which has an
-- earlier execution time, with a list that refines the map without its id.
pub take-Refines :
    (h : TaskHeap) (m : View) → Refines h m → Returns (λ (r, h'). TakenFrom m r h') (take h)
take-Refines h m v = Returns-map (take_lem h v.0) λ (r, h') t. taken_from h m v r h' t
