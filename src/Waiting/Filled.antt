-- ===== src/Waiting/Filled.antt =====
-- NewPrioritizedTask: the list that it makes of tasks with distinct ids.
use mathlib.Core.Path.{fun_ext}
use triggerhook.Base.{
  ℕ, suc, ◌+◌, ◌<◌, ◌≡◌, refl, sym, ◌∙◌, ap, subst, pos, String, str_eq, eq_iff, List, [], ◌∷◌,
  ◌++◌, Option, none, some, length, length-append, update, write, arith, ok, Run, ◌>>=◌, Returns,
  returns, Returns-map, Returns-bind, if◌then◌else◌,
}
use triggerhook.Base
use triggerhook.Domain.{Task}
use triggerhook.Container.Order.{IsHeap}
use triggerhook.Container.Laws.{Moved}
use triggerhook.Container.Whole.{init_orders}
use triggerhook.Waiting.Items.{Items, Item, items_heap, elem}
use triggerhook.Waiting.Links.{IsLinked, prio, items_laws}
use triggerhook.Waiting.TaskHeap.{TaskHeap, allocate, fill, empty, new_prioritized_task}
use triggerhook.Waiting.TaskHeap.Valid.{
  IsStored, IsValid, IsValid-IsStored, IsValid-of, tasks, tasks_of, empty-IsValid,
}
use triggerhook.Waiting.TaskHeap.Add.{pushed, pushed-Appended}
use triggerhook.Waiting.TaskHeap.Refines.{View, Refines, no_index}
use triggerhook.Waiting.Loop.{greedy_add}
use triggerhook.Waiting.Loop.Rounds.{AreNew, put_all, greedy_add-Refines}

-- An item appended with its position is one pushed.
appended : TaskHeap → Task → ℕ → TaskHeap
appended h t i = record {
  items = record (allocate h.items t i) { pq = h.items.pq ++ h.items.next ∷ [] };
  index = update h.index t.id (some h.items.next);
}

appended-pushed :
    (h : TaskHeap) (t : Task) (v : IsStored h) (new : h.index t.id ≡ none)
    → record { items = pushed h t v new; index = update h.index t.id (some h.items.next) }
      ≡ appended h t (length h.items.pq)
unfolding appended allocate
appended-pushed h t v new =
    ap
      (λ (store : ℕ → Item). record {
        items = record {
          pq = h.items.pq ++ h.items.next ∷ [];
          store = store;
          next = suc h.items.next;
        };
        index = update h.index t.id (some h.items.next);
      })
      (fun_ext λ a. ground arith)

-- A list as it is filled, which stands for a map.
record Filled (h : TaskHeap) (m : View) (size : ℕ) : Type 0 where
  stored : IsStored h
  view : tasks h ≡ m
  sized : length h.items.pq ≡ size

appended-Filled :
    (h : TaskHeap) (m : View) (i : ℕ) (t : Task)
    → Filled h m i
    → m t.id ≡ none
    → Filled (appended h t i) (update m t.id (some t)) (i + 1)
unfolding appended allocate
appended-Filled h m i t f new =
    let absent = no_index h t.id (ap (λ (v : View). v t.id) f.view ∙ new) in
    let a = pushed-Appended h t f.stored absent in
    let e = appended-pushed h t f.stored absent ∙ ap (appended h t) f.sized in
    record {
      stored = subst IsStored e a.stored;
      view =
          sym (ap tasks e) ∙ fun_ext a.present ∙ ap (λ (v : View). update v t.id (some t)) f.view;
      sized = let l = length-append h.items.pq (h.items.next ∷ []) in omega (arith, l, f.sized);
    }

fill-Filled :
    (ts : List Task) (h : TaskHeap) (m : View) (i : ℕ)
    → Filled h m i
    → AreNew ts m
    → Filled (fill ts i h) (put_all ts m) (i + length ts)
unfolding fill appended
fill-Filled [] h m i f new = subst (Filled h m) (omega arith) f
fill-Filled (t ∷ ts) h m i f (new, rest) =
    subst (Filled (fill ts (i + 1) (appended h t i)) (put_all ts (update m t.id (some t))))
      (omega arith)
      (fill-Filled ts (appended h t i) (update m t.id (some t)) (i + 1)
        (appended-Filled h m i t f new) rest)

-- heap.Init orders what is stored, and keeps the tasks.
ordered-Refines :
    (h : TaskHeap) (m : View) (u : Items)
    → IsStored h
    → tasks h ≡ m
    → Moved items_heap (IsLinked h.items) elem (length h.items.pq) h.items u
    → IsHeap 0 (length h.items.pq) (λ c. prio h.items (elem u c))
    → Refines (record h { items = u }) m
unfolding items_heap
ordered-Refines h m u st e moved heap =
    let n = length h.items.pq in
    (
      IsValid-of h.items u h.index n moved.inv moved.size heap
          (λ i p. let (j, q, same) = moved.shuffled.sound i p in rw same (st.listed j q))
          (λ id a found.
            let (i, p, at, named) = st.backed id a found in
            let (j, q, same) = moved.shuffled.complete i p in (j, q, sym same ∙ at, named)),
      fun_ext (tasks_of h.items u h.index n moved.inv moved.size) ∙ e,
    )

abbrev pub nothing : View
nothing id = none

pub new_prioritized_task-Refines :
    (ts : List Task)
    → AreNew ts nothing
    → Returns (λ h. Refines h (put_all ts nothing)) (new_prioritized_task ts)
unfolding new_prioritized_task items_heap
new_prioritized_task-Refines ts new =
    let f =
      fill-Filled ts empty nothing 0
        (record { stored = IsValid-IsStored empty-IsValid; view = refl; sized = refl }) new in
    let h = fill ts 0 empty in
    Returns-bind
      (init_orders items_heap (IsLinked h.items) elem (prio h.items) (items_laws h.items) h.items
        f.stored.linked)
      λ u (moved, heap).
        returns (ordered-Refines h (put_all ts nothing) u f.stored f.view moved heap)

take_all : (ts : List Task) → Base.take (length ts) ts ≡ ts
take_all [] = refl
take_all (t ∷ ts) = ap (λ l. t ∷ l) (take_all ts)

-- NewPrioritizedTask of tasks with distinct ids returns, as does adding them one after another to
-- an empty list; both lists are valid, which includes the order of the heap and the index by id,
-- and hold the same task under each id.
pub new_prioritized_task-adds :
    (ts : List Task)
    → AreNew ts nothing
    → Returns
        (λ h.
          Returns
            (λ h'. IsValid h × IsValid h' × (tasks h ≡ tasks h'))
            (greedy_add (length ts) ts empty))
        (new_prioritized_task ts)
new_prioritized_task-adds ts new = Returns-map (new_prioritized_task-Refines ts new) λ h (v, e).
    Returns-map
      (greedy_add-Refines (length ts) ts empty nothing (empty-IsValid, refl)
        (subst (λ l. AreNew l nothing) (sym (take_all ts)) new))
      λ h' (v', e'). (v, v', e ∙ ap (λ l. put_all l nothing) (sym (take_all ts)) ∙ sym e')
