-- ===== src/Waiting/TaskHeap/Take.antt =====
-- Take and DeleteIfExist.
use triggerhook.Base.{
  ℕ, suc, ◌-◌, ◌<◌, ◌≡◌, refl, sym, ◌∙◌, ap, ◌≤ℤ◌, String, Option, none, some, length, arith, ltb,
  if◌then◌else◌, str_eq, eq_iff, pos, inl, inr, Bool, false, Bool-cases, Option-cases, Returns,
  returns, Returns-bind, is_some,
}
use triggerhook.Domain.{Task}
use triggerhook.Container.Heap
use triggerhook.Container.Whole.{pop_lem, remove_lem, root_least}
use triggerhook.Waiting.Items.{Item, Items, items_heap, elem}
use triggerhook.Waiting.Items
use triggerhook.Waiting.Links.{IsLinked, prio, items_laws}
use triggerhook.Waiting.TaskHeap.{TaskHeap, take, delete_if_exist}
use triggerhook.Waiting.TaskHeap.Valid.{IsValid, tasks, tasks-listed, tasks-backed}
use triggerhook.Waiting.TaskHeap.Drop.{Gone, Removed, pop-Removed}

-- What Take returns: nothing from a list that holds nothing, or a task that no other precedes,
-- which is no longer in the list.
abbrev pub Taken : TaskHeap → Option Task × TaskHeap → Type 0
Taken h (none, h') = (h' ≡ h) × ((id : String) → tasks h id ≡ none)
Taken h (some x, h') =
    Gone h x h'
    × (tasks h x.id ≡ some x)
    × ((id : String) (y : Task) → tasks h id ≡ some y → x.exec_time ≤ℤ y.exec_time)

-- The root of a valid list is due first.
root_first :
    {h : TaskHeap}
    → IsValid h
    → 0 < length h.items.pq
    → (id : String) (y : Task) → tasks h id ≡ some y
    → (h.items.store (elem h.items 0)).task.exec_time ≤ℤ y.exec_time
root_first {h} v p id y e =
    let (i, q, same, _) = tasks-backed v id y e in
    let least =
      root_least (length h.items.pq) (λ c. (h.items.store (elem h.items c)).priority) v.heap i q in
    ground (arith, least, (v.listed 0 p).keyed, (v.listed i q).keyed, same)

-- An empty list holds nothing.
none_waits :
    {h : TaskHeap}
    → IsValid h
    → ltb 0 (length h.items.pq) ≡ false
    → (id : String) → tasks h id ≡ none
none_waits {h} v e id = elim (Option-cases (tasks h id)) [
  | inl absent ↦ absent
  | inr (y, found) ↦ let (i, p, _, _) = tasks-backed v id y found in absurd (ground arith)
]

popped :
    (h : TaskHeap)
    → IsValid h
    → (n : ℕ) → length h.items.pq ≡ suc n
    → Returns (Removed h 0) (Heap.pop items_heap h.items)
unfolding items_heap
popped h v n e =
    pop_lem items_heap (IsLinked h.items) elem (prio h.items) (items_laws h.items) h.items n e
      v.linked (rw e at v.heap) λ t u. pop-Removed h n 0 v e (omega arith) t u

removed :
    (h : TaskHeap)
    → IsValid h
    → (r : ℕ) → r < length h.items.pq
    → Returns (Removed h r) (Heap.remove items_heap h.items r)
unfolding items_heap
removed h v r p =
    let n = length h.items.pq - 1 in
    let e : length h.items.pq ≡ suc n = omega arith in
    remove_lem items_heap (IsLinked h.items) elem (prio h.items) (items_laws h.items) h.items r n e
      (omega arith) v.linked (rw e at v.heap) λ t u. pop-Removed h n r v e (omega arith) t u

pub take_lem : (h : TaskHeap) → IsValid h → Returns (Taken h) (take h)
unfolding take Items.len
take_lem h v = elim (Bool-cases (ltb 0 (length h.items.pq))) [
  | inr none_left ↦ rw none_left (returns (refl, none_waits v none_left))
  | inl some_left ↦
      let waits : 0 < length h.items.pq = ground arith in
      rw some_left (
        Returns-bind (popped h v (length h.items.pq - 1) (omega arith))
          λ (x, s) r. rw r.task (returns (r.gone, tasks-listed v 0 waits, root_first v waits)))
]

-- DeleteIfExist says whether the task was there, and leaves the others.
pub record Deleted (h : TaskHeap) (id : String) (r : Bool × TaskHeap) : Type 0 where
  pub valid : IsValid r.1
  pub known : r.0 ≡ is_some (tasks h id)
  pub rest : (j : String) → tasks r.1 j ≡ (if str_eq id j then none else tasks h j)

missing_rest :
    (h : TaskHeap) (id : String)
    → tasks h id ≡ none
    → (j : String) → tasks h j ≡ (if str_eq id j then none else tasks h j)
missing_rest h id e j = elim (Bool-cases (str_eq id j)) [
  | inl same ↦ rw same (ap (tasks h) (sym ((eq_iff id j).0 same)) ∙ e)
  | inr other ↦ rw other
]

pub delete_lem :
    (h : TaskHeap) (id : String) → IsValid h → Returns (Deleted h id) (delete_if_exist h id)
unfolding delete_if_exist
delete_lem h id v = elim (Option-cases (h.index id)) [
  | inl absent ↦
      let none_there : tasks h id ≡ none = rw absent in
      rw (absent, delete_if_exist)
        (returns (record { valid = v; known = rw none_there; rest = missing_rest h id none_there }))
  | inr (a, found) ↦
      let (i, p, at, same) = v.backed id a found in
      let place : (h.items.store a).index ≡ pos i =
        ap (λ b. (h.items.store b).index) (sym at) ∙ v.linked.linked i p in
      let there : tasks h id ≡ some (h.items.store a).task = rw found in
      let id_at : (h.items.store (elem h.items i)).task.id ≡ id = rw at same in
      rw (found, delete_if_exist, place)
        (Returns-bind (removed h v i p) λ (x, s) r.
          let gone = rw id_at at r.gone in
          returns (record {
            valid = gone.valid;
            known = rw there;
            rest = λ j. gone.rest j ∙ ap (λ k. if str_eq k j then none else tasks h j) id_at;
          }))
]
