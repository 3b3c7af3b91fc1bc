-- ===== src/Waiting/TaskHeap.antt =====
-- waiting_service/task_heap.go: the list of waiting tasks, by time, with an index by id. The index
-- maps an id to a pointer into the item's own position, `&item.index`: here, the item's address.
-- Each method holds the mutex from start to end, so a call is one step.
pub mod Valid
pub mod Drop
pub mod Take
pub mod Add
pub mod Refines
use triggerhook.Base.{
  ℕ, zero, suc, ◌+◌, ◌<◌, ℤ, pos, negsuc, String, List, [], ◌∷◌, ◌++◌, Bool, true, false, Option,
  none, some, length, update, write, ltb, if◌then◌else◌, Run, ok, panic, ◌>>=◌,
}
use triggerhook.Domain.{Task}
use triggerhook.Container.Heap
use triggerhook.Waiting.Items.{Item, Items, items_heap}
use triggerhook.Waiting.Items

pub record TaskHeap : Type 0 where
  pub items : Items
  pub index : String → Option ℕ

-- `&item{task: task, priority: task.ExecTime, index: i}`, at the next address.
unfoldable pub allocate : Items → Task → ℕ → Items
allocate s t i = record s {
  store = write s.store s.next (record { task = t; priority = t.exec_time; index = pos i });
  next = suc s.next;
}

-- The loop of NewPrioritizedTask, with `i` tasks appended so far.
unfoldable pub fill : List Task → ℕ → TaskHeap → TaskHeap
unfolding allocate
fill [] i h = h
fill (t ∷ ts) i h = fill ts (i + 1) (record {
  items = record (allocate h.items t i) { pq = h.items.pq ++ h.items.next ∷ [] };
  index = update h.index t.id (some h.items.next);
})

abbrev pub empty_items : Items
empty_items = record {
  pq = [];
  store =
      λ _. record { task = record { id = ""; exec_time = pos 0 }; priority = pos 0; index = pos 0 };
  next = 0;
}

abbrev pub empty : TaskHeap
empty = record { items = empty_items; index = λ _. none }

-- NewPrioritizedTask
unfoldable pub new_prioritized_task : List Task → Run TaskHeap
unfolding fill
new_prioritized_task ts =
    let h = fill ts 0 empty in Heap.init items_heap h.items >>= λ s. ok (record h { items = s })

unfoldable pub add : TaskHeap → Task → Run TaskHeap
unfolding allocate
add h t = Heap.push items_heap (allocate h.items t 0) h.items.next >>= λ s.
    ok (record { items = s; index = update h.index t.id (some h.items.next) })

-- heap.Remove at `*index`. A negative position is out of range.
unfoldable pub remove_at : ℤ → Items → Run (ℕ × Items)
remove_at (pos i) s = Heap.remove items_heap s i
remove_at (negsuc i) s = panic

unfoldable pub delete_if_exist : TaskHeap → String → Run (Bool × TaskHeap)
unfolding remove_at
delete_if_exist h id = elim (h.index id) [
  | none ↦ ok (false, h)
  | some a ↦ remove_at (h.items.store a).index h.items >>= λ (_, s).
      ok (true, record { items = s; index = update h.index id none })
]

unfoldable pub take : TaskHeap → Run (Option Task × TaskHeap)
take h =
    let popped : Run (Option Task × TaskHeap) = do
      (x, s) ← Heap.pop items_heap h.items
      let task = (s.store x).task
      ok (some task, record { items = s; index = update h.index task.id none })
    in if ltb 0 (Items.len h.items) then popped else ok (none, h)

unfoldable pub len : TaskHeap → ℕ
len h = Items.len h.items
