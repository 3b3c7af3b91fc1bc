-- ===== src/Waiting/Items.antt =====
-- waiting_service/heap.go: a slice of pointers to items, each of which keeps its own position.
-- An address stands for a pointer, and `store` for what it points to.
use triggerhook.Base.{
  ℕ, ◌-◌, ℤ, pos, negsuc, List, [], ◌∷◌, ◌++◌, Bool, length, get_elem?, get_or, set, take, write,
  ltb_ℤ, Run, ok, ◌>>=◌, or_panic,
}
use triggerhook.Domain.{Task}
use triggerhook.Container.Heap.{HeapInterface}

pub record Item : Type 0 where
  pub task : Task
  pub priority : ℤ
  pub index : ℤ

-- The slice `pq`, and the store: `next` is the first address that is not in use.
pub record Items : Type 0 where
  pub pq : List ℕ
  pub store : ℕ → Item
  pub next : ℕ

unfoldable pub len : Items → ℕ
len s = length s.pq

-- `items[i].priority`
priority_at : Items → ℕ → Run ℤ
priority_at s i = do a ← or_panic (get_elem? s.pq i); ok (s.store a).priority

less : Items → ℕ → ℕ → Run Bool
unfolding priority_at
less s i j = do x ← priority_at s i; y ← priority_at s j; ok (ltb_ℤ x y)

-- `items[i].index = i`
pub set_index : Items → ℕ → Run Items
set_index s i = do
  a ← or_panic (get_elem? s.pq i)
  ok (record s { store = write s.store a (record (s.store a) { index = pos i }) })

swap : Items → ℕ → ℕ → Run Items
unfolding set_index
swap s i j = do
  b ← or_panic (get_elem? s.pq j)
  a ← or_panic (get_elem? s.pq i)
  s1 ← set_index (record s { pq = set (set s.pq i b) j a }) i
  set_index s1 j

push : ℕ → Items → Run Items
push x s = ok (record s {
  store = write s.store x (record (s.store x) { index = pos (length s.pq) });
  pq = s.pq ++ x ∷ [];
})

-- The slot that falls off the slice is cleared, which nothing reads.
pop : Items → Run (ℕ × Items)
pop s = do
  let n = length s.pq
  x ← or_panic (get_elem? s.pq (n - 1))
  ok (
    x,
    record s {
      store = write s.store x (record (s.store x) { index = negsuc 0 });
      pq = take (n - 1) s.pq;
    },
  )

unfoldable pub items_heap : HeapInterface Items ℕ
unfolding len less swap push pop
items_heap = record { len = len; less = less; swap = swap; push = push; pop = pop }

-- The address at an index, for statements.
abbrev pub elem : Items → ℕ → ℕ
elem s i = get_or s.pq i 0
