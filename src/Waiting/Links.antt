-- ===== src/Waiting/Links.antt =====
-- The slice of items meets the laws of the heap functions: positions and tasks stay consistent.
use triggerhook.Base.{
  ℕ, ◌<◌, ◌≡◌, ap, ◌∙◌, ℤ, pos, length, set, write, get_elem?, get_elem?-get_or, get_or-set,
  length-set, ltb_ℤ, arith, ok, some,
}
use triggerhook.Container.Order.{IsSwap}
use triggerhook.Container.Laws.{HeapLaws}
use triggerhook.Waiting.Items.{Items, items_heap, elem}

-- Every item knows its position, and holds the task and the priority that it has in `base`, which has
-- allocated as much.
pub record IsLinked (base : Items) (s : Items) : Type 0 where
  pub linked : (i : ℕ) → i < length s.pq → (s.store (elem s i)).index ≡ pos i
  pub same_task : (a : ℕ) → (s.store a).task ≡ (base.store a).task
  pub same_priority : (a : ℕ) → (s.store a).priority ≡ (base.store a).priority
  pub same_next : s.next ≡ base.next

module _ (base : Items) where
  abbrev pub prio : ℕ → ℤ
  prio a = (base.store a).priority

  pub elem-ok : (s : Items) (i : ℕ) → i < length s.pq → get_elem? s.pq i ≡ some (elem s i)
  elem-ok s i p = get_elem?-get_or s.pq i 0 p

  -- Two positions never share an item.
  pub elem-injective :
      {s : Items}
      → IsLinked base s
      → (i j : ℕ) → i < length s.pq
      → j < length s.pq
      → elem s i ≡ elem s j
      → i ≡ j
  elem-injective l i j p q e = ground (arith, l.linked i, l.linked j)

  items_less_ok :
      (s : Items) (i j : ℕ)
      → IsLinked base s
      → i < length s.pq
      → j < length s.pq
      → items_heap.less s i j ≡ ok (ltb_ℤ (prio (elem s i)) (prio (elem s j)))
  unfolding items_heap
  items_less_ok s i j l p q =
      rw (elem-ok s i p, elem-ok s j q, l.same_priority (elem s i), l.same_priority (elem s j))

  -- The items after an exchange.
  swapped : Items → ℕ → ℕ → Items
  swapped s i j =
      let a = elem s i in
      let b = elem s j in
      let s1 = write s.store b (record (s.store b) { index = pos i }) in
      record s { pq = set (set s.pq i b) j a; store = write s1 a (record (s1 a) { index = pos j }) }

  length-swapped : (s : Items) (i j : ℕ) → length (swapped s i j).pq ≡ length s.pq
  unfolding swapped
  length-swapped s i j =
      length-set (set s.pq i (elem s j)) j (elem s i) ∙ length-set s.pq i (elem s j)

  swapped-IsSwap :
      (s : Items) (i j : ℕ)
      → i < length s.pq
      → j < length s.pq
      → IsSwap (elem s) (elem (swapped s i j)) i j
  unfolding swapped
  swapped-IsSwap s i j p q c = rw (
    get_or-set (set s.pq i (elem s j)) j (elem s i) c 0 (rw length-set q),
    get_or-set s.pq i (elem s j) c 0 p,
  )

  swap-swapped :
      (s : Items) (i j : ℕ)
      → i < length s.pq
      → j < length s.pq
      → items_heap.swap s i j ≡ ok (swapped s i j)
  unfolding items_heap swapped
  swap-swapped s i j p q =
      let size = length-swapped s i j in
      let at_i : elem (swapped s i j) i ≡ elem s j = ground (arith, swapped-IsSwap s i j p q i) in
      let at_j : elem (swapped s i j) j ≡ elem s i = ground (arith, swapped-IsSwap s i j p q j) in
      rw (
        elem-ok s j q,
        elem-ok s i p,
        elem-ok (swapped s i j) i (omega arith) ∙ ap some at_i,
        elem-ok (swapped s i j) j (omega arith) ∙ ap some at_j,
      )

  swapped-IsLinked :
      (s : Items) (i j : ℕ)
      → IsLinked base s
      → i < length s.pq
      → j < length s.pq
      → IsLinked base (swapped s i j)
  unfolding swapped
  swapped-IsLinked s i j l p q = record {
    linked = λ c r.
        let size = length-swapped s i j in
        ground (arith, swapped-IsSwap s i j p q c, l.linked c, l.linked i, l.linked j);
    same_task = λ a. ground (arith, l.same_task a, l.same_task (elem s i), l.same_task (elem s j));
    same_priority = λ a.
        ground (arith, l.same_priority a, l.same_priority (elem s i), l.same_priority (elem s j));
    same_next = l.same_next;
  }

  pub items_laws : HeapLaws items_heap (IsLinked base) elem prio
  unfolding items_heap
  items_laws = record {
    less_ok = items_less_ok;
    swap_ok = λ s i j l p q. (
      swapped s i j,
      swap-swapped s i j p q,
      swapped-IsLinked s i j l p q,
      length-swapped s i j,
      swapped-IsSwap s i j p q,
    );
  }
