-- ===== src/Container/Whole.antt =====
-- heap.Init, and what heap.Pop and heap.Remove do before they drop the last element.
use triggerhook.Base.{
  ℕ, zero, suc, ◌-◌, ◌/◌, ◌≤◌, ◌<◌, ◌≡◌, ap, ℤ, ◌≤ℤ◌, arith, inl, inr, Bool, Bool-cases, ok, ◌==◌,
  if◌then◌else◌, Returns, returns, Returns-map, Returns-bind,
}
use triggerhook.Container.Heap.{HeapInterface, init, up, down, unhook, pop, remove, push}
use triggerhook.Container.Heap
use triggerhook.Container.Order.{parent, IsHeap, Near, IsSwap}
use triggerhook.Container.Laws.{HeapLaws, Moved, Moved-refl, Moved-trans, Moved-mono, Shuffled-swap}
use triggerhook.Container.Up
use triggerhook.Container.Down
use triggerhook.Container.Down.{Sunk}

-- The root of a heap has the least priority.
root_least_below : (fuel n : ℕ) (k : ℕ → ℤ) (i : ℕ) → IsHeap 0 n k → i < fuel → i < n → k 0 ≤ℤ k i
root_least_below zero n k i heap f p = absurd (omega arith)
root_least_below (suc fuel) n k i heap f p =
    ground (arith, heap i, root_least_below fuel n k (parent i) heap)

pub root_least : (n : ℕ) (k : ℕ → ℤ) → IsHeap 0 n k → (i : ℕ) → i < n → k 0 ≤ℤ k i
root_least n k heap i p = root_least_below (suc i) n k i heap (omega arith) p

module _ {S X : Type 0} (h : HeapInterface S X) (Inv : S → Type 0) (elem : S → ℕ → X) (prio : X → ℤ)
    (laws : HeapLaws h Inv elem prio) where
  abbrev key : S → ℕ → ℤ
  key s c = prio (elem s c)

  init_loop_orders :
      (i : ℕ) (s : S) (n : ℕ)
      → i ≤ n
      → n ≤ h.len s
      → Inv s
      → IsHeap i n (key s)
      → Returns (λ t. Moved h Inv elem n s t × IsHeap 0 n (key t)) (Heap.init_loop h i s n)
  unfolding Heap.init_loop
  init_loop_orders zero s n inside size inv heap = returns (Moved-refl h Inv elem inv, heap)
  init_loop_orders (suc i) s n inside size inv heap =
      Returns-bind
        (Down.down_restores h Inv elem prio laws s i i n (omega arith) size (omega arith) inv near
          (λ p l. absurd (omega arith)))
        λ (_, t) (moved, ordered).
          Returns-map
            (init_loop_orders i t n (omega arith) (omega (arith, moved.size)) moved.inv ordered)
            λ u (m, done). (Moved-trans h Inv elem moved m, done)
    where
      near : Near i n (key s) i
      near = record {
        edges = λ c p q l _ g. heap c p q (omega arith);
        bridged = λ c p q e r l. absurd (omega arith);
      }

  -- heap.Init orders any container.
  pub init_orders :
      (s : S)
      → Inv s
      → Returns (λ t. Moved h Inv elem (h.len s) s t × IsHeap 0 (h.len s) (key t)) (init h s)
  unfolding init
  init_orders s inv =
      init_loop_orders (h.len s / 2) s (h.len s) (omega arith) (omega arith) inv
        (λ c p q l. absurd (omega arith))

  -- The element of `s` at `i` is the last of `t`, and the `n` before it are in order.
  pub record Unhooked (s : S) (i n : ℕ) (t : S) : Type 0 where
    pub moved : Moved h Inv elem (suc n) s t
    pub heap : IsHeap 0 n (key t)
    pub last : elem t n ≡ elem s i

  module _ (s : S) (i n : ℕ) (size : h.len s ≡ suc n) (inside : i < suc n) (inv : Inv s)
      (heap : IsHeap 0 (suc n) (key s)) where
    exchange :
        (t : S) × (h.swap s i n ≡ ok t) × Inv t × (h.len t ≡ h.len s) × IsSwap (elem s) (elem t) i n
    exchange = laws.swap_ok s i n inv (omega arith) (omega arith)

    exchanged-Near : (t : S) → IsSwap (elem s) (elem t) i n → Near 0 n (key t) i
    exchanged-Near t ex = record {
      edges = λ c p q l f g. ground (arith, heap c, ex c, ex (parent c));
      bridged = λ c p q e r l. ground (arith, heap c, heap i, ex c, ex (parent i));
    }

    finish :
        (t u : S)
        → Inv t
        → h.len t ≡ h.len s
        → IsSwap (elem s) (elem t) i n
        → Moved h Inv elem n t u
        → IsHeap 0 n (key u)
        → Unhooked s i n u
    finish t u inv' same ex m ordered = record {
      moved =
          Moved-trans h Inv elem
            (record { inv = inv'; size = same; shuffled = Shuffled-swap inside (omega arith) ex })
            (Moved-mono (omega arith) m);
      heap = ordered;
      last = ground (arith, m.shuffled.frame n, ex n);
    }

    -- The `up` that follows a `down` which moved nothing.
    lift :
        (t u : S) (b : Bool)
        → Inv t
        → h.len t ≡ h.len s
        → IsSwap (elem s) (elem t) i n
        → i < n
        → Moved h Inv elem n t u
        → Sunk h Inv elem prio laws 0 n i t b u
        → Returns (Unhooked s i n) (if b then ok u else up h u i)
    lift t u b inv' same ex lt m (inl (e, ordered)) =
        rw e (returns (finish t u inv' same ex m ordered))
    lift t u b inv' same ex lt m (inr (e, unchanged, settled)) =
        let size' = m.size in
        rw e (
          Returns-map
            (Up.up_restores h Inv elem prio laws u n i (omega arith) lt m.inv
              (rw unchanged (exchanged-Near t ex)) (rw unchanged settled))
            λ v (m', ordered). finish t v inv' same ex (Moved-trans h Inv elem m m') ordered)

  -- heap.Remove, up to the last step.
  unhook_lem :
      (s : S) (i n : ℕ)
      → h.len s ≡ suc n
      → i < n
      → Inv s
      → IsHeap 0 (suc n) (key s)
      → Returns (Unhooked s i n) (unhook h s i n)
  unfolding unhook
  unhook_lem s i n size inside inv heap =
      let (t, swapped, inv', same, ex) = exchange s i n size (omega arith) inv heap in
      rw swapped (
        Returns-bind
          (Down.down_sinks h Inv elem prio laws t 0 i n (omega arith) (omega arith) (omega arith)
            inv' (exchanged-Near s i n size (omega arith) inv heap t ex))
          λ (b, u) (m, sunk).
            lift s i n size (omega arith) inv heap t u b inv' same ex inside m sunk)

  -- Whatever h.Pop does with the rest, heap.Pop and heap.Remove do.
  pub pop_lem {ℓ} :
      {Q : X × S → Type ℓ} (s : S) (n : ℕ)
      → h.len s ≡ suc n
      → Inv s
      → IsHeap 0 (suc n) (key s)
      → ((t : S) → Unhooked s 0 n t → Returns Q (h.pop t))
      → Returns Q (pop h s)
  unfolding pop
  pop_lem s n size inv heap rest =
      let (t, swapped, inv', same, ex) = exchange s 0 n size (omega arith) inv heap in
      let last : h.len s - 1 ≡ n = omega arith in
      rw (last, swapped)
        (Returns-bind
          (Down.down_restores h Inv elem prio laws t 0 0 n (omega arith) (omega arith) (omega arith)
            inv' (exchanged-Near s 0 n size (omega arith) inv heap t ex)
            (λ p l. absurd (omega arith)))
          λ (_, u) (m, ordered).
            rest u (finish s 0 n size (omega arith) inv heap t u inv' same ex m ordered))

  pub remove_lem {ℓ} :
      {Q : X × S → Type ℓ} (s : S) (i n : ℕ)
      → h.len s ≡ suc n
      → i < suc n
      → Inv s
      → IsHeap 0 (suc n) (key s)
      → ((t : S) → Unhooked s i n t → Returns Q (h.pop t))
      → Returns Q (remove h s i)
  unfolding remove
  remove_lem s i n size inside inv heap rest =
      let last : h.len s - 1 ≡ n = omega arith in
      rw last (elim (Bool-cases (n == i)) [
        | inl here ↦ rw here (
            rest s (record {
              moved = Moved-refl h Inv elem inv;
              heap = λ c p q l. heap c p (omega arith) l;
              last = ap (elem s) (ground arith);
            }))
        | inr there ↦ rw there (Returns-bind (unhook_lem s i n size (ground arith) inv heap) rest)
      ])

  -- heap.Push, after h.Push has put the element at the end of a heap.
  pub push_lem :
      (s s' : S) (x : X) (n : ℕ)
      → h.push x s ≡ ok s'
      → h.len s' ≡ suc n
      → Inv s'
      → IsHeap 0 n (key s')
      → Returns (λ t. Moved h Inv elem (suc n) s' t × IsHeap 0 (suc n) (key t)) (push h s x)
  unfolding push
  push_lem s s' x n pushed size inv heap =
      let last : h.len s' - 1 ≡ n = omega arith in
      rw (pushed, last)
        (Up.up_restores h Inv elem prio laws s' (suc n) n (omega arith) (omega arith) inv near
          (λ c p q e. absurd (omega arith)))
    where
      near : Near 0 (suc n) (key s') n
      near = record {
        edges = λ c p q l f g. heap c p (omega arith) l;
        bridged = λ c p q e r l. absurd (omega arith);
      }
