-- ===== src/Container/Down.antt =====
-- heap.down restores the order below one element, or leaves the heap as it is.
use triggerhook.Base.{
  ℕ, zero, suc, ◌+◌, ◌*◌, ◌≤◌, ◌<◌, ◌≡◌, refl, sym, ℤ, ltb, leb, ltb_ℤ, ◌≤ℤ◌, arith, ◌⊎◌, inl, inr,
  true, false, Bool, Bool-cases, Returns, returns, Returns-map, Returns-bind,
}
use triggerhook.Container.Heap.{HeapInterface, down}
use triggerhook.Container.Heap
use triggerhook.Container.Order.{
  parent, IsHeap, Near, IsRooted, IsSettled, Near-IsHeap, Near-sink, IsSwap,
}
use triggerhook.Container.Laws.{HeapLaws, Moved, Moved-refl, Moved-trans, Shuffled-swap}

children : (c i : ℕ) → 0 < c → parent c ≡ i → (c ≡ 2 * i + 1) ⊎ (c ≡ 2 * i + 1 + 1)
children c i p e = grind arith

-- `j` is the child of `i` with the least value.
record IsLeastChild (n : ℕ) (k : ℕ → ℤ) (i j : ℕ) : Type 0 where
  within : j < n
  child : parent j ≡ i
  below : i < j
  least : (c : ℕ) → 0 < c → c < n → parent c ≡ i → k j ≤ℤ k c

module _ {S X : Type 0} (h : HeapInterface S X) (Inv : S → Type 0) (elem : S → ℕ → X) (prio : X → ℤ)
    (laws : HeapLaws h Inv elem prio) where
  abbrev key : S → ℕ → ℤ
  key s c = prio (elem s c)

  least_child :
      (s : S) (i n : ℕ)
      → n ≤ h.len s
      → 2 * i + 1 < n
      → Inv s
      → Returns (IsLeastChild n (key s) i) (Heap.smaller_child h s (2 * i + 1) n)
  unfolding Heap.smaller_child
  least_child s i n size lt inv = elim (Bool-cases (ltb (2 * i + 1 + 1) n)) [
    | inl two ↦
        rw (two, laws.less_ok s (2 * i + 1 + 1) (2 * i + 1) inv (ground arith) (omega arith))
          (elim (Bool-cases (ltb_ℤ (key s (2 * i + 1 + 1)) (key s (2 * i + 1)))) [
            | inl right ↦ rw right (
                returns (record {
                  within = ground arith;
                  child = omega arith;
                  below = omega arith;
                  least = λ c p q e. ground (arith, children c i p e);
                }))
            | inr left ↦ rw left (
                returns (record {
                  within = omega arith;
                  child = omega arith;
                  below = omega arith;
                  least = λ c p q e. ground (arith, children c i p e);
                }))
          ])
    | inr one ↦ rw one (
        returns (record {
          within = omega arith;
          child = omega arith;
          below = omega arith;
          least = λ c p q e. ground (arith, children c i p e);
        }))
  ]

  -- The element has moved below `i` and the order holds, or nothing has changed and the edges
  -- below `i` are in order.
  abbrev Landed : ℕ → ℕ → ℕ → S → ℕ → S → Type 0
  Landed lo n i s i' t =
      ((i < i') × IsHeap lo n (key t)) ⊎ ((i' ≡ i) × (t ≡ s) × IsSettled n (key s) i)

  -- What one exchange with the least child gives.
  sink_moves :
      (s t : S) (lo i j n : ℕ)
      → n ≤ h.len s
      → lo ≤ i
      → Inv t
      → h.len t ≡ h.len s
      → IsSwap (elem s) (elem t) i j
      → ltb_ℤ (key s j) (key s i) ≡ true
      → IsLeastChild n (key s) i j
      → Near lo n (key s) i
      → Moved h Inv elem n s t × Near lo n (key t) j × IsRooted lo (key t) j
  sink_moves s t lo i j n size low inv same ex less c near =
      let (near', rooted) =
        Near-sink {k = key s} {k' = key t} (λ d. ground (arith, ex d)) (omega (arith, c.below))
          c.within (sym c.child) low (ground arith) c.least near in
      (
        record {
          inv = inv;
          size = same;
          shuffled = Shuffled-swap (omega (arith, c.within, c.below)) c.within ex;
        },
        near',
        rooted,
      )

  -- However the rest of the loop lands, the order holds.
  settle :
      (t u : S) (lo i j i' n : ℕ)
      → i < j
      → Near lo n (key t) j
      → IsRooted lo (key t) j
      → Landed lo n j t i' u
      → (i < i') × IsHeap lo n (key u)
  settle t u lo i j i' n lt near rooted (inl (further, heap)) = (omega arith, heap)
  settle t u lo i j i' n lt near rooted (inr (here, same, settled)) =
      (omega arith, rw same (Near-IsHeap near rooted settled))

  down_loop_lands :
      (fuel : ℕ) (s : S) (lo i n : ℕ)
      → n < i + fuel
      → i ≤ n
      → n ≤ h.len s
      → lo ≤ i
      → Inv s
      → Near lo n (key s) i
      → Returns
          (λ (i', t). Moved h Inv elem n s t × Landed lo n i s i' t)
          (Heap.down_loop h fuel s i n)
  unfolding down
  down_loop_lands zero s lo i n f inside size low inv near = absurd (omega arith)
  down_loop_lands (suc fuel) s lo i n f inside size low inv near =
      elim (Bool-cases (leb n (2 * i + 1))) [
        | inl leaf ↦ rw leaf (
            returns (
              Moved-refl h Inv elem inv,
              inr (refl, refl, λ c p q e. absurd (ground (arith, children c i p e))),
            ))
        | inr inner ↦ rw inner (
            Returns-bind (least_child s i n size (ground arith) inv) λ j c.
              rw
                (laws.less_ok s j i inv (omega (arith, c.within))
                  (omega (arith, c.within, c.below)))
                (elim (Bool-cases (ltb_ℤ (key s j) (key s i))) [
                  | inl less ↦
                      let (t, swapped, inv', same, ex) =
                        laws.swap_ok s i j inv (omega (arith, c.within, c.below))
                          (omega (arith, c.within)) in
                      let (moved, near', rooted) =
                        sink_moves s t lo i j n size low inv' same ex less c near in
                      rw (less, swapped)
                        (Returns-map
                          (down_loop_lands fuel t lo j n (omega (arith, c.below))
                            (omega (arith, c.within)) (omega arith) (omega (arith, c.below)) inv'
                            near')
                          λ (i', u) (m, landed). (
                            Moved-trans h Inv elem moved m,
                            inl (settle t u lo i j i' n c.below near' rooted landed),
                          ))
                  | inr stays ↦ rw stays (
                      returns (
                        Moved-refl h Inv elem inv,
                        inr (refl, refl, λ d p q e. ground (arith, c.least d p q e)),
                      ))
                ]))
      ]

  -- heap.down: it says whether the element moved. If not, nothing has changed.
  abbrev pub Sunk : ℕ → ℕ → ℕ → S → Bool → S → Type 0
  Sunk lo n i s moved t =
      ((moved ≡ true) × IsHeap lo n (key t)) ⊎ ((moved ≡ false) × (t ≡ s) × IsSettled n (key s) i)

  pub down_sinks :
      (s : S) (lo i n : ℕ)
      → i ≤ n
      → n ≤ h.len s
      → lo ≤ i
      → Inv s
      → Near lo n (key s) i
      → Returns (λ (moved, t). Moved h Inv elem n s t × Sunk lo n i s moved t) (down h s i n)
  unfolding down
  down_sinks s lo i n inside size low inv near =
      Returns-bind (down_loop_lands (suc n) s lo i n (omega arith) inside size low inv near)
        λ (i', t) (moved, landed). returns (moved, ground (arith, landed))

  -- Where the edge above the element is in order, `down` restores the whole order.
  pub down_restores :
      (s : S) (lo i n : ℕ)
      → i ≤ n
      → n ≤ h.len s
      → lo ≤ i
      → Inv s
      → Near lo n (key s) i
      → IsRooted lo (key s) i
      → Returns (λ (_, t). Moved h Inv elem n s t × IsHeap lo n (key t)) (down h s i n)
  down_restores s lo i n inside size low inv near rooted =
      Returns-map (down_sinks s lo i n inside size low inv near)
        λ (b, t) (moved, sunk). (moved, restored t b sunk)
    where
      restored : (t : S) (b : Bool) → Sunk lo n i s b t → IsHeap lo n (key t)
      restored t b (inl (_, heap)) = heap
      restored t b (inr (_, same, settled)) = rw same (Near-IsHeap near rooted settled)
