-- ===== src/Container/Up.antt =====
-- heap.up restores the order when only the edge above one element may be broken.
use triggerhook.Base.{
  ℕ, zero, suc, ◌≤◌, ◌<◌, ◌≡◌, refl, ℤ, ltb_ℤ, arith, ◌==◌, inl, inr, true, Bool-cases, Returns,
  returns, Returns-map,
}
use triggerhook.Container.Heap.{HeapInterface, up}
use triggerhook.Container.Heap
use triggerhook.Container.Order.{parent, IsHeap, Near, IsSettled, Near-IsHeap, Near-rise, IsSwap}
use triggerhook.Container.Laws.{HeapLaws, Moved, Moved-refl, Moved-trans, Shuffled-swap}

module _ {S X : Type 0} (h : HeapInterface S X) (Inv : S → Type 0) (elem : S → ℕ → X) (prio : X → ℤ)
    (laws : HeapLaws h Inv elem prio) where
  abbrev key : S → ℕ → ℤ
  key s c = prio (elem s c)

  abbrev Restored : ℕ → S → S → Type 0
  Restored n s t = Moved h Inv elem n s t × IsHeap 0 n (key t)

  -- What one exchange with the parent gives.
  rise_moves :
      (s t : S) (n j : ℕ)
      → n ≤ h.len s
      → 0 < j
      → j < n
      → Inv t
      → h.len t ≡ h.len s
      → IsSwap (elem s) (elem t) (parent j) j
      → ltb_ℤ (key s j) (key s (parent j)) ≡ true
      → Near 0 n (key s) j
      → IsSettled n (key s) j
      → Moved h Inv elem n s t × Near 0 n (key t) (parent j) × IsSettled n (key t) (parent j)
  rise_moves s t n j size p lt inv same ex less near settled =
      let (near', settled') =
        Near-rise {k = key s} {k' = key t} (λ c. ground (arith, ex c)) p lt refl (ground arith) near
          settled in
      (
        record { inv = inv; size = same; shuffled = Shuffled-swap (omega arith) lt ex },
        near',
        settled',
      )

  up_loop_restores :
      (fuel : ℕ) (s : S) (n j : ℕ)
      → j < fuel
      → n ≤ h.len s
      → j < n
      → Inv s
      → Near 0 n (key s) j
      → IsSettled n (key s) j
      → Returns (Restored n s) (Heap.up_loop h fuel s j)
  unfolding up
  up_loop_restores zero s n j f size lt inv near settled = elim f [ ]
  up_loop_restores (suc fuel) s n j f size lt inv near settled = elim (Bool-cases (parent j == j)) [
    | inl e ↦
        rw e (
          returns
            (Moved-refl h Inv elem inv, Near-IsHeap near (λ p. absurd (ground arith)) settled))
    | inr e ↦
        rw (e, laws.less_ok s j (parent j) inv (omega arith) (omega arith))
          (elim (Bool-cases (ltb_ℤ (key s j) (key s (parent j)))) [
            | inl less ↦
                let (t, swapped, inv', same, ex) =
                  laws.swap_ok s (parent j) j inv (omega arith) (omega arith) in
                let (moved, near', settled') =
                  rise_moves s t n j size (ground arith) lt inv' same ex less near settled in
                rw (less, swapped)
                  (Returns-map
                    (up_loop_restores fuel t n (parent j) (ground arith) (omega arith) (omega arith)
                      inv' near' settled')
                    λ u (m, heap). (Moved-trans h Inv elem moved m, heap))
            | inr stays ↦ rw stays (
                returns (Moved-refl h Inv elem inv, Near-IsHeap near (λ _ _. ground arith) settled))
          ])
  ]

  -- heap.up
  pub up_restores :
      (s : S) (n j : ℕ)
      → n ≤ h.len s
      → j < n
      → Inv s
      → Near 0 n (key s) j
      → IsSettled n (key s) j
      → Returns (Restored n s) (up h s j)
  unfolding up
  up_restores s n j = up_loop_restores (suc j) s n j (omega arith)
