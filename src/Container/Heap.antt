-- ===== src/Container/Heap.antt =====
-- Go's container/heap: heap.Interface and the functions over it.
use triggerhook.Base.{
  ℕ, zero, suc, ◌+◌, ◌-◌, ◌*◌, ◌/◌, Bool, true, not, ltb, leb, ◌==◌, if◌then◌else◌, Run, ok,
  out_of_fuel, ◌>>=◌,
}

-- heap.Interface, for a container `S` of elements `X`.
pub record HeapInterface (S X : Type 0) : Type 0 where
  pub len : S → ℕ
  pub less : S → ℕ → ℕ → Run Bool
  pub swap : S → ℕ → ℕ → Run S
  pub push : X → S → Run S
  pub pop : S → Run (X × S)

module _ {S X : Type 0} (h : HeapInterface S X) where
  -- `i == j || !h.Less(j, i)` reads the elements only if the indices differ.
  unfoldable pub up_stops : S → ℕ → ℕ → Run Bool
  up_stops s i j = if i == j then ok true else do below ← h.less s j i; ok (not below)

  unfoldable pub up_loop : ℕ → S → ℕ → Run S
  up_loop zero s j = out_of_fuel
  up_loop (suc fuel) s j =
      let i = (j - 1) / 2 in
      let rise = h.swap s i j >>= λ s'. up_loop fuel s' i in
      up_stops s i j >>= λ stop. if stop then ok s else rise

  unfoldable pub up : S → ℕ → Run S
  unfolding up_loop up_stops
  up s j = up_loop (suc j) s j

  -- The child that `down` compares with: the right one if it exists and is less.
  unfoldable pub smaller_child : S → ℕ → ℕ → Run ℕ
  smaller_child s j1 n =
      let j2 = j1 + 1 in
      if ltb j2 n then (do right ← h.less s j2 j1; ok (if right then j2 else j1)) else ok j1

  unfoldable pub down_loop : ℕ → S → ℕ → ℕ → Run (ℕ × S)
  down_loop zero s i n = out_of_fuel
  down_loop (suc fuel) s i n =
      let j1 = 2 * i + 1 in
      let sink = λ (j : ℕ). h.swap s i j >>= λ s'. down_loop fuel s' j n in
      let step : Run (ℕ × S) = do
        j ← smaller_child s j1 n
        below ← h.less s j i
        if below then sink j else ok (i, s)
      in if leb n j1 then ok (i, s) else step

  -- `down` returns whether the element moved.
  unfoldable pub down : S → ℕ → ℕ → Run (Bool × S)
  unfolding down_loop smaller_child
  down s i0 n = down_loop (suc n) s i0 n >>= λ (i, s'). ok (ltb i0 i, s')

  -- The loop of heap.Init, `for i := n/2 - 1; i >= 0; i--`, with `rounds` rounds left.
  unfoldable pub init_loop : ℕ → S → ℕ → Run S
  init_loop zero s n = ok s
  init_loop (suc i) s n = down s i n >>= λ (_, s'). init_loop i s' n

  unfoldable pub init : S → Run S
  unfolding init_loop
  init s = let n = h.len s in init_loop (n / 2) s n

  unfoldable pub push : S → X → Run S
  push s x = h.push x s >>= λ s'. up s' (h.len s' - 1)

  unfoldable pub pop : S → Run (X × S)
  pop s = do let n = h.len s - 1; s1 ← h.swap s 0 n; (_, s2) ← down s1 0 n; h.pop s2

  -- heap.Remove; the inner steps, taken unless the element is the last.
  unfoldable pub unhook : S → ℕ → ℕ → Run S
  unhook s i n = do s1 ← h.swap s i n; (moved, s2) ← down s1 i n; if moved then ok s2 else up s2 i

  unfoldable pub remove : S → ℕ → Run (X × S)
  unfolding unhook
  remove s i =
      let n = h.len s - 1 in
      let rest = unhook s i n in (if n == i then ok s else rest) >>= λ s'. h.pop s'
