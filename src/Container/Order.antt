-- ===== src/Container/Order.antt =====
-- The heap order on priorities, as functions of the index, and how one exchange changes it.
use triggerhook.Base.{ℕ, ◌-◌, ◌/◌, ◌≤◌, ◌<◌, ◌≡◌, ◌≢◌, ℤ, ◌≤ℤ◌, ◌<ℤ◌, arith, ◌==◌, if◌then◌else◌}

abbrev pub parent : ℕ → ℕ
parent c = (c - 1) / 2

-- Below `n`, every edge whose parent is at `lo` or later is in order.
abbrev pub IsHeap : ℕ → ℕ → (ℕ → ℤ) → Type 0
IsHeap lo n k = (c : ℕ) → 0 < c → c < n → lo ≤ parent c → k (parent c) ≤ℤ k c

-- All edges are in order but those at `i`, and the parent of `i` is in order with its children.
pub record Near (lo n : ℕ) (k : ℕ → ℤ) (i : ℕ) : Type 0 where
  pub edges : (c : ℕ) → 0 < c → c < n → lo ≤ parent c → c ≢ i → parent c ≢ i → k (parent c) ≤ℤ k c
  pub bridged : (c : ℕ) → 0 < c → c < n → parent c ≡ i → 0 < i → lo ≤ parent i → k (parent i) ≤ℤ k c

-- The edge above `i` is in order.
abbrev pub IsRooted : ℕ → (ℕ → ℤ) → ℕ → Type 0
IsRooted lo k i = 0 < i → lo ≤ parent i → k (parent i) ≤ℤ k i

-- The edges below `i` are in order.
abbrev pub IsSettled : ℕ → (ℕ → ℤ) → ℕ → Type 0
IsSettled n k i = (c : ℕ) → 0 < c → c < n → parent c ≡ i → k i ≤ℤ k c

pub Near-IsHeap :
    {lo n : ℕ} {k : ℕ → ℤ} {i : ℕ}
    → Near lo n k i
    → IsRooted lo k i
    → IsSettled n k i
    → IsHeap lo n k
Near-IsHeap near r s c p q l = grind (arith, near.edges c, r, s c)

-- `k'` is `k` with the values at `i` and `j` exchanged.
abbrev pub IsSwap {ℓ} : {X : Type ℓ} → (ℕ → X) → (ℕ → X) → ℕ → ℕ → Type ℓ
IsSwap k k' i j = (c : ℕ) → k' c ≡ (if j == c then k i else if i == c then k j else k c)

module _ {n : ℕ} {k k' : ℕ → ℤ} {i j : ℕ} where
  -- After `j` rises over its parent `i`, only the edge above `i` may be out of order.
  pub Near-rise :
      IsSwap k k' i j
      → 0 < j
      → j < n
      → i ≡ parent j
      → k j <ℤ k i
      → Near 0 n k j
      → IsSettled n k j
      → Near 0 n k' i × IsSettled n k' i
  Near-rise sw p q e lt near settled = (
    record {
      edges = λ c a b l f g.
          ground (arith, sw c, sw (parent c), near.edges c, settled c, near.bridged c);
      bridged = λ c a b f g l. ground (arith, sw c, sw (parent i), near.edges i, near.edges c);
    },
    λ c a b f. ground (arith, sw c, sw i, near.edges c),
  )

  -- After the least child `j` of `i` rises, only edges below `j` may be out of order.
  pub Near-sink :
      {lo : ℕ}
      → IsSwap k k' i j
      → 0 < j
      → j < n
      → i ≡ parent j
      → lo ≤ i
      → k j <ℤ k i
      → ((c : ℕ) → 0 < c → c < n → parent c ≡ i → k j ≤ℤ k c)
      → Near lo n k i
      → Near lo n k' j × IsRooted lo k' j
  Near-sink sw p q e low lt least near = (
    record {
      edges =
          λ c a b l f g. ground (arith, sw c, sw (parent c), near.edges c, near.bridged j, least c);
      bridged = λ c a b f g l. ground (arith, sw c, sw (parent j), near.edges c);
    },
    λ a l. ground (arith, sw j, sw i),
  )
