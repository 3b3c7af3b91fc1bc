-- ===== src/TaskManager/Totals.antt =====
-- The sum of what has been published for the topic of all tasks.
use triggerhook.Base.{
  Bool-cases, inl, inr, ℕ, suc, ◌+◌, ◌<◌, ◌^◌, ℤ, pos, negsuc, ◌+ℤ◌, ◌-ℤ◌, int64, IsInt64, int64_eq,
  List, [], ◌∷◌, ◌++◌, ◌≡◌, arith, if◌then◌else◌, ◌∙◌, sym,
}
use triggerhook.Contracts.{Topic, all, is_all}

unfoldable pub total : List (Topic × ℤ) → ℤ
total [] = pos 0
total ((t, n) ∷ l) = if is_all t then n +ℤ total l else total l

pub +ℤ_assoc : (a b c : ℤ) → a +ℤ b +ℤ c ≡ a +ℤ (b +ℤ c)
unfolding ◌+ℤ◌
+ℤ_assoc (pos a) (pos b) (pos c) = ground arith
+ℤ_assoc (pos a) (pos b) (negsuc c) = ground arith
+ℤ_assoc (pos a) (negsuc b) (pos c) = ground arith
+ℤ_assoc (pos a) (negsuc b) (negsuc c) = ground arith
+ℤ_assoc (negsuc a) (pos b) (pos c) = ground arith
+ℤ_assoc (negsuc a) (pos b) (negsuc c) = ground arith
+ℤ_assoc (negsuc a) (negsuc b) (pos c) = ground arith
+ℤ_assoc (negsuc a) (negsuc b) (negsuc c) = ground arith

pub zero_+ℤ : (n : ℤ) → pos 0 +ℤ n ≡ n
unfolding ◌+ℤ◌
zero_+ℤ (pos a) = ground arith
zero_+ℤ (negsuc a) = ground arith

pub +ℤ_zero : (n : ℤ) → n +ℤ pos 0 ≡ n
unfolding ◌+ℤ◌
+ℤ_zero (pos a) = ground arith
+ℤ_zero (negsuc a) = ground arith

pub total-snoc : (l : List (Topic × ℤ)) (n : ℤ) → total (l ++ (all, n) ∷ []) ≡ total l +ℤ n
unfolding total
total-snoc [] n = +ℤ_zero n ∙ sym (zero_+ℤ n)
total-snoc ((t, m) ∷ l) n = elim (Bool-cases (is_all t)) [
  | inl b ↦ rw (b, total-snoc l n) (sym (+ℤ_assoc m (total l) n))
  | inr b ↦ rw (b) (total-snoc l n)
]

pub one_more : (n : ℕ) → pos n +ℤ pos 1 ≡ pos (suc n)
unfolding ◌+ℤ◌
one_more n = ground arith

minus_IsInt64 : (k : ℕ) → k < 2 ^ 63 → IsInt64 (pos 0 -ℤ pos k)
unfolding ◌-ℤ◌
minus_IsInt64 k h = ground arith

minus : (n k : ℕ) → pos (n + k) +ℤ (pos 0 -ℤ pos k) ≡ pos n
unfolding ◌+ℤ◌ ◌-ℤ◌
minus n k = ground arith

pub some_less : (n k : ℕ) → k < 2 ^ 63 → pos (n + k) +ℤ int64 (pos 0 -ℤ pos k) ≡ pos n
some_less n k h = rw (int64_eq (pos 0 -ℤ pos k) (minus_IsInt64 k h)) (minus n k)
