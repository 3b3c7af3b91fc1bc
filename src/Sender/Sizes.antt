-- ===== src/Sender/Sizes.antt =====
-- Lists of batches.
use triggerhook.Base.{
  ℕ, ◌≤◌, List, [], ◌∷◌, ◌++◌, append_assoc, append-nil, length, ◌≡◌, sym, ap, ◌∙◌,
}
use triggerhook.Domain.{Task}

-- The tasks of batches, in order.
unfoldable pub flatten : List (List Task) → List Task
flatten [] = []
flatten (b ∷ bs) = b ++ flatten bs

pub flatten-append :
    (xs : List (List Task)) (b : List Task) → flatten (xs ++ b ∷ []) ≡ flatten xs ++ b
unfolding flatten
flatten-append [] b = append-nil b
flatten-append (x ∷ xs) b =
    ap (λ l. x ++ l) (flatten-append xs b) ∙ sym (append_assoc x (flatten xs) b)

-- Batches of at least one and at most `max` tasks.
pub data AllSized (max : ℕ) : List (List Task) → Type 0 where
  no_batches : AllSized max []
  and_batch :
      {b : List Task} {bs : List (List Task)}
      → 1 ≤ length b
      → length b ≤ max
      → AllSized max bs
      → AllSized max (b ∷ bs)

pub AllSized-append :
    {max : ℕ} {xs : List (List Task)} (b : List Task)
    → AllSized max xs
    → 1 ≤ length b
    → length b ≤ max
    → AllSized max (xs ++ b ∷ [])
AllSized-append b no_batches l u = and_batch l u no_batches
AllSized-append b (and_batch p q r) l u = and_batch p q (AllSized-append b r l u)

pub first_sized :
    {max : ℕ} {b : List Task} {bs : List (List Task)}
    → AllSized max (b ∷ bs)
    → (1 ≤ length b) × (length b ≤ max) × AllSized max bs
first_sized (and_batch l u r) = (l, u, r)
