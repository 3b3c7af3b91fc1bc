-- ===== src/Sender/Hands.antt =====
-- What the workers hold, and deletions after one another.
use triggerhook.Base.{
  ℕ, zero, suc, ◌+◌, List, [], ◌∷◌, ◌++◌, Bool, true, false, Bool-cases, none, some, inl, inr, ◌||◌,
  get_elem?, set, str_eq, String, ◌≡◌, refl, sym, ap, ◌∙◌, arith,
}
use triggerhook.Domain.{Task}
use triggerhook.TaskManager.Laws.{without, is_named}
use triggerhook.Preloader.Shares.{count, count-append}
use triggerhook.Sender.Sizes.{flatten}
use triggerhook.Sender.Pipeline.{Worker, receiving, holding, called, start_workers}

-- The tasks of a batch that ConfirmExecution has not returned for.
abbrev pub in_hand : Worker → List Task
in_hand receiving = []
in_hand (holding batch) = batch
in_hand (called batch err) = []

abbrev pub in_hands : (Task → Bool) → List Worker → ℕ
in_hands f [] = 0
in_hands f (k ∷ ks) = count f (in_hand k) + in_hands f ks

pub some_inj : {A : Type 0} {x y : A} → some x ≡ some y → x ≡ y
some_inj {x} e = ap (λ o. elim o [ none ↦ x | some y ↦ y ]) e

pub in_hands-set :
    (f : Task → Bool) (ks : List Worker) (i : ℕ) (k k' : Worker)
    → get_elem? ks i ≡ some k
    → in_hands f (set ks i k') + count f (in_hand k) ≡ in_hands f ks + count f (in_hand k')
in_hands-set f [] i k k' e = cc e
in_hands-set f (x ∷ ks) zero k k' e = rw (some_inj e) (omega arith)
in_hands-set f (x ∷ ks) (suc i) k k' e = omega (arith, in_hands-set f ks i k k' e)

pub in_hands-start : (f : Task → Bool) (n : ℕ) → in_hands f (start_workers n) ≡ 0
unfolding start_workers
in_hands-start f zero = refl
in_hands-start f (suc n) = omega (arith, in_hands-start f n)

pub count-flatten :
    (f : Task → Bool) (bs cs : List (List Task))
    → count f (flatten (bs ++ cs)) ≡ count f (flatten bs) + count f (flatten cs)
unfolding flatten
count-flatten f [] cs = omega arith
count-flatten f (b ∷ bs) cs = omega (
  arith,
  count-append f b (flatten (bs ++ cs)),
  count-append f b (flatten bs),
  count-flatten f bs cs,
)

-- Deletions after one another.
or_assoc : (a b c : Bool) → ((a || b) || c) ≡ (a || (b || c))
or_assoc true b c = refl
or_assoc false b c = refl

is_named-append :
    (id : String) (xs ys : List Task) → is_named id (xs ++ ys) ≡ (is_named id xs || is_named id ys)
unfolding is_named
is_named-append id [] ys = refl
is_named-append id (x ∷ xs) ys =
    ap (λ b. str_eq x.id id || b) (is_named-append id xs ys)
    ∙ sym (or_assoc (str_eq x.id id) (is_named id xs) (is_named id ys))

pub without_none : (stored : List Task) → without [] stored ≡ stored
unfolding without
without_none [] = refl
without_none (t ∷ rest) = ap (λ l. t ∷ l) (without_none rest)

pub without-append :
    (xs ys stored : List Task) → without (xs ++ ys) stored ≡ without ys (without xs stored)
unfolding without
without-append xs ys [] = refl
without-append xs ys (t ∷ rest) =
    let e = is_named-append t.id xs ys in
    let h = without-append xs ys rest in
    elim (Bool-cases (is_named t.id xs)) [
      | inl a ↦ rw (e, a) h
      | inr a ↦ elim (Bool-cases (is_named t.id ys)) [
        | inl b ↦ rw (e, a, b) h
        | inr b ↦ rw (e, a, b) (ap (λ l. t ∷ l) h)
      ]
    ]
