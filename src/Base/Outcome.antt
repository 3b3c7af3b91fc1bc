-- ===== src/Base/Outcome.antt =====
-- How a Go call ends: with a value, in a run-time panic, or, in the model alone, without fuel.
use mathlib.Core.Path.{◌≡◌, refl, sym, subst, ◌∙◌}
use mathlib.Core.Option.{Option, none, some}

pub data Run {ℓ} (A : Type ℓ) : Type ℓ where
  ok : A → Run A
  panic : Run A
  out_of_fuel : Run A

infixl 5 ◌>>=◌
abbrev pub ◌>>=◌ {ℓ κ} : {A : Type ℓ} {B : Type κ} → Run A → (A → Run B) → Run B
m >>= k = elim m [ ok a ↦ k a | panic ↦ panic | out_of_fuel ↦ out_of_fuel ]

-- An index or a pointer that is not there is a panic.
abbrev pub or_panic {ℓ} : {A : Type ℓ} → Option A → Run A
or_panic o = elim o [ none ↦ panic | some a ↦ ok a ]

-- The value of a call, or `d` if it has none.
abbrev pub value {ℓ} : {A : Type ℓ} → A → Run A → A
value d m = elim m [ ok a ↦ a | _ ↦ d ]

-- A call that comes back, and what is known of its result.
pub record Returns {ℓ κ} {A : Type ℓ} (P : A → Type κ) (m : Run A) : Type (ℓ ⊔ κ) where
  pub result : A
  pub returned : m ≡ ok result
  pub holds : P result

pub returns {ℓ κ} : {A : Type ℓ} {P : A → Type κ} {a : A} → P a → Returns P (ok a)
returns {a = a} p = record { result = a; returned = refl; holds = p }

pub Returns-value {ℓ κ} :
    {A : Type ℓ} {P : A → Type κ} (d : A) {m : Run A} → Returns P m → P (value d m)
Returns-value d r = rw (r.returned) (r.holds)

pub Returns-map {ℓ κ κ'} :
    {A : Type ℓ} {P : A → Type κ} {Q : A → Type κ'} {m : Run A}
    → Returns P m
    → ((a : A) → P a → Q a)
    → Returns Q m
Returns-map r weaken = record {
  result = r.result;
  returned = r.returned;
  holds = weaken r.result r.holds;
}

pub Returns-bind {ℓ κ ℓ' κ'} :
    {A : Type ℓ} {B : Type ℓ'} {P : A → Type κ} {Q : B → Type κ'} {m : Run A} {k : A → Run B}
    → Returns P m
    → ((a : A) → P a → Returns Q (k a))
    → Returns Q (m >>= k)
Returns-bind r next = rw (r.returned) (next r.result r.holds)

-- What is known of a result that is given by an equation.
pub given_result {ℓ κ} :
    {A : Type ℓ} {P : A → Type κ} {m : Run A} {a : A} → Returns P m → m ≡ ok a → P a
given_result {P = P} r e = subst P (cc (sym r.returned ∙ e)) r.holds
