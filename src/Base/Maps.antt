-- ===== src/Base/Maps.antt =====
-- Go maps keyed by text, as functions, and stores of objects, indexed by address.
use Prim.Native.Nat.{ℕ}
use Prim.Native.String.{String}
use mathlib.Core.Bool.{Bool, true, false}
use mathlib.Core.Option.{Option, none, some}
use text.Mathlib.Text.{◌==◌ as str_eq}
use triggerhook.Base.Tests.{◌==◌, if◌then◌else◌}

-- The `ok` of a lookup.
abbrev pub is_some {ℓ} : {A : Type ℓ} → Option A → Bool
is_some none = false
is_some (some a) = true

module _ {ℓ} {V : Type ℓ} where
  -- `m[k] = v`, or `delete(m, k)` with `none`.
  abbrev pub update : (String → V) → String → V → String → V
  update m k v j = if str_eq k j then v else m j

  -- `*p = v`
  abbrev pub write : (ℕ → V) → ℕ → V → ℕ → V
  write f p v q = if p == q then v else f q
