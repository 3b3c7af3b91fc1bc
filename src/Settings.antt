-- ===== src/Settings.antt =====
-- What the constructors of the services share: the merge of the options with their defaults, which
-- is `mergo.Merge` of a package outside the repository, channels, and the start of a metric.
use triggerhook.Base.{
  ℕ, ℤ, pos, negsuc, int_eq, String, str_eq, Option, none, some, if◌then◌else◌, ◌≡◌, Run, ok, panic,
}
use triggerhook.Monitoring.Registry.{Monitoring, MonitoringError}

-- `mergo.Merge(dst, src)` for options of one type: `dst` afterwards, or `none` for an error.
abbrev pub Merge : Type 0 → Type 0
Merge O = O → O → Option O

-- A field of `dst` is filled from `src` if it is zero.
unfoldable pub fill_int : ℤ → ℤ → ℤ
fill_int dst src = if int_eq dst (pos 0) then src else dst

unfoldable pub fill_text : String → String → String
fill_text dst src = if str_eq dst "" then src else dst

-- `fill` says what a merge does.
abbrev pub Fills : (O : Type 0) → (O → O → O) → Merge O → Type 0
Fills O fill merge = (dst src : O) → merge dst src ≡ some (fill dst src)

-- The options behind the pointer, or the zero value for a nil pointer.
abbrev pub or_zero : {O : Type 0} → O → Option O → O
or_zero zero none = zero
or_zero zero (some o) = o

-- `make(chan T, capacity)`
abbrev pub make_chan : ℤ → Run ℕ
make_chan (pos capacity) = ok capacity
make_chan (negsuc _) = panic

-- `if err := monitoring.Init(...); err != nil { panic(err) }`, and so for Listen and Publish.
abbrev pub or_panics : Option MonitoringError × Monitoring → Run Monitoring
or_panics (none, m) = ok m
or_panics (some e, m) = panic
