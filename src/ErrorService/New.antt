-- ===== src/ErrorService/New.antt =====
-- error_service/error_handler.go: the package's New.
use triggerhook.Base.{ℤ, pos, Bool, false, ◌||◌, Option, Run, ok, or_panic, ◌>>=◌}
use triggerhook.Contracts.{Level}
use triggerhook.Settings.{Merge, fill_int, or_zero}
use triggerhook.ErrorService.System.{Config, System, init}

-- `has_handler` says which levels the map of handlers has.
pub record Options : Type 0 where
  pub has_handler : Level → Bool
  pub debug : Bool
  pub event_cap : ℤ

-- The EventHandler, with its configuration apart from what changes.
pub record EventHandler : Type 0 where
  pub config : Config
  pub system : System

abbrev pub zero_options : Options
zero_options = record { has_handler = λ _. false; debug = false; event_cap = pos 0 }

abbrev pub default_options : Options
default_options = record { has_handler = λ _. false; debug = false; event_cap = pos 1000 }

unfoldable pub of_options : Options → EventHandler
of_options o = record {
  config = record { has_handler = o.has_handler; debug_mode = o.debug };
  system = init o.event_cap;
}

unfoldable pub new : Merge Options → Option Options → Run EventHandler
unfolding of_options
new merge options = do
  o ← or_panic (merge (or_zero zero_options options) default_options)
  ok (of_options o)

-- What the merge does to these options; the handlers of two maps are put together.
unfoldable pub filled : Options → Options → Options
unfolding fill_int
filled dst src = record {
  has_handler = λ level. dst.has_handler level || src.has_handler level;
  debug = dst.debug || src.debug;
  event_cap = fill_int dst.event_cap src.event_cap;
}
