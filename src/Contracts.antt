-- ===== src/Contracts.antt =====
-- contracts/contracts.go: what the components tell one another.
pub mod Errors
use triggerhook.Base.{ℕ, ℤ, String, Bool, true, false}

-- `Level`: the application cannot continue; support must hear of it; disabled in production.
pub data Level : Type 0 where
  fatal error debug : Level

-- `level == contracts.LevelFatal`, and so for LevelDebug.
abbrev pub is_fatal : Level → Bool
is_fatal fatal = true
is_fatal error = false
is_fatal debug = false

abbrev pub is_debug : Level → Bool
is_debug debug = true
is_debug fatal = false
is_debug error = false

-- `EventError`, without `Extra`, which no code of the library reads.
pub record EventError : Type 0 where
  pub time : ℤ
  pub level : Level
  pub event_message : String
  pub method : String
  pub line : ℕ
  pub file : String

-- `Topic`, a string: the topics that the components publish to.
pub data Topic : Type 0 where
  waiting_for_confirmation confirmation_rate preloaded preloading_rate : Topic
  creating_rate deleting_rate sending_rate all : Topic

-- `topic == contracts.All`
abbrev pub is_all : Topic → Bool
is_all all = true
is_all t = false

-- The text of a topic, by which the monitoring knows it.
unfoldable pub topic_text : Topic → String
topic_text waiting_for_confirmation = "waiting_for_confirmation"
topic_text confirmation_rate = "confirmation_rate"
topic_text preloaded = "preloaded"
topic_text preloading_rate = "preloading_rate"
topic_text creating_rate = "creating_rate"
topic_text deleting_rate = "deleting_rate"
topic_text sending_rate = "sending_rate"
topic_text all = "all"
