-- ===== src/ErrorService/System.antt =====
-- error_service/error_handler.go: New, called from any goroutine, and the loop of Run.
-- A step is what a goroutine does between two points where another may come in: a call on the queue
-- under its mutex, a read of the channel's length, an operation on the channel.
use triggerhook.Base.{
  ℕ, List, [], ◌∷◌, ◌++◌, Bool, true, false, not, ◌&&◌, none, some, ℤ, ◌≡◌, write, ◌==◌,
  if◌then◌else◌, ok,
}
use triggerhook.Contracts.{Level, is_fatal, is_debug, EventError}
use triggerhook.ErrorService.Queue.{EventQueue, push, pop}

-- The configuration of an EventHandler: for which levels it has a handler, and its debug flag.
pub record Config : Type 0 where
  pub has_handler : Level → Bool
  pub debug_mode : Bool

-- Where a call of New stands: before or after it, past its push, or about to fill `updateQueue`.
pub data Reporter : Type 0 where
  idle pushed sending : Reporter

-- Where Run stands: about to pop, at the receive from `updateQueue`, or past its return.
pub data Loop : Type 0 where
  popping waiting : Loop
  returned : EventError → Loop

-- `update_queue` is the number of values in the channel, whose capacity is one. `handled` lists the
-- events that a handler was called with.
pub record System : Type 0 where
  pub event_queue : EventQueue
  pub update_queue : ℕ
  pub reporters : ℕ → Reporter
  pub loop : Loop
  pub handled : List EventError

-- `!eh.debug && level == contracts.LevelDebug`
unfoldable pub is_ignored : Config → EventError → Bool
is_ignored c e = not c.debug_mode && is_debug e.level

unfoldable pub stops : EventError → Loop
stops e = if is_fatal e.level then returned e else popping

-- What Run does with an event.
unfoldable pub dispatch : Config → EventError → System → System
unfolding stops
dispatch c e s =
    if c.has_handler e.level then record s { loop = stops e; handled = s.handled ++ e ∷ [] } else s

-- The steps, with what each reports.
pub data Step (c : Config) (s : System) : List EventError → System → Type 0 where
  ignores : (e : EventError) → is_ignored c e ≡ true → Step c s [] s
  pushes :
      (i : ℕ) (now : ℤ) (e : EventError) (q : EventQueue)
      → s.reporters i ≡ idle
      → is_ignored c e ≡ false
      → push now e s.event_queue ≡ ok q
      → Step c s (e ∷ []) (record s { event_queue = q; reporters = write s.reporters i pushed })
  checks :
      (i : ℕ)
      → s.reporters i ≡ pushed
      → Step c s [] (record s {
        reporters = write s.reporters i (if s.update_queue == 0 then sending else idle);
      })
  sends :
      (i : ℕ)
      → s.reporters i ≡ sending
      → s.update_queue ≡ 0
      → Step c s [] (record s { update_queue = 1; reporters = write s.reporters i idle })
  handles :
      (e : EventError) (q : EventQueue)
      → s.loop ≡ popping
      → pop s.event_queue ≡ (some e, q)
      → Step c s [] (dispatch c e (record s { event_queue = q }))
  sleeps :
      (q : EventQueue)
      → s.loop ≡ popping
      → pop s.event_queue ≡ (none, q)
      → Step c s [] (record s { loop = waiting })
  wakes :
      s.loop ≡ waiting
      → s.update_queue ≡ 1
      → Step c s [] (record s { update_queue = 0; loop = popping })

-- New of the package, with Run started and nobody reporting.
abbrev pub init : ℤ → System
init cap = record {
  event_queue = record { max_queue_cap = cap; queue = [] };
  update_queue = 0;
  reporters = λ _. idle;
  loop = popping;
  handled = [];
}

-- A state that can be reached, with the events reported on the way.
pub data Reach (c : Config) (cap : ℤ) : List EventError → System → Type 0 where
  start : Reach c cap [] (init cap)
  later :
      {es fs : List EventError} {s t : System}
      → Reach c cap es s
      → Step c s fs t
      → Reach c cap (es ++ fs) t
