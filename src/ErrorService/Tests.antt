-- ===== src/ErrorService/Tests.antt =====
-- The queue of the repository's own test, and the theorems at concrete inputs.
use triggerhook.Base.{
  ℕ, zero, suc, ◌≡◌, ◌≢◌, refl, pos, String, [], ◌∷◌, ◌++◌, map, true, false, ◌⊎◌, arith, Run, ok,
  ◌>>=◌, write,
}
use triggerhook.Contracts.{Level, fatal, error, EventError}
use triggerhook.ErrorService.Queue.{EventQueue, push, pop, is_full}
use triggerhook.ErrorService.System.{
  Config, System, idle, pushed, waiting, returned, pushes, sleeps, handles, Reach, start, later,
  init, is_ignored, dispatch,
}
use triggerhook.ErrorService.Wakeup.{no_lost_wakeup, returned_needs}
use triggerhook.ErrorService.Order.{handled_in_order}

abbrev event : Level → String → EventError
event level message = record {
  time = pos 0;
  level = level;
  event_message = message;
  method = "";
  line = 0;
  file = "";
}

abbrev push_times : ℕ → EventQueue → Run EventQueue
push_times zero q = ok q
push_times (suc n) q = push (pos 0) (event error "") q >>= push_times n

abbrev slow : String
slow = "event handler is very slow; some messages are lost"

-- Thirteen events in a queue of ten, as in TestEventQueue.
thirteen :
    (push_times 13 (record { max_queue_cap = pos 10; queue = [] }) >>= λ q.
    ok (map (λ e. e.event_message) q.queue))
    ≡ ok ("" ∷ "" ∷ "" ∷ "" ∷ slow ∷ "" ∷ slow ∷ "" ∷ slow ∷ "" ∷ [])
unfolding push is_full
thirteen = refl

abbrev full : EventQueue
full = record { max_queue_cap = pos 2; queue = event fatal "stop" ∷ event error "a" ∷ [] }

abbrev single : EventQueue
single = record { max_queue_cap = pos 1; queue = event error "a" ∷ [] }

abbrev config : Config
config = record { has_handler = λ _. true; debug_mode = false }

abbrev boom : EventError
boom = event fatal "boom"

-- Run sleeps, and a fatal event is pushed.
abbrev asleep : System
asleep = record (init (pos 10)) {
  loop = waiting;
  event_queue = record { max_queue_cap = pos 10; queue = boom ∷ [] };
  reporters = write (λ _. idle) 0 pushed;
}

asleep-Reach : Reach config (pos 10) (boom ∷ []) asleep
unfolding push pop is_full is_ignored
asleep-Reach = later (later start (sleeps _ refl refl)) (pushes 0 (pos 7) boom _ refl refl refl)

no_lost_wakeup_example : (asleep.update_queue ≡ 1) ⊎ (i : ℕ) × (asleep.reporters i ≢ idle)
no_lost_wakeup_example = no_lost_wakeup asleep-Reach refl (λ e. cc e)

-- The event is pushed and handled at once.
abbrev stopped : System
stopped = record (init (pos 10)) {
  loop = returned boom;
  reporters = write (λ _. idle) 0 pushed;
  handled = boom ∷ [];
}

stopped-Reach : Reach config (pos 10) (boom ∷ []) stopped
unfolding push pop is_full is_ignored dispatch
stopped-Reach =
    later (later start (pushes 0 (pos 7) boom _ refl refl refl)) (handles boom _ refl refl)

returned_needs_example : (boom.level ≡ fatal) × (config.has_handler fatal ≡ true)
returned_needs_example = returned_needs stopped-Reach boom refl

handled_in_order_example : stopped.handled ++ stopped.event_queue.queue ≡ boom ∷ []
handled_in_order_example = handled_in_order config 10 (λ l. refl) stopped-Reach (omega arith)
