-- ===== src/ErrorService/Wakeup.antt =====
-- No wake-up is lost, and what makes Run return.
use triggerhook.Base.{
  ℕ, ◌≤◌, ◌≡◌, ◌≢◌, refl, sym, ap, ◌∙◌, ℤ, List, [], true, none, ◌⊎◌, inl, inr, arith, write, ◌==◌,
  Bool-cases, if◌then◌else◌,
}
use triggerhook.Contracts.{Level, fatal, error, debug, is_fatal, EventError}
use triggerhook.ErrorService.Queue.{EventQueue, pop}
use triggerhook.ErrorService.System.{
  Config, System, Loop, idle, pushed, sending, popping, waiting, returned, Step, ignores, pushes,
  checks, sends, handles, sleeps, wakes, Reach, start, later, dispatch,
}

-- Somebody will wake the loop, or has done so.
abbrev pub WillWake : System → Type 0
WillWake s = (s.update_queue ≡ 1) ⊎ (i : ℕ) × (s.reporters i ≢ idle)

pub record IsAwake (s : System) : Type 0 where
  pub one_at_most : s.update_queue ≤ 1
  pub wakes_up : s.loop ≡ waiting → s.event_queue.queue ≢ [] → WillWake s

-- A reporter that finds the channel empty goes on to fill it.
still_wakes :
    (s : System) (i : ℕ)
    → s.reporters i ≡ pushed
    → IsAwake s
    → WillWake s
    → WillWake (record s {
      reporters = write s.reporters i (if s.update_queue == 0 then sending else idle);
    })
still_wakes s i h a (inl full) = inl full
still_wakes s i h a (inr (j, busy)) = elim (Bool-cases (s.update_queue == 0)) [
  | inl clear ↦ inr (i, λ r. ground (arith, clear))
  | inr filled ↦ inl (ground (arith, filled, a.one_at_most))
]

dispatch_channel :
    (c : Config) (e : EventError) (s : System) → (dispatch c e s).update_queue ≡ s.update_queue
unfolding dispatch
dispatch_channel c e s = ground arith

dispatch-ne-waiting :
    (c : Config) (e : EventError) (s : System) → s.loop ≡ popping → (dispatch c e s).loop ≢ waiting
unfolding dispatch
dispatch-ne-waiting c e s h w = ground arith

pop_empty : (q q' : EventQueue) → pop q ≡ (none, q') → q.queue ≡ []
unfolding pop
pop_empty q q' e = ground arith

Step-IsAwake :
    {c : Config} {s t : System} {es : List EventError} → Step c s es t → IsAwake s → IsAwake t
Step-IsAwake (ignores e h) a = a
Step-IsAwake (pushes i now e q h g p) a = record {
  one_at_most = a.one_at_most;
  wakes_up = λ w n. inr (i, λ r. ground arith);
}
Step-IsAwake {s = s} (checks i h) a = record {
  one_at_most = a.one_at_most;
  wakes_up = λ w n. still_wakes s i h a (a.wakes_up w n);
}
Step-IsAwake (sends i h z) a = record { one_at_most = omega arith; wakes_up = λ w n. inl refl }
Step-IsAwake {c} {s} (handles e q h p) a = record {
  one_at_most = rw (dispatch_channel c e (record s { event_queue = q })) (a.one_at_most);
  wakes_up = λ w n. absurd (dispatch-ne-waiting c e (record s { event_queue = q }) h w);
}
Step-IsAwake {s = s} (sleeps q h p) a = record {
  one_at_most = a.one_at_most;
  wakes_up = λ w n. absurd (n (pop_empty s.event_queue q p));
}
Step-IsAwake (wakes h o) a = record { one_at_most = omega arith; wakes_up = λ w n. cc w }

Reach-IsAwake :
    {c : Config} {cap : ℤ} {es : List EventError} {s : System} → Reach c cap es s → IsAwake s
Reach-IsAwake start = record { one_at_most = omega arith; wakes_up = λ w n. cc w }
Reach-IsAwake (later r step) = Step-IsAwake step (Reach-IsAwake r)

-- In every reachable interleaving of any number of reporting goroutines with the loop of Run: when
-- the loop waits for a wake-up while the queue holds an event, the wake-up channel holds a value,
-- or some reporter is still on its way between its push and its end.
pub no_lost_wakeup :
    {c : Config} {cap : ℤ} {es : List EventError} {s : System}
    → Reach c cap es s
    → s.loop ≡ waiting
    → s.event_queue.queue ≢ []
    → (s.update_queue ≡ 1) ⊎ (i : ℕ) × (s.reporters i ≢ idle)
no_lost_wakeup r = (Reach-IsAwake r).wakes_up

-- Why the loop has returned.
abbrev IsJustified : Config → Loop → Type 0
IsJustified c popping = Unit
IsJustified c waiting = Unit
IsJustified c (returned e) = (e.level ≡ fatal) × (c.has_handler fatal ≡ true)

fatal_level : (l : Level) → is_fatal l ≡ true → l ≡ fatal
fatal_level fatal h = refl
fatal_level error h = cc
fatal_level debug h = cc

dispatch-IsJustified :
    (c : Config) (e : EventError) (s : System)
    → s.loop ≡ popping
    → IsJustified c (dispatch c e s).loop
unfolding dispatch
dispatch-IsJustified c e s h = elim (Bool-cases (c.has_handler e.level)) [
  | inr unhandled ↦ rw (unhandled, h) tt
  | inl handled ↦ rw handled (elim (Bool-cases (is_fatal e.level)) [
    | inl f ↦
        let level = fatal_level e.level f in rw f (level, sym (ap c.has_handler level) ∙ handled)
    | inr ordinary ↦ rw ordinary tt
  ])
]

Step-IsJustified :
    {c : Config} {s t : System} {es : List EventError}
    → Step c s es t
    → IsJustified c s.loop
    → IsJustified c t.loop
Step-IsJustified {c} {s} (handles e q h p) j =
    dispatch-IsJustified c e (record s { event_queue = q }) h
Step-IsJustified (sleeps q h p) j = tt
Step-IsJustified (wakes h o) j = tt
Step-IsJustified (ignores e h) j = j
Step-IsJustified (pushes i now e q h g p) j = j
Step-IsJustified (checks i h) j = j
Step-IsJustified (sends i h z) j = j

Reach-IsJustified :
    {c : Config} {cap : ℤ} {es : List EventError} {s : System}
    → Reach c cap es s
    → IsJustified c s.loop
Reach-IsJustified start = tt
Reach-IsJustified (later r step) = Step-IsJustified step (Reach-IsJustified r)

-- If in a reachable state Run has returned with an event, then that event is fatal and a handler
-- for the fatal level is configured: without such a handler no fatal event stops the application.
pub returned_needs :
    {c : Config} {cap : ℤ} {es : List EventError} {s : System}
    → Reach c cap es s
    → (e : EventError) → s.loop ≡ returned e
    → (e.level ≡ fatal) × (c.has_handler fatal ≡ true)
returned_needs {c} r e stopped = rw stopped at (Reach-IsJustified r)
