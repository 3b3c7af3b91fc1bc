-- ===== src/Waiting/Loop/Timing.antt =====
-- When the loop takes a task for due: time.Duration counts nanoseconds in an int64.
use triggerhook.Base.{
  ℕ, ◌≤◌, ◌≡◌, ◌≢◌, ◌↔◌, refl, sym, ◌∙◌, ap, ℤ, pos, pos_part, neg_part, negsuc, ◌-ℤ◌, ◌*ℤ◌, ◌≤ℤ◌,
  int64, int64_eq, IsInt64, ltb_ℤ, String, Option, none, some, false, ◌⊎◌, inl, inr, arith, Returns,
  Returns-map,
}
use triggerhook.Domain.{Task}
use triggerhook.Waiting.TaskHeap.{TaskHeap}
use triggerhook.Waiting.TaskHeap.Refines.{View, Refines, IsFirst}
use triggerhook.Waiting.Loop.{Wake, timer, second, sleep_for, round}
use triggerhook.Waiting.Loop.Rounds.{
  Round, sends, preloads, cancels, IsHeld, IsDue, IsAsleep, IsFair, round_lem,
}

-- The most seconds that fit into a time.Duration.
abbrev pub max_seconds : ℕ
max_seconds = 9223372036

-- `x` is due at most `max_seconds` before or after `now`.
pub record IsNear (x : Task) (now : ℤ) : Type 0 where
  pub ahead : pos_part (x.exec_time -ℤ now) ≤ max_seconds
  pub behind : neg_part (x.exec_time -ℤ now) ≤ max_seconds

sign_iff : (a b : ℤ) → (ltb_ℤ (pos 0) (a -ℤ b) ≡ false) ↔ (a ≤ℤ b)
unfolding ◌-ℤ◌
sign_iff a b = ground arith

seconds_fit : (d : ℤ) → pos_part d ≤ max_seconds → neg_part d ≤ max_seconds → IsInt64 (d *ℤ second)
unfolding ◌*ℤ◌
seconds_fit (pos n) a b = ground arith
seconds_fit (negsuc n) a b = ground arith

seconds_sign : (d : ℤ) → ltb_ℤ (pos 0) (d *ℤ second) ≡ ltb_ℤ (pos 0) d
unfolding ◌*ℤ◌
seconds_sign (pos n) = ground arith
seconds_sign (negsuc n) = ground arith

sleep_near :
    (x : Task) (now : ℤ) → IsNear x now → sleep_for (some x) now ≡ (x.exec_time -ℤ now) *ℤ second
unfolding sleep_for
sleep_near x now near =
    let d = x.exec_time -ℤ now in
    let fits : int64 d ≡ d =
      int64_eq d
        (record { above = omega (arith, near.behind); below = omega (arith, near.ahead) }) in
    ap (λ e. int64 (e *ℤ second)) fits
    ∙ int64_eq (d *ℤ second) (seconds_fit d near.ahead near.behind)

pub IsDue-iff : (x : Task) (now : ℤ) → IsNear x now → IsDue (some x) now ↔ (x.exec_time ≤ℤ now)
IsDue-iff x now near =
    rw (sleep_near x now near) (rw (seconds_sign (x.exec_time -ℤ now)) (sign_iff x.exec_time now))

-- Every waiting task is due within `max_seconds` of `now`.
abbrev pub AllNear : View → ℤ → Type 0
AllNear m now = (id : String) (x : Task) → m id ≡ some x → IsNear x now

pub not_asleep :
    (held : Option Task) (now : ℤ) {A : Type 0} → IsAsleep held now → IsDue held now → A
not_asleep held now a d = cc (sym a ∙ d)

-- A due task keeps what is held from waiting.
held-IsDue :
    (m : View) (now : ℤ) (y : Task) (held : Option Task)
    → AllNear m now
    → m y.id ≡ some y
    → y.exec_time ≤ℤ now
    → IsHeld m held
    → IsDue held now
held-IsDue m now y none near at due empty = cc (sym (empty y.id) ∙ at)
held-IsDue m now y (some x) near at due (there, first) =
    (IsDue-iff x now (near x.id x there)).1 (omega (arith, first y.id y at))

-- What a round sends is a waiting task, due, and none is due before it.
abbrev pub IsPunctual : View → ℤ → Option Task → Type 0
IsPunctual m now none = Unit
IsPunctual m now (some x) = (m x.id ≡ some x) × IsFirst m x × (x.exec_time ≤ℤ now)

sends-IsPunctual :
    {limit : ℕ} {now : ℤ} {m m' : View} {wake : Wake} {sent : Option Task}
    → Round limit now m wake sent m'
    → AllNear m now
    → wake ≢ timer
    → IsPunctual m now sent
sends-IsPunctual {now = now} {wake = wake} (sends y (at, first) over) near ne =
    (at, first, due over)
  where
    due : IsDue (some y) now ⊎ (wake ≡ timer) → y.exec_time ≤ℤ now
    due (inl d) = (IsDue-iff y now (near y.id y at)).0 d
    due (inr t) = absurd (ne t)
sends-IsPunctual (preloads held h a t more new) near ne = tt
sends-IsPunctual (cancels held h a id more) near ne = tt

-- A fair round over a valid list, all of whose tasks are due within 9223372036 seconds of now,
-- returns; and unless it was ended by its timer, a task that it sends was waiting, has an
-- execution time that is not after now, and no waiting task has an earlier one.
pub round-IsPunctual :
    (limit : ℕ) (now : ℤ) (wake : Wake) (h : TaskHeap) (m : View)
    → Refines h m
    → IsFair limit m wake
    → AllNear m now
    → wake ≢ timer
    → Returns (λ (sent, _). IsPunctual m now sent) (round limit now wake h)
round-IsPunctual limit now wake h m r fair near ne =
    Returns-map (round_lem limit now wake h m r fair)
      λ (sent, h') (m', step, _). sends-IsPunctual step near ne

-- Something is sent, and it is due.
abbrev pub SendsDue : ℤ → Option Task → Type 0
SendsDue now sent = (x : Task) × (sent ≡ some x) × (x.exec_time ≤ℤ now)

due_sends :
    {limit : ℕ} {now : ℤ} {m m' : View} {wake : Wake} {sent : Option Task}
    → Round limit now m wake sent m'
    → AllNear m now
    → (y : Task) → m y.id ≡ some y
    → y.exec_time ≤ℤ now
    → SendsDue now sent
due_sends {m = m} (sends x (at, first) over) near y there due =
    (x, refl, omega (arith, first y.id y there))
due_sends {now = now} {m = m} (preloads held h a t more new) near y there due =
    not_asleep held now a (held-IsDue m now y held near there due h)
due_sends {now = now} {m = m} (cancels held h a id more) near y there due =
    not_asleep held now a (held-IsDue m now y held near there due h)

-- If some waiting task of a valid list is due, and all its tasks are due within 9223372036 seconds
-- of now, then a fair round returns and sends a task that is due, whatever the channels bring.
pub round-SendsDue :
    (limit : ℕ) (now : ℤ) (wake : Wake) (h : TaskHeap) (m : View) (y : Task)
    → Refines h m
    → IsFair limit m wake
    → AllNear m now
    → m y.id ≡ some y
    → y.exec_time ≤ℤ now
    → Returns (λ (sent, _). SendsDue now sent) (round limit now wake h)
round-SendsDue limit now wake h m y r fair near there due =
    Returns-map (round_lem limit now wake h m r fair)
      λ (sent, h') (m', step, _). due_sends step near y there due
