-- ===== src/Waiting/Loop/Overflow.antt =====
-- What the loop does with a task that is due beyond the range of time.Duration.
use triggerhook.Base.{
  ℕ, ◌≤◌, ◌<◌, ◌≡◌, refl, sym, ◌∙◌, ap, ℤ, pos, negsuc, pos_part, neg_part, ◌-ℤ◌, ◌*ℤ◌, ◌≤ℤ◌, ◌<ℤ◌,
  int64, int64_eq, ltb_ℤ, Option, none, some, false, arith, Returns, Returns-map,
}
use triggerhook.Domain.{Task}
use triggerhook.Waiting.TaskHeap.{TaskHeap}
use triggerhook.Waiting.TaskHeap.Refines.{View, Refines, IsFirst}
use triggerhook.Waiting.Loop.{Wake, second, sleep_for, round}
use triggerhook.Waiting.Loop.Rounds.{
  Round, sends, preloads, cancels, IsHeld, IsDue, IsFair, round_lem,
}
use triggerhook.Waiting.Loop.Timing.{max_seconds, not_asleep}

-- Beyond `max_seconds` the product wraps round to a negative duration.
seconds_wrap :
    (d : ℤ)
    → max_seconds < pos_part d
    → pos_part d ≤ 18446744073
    → ltb_ℤ (pos 0) (int64 (d *ℤ second)) ≡ false
unfolding ◌*ℤ◌ int64
seconds_wrap (pos n) a b = ground arith
seconds_wrap (negsuc n) a b = absurd (omega arith)

one_sided : (d : ℤ) → 0 < pos_part d → neg_part d ≡ 0
one_sided (pos n) h = refl
one_sided (negsuc n) h = elim h [ ]

far-IsDue :
    (x : Task) (now : ℤ)
    → max_seconds < pos_part (x.exec_time -ℤ now)
    → pos_part (x.exec_time -ℤ now) ≤ 18446744073
    → IsDue (some x) now
unfolding sleep_for
far-IsDue x now a b =
    let d = x.exec_time -ℤ now in
    let fits : int64 d ≡ d =
      int64_eq d (record { above = omega (arith, one_sided d); below = omega arith }) in
    ap (λ e. ltb_ℤ (pos 0) (int64 (e *ℤ second))) fits ∙ seconds_wrap d a b

-- Something is sent that is not due.
abbrev pub SendsEarly : ℤ → Option Task → Type 0
SendsEarly now sent = (y : Task) × (sent ≡ some y) × (now <ℤ y.exec_time)

same_time : (x y : ℤ) → x ≤ℤ y → y ≤ℤ x → x ≡ y
same_time x y a b = ground arith

later_time : (a b : ℤ) → 0 < pos_part (a -ℤ b) → b <ℤ a
unfolding ◌-ℤ◌
later_time a b h = ground arith

module _ (now : ℤ) {m : View} (y : Task) (there : m y.id ≡ some y) (first : IsFirst m y)
    (far : max_seconds < pos_part (y.exec_time -ℤ now))
    (wraps : pos_part (y.exec_time -ℤ now) ≤ 18446744073) where
  held_far : (held : Option Task) → IsHeld m held → IsDue held now
  held_far none empty = cc (sym (empty y.id) ∙ there)
  held_far (some x) (at, least) =
      let same = same_time y.exec_time x.exec_time (first x.id x at) (least y.id y there) in
      far-IsDue x now (rw same at far) (rw same at wraps)

  far_sends :
      {limit : ℕ} {m' : View} {wake : Wake} {sent : Option Task}
      → Round limit now m wake sent m'
      → SendsEarly now sent
  far_sends (sends x (at, _) over) =
      (x, refl, omega (arith, first x.id x at, later_time y.exec_time now))
  far_sends (preloads held h a t more new) = not_asleep held now a (held_far held h)
  far_sends (cancels held h a id more) = not_asleep held now a (held_far held h)

-- If a first task of a valid list is due more than 9223372036 and at most 18446744073 seconds
-- after now, its wait overflows an int64, and every fair round returns and sends a task whose
-- execution time is after now.
pub round-SendsEarly :
    (limit : ℕ) (now : ℤ) (wake : Wake) (h : TaskHeap) (m : View) (y : Task)
    → Refines h m
    → IsFair limit m wake
    → m y.id ≡ some y
    → IsFirst m y
    → max_seconds < pos_part (y.exec_time -ℤ now)
    → pos_part (y.exec_time -ℤ now) ≤ 18446744073
    → Returns (λ (sent, _). SendsEarly now sent) (round limit now wake h)
round-SendsEarly limit now wake h m y r fair there first far wraps =
    Returns-map (round_lem limit now wake h m r fair)
      λ (sent, h') (m', step, _). far_sends now y there first far wraps step
