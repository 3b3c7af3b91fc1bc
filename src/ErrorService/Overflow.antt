-- ===== src/ErrorService/Overflow.antt =====
-- The queue at its capacity.
use triggerhook.Base.{
  ℕ, ◌≤◌, ◌≡◌, refl, ap, ℤ, pos, List, [], ◌∷◌, ◌++◌, true, false, length, length-append,
  append_assoc, arith, ◌⊎◌, inl, inr, Bool-cases, ◌==◌, Returns, returns,
}
use triggerhook.Contracts.{EventError}
use triggerhook.ErrorService.Queue.{EventQueue, is_full, push, slow_event_handler}

-- A queue with a capacity of at least two, which it keeps to.
pub record IsBounded (q : EventQueue) : Type 0 where
  pub cap : ℕ
  pub at_least : 2 ≤ cap
  pub capped : q.max_queue_cap ≡ pos cap
  pub within : length q.queue ≤ cap

-- What a push leaves: the old events and the new one, or, at the capacity, all but the two oldest,
-- a notice of the loss, and the new one.
abbrev pub Pushed : ℤ → EventError → EventQueue → EventQueue → Type 0
Pushed now e q q' =
    IsBounded q'
    × (q'.max_queue_cap ≡ q.max_queue_cap)
    × ((is_full q ≡ false) × (q'.queue ≡ q.queue ++ e ∷ [])
        ⊎ (a : EventError) × (b : EventError) × (rest : List EventError) × (q.queue ≡ a ∷ b ∷ rest)
          × (q'.queue ≡ rest ++ slow_event_handler now ∷ e ∷ []))

is_full-bounded : (q : EventQueue) (b : IsBounded q) → is_full q ≡ (length q.queue == b.cap)
unfolding is_full
is_full-bounded q b = ground (arith, b.capped)

push_room :
    (now : ℤ) (e : EventError) (q : EventQueue)
    → IsBounded q
    → is_full q ≡ false
    → Returns (Pushed now e q) (push now e q)
unfolding push
push_room now e q b room =
    let size = length-append q.queue (e ∷ []) in
    let below = is_full-bounded q b in
    rw room (
      returns (
        record {
          cap = b.cap;
          at_least = b.at_least;
          capped = b.capped;
          within = ground (arith, size, below, room, b.within);
        },
        refl,
        inl (room, refl),
      ))

push_full :
    (now : ℤ) (e : EventError) (q : EventQueue) (es : List EventError)
    → IsBounded q
    → is_full q ≡ true
    → q.queue ≡ es
    → Returns (Pushed now e q) (push now e q)
unfolding push
push_full now e q [] b full same = absurd (ground (arith, is_full-bounded q b, b.at_least))
push_full now e q (x ∷ []) b full same = absurd (ground (arith, is_full-bounded q b, b.at_least))
push_full now e q (x ∷ y ∷ rest) b full same =
    let size = length-append rest (slow_event_handler now ∷ e ∷ []) in
    rw (full, same)
      (returns (
        record {
          cap = b.cap;
          at_least = b.at_least;
          capped = b.capped;
          within = omega (
            arith,
            size,
            ap length (append_assoc rest (slow_event_handler now ∷ []) (e ∷ [])),
            ap length same,
            b.within,
          );
        },
        refl,
        inr (x, y, rest, refl, append_assoc rest (slow_event_handler now ∷ []) (e ∷ [])),
      ))

pub push_lem :
    (now : ℤ) (e : EventError) (q : EventQueue)
    → IsBounded q
    → Returns (Pushed now e q) (push now e q)
push_lem now e q b = elim (Bool-cases (is_full q)) [
  | inl full ↦ push_full now e q q.queue b full refl
  | inr room ↦ push_room now e q b room
]
