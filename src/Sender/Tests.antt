-- ===== src/Sender/Tests.antt =====
-- Three tasks in batches of at most two.
use triggerhook.Base.{
  false, subst, ap, sym, ◌∙◌, Option-cases, inl, inr, ◌≡◌, refl, ℤ, pos, List, [], ◌∷◌, ◌++◌,
  Option, none, some, arith,
}
use triggerhook.Domain.{Task}
use triggerhook.Sender.Batcher.{
  collecting, Batcher, waiting, Event, value, expire, collect, send, start, step, Reach, at_start,
  after,
}
use triggerhook.Sender.Handles.{Handles, consume}
use triggerhook.Sender.Lending.{Stolen, rollback-Stolen}
use triggerhook.Sender.Sizes.{flatten, AllSized}
use triggerhook.Sender.Batches.{batches-Kept}

abbrev task : ℤ → Task
task n = record { id = "a"; exec_time = n }

abbrev steps : List Event → Batcher → Option Batcher
steps [] s = some s
steps (e ∷ rest) s = elim (step 2 e s) [ none ↦ none | some s' ↦ steps rest s' ]

-- A full batch of two, and one of one that the expiry ends; both are handed over.
handed :
    elim (steps
      (value (task (pos 1))
        ∷ value (task (pos 2))
        ∷ collect
        ∷ send
        ∷ collect
        ∷ value (task (pos 3))
        ∷ expire
        ∷ collect
        ∷ send
        ∷ [])
      start) [ none ↦ [] | some s ↦ s.handed_over ]
    ≡ (task (pos 1) ∷ task (pos 2) ∷ []) ∷ (task (pos 3) ∷ []) ∷ []
unfolding step start
handed = refl

next_steps :
    (s t : Batcher) (e : Event) (es : List Event)
    → step 2 e s ≡ some t
    → steps (e ∷ es) s ≡ steps es t
next_steps s t e es h = rw (steps, h) refl

no_steps : (s : Batcher) (e : Event) (es : List Event) → step 2 e s ≡ none → steps (e ∷ es) s ≡ none
no_steps s e es h = rw (steps, h) refl

steps_reach : (es : List Event) {s s' : Batcher} → Reach 2 s → steps es s ≡ some s' → Reach 2 s'
steps_reach [] r e = subst (Reach 2) (ap (λ o. elim o [ none ↦ start | some s ↦ s ]) e) r
steps_reach (e ∷ es) {s = s} r q = elim (Option-cases (step 2 e s)) [
  | inr (t, h) ↦ steps_reach es (after e r h) (sym (next_steps s t e es h) ∙ q)
  | inl h ↦ cc (no_steps s e es h, q)
]

-- One batch is handed over, and a task of the next has been received.
abbrev busy : Batcher
busy = record {
  collector = collecting;
  batch = task (pos 3) ∷ [];
  queue = record { queue = [] };
  update_queue = false;
  sender = waiting;
  received = task (pos 1) ∷ task (pos 2) ∷ task (pos 3) ∷ [];
  handed_over = (task (pos 1) ∷ task (pos 2) ∷ []) ∷ [];
}

busy_reached : Reach 2 busy
unfolding step start
busy_reached =
    steps_reach
      (send
        ∷ value (task (pos 1))
        ∷ value (task (pos 2))
        ∷ collect
        ∷ collect
        ∷ send
        ∷ send
        ∷ send
        ∷ value (task (pos 3))
        ∷ [])
      at_start refl

batches-Kept_example :
    (flatten busy.handed_over ++ (flatten busy.queue.queue ++ busy.batch) ≡ busy.received)
    × AllSized 2 busy.handed_over
batches-Kept_example = batches-Kept (omega arith) busy_reached

-- Two tasks are lent; the handle of the first is used as in the README's loop after a failure.
abbrev no_handles : Handles
no_handles = record {
  store = λ _. record { is_processed = false; task = task (pos 0) };
  pool = [];
  next = 0;
  confirmed = [];
  rolled_back = [];
}

abbrev lent : Handles
lent = (consume (task (pos 1)) no_handles).1

rollback-Stolen_example : Stolen 0 (task (pos 2)) lent
unfolding consume
rollback-Stolen_example = rollback-Stolen 0 (task (pos 2)) lent refl
