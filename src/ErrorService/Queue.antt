-- ===== src/ErrorService/Queue.antt =====
-- error_service/event_queue.go. The mutex is held from start to end, so a call is one step.
use triggerhook.Base.{
  ℤ, pos, negsuc, List, [], ◌∷◌, ◌++◌, Bool, false, Option, none, some, length, ◌==◌, if◌then◌else◌,
  Run, ok, panic, ◌>>=◌,
}
use triggerhook.Contracts.{EventError, error}

pub record EventQueue : Type 0 where
  pub max_queue_cap : ℤ
  pub queue : List EventError

abbrev pub slow_event_handler : ℤ → EventError
slow_event_handler now = record {
  time = now;
  level = error;
  event_message = "event handler is very slow; some messages are lost";
  method = "";
  line = 0;
  file = "";
}

-- `len(t.queue) == t.maxQueueCap`
unfoldable pub is_full : EventQueue → Bool
is_full q = elim q.max_queue_cap [ pos cap ↦ length q.queue == cap | negsuc _ ↦ false ]

-- `t.queue[2:]`, which is out of range below two entries.
abbrev pub drop_two : List EventError → Run (List EventError)
drop_two [] = panic
drop_two (_ ∷ []) = panic
drop_two (_ ∷ _ ∷ es) = ok es

unfoldable pub push : ℤ → EventError → EventQueue → Run EventQueue
unfolding is_full
push now event q =
    let make_room = drop_two q.queue >>= λ es. ok (es ++ slow_event_handler now ∷ []) in
    (if is_full q then make_room else ok q.queue) >>= λ es.
    ok (record q { queue = es ++ event ∷ [] })

-- `none` stands for the error EventQueueIsEmpty.
unfoldable pub pop : EventQueue → Option EventError × EventQueue
pop q = elim q.queue [ [] ↦ (none, q) | e ∷ es ↦ (some e, record q { queue = es }) ]
