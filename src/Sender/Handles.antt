-- ===== src/Sender/Handles.antt =====
-- sender_service.go: the handles that Consume lends from a pool, Confirm and Rollback.
use triggerhook.Base.{ℕ, suc, ◌==◌, List, [], ◌∷◌, ◌++◌, Bool, true, false, if◌then◌else◌}
use triggerhook.Domain.{Task}

-- The fields of a taskToSend that its methods change.
pub record TaskToSend : Type 0 where
  pub is_processed : Bool
  pub task : Task

-- The handles by their address, those in the pool, the next fresh address, and what has been sent
-- to the channels `confirm` and `rollback`.
pub record Handles : Type 0 where
  pub store : ℕ → TaskToSend
  pub pool : List ℕ
  pub next : ℕ
  pub confirmed : List Task
  pub rolled_back : List Task

abbrev pub assign : (ℕ → TaskToSend) → ℕ → TaskToSend → ℕ → TaskToSend
assign store h tts a = if a == h then tts else store a

-- `taskToSendPool.Get()`: a pooled handle or a fresh one; the model takes the one put last.
unfoldable pub get : List ℕ → Handles → ℕ × Handles
get [] s = (s.next, record s { pool = []; next = suc s.next })
get (h ∷ rest) s = (h, record s { pool = rest })

-- Consume, for a task that one of the two channels delivers.
unfoldable pub consume : Task → Handles → ℕ × Handles
unfolding get
consume task s =
    let (h, s') = get s.pool s in
    (h, record s' { store = assign s'.store h (record { is_processed = false; task = task }) })

abbrev pub processed : ℕ → Handles → ℕ → TaskToSend
processed h s = assign s.store h (record (s.store h) { is_processed = true })

unfoldable pub confirm : ℕ → Handles → Handles
confirm h s = if (s.store h).is_processed then s else record s {
  store = processed h s;
  confirmed = s.confirmed ++ (s.store h).task ∷ [];
  pool = h ∷ s.pool;
}

unfoldable pub rollback : ℕ → Handles → Handles
rollback h s = if (s.store h).is_processed then s else record s {
  store = processed h s;
  rolled_back = s.rolled_back ++ (s.store h).task ∷ [];
  pool = h ∷ s.pool;
}
