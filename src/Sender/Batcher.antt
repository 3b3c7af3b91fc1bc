-- ===== src/Sender/Batcher.antt =====
-- sender_service.go, generateBatch: the goroutine that collects batches and the one that hands
-- them over, one event at a time.
use triggerhook.Base.{
  ◌≡◌, ℕ, ◌==◌, List, [], ◌∷◌, ◌++◌, Bool, true, false, Option, none, some, if◌then◌else◌, length,
}
use triggerhook.Domain.{Task}
use triggerhook.Sender.Queue.{BatchTaskQueue, push, pop}

-- Where the collecting goroutine is: in its select, at the label `done`, or between its push and
-- its look at `len(updateQueue)`.
pub data Collector : Type 0 where
  collecting done pushed : Collector

-- Where the other is: before its pop, or waiting for `updateQueue`.
pub data Sender : Type 0 where
  popping waiting : Sender

-- `update_queue` says that the channel of one holds a value; `received` and `handed_over` are what
-- has come through the two other channels.
pub record Batcher : Type 0 where
  pub collector : Collector
  pub batch : List Task
  pub queue : BatchTaskQueue
  pub update_queue : Bool
  pub sender : Sender
  pub received : List Task
  pub handed_over : List (List Task)

-- The value or the expiry that the select receives, and a step of either goroutine.
pub data Event : Type 0 where
  value : Task → Event
  expire : Event
  collect : Event
  send : Event

unfoldable pub start : Batcher
start = record {
  collector = collecting;
  batch = [];
  queue = record { queue = [] };
  update_queue = false;
  sender = popping;
  received = [];
  handed_over = [];
}

-- `batch = append(batch, value)` and the test of its length.
unfoldable pub receive : ℕ → Task → Batcher → Batcher
receive max task s =
    let batch = s.batch ++ task ∷ [] in
    record s {
      batch = batch;
      received = s.received ++ task ∷ [];
      collector = if length batch == max then done else collecting;
    }

-- From the label `done` up to the look at `updateQueue`; an empty batch is passed over.
unfoldable pub finish : List Task → Batcher → Batcher
unfolding push
finish [] s = record s { collector = collecting; batch = [] }
finish (t ∷ ts) s = record s { collector = pushed; queue = push (t ∷ ts) s.queue; batch = [] }

-- `if len(updateQueue) == 0 { updateQueue <- true }`, and a new batch.
abbrev pub signal : Batcher → Batcher
signal s = record s { collector = collecting; update_queue = true }

unfoldable pub collect_step : Collector → ℕ → Event → Batcher → Option Batcher
unfolding receive finish
collect_step collecting max (value t) s = some (receive max t s)
collect_step collecting max expire s = some (record s { collector = done })
collect_step done max collect s = some (finish s.batch s)
collect_step pushed max collect s = some (signal s)
collect_step c max e s = none

-- A pop that has a batch hands it over, another waits for `updateQueue`.
unfoldable pub hand_over : Option (List Task) × BatchTaskQueue → Batcher → Batcher
hand_over (some batch, q) s = record s { queue = q; handed_over = s.handed_over ++ batch ∷ [] }
hand_over (none, q) s = record s { queue = q; sender = waiting }

unfoldable pub send_step : Sender → Batcher → Option Batcher
unfolding hand_over pop
send_step popping s = some (hand_over (pop s.queue) s)
send_step waiting s =
    if s.update_queue then some (record s { sender = popping; update_queue = false }) else none

-- One step, `none` if the goroutine of the event cannot make it.
unfoldable pub step : ℕ → Event → Batcher → Option Batcher
unfolding collect_step send_step
step max send s = send_step s.sender s
step max e s = collect_step s.collector max e s

-- The states that are reached.
pub data Reach (max : ℕ) : Batcher → Type 0 where
  at_start : Reach max start
  after : {s s' : Batcher} (e : Event) → Reach max s → step max e s ≡ some s' → Reach max s'
