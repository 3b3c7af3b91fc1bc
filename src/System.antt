-- ===== src/System.antt =====
-- trigger_hook.go, Run: the services together, as steps of their goroutines and of those that call
-- the library, in any order, with the channels between them.
pub mod Places
pub mod Lent
pub mod Buffered
pub mod Turns
pub mod Whole
pub mod Channels
pub mod Steps
pub mod Conserved
mod Tests
use triggerhook.Base.{
  ℕ, zero, suc, ◌+◌, ℤ, String, List, [], ◌∷◌, ◌++◌, Bool, Option, none, some, length, take, drop,
  ltb, if◌then◌else◌, Run, ok, ◌>>=◌,
}
use triggerhook.Domain.{Task}
use triggerhook.Contracts.Errors.{TmError}
use triggerhook.TaskManager.Interface.{World}
use triggerhook.TaskManager.Operations.{TaskManager}
use triggerhook.TriggerHook.{TriggerHook, State, create_ctx, delete_ctx}
use triggerhook.Waiting.TaskHeap.{TaskHeap, empty}
use triggerhook.Waiting.Loop.{Wake, timer, preloaded, canceled, round}
use triggerhook.Sender.Handles.{Handles}
use triggerhook.Sender.Handles
use triggerhook.Sender.New.{no_handles}
use triggerhook.Sender.Lending.{Use, use_handle}
use triggerhook.Sender.Buffer.{Buffer, new_buffer, Case, turns, enters, leaves}
use triggerhook.Sender.Buffer
use triggerhook.Sender.Batcher.{value}
use triggerhook.Sender.Pipeline.{Pipeline}
use triggerhook.Sender.Batcher
use triggerhook.Sender.Pipeline

-- The lists are the channels of preloaded tasks, of cancelled ids, of tasks that are due, and of
-- tasks to confirm: what they hold, followed by what goroutines that are blocked in a send hold.
-- `list` is the waiting list; `confirmed` and `rolled_back` of the handles are what their last call
-- sent. `entered` are all the tasks that were sent to the waiting service.
pub record System (R : Type 0) : Type 0 where
  pub preloaded_tasks : List Task
  pub canceled_tasks : List String
  pub list : TaskHeap
  pub ready : List Task
  pub handles : Handles
  pub buffer : Buffer
  pub to_confirm : List Task
  pub sender : Pipeline R
  pub entered : List Task

-- What ends the wait of a round; with a received value goes how many more the channel shows.
pub data Select : Type 0 where
  on_timer : Select
  on_preloaded on_canceled : ℕ → Select

pub data Act : Type 0 where
  creates : ℤ → ℤ → String → Task → Act
  deletes : String → Act
  fetches : Task → Act
  rounds : Select → ℤ → Act
  consumes_due consumes_rolled_back : Act
  uses : ℕ → Use → Act
  buffers : Case → Act
  confirms : Act
  batches : Batcher.Event → Act
  measures : Act
  works : ℕ → Act

-- The services after Build, with `n` confirmation workers.
unfoldable pub start : {R : Type 0} → ℕ → World R → System R
unfolding Pipeline.run
start n w = record {
  preloaded_tasks = [];
  canceled_tasks = [];
  list = empty;
  ready = [];
  handles = no_handles;
  buffer = new_buffer;
  to_confirm = [];
  sender = Pipeline.run n w;
  entered = [];
}

-- What a select receives, `none` if it cannot yet.
abbrev pub preloaded_wake : ℕ → List Task → Option Wake
preloaded_wake k [] = none
preloaded_wake k (t ∷ rest) = some (preloaded t (take k rest))

abbrev pub canceled_wake : ℕ → List String → Option Wake
canceled_wake k [] = none
canceled_wake k (id ∷ rest) = some (canceled id (take k rest))

-- What is left in a channel of which a round has received a value and, of the `k` that it
-- showed after it, at most `limit`.
abbrev pub left_in : {A : Type 0} → ℕ → ℕ → List A → List A
left_in limit k [] = []
left_in limit k (x ∷ rest) = drop limit (take k rest) ++ drop k rest

-- The buffer after a call has sent these tasks to it, `none` if its channel is full.
unfoldable pub rolled_back_to : List Task → Buffer → Option Buffer
unfolding Buffer.step
rolled_back_to [] b = some b
rolled_back_to (t ∷ ts) b = elim (Buffer.step (enters t) b) [
  | none ↦ none
  | some b' ↦ rolled_back_to ts b'
]

module _ {R : Type 0} where
  -- What the calls of the library see.
  abbrev pub state_of : System R → State R
  state_of s = record {
    world = s.sender.world;
    preloaded_tasks = [];
    canceled_tasks = [];
    handles = s.handles;
  }

  unfoldable pub called : State R → System R → System R
  called st s = record s {
    preloaded_tasks = s.preloaded_tasks ++ st.preloaded_tasks;
    canceled_tasks = s.canceled_tasks ++ st.canceled_tasks;
    entered = s.entered ++ st.preloaded_tasks;
    sender = record (s.sender) { world = st.world };
  }

  -- A worker of the preloader sends a task that it got.
  unfoldable pub fetch : Task → System R → System R
  fetch t s = record s {
    preloaded_tasks = s.preloaded_tasks ++ t ∷ [];
    entered = s.entered ++ t ∷ [];
  }

  unfoldable pub wake_of : Select → System R → Option Wake
  wake_of on_timer s = some timer
  wake_of (on_preloaded k) s = preloaded_wake k s.preloaded_tasks
  wake_of (on_canceled k) s = canceled_wake k s.canceled_tasks

  -- The channels after a round: a task that is due goes out, and nothing was received; or values
  -- were.
  unfoldable pub received : ℕ → Select → System R → System R
  received limit on_timer s = s
  received limit (on_preloaded k) s = record s {
    preloaded_tasks = left_in limit k s.preloaded_tasks;
  }
  received limit (on_canceled k) s = record s { canceled_tasks = left_in limit k s.canceled_tasks }

  unfoldable pub rounded : ℕ → Select → Option Task × TaskHeap → System R → System R
  unfolding received
  rounded limit select (some t, h) s = record s { list = h; ready = s.ready ++ t ∷ [] }
  rounded limit select (none, h) s = received limit select (record s { list = h })

  -- A round of the waiting service, which starts once the task of the one before is in its channel.
  unfoldable pub waits : ℕ → Select → ℤ → Option Wake → System R → Run (System R)
  unfolding round rounded
  waits limit select now none s = ok s
  waits limit select now (some wake) s =
      let next = round limit now wake s.list >>= λ r. ok (rounded limit select r s) in
      if ltb (length s.ready) 2 then next else ok s

  unfoldable pub consume : Task → System R → System R
  unfolding Handles.consume
  consume t s = record s { handles = (Handles.consume t s.handles).1 }

  -- Consume receives from either channel.
  unfoldable pub consume_due : List Task → System R → System R
  unfolding consume
  consume_due [] s = s
  consume_due (t ∷ rest) s = consume t (record s { ready = rest })

  unfoldable pub consume_rolled_back : Option Task → Option Buffer → System R → System R
  unfolding consume
  consume_rolled_back (some t) (some b) s = consume t (record s { buffer = b })
  consume_rolled_back o b s = s

  unfoldable pub used : Handles → Option Buffer → System R → System R
  used o none s = s
  used o (some b) s = record s { handles = o; buffer = b; to_confirm = s.to_confirm ++ o.confirmed }

  -- A call of Confirm or Rollback on a handle that has been lent.
  unfoldable pub use_lent : ℕ → Use → System R → System R
  unfolding use_handle rolled_back_to used
  use_lent h u s =
      let o = use_handle h u (record (s.handles) { confirmed = []; rolled_back = [] }) in
      if ltb h s.handles.next then used o (rolled_back_to o.rolled_back s.buffer) s else s

  unfoldable pub buffered : Option Buffer → System R → System R
  buffered none s = s
  buffered (some b) s = record s { buffer = b }

  -- The sender's goroutines.
  unfoldable pub sent : Option (Pipeline R) → System R → System R
  sent none s = s
  sent (some p) s = record s { sender = p }

  -- generateBatch receives a task to confirm.
  unfoldable pub handed_on : Option (Pipeline R) → List Task → System R → System R
  handed_on none rest s = s
  handed_on (some p) rest s = record s { sender = p; to_confirm = rest }

module _ {R C : Type 0} (hook : TriggerHook R C) (limit max : ℕ) where
  unfoldable pub confirm_next : List Task → System R → System R
  unfolding handed_on Pipeline.act
  confirm_next [] s = s
  confirm_next (t ∷ rest) s =
      handed_on (Pipeline.act hook.task_manager max (Pipeline.batches (value t)) s.sender) rest s

  -- What a goroutine of the sender does by itself.
  unfoldable pub sender_act : Pipeline.Act → System R → System R
  unfolding sent Pipeline.act
  sender_act a s = sent (Pipeline.act hook.task_manager max a s.sender) s

  -- The steps of the goroutine that collects batches, other than a receive.
  unfoldable pub batcher_act : Batcher.Event → System R → System R
  unfolding sender_act
  batcher_act (value t) s = s
  batcher_act e s = sender_act (Pipeline.batches e) s

  -- A step; one that cannot be made yet, as a goroutine blocks, leaves everything as it is.
  unfoldable pub step : Act → System R → Run (System R)
  unfolding create_ctx delete_ctx called fetch waits wake_of consume_due consume_rolled_back
      use_lent buffered confirm_next batcher_act Buffer.step
  step (creates now later new_id t) s =
      ok (called (create_ctx hook now later new_id t (state_of s)).2 s)
  step (deletes id) s = ok (called (delete_ctx hook id (state_of s)).1 s)
  step (fetches t) s = ok (fetch t s)
  step (rounds select now) s = waits limit select now (wake_of select s) s
  step consumes_due s = ok (consume_due s.ready s)
  step consumes_rolled_back s =
      ok (consume_rolled_back s.buffer.out_chan.held (Buffer.step leaves s.buffer) s)
  step (uses h u) s = ok (use_lent h u s)
  step (buffers c) s = ok (buffered (Buffer.step (turns c) s.buffer) s)
  step confirms s = ok (confirm_next s.to_confirm s)
  step (batches e) s = ok (batcher_act e s)
  step measures s = ok (sender_act Pipeline.measures s)
  step (works i) s = ok (sender_act (Pipeline.works i) s)

  unfoldable pub run : List Act → System R → Run (System R)
  unfolding step
  run [] s = ok s
  run (a ∷ acts) s = step a s >>= run acts
