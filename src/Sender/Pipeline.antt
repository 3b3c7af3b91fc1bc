-- ===== src/Sender/Pipeline.antt =====
-- sender_service.go, Run: the two goroutines of generateBatch and the confirmation workers, which
-- share the channel of batches.
use triggerhook.Base.{
  ℕ, zero, suc, List, [], ◌∷◌, ◌++◌, Bool, true, false, Option, none, some, length, ltb, get_elem?,
  set, if◌then◌else◌, ◌≡◌,
}
use triggerhook.Domain.{Task}
use triggerhook.Contracts.Errors.{TmError}
use triggerhook.TaskManager.Interface.{World}
use triggerhook.TaskManager.Operations.{TaskManager, confirm_execution}
use triggerhook.Sender.Batcher.{
  Batcher, Collector, collecting, done, Sender, popping, waiting, Event, value, expire, collect,
  send, start, step,
}
use triggerhook.Sender.Confirmation.{batch_pushed, batch_confirmed}

-- A worker before it receives a batch, before its call of ConfirmExecution, and after it.
pub data Worker : Type 0 where
  receiving : Worker
  holding : List Task → Worker
  called : List Task → Option TmError → Worker

-- `unmeasured` is a pushed batch whose measurement is not published yet; `channel` is the one batch
-- in the channel `batches`, followed by the one that its sender still holds. `confirmed` and `failed`
-- are the batches that ConfirmExecution has returned for, without and with an error.
pub record Pipeline (R : Type 0) : Type 0 where
  pub batcher : Batcher
  pub unmeasured : List Task
  pub channel : List (List Task)
  pub workers : List Worker
  pub confirmed : List (List Task)
  pub failed : List (List Task)
  pub world : World R

-- What runs next: a goroutine of generateBatch, its measurement, or a worker.
pub data Act : Type 0 where
  batches : Event → Act
  measures : Act
  works : ℕ → Act

unfoldable pub start_workers : ℕ → List Worker
start_workers zero = []
start_workers (suc n) = receiving ∷ start_workers n

-- The state after Run, with `confirmationWorkersCount` workers.
unfoldable pub run : {R : Type 0} → ℕ → World R → Pipeline R
unfolding start start_workers
run n w = record {
  batcher = start;
  unmeasured = [];
  channel = [];
  workers = start_workers n;
  confirmed = [];
  failed = [];
  world = w;
}

-- The select comes after the measurement; a pop comes after the batch before it is in the channel.
unfoldable pub is_measured : List Task → Bool
is_measured [] = true
is_measured (t ∷ ts) = false

unfoldable pub can_send : Sender → List (List Task) → Bool
can_send popping channel = ltb (length channel) 2
can_send waiting channel = true

unfoldable pub is_allowed : {R : Type 0} → Event → Pipeline R → Bool
unfolding is_measured can_send
is_allowed (value t) p = is_measured p.unmeasured
is_allowed expire p = is_measured p.unmeasured
is_allowed collect p = true
is_allowed send p = can_send p.batcher.sender p.channel

-- What a step of a goroutine sends to the channel.
unfoldable pub popped : Sender → List (List Task) → List (List Task)
popped popping (b ∷ rest) = b ∷ []
popped k q = []

unfoldable pub sent : Event → Batcher → List (List Task)
unfolding popped
sent send b = popped b.sender b.queue.queue
sent e b = []

-- The batch to measure after a step: the one that it pushes, or the one before.
unfoldable pub to_measure : Event → Collector → List Task → List Task → List Task
to_measure collect done batch before = batch
to_measure e c batch before = before

unfoldable pub put_batcher :
    {R : Type 0} → Event → Pipeline R → Option Batcher → Option (Pipeline R)
unfolding sent to_measure
put_batcher e p none = none
put_batcher e p (some b) = some (record p {
  batcher = b;
  channel = p.channel ++ sent e p.batcher;
  unmeasured = to_measure e p.batcher.collector p.batcher.batch p.unmeasured;
})

unfoldable pub batching : {R : Type 0} → ℕ → Event → Pipeline R → Option (Pipeline R)
unfolding is_allowed put_batcher step
batching max e p = if is_allowed e p then put_batcher e p (step max e p.batcher) else none

-- The batch of a worker's call, by the error of ConfirmExecution.
unfoldable pub settled : {R : Type 0} → List Task → Option TmError → Pipeline R → Pipeline R
settled batch none p = record p { confirmed = p.confirmed ++ batch ∷ [] }
settled batch (some err) p = record p { failed = p.failed ++ batch ∷ [] }

module _ {R C : Type 0} (s : TaskManager R C) where
  unfoldable pub measuring : Collector → List Task → Pipeline R → Option (Pipeline R)
  measuring collecting (t ∷ ts) p =
      some (record p { unmeasured = []; world = batch_pushed s (t ∷ ts) p.world })
  measuring c batch p = none

  unfoldable pub take_batch : List (List Task) → Pipeline R → Option (Worker × Pipeline R)
  take_batch [] p = none
  take_batch (batch ∷ rest) p = some (holding batch, record p { channel = rest })

  unfoldable pub called_with :
      List Task → Option TmError × World R → Pipeline R → Worker × Pipeline R
  unfolding settled
  called_with batch (err, w) p = (called batch err, settled batch err (record p { world = w }))

  -- A step of the loop of `confirmation`.
  unfoldable pub worker_step : Worker → Pipeline R → Option (Worker × Pipeline R)
  unfolding take_batch called_with confirm_execution batch_confirmed
  worker_step receiving p = take_batch p.channel p
  worker_step (holding batch) p = some (called_with batch (confirm_execution s batch p.world) p)
  worker_step (called batch err) p =
      some (receiving, record p { world = batch_confirmed s batch (err, p.world) })

  unfoldable pub put_worker : ℕ → Option (Worker × Pipeline R) → Option (Pipeline R)
  put_worker i none = none
  put_worker i (some (k, p)) = some (record p { workers = set p.workers i k })

  unfoldable pub working : ℕ → Pipeline R → Option (Pipeline R)
  unfolding worker_step put_worker
  working i p = elim (get_elem? p.workers i) [
    | none ↦ none
    | some k ↦ put_worker i (worker_step k p)
  ]

  -- One step, `none` if it cannot be made.
  unfoldable pub act : ℕ → Act → Pipeline R → Option (Pipeline R)
  unfolding batching measuring working
  act max (batches e) p = batching max e p
  act max measures p = measuring p.batcher.collector p.unmeasured p
  act max (works i) p = working i p

  -- The states that are reached with batches of at most `max` tasks and `n` workers.
  pub data Reach (max n : ℕ) (w : World R) : Pipeline R → Type 0 where
    after_run : Reach max n w (run n w)
    after :
        {p p' : Pipeline R} (a : Act) → Reach max n w p → act max a p ≡ some p' → Reach max n w p'
