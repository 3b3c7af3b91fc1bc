-- ===== src/Sender/Confirmation.antt =====
-- sender_service.go: the measurement of a batch that generateBatch hands over, and a confirmation
-- worker, which deletes the tasks of the batches that it receives.
use triggerhook.Base.{◌-ℤ◌, pos, int64, List, [], ◌∷◌, Option, none, some, length}
use triggerhook.Domain.{Task}
use triggerhook.Contracts.{fatal, debug, waiting_for_confirmation, confirmation_rate}
use triggerhook.Contracts.Errors.{TmError, tm_text}
use triggerhook.TaskManager.Interface.{World, report, publish}
use triggerhook.TaskManager.Operations.{TaskManager, confirm_execution}

module _ {R C : Type 0} (s : TaskManager R C) where
  -- The measurement of a batch that is pushed.
  abbrev pub batch_pushed : List Task → World R → World R
  batch_pushed batch w = publish s.known waiting_for_confirmation (pos (length batch)) w

  -- What a worker does after its call of ConfirmExecution.
  unfoldable pub batch_confirmed : List Task → Option TmError × World R → World R
  unfolding publish tm_text
  batch_confirmed batch (err, w) =
      let w1 : World R = elim err [ none ↦ w | some e ↦ report fatal (tm_text e) w ] in
      let w2 = report debug "confirmed tasks" w1 in
      let w3 = publish s.known waiting_for_confirmation (int64 (pos 0 -ℤ pos (length batch))) w2 in
      publish s.known confirmation_rate (pos (length batch)) w3

  unfoldable pub confirm_batch : List Task → World R → World R
  unfolding confirm_execution batch_confirmed
  confirm_batch batch w = batch_confirmed batch (confirm_execution s batch w)

  -- The loop over the channel of batches.
  unfoldable pub confirmation : List (List Task) → World R → World R
  unfolding confirm_batch
  confirmation [] w = w
  confirmation (batch ∷ batches) w = confirmation batches (confirm_batch batch w)
