-- ===== src/Sender/PipelineTests.antt =====
-- One task through the sender with batches of two and one worker, over the table of one row.
use triggerhook.Base.{◌+◌, ◌≤◌, ◌⊎◌, [], ◌∷◌, List, Option, none, some, true, ◌≡◌, refl, pos, arith}
use triggerhook.Domain.{Task}
use triggerhook.TaskManager.OneRow.{Table, manager, laws, world, late}
use triggerhook.TaskManager.Laws.{without}
use triggerhook.TaskManager.Operations.{try_delete}
use triggerhook.Preloader.Shares.{count}
use triggerhook.Sender.Sizes.{flatten}
use triggerhook.Sender.Batcher.{value, expire, collect, send, start, done}
use triggerhook.Sender.Pipeline.{
  Pipeline, Act, batches, measures, works, start_workers, run, act, Reach, after_run, after,
}
use triggerhook.Sender.Placed.{placed}
use triggerhook.Sender.Accounted.{run-Accounted}
use triggerhook.Sender.Work.{goes_on, work}
use triggerhook.Sender.Going.{CanGo}
use triggerhook.Sender.Settles.{Settled, GoesOn, stays, goes, run-Settles}

abbrev acts : List Act → Option (Pipeline Table) → Option (Pipeline Table)
acts [] o = o
acts (a ∷ rest) none = none
acts (a ∷ rest) (some p) = acts rest (act (manager (pos 3)) 2 a p)

abbrev confirmed_in : Option (Pipeline Table) → List (List Task)
confirmed_in none = []
confirmed_in (some p) = p.confirmed

goes_through :
    confirmed_in (
      acts
        (batches (value late)
          ∷ batches expire
          ∷ batches collect
          ∷ batches collect
          ∷ measures
          ∷ batches send
          ∷ works 0
          ∷ works 0
          ∷ works 0
          ∷ [])
        (some (run 1 (world (late ∷ [])))))
    ≡ (late ∷ []) ∷ []
unfolding act run try_delete without
goes_through = refl

-- The task has been received, and stands in the open batch.
abbrev one_received : Pipeline Table
unfolding run start start_workers
one_received =
    let p = run 1 (world (late ∷ [])) in
    record p { batcher = record p.batcher { batch = late ∷ []; received = late ∷ [] } }

one_received-Reach : Reach (manager (pos 3)) 2 1 (world (late ∷ [])) one_received
unfolding act run one_received
one_received-Reach = after (batches (value late)) after_run refl

-- The timer of the batch has expired.
abbrev expired : Pipeline Table
unfolding one_received
expired = record one_received { batcher = record one_received.batcher { collector = done } }

run-Accounted_example :
    (count (λ _. true) one_received.batcher.received
      ≡ placed (λ _. true) one_received
        + (count (λ _. true) (flatten one_received.batcher.queue.queue)
            + count (λ _. true) one_received.batcher.batch))
    × (laws.contents one_received.world.repo
        ≡ without (flatten one_received.confirmed) (laws.contents (world (late ∷ [])).repo))
run-Accounted_example =
    run-Accounted (manager (pos 3)) laws (omega arith) refl (λ _. true) (omega arith)
      one_received-Reach

expired-GoesOn : GoesOn (manager (pos 3)) 2 1 one_received expired
unfolding act goes_on one_received expired run
expired-GoesOn = goes (batches expire) refl refl stays

run-Settles_example :
    (1 ≤ work one_received) × (CanGo (manager (pos 3)) 2 expired ⊎ Settled expired)
run-Settles_example =
    run-Settles (manager (pos 3)) 2 laws (omega arith) refl (omega arith) (omega arith)
      one_received-Reach expired-GoesOn
