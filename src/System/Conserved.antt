-- ===== src/System/Conserved.antt =====
-- Whatever the services do together, no task is lost and none is doubled.
use triggerhook.Base.{ℕ, ◌+◌, ◌≢◌, String, List, [], ◌∷◌, ok, ◌≡◌}
use triggerhook.Preloader.Shares.{count}
use triggerhook.TriggerHook.{TriggerHook}
use triggerhook.Waiting.TaskHeap.Valid.{tasks}
use triggerhook.Sender.Sizes.{flatten}
use triggerhook.Sender.Batcher
use triggerhook.Sender.Pipeline
use triggerhook.Sender.Buffer
use triggerhook.Sender.Placed.{placed}
use triggerhook.System.{System, Act, deletes, rounds, wake_of, step}
use triggerhook.System.Places.{has_id, on_the_way}
use triggerhook.System.Whole.{IsFairWake, IsWhole, Kept}

-- The call does not delete the id.
abbrev pub Retains : String → Act → Type 0
Retains id (deletes j) = j ≢ id
Retains id a = Unit {0}

abbrev pub AllRetain : String → List Act → Type 0
AllRetain id [] = Unit {0}
AllRetain id (a ∷ acts) = Retains id a × AllRetain id acts

module _ {R C : Type 0} (hook : TriggerHook R C) (limit max : ℕ) where
  -- A round is brought only tasks with new ids, and its timer fires only while a task waits.
  abbrev pub IsFairAct : Act → System R → Type 0
  IsFairAct (rounds select now) s = IsFairWake limit (tasks s.list) (wake_of select s)
  IsFairAct a s = Unit {0}

  -- Each step finds what it needs after those before it.
  abbrev pub IsFairRun : List Act → System R → Type 0
  IsFairRun [] s = Unit {0}
  IsFairRun (a ∷ acts) s =
      IsFairAct a s × ((s' : System R) → step hook limit max a s ≡ ok s' → IsFairRun acts s')

  module _ (id : String) where
    abbrev Keeps : System R → System R → Type 0
    Keeps = Kept hook.task_manager max id

    -- What is on the way or received, next to what has entered.
    abbrev total : System R → ℕ
    total s = on_the_way id s + count (has_id id) s.sender.batcher.received

    record Conserved (s s' : System R) : Type 0 where
      whole : IsWhole hook.task_manager max s'
      balance : total s' + count (has_id id) s.entered ≡ total s + count (has_id id) s'.entered

    -- Where the tasks of the id are that the sender has received.
    abbrev pub in_sender : System R → ℕ
    in_sender s =
        let b = s.sender.batcher in
        placed (has_id id) s.sender
        + (count (has_id id) (flatten b.queue.queue) + count (has_id id) b.batch)
