-- ===== src/System/Whole.antt =====
-- What the services keep together, and what a step moves between them.
use triggerhook.Base.{ℕ, ◌+◌, String, List, Option, none, some, ◌≡◌}
use triggerhook.Domain.{Task}
use triggerhook.TaskManager.Operations.{TaskManager}
use triggerhook.Waiting.TaskHeap.Valid.{IsValid}
use triggerhook.Waiting.TaskHeap.Refines.{View}
use triggerhook.Waiting.Loop.{Wake}
use triggerhook.Waiting.Loop.Rounds.{IsFair}
use triggerhook.Waiting.Loop.Fate.{AllOther}
use triggerhook.Preloader.Shares.{count}
use triggerhook.Sender.Buffer as Buffer
use triggerhook.Sender.Placed.{Accounted}
use triggerhook.System.{System}
use triggerhook.System.Places.{has_id, on_the_way}
use triggerhook.System.Lent.{Pooled}

abbrev pub Anything : {R : Type 0} → List (List Task) → R → Type 0
Anything bs r = Unit {0}

-- What a round needs, if its select receives something.
abbrev pub IsFairWake : ℕ → View → Option Wake → Type 0
IsFairWake limit v none = Unit {0}
IsFairWake limit v (some wake) = IsFair limit v wake

module _ {R C : Type 0} (m : TaskManager R C) (max : ℕ) where
  pub record IsWhole (s : System R) : Type 0 where
    pub valid : IsValid s.list
    pub pooled : Pooled s.handles.store s.handles.next s.handles.pool
    pub buffer : Buffer.Reach s.buffer
    pub sender : Accounted m Anything max s.sender

  -- After a step from `s`, for the tasks of one id, which is not cancelled.
  pub record Kept (id : String) (s s' : System R) : Type 0 where
    pub whole : IsWhole s'
    pub spared : AllOther id s'.canceled_tasks
    pub moved :
        on_the_way id s'
          + count (has_id id) s'.sender.batcher.received
          + count (has_id id) s.entered
        ≡ on_the_way id s
          + count (has_id id) s.sender.batcher.received
          + count (has_id id) s'.entered
