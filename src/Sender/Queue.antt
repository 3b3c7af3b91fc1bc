-- ===== src/Sender/Queue.antt =====
-- sender_service/task_queue.go: the queue of batches.
use triggerhook.Base.{List, [], ◌∷◌, ◌++◌, Option, none, some}
use triggerhook.Domain.{Task}

-- The batchTaskQueue, whose lock makes each operation one step.
pub record BatchTaskQueue : Type 0 where
  pub queue : List (List Task)

unfoldable pub push : List Task → BatchTaskQueue → BatchTaskQueue
push tasks q = record { queue = q.queue ++ tasks ∷ [] }

-- `none` is QueueIsEmpty.
unfoldable pub pop_from : List (List Task) → Option (List Task) × BatchTaskQueue
pop_from [] = (none, record { queue = [] })
pop_from (tasks ∷ rest) = (some tasks, record { queue = rest })

unfoldable pub pop : BatchTaskQueue → Option (List Task) × BatchTaskQueue
unfolding pop_from
pop q = pop_from q.queue
