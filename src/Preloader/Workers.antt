-- ===== src/Preloader/Workers.antt =====
-- preloader_service.go: a round of Run, and the goroutines of getBunchOfTask that it starts, which
-- share one iterator over collections and one channel.
use triggerhook.Base.{
  ℕ, zero, suc, ℤ, List, [], ◌∷◌, ◌++◌, Option, none, some, get_elem?, set, if◌then◌else◌, ◌≡◌,
}
use triggerhook.Domain.{Task}
use triggerhook.Contracts.{fatal, debug}
use triggerhook.Contracts.Errors.{
  RepoError, getting_tasks, no_collections, same_error, TmError, collections_not_found,
  same_tm_error,
}
use triggerhook.TaskManager.Interface.{World, report, sleep}
use triggerhook.TaskManager.Operations.{TaskManager, get_tasks_to_complete}
use triggerhook.Preloader.Service.{take_bunch}

-- How a round of Run goes on: to the next one after a sleep, to the end of Run, or to the workers with
-- the collections found.
pub data Round (R C : Type 0) : Type 0 where
  sleeps returns : World R → Round R C
  preloads : Option C → World R → Round R C

-- Where a worker stands: before its call of Next, before its event and measurement for the tasks that
-- it got, before it sends those that are left, or past its end, of which the second is fatal.
pub data Worker : Type 0 where
  asking ended stopped : Worker
  got sending : List Task → Worker

-- `results` is what Next answers from now on, in the order of its calls, before the collections are
-- over: tasks, or RepoErrorGettingTasks.
pub record Pool (R : Type 0) : Type 0 where
  pub results : List (Option (List Task))
  pub workers : List Worker
  pub sent : List Task
  pub world : World R

-- `workersCount` workers, before their first call.
unfoldable pub start_workers : ℕ → List Worker
start_workers zero = []
start_workers (suc n) = asking ∷ start_workers n

-- Next of the collections.
unfoldable pub next :
    List (Option (List Task)) → List Task × Option RepoError × List (Option (List Task))
next [] = ([], some no_collections, [])
next (none ∷ rest) = ([], some getting_tasks, rest)
next (some tasks ∷ rest) = (tasks, none, rest)

module _ {R C : Type 0} (s : TaskManager R C) where
  -- The switch of Run over the error of GetTasksToComplete.
  unfoldable pub switch : Option C × Option TmError × World R → Round R C
  switch (found, none, w) = preloads found w
  switch (found, some err, w) =
      if same_tm_error err collections_not_found
      then sleeps (sleep (report debug "I go to sleep because I don't get any tasks" w))
      else returns (report fatal "preloader cannot get bunches of tasks" w)

  unfoldable pub run_round : ℤ → World R → Round R C
  unfolding get_tasks_to_complete switch
  run_round time_preload w = switch (get_tasks_to_complete s time_preload w)

  -- What a worker does with the answer of Next.
  unfoldable pub answered :
      List Task × Option RepoError × List (Option (List Task)) → Pool R → Worker × Pool R
  answered (tasks, none, rest) p = (got tasks, record p { results = rest })
  answered (tasks, some err, rest) p =
      if same_error err no_collections
      then (ended, record p { results = rest; world = report debug "end" p.world })
      else (
        stopped,
        record p { results = rest; world = report fatal "cannot get tasks for doing" p.world },
      )

  -- A step of a worker, `none` past its end.
  unfoldable pub worker_step : Worker → Pool R → Option (Worker × Pool R)
  unfolding answered next
  worker_step asking p = some (answered (next p.results) p)
  worker_step (got tasks) p = some (sending tasks, record p { world = take_bunch s tasks p.world })
  worker_step (sending []) p = some (asking, p)
  worker_step (sending (task ∷ tasks)) p =
      some (sending tasks, record p { sent = p.sent ++ task ∷ [] })
  worker_step ended p = none
  worker_step stopped p = none

  -- The worker back in its place.
  unfoldable pub put_worker : ℕ → Option (Worker × Pool R) → Option (Pool R)
  put_worker i none = none
  put_worker i (some (k, p)) = some (record p { workers = set p.workers i k })

  unfoldable pub step : ℕ → Pool R → Option (Pool R)
  unfolding worker_step put_worker
  step i p = elim (get_elem? p.workers i) [ none ↦ none | some k ↦ put_worker i (worker_step k p) ]

  -- The states reached by a number of steps.
  pub data Reach (start : Pool R) : ℕ → Pool R → Type 0 where
    at_start : Reach start 0 start
    after :
        {n : ℕ} {p p' : Pool R} (i : ℕ)
        → Reach start n p
        → step i p ≡ some p'
        → Reach start (suc n) p'
