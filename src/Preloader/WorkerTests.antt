-- ===== src/Preloader/WorkerTests.antt =====
-- One worker that takes one collection of one task, and a round of Run that finds nothing.
use triggerhook.Base.{str_eq, [], ◌∷◌, Option, some, ◌≡◌, refl, pos, List}
use triggerhook.Domain.{Task}
use triggerhook.Contracts.{debug, preloading_rate}
use triggerhook.TaskManager.Interface.{World, publish}
use triggerhook.TaskManager.Operations.{try_find}
use triggerhook.TaskManager.OneRow.{Table, manager, world, late}
use triggerhook.Preloader.Workers.{
  Pool, ended, sleeps, run_round, switch, start_workers, step, worker_step, put_worker, answered,
  next, Reach, at_start, after,
}
use triggerhook.Preloader.Shares.{count, in_results}
use triggerhook.Preloader.Preloads.{new_pool, preload-Once}

abbrev results : List (Option (List Task))
results = some (late ∷ []) ∷ []

abbrev quiet : World Table
quiet = world []

abbrev first : Pool Table
first = new_pool 1 results quiet

abbrev last : Pool Table
last = record {
  results = [];
  workers = ended ∷ [];
  sent = late ∷ [];
  world = record quiet {
    reported = (debug, "preloaded tasks") ∷ (debug, "end") ∷ [];
    published = (preloading_rate, pos 1) ∷ [];
  };
}

last-Reach : Reach (manager (pos 3)) first 5 last
unfolding step worker_step put_worker answered next start_workers publish
last-Reach = after 0 (after 0 (after 0 (after 0 (after 0 at_start refl) refl) refl) refl) refl

slept :
    run_round (manager (pos 3)) (pos 5000000000) quiet
    ≡ sleeps (record quiet {
      reported = (debug, "I go to sleep because I don't get any tasks") ∷ [];
      slept = 1;
    })
unfolding run_round switch try_find
slept = refl

preload-Once_example :
    count (λ t. str_eq t.id "a") last.sent ≡ in_results (λ t. str_eq t.id "a") results
preload-Once_example =
    preload-Once (manager (pos 3)) 1 results quiet last-Reach refl 0 refl (λ t. str_eq t.id "a")
