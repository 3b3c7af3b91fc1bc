-- ===== src/Sender/Accounted.antt =====
-- Where the tasks are that have come through the channel of tasks to confirm.
use triggerhook.Base.{
  ℕ, ◌+◌, ◌<◌, pos_part, List, ◌++◌, Bool, true, Option, none, some, ◌≡◌, sym, ap, ◌∙◌, arith,
}
use triggerhook.Domain.{Task}
use triggerhook.Contracts.{all}
use triggerhook.Contracts.Errors.{TmError, confirmation_tasks}
use triggerhook.TaskManager.Interface.{World}
use triggerhook.TaskManager.Operations.{TaskManager, confirm_execution}
use triggerhook.TaskManager.Laws.{RepositoryLaws, without}
use triggerhook.TaskManager.Atomic.{
  Deletion, are_deleted, none_found, not_deleted, confirm_execution-Deletion,
}
use triggerhook.Preloader.Shares.{count, count-append}
use triggerhook.Sender.Sizes.{flatten, flatten-append}
use triggerhook.Sender.Batcher.{at_start}
use triggerhook.Sender.Batches.{batches-Kept}
use triggerhook.Sender.Confirmed.{without_same}
use triggerhook.Sender.Pipeline.{Pipeline, Reach, after_run, after, run}
use triggerhook.Sender.Hands.{in_hands-start, without_none, without-append}
use triggerhook.Sender.Placed.{placed, Accounted}
use triggerhook.Sender.Carried.{confirmed_with, act-Accounted}

module _ {R C : Type 0} (s : TaskManager R C) (laws : RepositoryLaws (s.repository)) where
  -- What is stored is what was, without the tasks of the batches.
  abbrev pub Removed : List Task → List (List Task) → R → Type 0
  Removed stored bs r = laws.contents r ≡ without (flatten bs) stored

  removed_by :
      (stored batch : List Task) (bs : List (List Task)) (w : World R) (o : Option TmError)
      (w' : World R)
      → Deletion laws.contents confirmation_tasks batch w o w'
      → Removed stored bs w.repo
      → Removed stored (confirmed_with batch o bs) w'.repo
  removed_by stored batch bs w none w' (are_deleted c) r =
      c.repo
      ∙ ap (without batch) r
      ∙ sym (without-append (flatten bs) batch stored)
      ∙ ap (λ l. without l stored) (sym (flatten-append bs batch))
  removed_by stored batch bs w (some e) w' (none_found c g m) r =
      c ∙ without_same batch (laws.contents w.repo) g ∙ r
  removed_by stored batch bs w (some e) w' (not_deleted same) r = same.repo ∙ r

  module _ (tries : 0 < pos_part (s.max_retry)) (known : s.known all ≡ true) where
    Removed-stores :
        (stored batch : List Task) (bs : List (List Task)) (w : World R)
        → Removed stored bs w.repo
        → Removed stored
            (confirmed_with batch (confirm_execution s batch w).0 bs)
            (confirm_execution s batch w).1.repo
    Removed-stores stored batch bs w r =
        removed_by stored batch bs w (confirm_execution s batch w).0 (confirm_execution s batch w).1
          (confirm_execution-Deletion s laws tries known batch w) r

    pub Reach-Accounted :
        {max n : ℕ} {w : World R} {p : Pipeline R}
        → Reach s max n w p
        → Accounted s (Removed (laws.contents w.repo)) max p
    unfolding run flatten
    Reach-Accounted {n = n} {w} after_run = record {
      reached = at_start;
      shared = λ f. omega (arith, in_hands-start f n);
      removed = sym (without_none (laws.contents w.repo));
    }
    Reach-Accounted (after {p = p} a r q) =
        act-Accounted s (Removed _) (Removed-stores _) a p q (Reach-Accounted r)

    -- If the repository rolls back the calls that fail and otherwise stores and deletes what it is
    -- asked to, MaxRetry is positive and the topic of all tasks is initialized, then with a
    -- positive BatchMaxItems, in every state that Run of the sender reaches, however the
    -- goroutines of generateBatch and the confirmation workers interleave: of the tasks that pass
    -- any test, as many have been received as are in batches that ConfirmExecution has returned
    -- for, in the hands of workers, in the channel, in queued batches and in the open batch
    -- together; and what is stored is what was stored at the start without the tasks of the
    -- batches that ConfirmExecution returned for without an error.
    pub run-Accounted :
        {max n : ℕ} {w : World R} {p : Pipeline R} (f : Task → Bool)
        → 0 < max
        → Reach s max n w p
        → (count f p.batcher.received
            ≡ placed f p + (count f (flatten p.batcher.queue.queue) + count f p.batcher.batch))
          × (laws.contents p.world.repo ≡ without (flatten p.confirmed) (laws.contents w.repo))
    run-Accounted {max} {p = p} f m r =
        let a = Reach-Accounted r in
        let e = ap (count f) (batches-Kept m a.reached).0 in
        let g =
          count-append f (flatten p.batcher.handed_over)
            (flatten p.batcher.queue.queue ++ p.batcher.batch) in
        let h = count-append f (flatten p.batcher.queue.queue) p.batcher.batch in
        (omega (arith, e, g, h, a.shared f), a.removed)
