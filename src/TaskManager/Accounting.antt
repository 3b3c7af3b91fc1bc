-- ===== src/TaskManager/Accounting.antt =====
-- The measurements for all tasks add up to the number of tasks that are stored.
use triggerhook.Base.{
  length, ◌-◌, ◌≤◌, ℕ, suc, ◌<◌, ◌^◌, ℤ, pos, ◌+ℤ◌, ◌-ℤ◌, pos_part, int64, String, List, [], ◌∷◌,
  ◌≡◌, sym, ap, subst, ◌∙◌, arith, Bool, true, Bool-cases, Option, none, some, inl, inr,
}
use triggerhook.Domain.{Task}
use triggerhook.Contracts.{all}
use triggerhook.Contracts.Errors.{
  same_error, RepoError, TmError, deadlock, lock_wait_timeout, no_tasks_found,
}
use triggerhook.TaskManager.Interface.{World}
use triggerhook.TaskManager.Retry.{Try, retry, note_failure}
use triggerhook.TaskManager.Attempts.{Attempts, succeeded, refused, exhausted, again, retry-Tried}
use triggerhook.TaskManager.Operations.{
  TaskManager, try_find, create, delete, got, get_tasks_to_complete, confirm_execution,
}
use triggerhook.TaskManager.Laws.{RepositoryLaws, without, is_named}
use triggerhook.TaskManager.Settled.{Same, note-Same}
use triggerhook.TaskManager.Totals.{total, total-snoc, one_more, some_less}
use triggerhook.TaskManager.Atomic.{
  Changed, Creation, is_stored, exists_already, id_is_wrong, has_failed, Deletion, are_deleted,
  none_found, not_deleted, create-Creation, delete-Deletion, confirm_execution-Deletion,
}

pub length-without : (tasks stored : List Task) → length (without tasks stored) ≤ length stored
unfolding without
length-without tasks [] = omega arith
length-without tasks (task ∷ rest) =
    let shorter = length-without tasks rest in
    elim (Bool-cases (is_named task.id tasks)) [
      | inl b ↦ rw b (omega arith)
      | inr b ↦ rw b (omega arith)
    ]

no_less : {n m : ℕ} → m ≤ n → n - m ≡ 0 → n ≡ m
no_less h e = omega arith

less : {n m : ℕ} → m ≤ n → n < 2 ^ 63 → pos n +ℤ int64 (pos 0 -ℤ pos (n - m)) ≡ pos m
less {n} {m} h fit =
    subst (λ k. pos k +ℤ int64 (pos 0 -ℤ pos (n - m)) ≡ pos m) (omega arith)
      (some_less m (n - m) (omega arith))

-- A call of the task manager.
pub data Call : Type 0 where
  creates : ℤ → String → Task → Bool → Call
  deletes_one : String → Call
  gets : ℤ → Call
  confirms : List Task → Call

module _ {R C : Type 0} (s : TaskManager R C) where
  unfoldable pub call : Call → World R → World R
  unfolding create delete get_tasks_to_complete confirm_execution
  call (creates now new_id task is_taken) w = (create s now new_id task is_taken w).2
  call (deletes_one id) w = (delete s id w).1
  call (gets range) w = (get_tasks_to_complete s range w).2
  call (confirms tasks) w = (confirm_execution s tasks w).1

  unfoldable pub calls : List Call → World R → World R
  unfolding call
  calls [] w = w
  calls (c ∷ rest) w = calls rest (call c w)

module _ {R C : Type 0} (s : TaskManager R C) (laws : RepositoryLaws (s.repository)) where
  pub record IsBalanced (w : World R) : Type 0 where
    pub balance : total w.published ≡ pos (length (laws.contents w.repo))

  Same-IsBalanced : {w w' : World R} → Same laws.contents w' w → IsBalanced w → IsBalanced w'
  Same-IsBalanced same b = record {
    balance = ap total same.published ∙ b.balance ∙ ap (λ l. pos (length l)) (sym same.repo);
  }

  Changed-IsBalanced :
      {w w' : World R} {stored : List Task} {n : ℤ}
      → Changed laws.contents stored n w w'
      → pos (length (laws.contents w.repo)) +ℤ n ≡ pos (length stored)
      → IsBalanced w
      → IsBalanced w'
  Changed-IsBalanced {w} {n = n} c e b = record {
    balance =
        ap total c.published
        ∙ total-snoc w.published n
        ∙ ap (λ t. t +ℤ n) b.balance
        ∙ e
        ∙ ap (λ l. pos (length l)) (sym c.repo);
  }

  Creation-IsBalanced :
      {task : Task} {w w' : World R} {o : Option TmError}
      → Creation laws.contents task w o w'
      → IsBalanced w
      → IsBalanced w'
  Creation-IsBalanced (exists_already same) b = Same-IsBalanced same b
  Creation-IsBalanced (id_is_wrong same) b = Same-IsBalanced same b
  Creation-IsBalanced (has_failed same) b = Same-IsBalanced same b
  Creation-IsBalanced {w = w} (is_stored c) b =
      Changed-IsBalanced c (one_more (length (laws.contents w.repo))) b

  Deletion-IsBalanced :
      {failure : TmError} {tasks : List Task} {w w' : World R} {o : Option TmError}
      → Deletion laws.contents failure tasks w o w'
      → IsBalanced w
      → IsBalanced w'
  Deletion-IsBalanced (not_deleted same) b = Same-IsBalanced same b
  Deletion-IsBalanced {tasks = tasks} {w = w} (none_found q g p) b =
      let stored = laws.contents w.repo in
      record {
        balance =
            ap total p
            ∙ b.balance
            ∙ ap pos (no_less (length-without tasks stored) g)
            ∙ ap (λ l. pos (length l)) (sym q);
      }
  Deletion-IsBalanced {tasks = tasks} {w = w} (are_deleted c) b =
      let stored = laws.contents w.repo in
      Changed-IsBalanced c (less (length-without tasks stored) (laws.contents_fit w.repo)) b

  step-IsBalanced : (range : ℤ) (w : World R) → IsBalanced w → IsBalanced (try_find s range w).2
  unfolding try_find
  step-IsBalanced range w b = record {
    balance = b.balance ∙ ap (λ l. pos (length l)) (sym (laws.find_keeps range w.repo));
  }

  note-IsBalanced :
      (left : ℕ) (e : RepoError) (w : World R) → IsBalanced w → IsBalanced (note_failure left e w)
  note-IsBalanced left e w b = Same-IsBalanced (note-Same laws.contents left e w) b

  Attempts-IsBalanced :
      (range : ℤ) (retryable : List RepoError) {left n : ℕ} {w : World R} {t : Try R (Option C)}
      → Attempts (try_find s range) retryable left w n t
      → IsBalanced w
      → IsBalanced t.2
  Attempts-IsBalanced range retryable (succeeded {w = w} q) b =
      subst (λ t. IsBalanced t.2) q (step-IsBalanced range w b)
  Attempts-IsBalanced range retryable (refused {w = w} q _) b =
      subst (λ t. IsBalanced t.2) q (step-IsBalanced range w b)
  Attempts-IsBalanced range retryable (exhausted {w = w} {w' = w'} {e = e} q _) b =
      note-IsBalanced 0 e w' (subst (λ t. IsBalanced t.2) q (step-IsBalanced range w b))
  Attempts-IsBalanced range retryable (again {left = left} {w = w} {w' = w'} {e = e} q _ h) b =
      Attempts-IsBalanced range retryable h (
        note-IsBalanced (suc left) e w' (subst (λ t. IsBalanced t.2) q (step-IsBalanced range w b)))

  got-IsBalanced : (t : Try R (Option C)) → IsBalanced t.2 → IsBalanced (got s t).2
  unfolding got
  got-IsBalanced (found, none, w) b = b
  got-IsBalanced (found, some e, w) b = elim (Bool-cases (same_error e no_tasks_found)) [
    | inl h ↦ rw h b
    | inr h ↦ rw h (record { balance = b.balance })
  ]

  module _ (tries : 0 < pos_part (s.max_retry)) (known : s.known all ≡ true) where
    call-IsBalanced : (c : Call) (w : World R) → IsBalanced w → IsBalanced (call s c w)
    unfolding call get_tasks_to_complete
    call-IsBalanced (creates now new_id task is_taken) w b =
        Creation-IsBalanced (create-Creation s laws tries known now new_id task is_taken w) b
    call-IsBalanced (deletes_one id) w b =
        Deletion-IsBalanced (delete-Deletion s laws tries known id w) b
    call-IsBalanced (confirms tasks) w b =
        Deletion-IsBalanced (confirm_execution-Deletion s laws tries known tasks w) b
    call-IsBalanced (gets range) w b =
        let retryable = deadlock ∷ lock_wait_timeout ∷ [] in
        got-IsBalanced (retry (try_find s range) retryable s.max_retry none w) (
          Attempts-IsBalanced range retryable
            ((retry-Tried (try_find s range) retryable s.max_retry tries none w).attempts) b)

    -- If the repository rolls back the calls that fail and otherwise stores and deletes what it is
    -- asked to, MaxRetry is positive and the topic of all tasks is initialized, then over any
    -- sequence of calls of Create, Delete, GetTasksToComplete and ConfirmExecution, with their
    -- retries, the measurements published for all tasks keep adding up to the number of stored
    -- tasks.
    pub calls-IsBalanced : (cs : List Call) (w : World R) → IsBalanced w → IsBalanced (calls s cs w)
    unfolding calls
    calls-IsBalanced [] w b = b
    calls-IsBalanced (c ∷ rest) w b = calls-IsBalanced rest (call s c w) (call-IsBalanced c w b)
