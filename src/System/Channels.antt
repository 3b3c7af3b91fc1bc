-- ===== src/System/Channels.antt =====
-- What the calls of the library, the preloader and the rounds of the waiting service keep.
use triggerhook.Base.{
  ℕ, ℤ, String, List, [], ◌∷◌, Option, none, some, Bool-cases, inl, inr, length, take, ltb, Returns,
  returns, Returns-bind, ◌≡◌, refl, sym, ap, subst, arith,
}
use triggerhook.Domain.{Task}
use triggerhook.TaskManager.Operations.{TaskManager}
use triggerhook.Preloader.Shares.{count, count-append}
use triggerhook.TriggerHook.{State}
use triggerhook.Waiting.TaskHeap.{TaskHeap}
use triggerhook.Waiting.TaskHeap.Valid.{tasks}
use triggerhook.Waiting.TaskHeap.Refines.{View, Refines}
use triggerhook.Waiting.Loop.{Wake, timer, preloaded, canceled}
use triggerhook.Waiting.Loop.Rounds.{Round, IsFair, round_lem}
use triggerhook.Waiting.Loop.Fate.{AllOther, Spares}
use triggerhook.System.{
  System, Select, on_timer, on_preloaded, on_canceled, called, fetch, wake_of, preloaded_wake,
  canceled_wake, left_in, received, rounded, waits,
}
use triggerhook.System.Places.{
  has_id, in_view, count-left_in, AllOther-append, AllOther-received, AllOther-left_in,
}
use triggerhook.System.Turns.{Turned, Round-Turned}
use triggerhook.System.Whole.{IsFairWake, IsWhole, Kept}

module _ {R C : Type 0} (m : TaskManager R C) (max : ℕ) (id : String) where
  pub called-Kept :
      (st : State R) (s : System R)
      → IsWhole m max s
      → AllOther id s.canceled_tasks
      → AllOther id st.canceled_tasks
      → Kept m max id s (called st s)
  unfolding called
  called-Kept st s w o n = record {
    whole = record {
      valid = w.valid;
      pooled = w.pooled;
      buffer = w.buffer;
      sender = record { reached = w.sender.reached; shared = w.sender.shared; removed = tt };
    };
    spared = AllOther-append id s.canceled_tasks st.canceled_tasks o n;
    moved =
        let a = count-append (has_id id) s.preloaded_tasks st.preloaded_tasks in
        let b = count-append (has_id id) s.entered st.preloaded_tasks in omega (arith, a, b);
  }

  pub fetch-Kept :
      (t : Task) (s : System R)
      → IsWhole m max s
      → AllOther id s.canceled_tasks
      → Kept m max id s (fetch t s)
  unfolding fetch
  fetch-Kept t s w o = record {
    whole = record { valid = w.valid; pooled = w.pooled; buffer = w.buffer; sender = w.sender };
    spared = o;
    moved =
        let a = count-append (has_id id) s.preloaded_tasks (t ∷ []) in
        let b = count-append (has_id id) s.entered (t ∷ []) in omega (arith, a, b);
  }

  -- A step that changes nothing.
  pub same-Kept :
      (s : System R) → IsWhole m max s → AllOther id s.canceled_tasks → Kept m max id s s
  same-Kept s w o = record { whole = w; spared = o; moved = refl }

  sent-Kept :
      (limit : ℕ) (select : Select) (t : Task) (h : TaskHeap) (wake : Wake) (v : View)
      (s : System R)
      → IsWhole m max s
      → AllOther id s.canceled_tasks
      → Turned limit id (tasks s.list) wake (some t) v
      → Refines h v
      → Kept m max id s (rounded limit select (some t, h) s)
  unfolding rounded
  sent-Kept limit select t h wake v s w o e r = record {
    whole = record { valid = r.0; pooled = w.pooled; buffer = w.buffer; sender = w.sender };
    spared = o;
    moved =
        let a = count-append (has_id id) s.ready (t ∷ []) in
        let b = ap (λ (f : View). in_view (f id)) r.1 in omega (arith, a, b, e);
  }

  preloaded-Kept :
      (limit k : ℕ) (t : Task) (rest : List Task) (h : TaskHeap) (v : View) (s : System R)
      → s.preloaded_tasks ≡ t ∷ rest
      → IsWhole m max s
      → AllOther id s.canceled_tasks
      → Turned limit id (tasks s.list) (preloaded t (take k rest)) none v
      → Refines h v
      → Kept m max id s (rounded limit (on_preloaded k) (none, h) s)
  unfolding rounded received
  preloaded-Kept limit k t rest h v s q w o e r = record {
    whole = record { valid = r.0; pooled = w.pooled; buffer = w.buffer; sender = w.sender };
    spared = o;
    moved =
        let f = has_id id in
        let a = count-left_in f limit k t rest in
        let b = ap (λ (f : View). in_view (f id)) r.1 in
        let c = ap (count f) q in
        let d = ap (λ ts. count f (left_in limit k ts)) q in omega (arith, a, b, c, d, e);
  }

  canceled-Kept :
      (limit k : ℕ) (j : String) (rest : List String) (h : TaskHeap) (v : View) (s : System R)
      → IsWhole m max s
      → AllOther id s.canceled_tasks
      → Turned limit id (tasks s.list) (canceled j (take k rest)) none v
      → Refines h v
      → Kept m max id s (rounded limit (on_canceled k) (none, h) s)
  unfolding rounded received
  canceled-Kept limit k j rest h v s w o e r = record {
    whole = record { valid = r.0; pooled = w.pooled; buffer = w.buffer; sender = w.sender };
    spared = AllOther-left_in id limit k s.canceled_tasks o;
    moved = let b = ap (λ (f : View). in_view (f id)) r.1 in omega (arith, b, e);
  }

  timer-Kept :
      (limit : ℕ) (h : TaskHeap) (v : View) (s : System R)
      → IsWhole m max s
      → AllOther id s.canceled_tasks
      → Turned limit id (tasks s.list) timer none v
      → Refines h v
      → Kept m max id s (rounded limit on_timer (none, h) s)
  unfolding rounded received
  timer-Kept limit h v s w o e r = record {
    whole = record { valid = r.0; pooled = w.pooled; buffer = w.buffer; sender = w.sender };
    spared = o;
    moved = let b = ap (λ (f : View). in_view (f id)) r.1 in omega (arith, b, e);
  }

  after_round :
      (limit : ℕ) (now : ℤ) (select : Select) (wake : Wake) (sent : Option Task) (h : TaskHeap)
      (v : View) (s : System R)
      → IsWhole m max s
      → AllOther id s.canceled_tasks
      → Spares limit id wake
      → (Turned limit id (tasks s.list) wake none v
          → Refines h v
          → Kept m max id s (rounded limit select (none, h) s))
      → Round limit now (tasks s.list) wake sent v
      → Refines h v
      → Kept m max id s (rounded limit select (sent, h) s)
  after_round limit now select wake none h v s w o spared rest step r =
      rest (Round-Turned id step spared) r
  after_round limit now select wake (some t) h v s w o spared rest step r =
      sent-Kept limit select t h wake v s w o (Round-Turned id step spared) r

  woken-Kept :
      (limit : ℕ) (now : ℤ) (select : Select) (wake : Wake) (s : System R)
      → IsWhole m max s
      → AllOther id s.canceled_tasks
      → IsFair limit (tasks s.list) wake
      → Spares limit id wake
      → ((h : TaskHeap) (v : View)
          → Turned limit id (tasks s.list) wake none v
          → Refines h v
          → Kept m max id s (rounded limit select (none, h) s))
      → Returns (Kept m max id s) (waits limit select now (some wake) s)
  unfolding waits
  woken-Kept limit now select wake s w o fair spared rest =
      elim (Bool-cases (ltb (length s.ready) 2)) [
        | inr b ↦ rw b (returns (same-Kept s w o))
        | inl b ↦ rw b (
            Returns-bind (round_lem limit now wake s.list (tasks s.list) (w.valid, refl) fair)
              λ (sent, h) (v, step, r).
                returns (after_round limit now select wake sent h v s w o spared (rest h v) step r))
      ]

  preloads-Kept :
      (limit k : ℕ) (now : ℤ) (l : List Task) (s : System R)
      → s.preloaded_tasks ≡ l
      → IsWhole m max s
      → AllOther id s.canceled_tasks
      → IsFairWake limit (tasks s.list) (preloaded_wake k l)
      → Returns (Kept m max id s) (waits limit (on_preloaded k) now (preloaded_wake k l) s)
  unfolding waits
  preloads-Kept limit k now [] s q w o fair = returns (same-Kept s w o)
  preloads-Kept limit k now (t ∷ rest) s q w o fair =
      woken-Kept limit now (on_preloaded k) (preloaded t (take k rest)) s w o fair tt
        (λ h v e r. preloaded-Kept limit k t rest h v s q w o e r)

  cancels-Kept :
      (limit k : ℕ) (now : ℤ) (l : List String) (s : System R)
      → s.canceled_tasks ≡ l
      → IsWhole m max s
      → AllOther id l
      → Returns (Kept m max id s) (waits limit (on_canceled k) now (canceled_wake k l) s)
  unfolding waits
  cancels-Kept limit k now [] s q w o = returns (same-Kept s w (subst (AllOther id) (sym q) o))
  cancels-Kept limit k now (j ∷ rest) s q w (ne, o) =
      let all = subst (AllOther id) (sym q) (ne, o) in
      woken-Kept limit now (on_canceled k) (canceled j (take k rest)) s w all tt
        (ne, AllOther-received id limit k rest o)
        (λ h v e r. canceled-Kept limit k j rest h v s w all e r)

  pub rounds-Kept :
      (limit : ℕ) (select : Select) (now : ℤ) (s : System R)
      → IsWhole m max s
      → AllOther id s.canceled_tasks
      → IsFairWake limit (tasks s.list) (wake_of select s)
      → Returns (Kept m max id s) (waits limit select now (wake_of select s) s)
  unfolding wake_of
  rounds-Kept limit on_timer now s w o fair =
      woken-Kept limit now on_timer timer s w o fair tt (λ h v e r. timer-Kept limit h v s w o e r)
  rounds-Kept limit (on_preloaded k) now s w o fair =
      preloads-Kept limit k now s.preloaded_tasks s refl w o fair
  rounds-Kept limit (on_canceled k) now s w o fair =
      cancels-Kept limit k now s.canceled_tasks s refl w o
