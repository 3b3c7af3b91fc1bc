-- ===== src/Preloader/Shares.antt =====
-- What a step of a worker moves between the answers of Next, the workers and the channel.
use triggerhook.Base.{
  ℕ, zero, suc, ◌+◌, List, [], ◌∷◌, ◌++◌, Bool, Bool-cases, Option, none, some, inl, inr, length,
  get_elem?, set, if◌then◌else◌, ◌≡◌, refl, ap, subst, arith,
}
use triggerhook.Domain.{Task}
use triggerhook.TaskManager.Operations.{TaskManager}
use triggerhook.Preloader.Workers.{
  Worker, asking, ended, stopped, got, sending, Pool, next, answered, worker_step,
}

-- How many of the tasks pass a test.
abbrev pub count : (Task → Bool) → List Task → ℕ
count f [] = 0
count f (t ∷ ts) = let n = count f ts in if f t then suc n else n

pub count-append :
    (f : Task → Bool) (xs ys : List Task) → count f (xs ++ ys) ≡ count f xs + count f ys
count-append f [] ys = omega arith
count-append f (x ∷ xs) ys = elim (Bool-cases (f x)) [
  | inl b ↦ rw b (omega (arith, count-append f xs ys))
  | inr b ↦ rw b (count-append f xs ys)
]

-- The tasks that a worker has yet to send.
abbrev pub held : Worker → List Task
held (got tasks) = tasks
held (sending tasks) = tasks
held asking = []
held ended = []
held stopped = []

abbrev pub in_workers : (Task → Bool) → List Worker → ℕ
in_workers f [] = 0
in_workers f (k ∷ ks) = count f (held k) + in_workers f ks

abbrev pub in_answer : (Task → Bool) → Option (List Task) → ℕ
in_answer f none = 0
in_answer f (some tasks) = count f tasks

abbrev pub in_results : (Task → Bool) → List (Option (List Task)) → ℕ
in_results f [] = 0
in_results f (r ∷ rs) = in_answer f r + in_results f rs

-- The steps that a worker, and an answer, have yet to cause.
abbrev pub steps_of : Worker → ℕ
steps_of asking = 1
steps_of (got tasks) = 3 + length tasks
steps_of (sending tasks) = 2 + length tasks
steps_of ended = 0
steps_of stopped = 0

abbrev pub steps_for : Option (List Task) → ℕ
steps_for none = 0
steps_for (some tasks) = 3 + length tasks

abbrev pub steps_left : List Worker → ℕ
steps_left [] = 0
steps_left (k ∷ ks) = steps_of k + steps_left ks

abbrev pub steps_due : List (Option (List Task)) → ℕ
steps_due [] = 0
steps_due (r ∷ rs) = steps_for r + steps_due rs

some_inj : {x k : Worker} → some x ≡ some k → x ≡ k
some_inj {x} e = ap (λ o. elim o [ none ↦ x | some k ↦ k ]) e

one_sent :
    (f : Task → Bool) (t : Task) (ts sent : List Task) (n : ℕ)
    → count f ts + (count f (sent ++ t ∷ []) + n) ≡ count f (t ∷ ts) + (count f sent + n)
one_sent f t ts sent n = elim (Bool-cases (f t)) [
  | inl b ↦ let e = count-append f sent (t ∷ []) in rw (e, b) (omega arith)
  | inr b ↦ let e = count-append f sent (t ∷ []) in rw (e, b) (omega arith)
]

-- A worker put back in its place.
pub in_workers-set :
    (f : Task → Bool) (ks : List Worker) (i : ℕ) (k k' : Worker)
    → get_elem? ks i ≡ some k
    → in_workers f (set ks i k') + count f (held k) ≡ in_workers f ks + count f (held k')
in_workers-set f [] i k k' e = cc e
in_workers-set f (x ∷ ks) zero k k' e = rw (some_inj e) (omega arith)
in_workers-set f (x ∷ ks) (suc i) k k' e = omega (arith, in_workers-set f ks i k k' e)

pub steps_left-set :
    (ks : List Worker) (i : ℕ) (k k' : Worker)
    → get_elem? ks i ≡ some k
    → steps_left (set ks i k') + steps_of k ≡ steps_left ks + steps_of k'
steps_left-set [] i k k' e = cc e
steps_left-set (x ∷ ks) zero k k' e = rw (some_inj e) (omega arith)
steps_left-set (x ∷ ks) (suc i) k k' e = omega (arith, steps_left-set ks i k k' e)

module _ {R C : Type 0} (s : TaskManager R C) where
  pub record Stepped (k : Worker) (p : Pool R) (k' : Worker) (p' : Pool R) : Type 0 where
    pub workers : p'.workers ≡ p.workers
    pub moved :
        (f : Task → Bool)
        → count f (held k') + (count f p'.sent + in_results f p'.results)
          ≡ count f (held k) + (count f p.sent + in_results f p.results)
    pub cost : suc (steps_of k' + steps_due p'.results) ≡ steps_of k + steps_due p.results
    pub over : k' ≡ ended → p'.results ≡ []
    pub stays_over : p.results ≡ [] → p'.results ≡ []

  answered-Stepped :
      (rs : List (Option (List Task))) (p : Pool R)
      → p.results ≡ rs
      → Stepped asking p (answered s (next rs) p).0 (answered s (next rs) p).1
  unfolding answered next
  answered-Stepped [] p e = record {
    workers = refl;
    moved = λ f. rw e refl;
    cost = rw e refl;
    over = λ _. refl;
    stays_over = λ _. refl;
  }
  answered-Stepped (none ∷ rest) p e = record {
    workers = refl;
    moved = λ f. rw e (omega arith);
    cost = rw e (omega arith);
    over = λ q. cc q;
    stays_over = λ q. cc (e, q);
  }
  answered-Stepped (some tasks ∷ rest) p e = record {
    workers = refl;
    moved = λ f. rw e (omega arith);
    cost = rw e (omega arith);
    over = λ q. cc q;
    stays_over = λ q. cc (e, q);
  }

  of_step :
      {k : Worker} {p : Pool R} {x : Worker × Pool R} {k' : Worker} {p' : Pool R}
      → some x ≡ some (k', p')
      → Stepped k p x.0 x.1
      → Stepped k p k' p'
  of_step {k} {p} {x = x} q h =
      subst (λ y. Stepped k p y.0 y.1) (ap (λ o. elim o [ none ↦ x | some y ↦ y ]) q) h

  pub worker_step-Stepped :
      (k : Worker) (p : Pool R) {k' : Worker} {p' : Pool R}
      → worker_step s k p ≡ some (k', p')
      → Stepped k p k' p'
  unfolding worker_step
  worker_step-Stepped asking p q = of_step q (answered-Stepped p.results p refl)
  worker_step-Stepped (got tasks) p q = of_step q (record {
    workers = refl;
    moved = λ f. refl;
    cost = omega arith;
    over = λ q. cc q;
    stays_over = λ e. e;
  })
  worker_step-Stepped (sending []) p q = of_step q (record {
    workers = refl;
    moved = λ f. refl;
    cost = omega arith;
    over = λ q. cc q;
    stays_over = λ e. e;
  })
  worker_step-Stepped (sending (t ∷ ts)) p q = of_step q (record {
    workers = refl;
    moved = λ f. one_sent f t ts p.sent (in_results f p.results);
    cost = omega arith;
    over = λ q. cc q;
    stays_over = λ e. e;
  })
  worker_step-Stepped ended p q = cc q
  worker_step-Stepped stopped p q = cc q
