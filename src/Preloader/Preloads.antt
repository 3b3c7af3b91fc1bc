-- ===== src/Preloader/Preloads.antt =====
-- What the workers of a round send together, in whatever order they step, and that they end.
use triggerhook.Base.{
  ℕ, zero, suc, ◌+◌, List, [], ◌∷◌, Bool, true, false, ◌&&◌, Option, none, some, Option-cases, inl,
  inr, ◌⊎◌, ◌≢◌, get_elem?, set, ◌≡◌, refl, sym, ap, subst, ◌∙◌, arith,
}
use triggerhook.Domain.{Task}
use triggerhook.TaskManager.Interface.{World}
use triggerhook.TaskManager.Operations.{TaskManager}
use triggerhook.Preloader.Workers.{
  Worker, asking, ended, stopped, got, sending, Pool, start_workers, worker_step, put_worker, step,
  Reach, at_start, after,
}
use triggerhook.Preloader.Shares.{
  count, held, in_workers, in_results, steps_left, steps_due, worker_step-Stepped, in_workers-set,
  steps_left-set,
}

-- The workers of a round of Run as it starts them.
abbrev pub new_pool : {R : Type 0} → ℕ → List (Option (List Task)) → World R → Pool R
new_pool n results w = record { results = results; workers = start_workers n; sent = []; world = w }

abbrev pub is_done : Worker → Bool
is_done asking = false
is_done (got tasks) = false
is_done (sending tasks) = false
is_done ended = true
is_done stopped = true

abbrev pub all_done : List Worker → Bool
all_done [] = true
all_done (k ∷ ks) = is_done k && all_done ks

some_inj : {R : Type 0} {p p' : Pool R} → some p ≡ some p' → p ≡ p'
some_inj {p = p} e = ap (λ o. elim o [ none ↦ p | some p ↦ p ]) e

set_elem :
    (ks : List Worker) (i : ℕ) (k : Worker) (j : ℕ) {x : Worker}
    → get_elem? (set ks i k) j ≡ some x
    → (k ≡ x) ⊎ (get_elem? ks j ≡ some x)
set_elem [] i k j e = cc e
set_elem (y ∷ ks) zero k zero e = inl (ap (λ o. elim o [ none ↦ k | some z ↦ z ]) e)
set_elem (y ∷ ks) zero k (suc j) e = inr e
set_elem (y ∷ ks) (suc i) k zero e = inr e
set_elem (y ∷ ks) (suc i) k (suc j) e = set_elem ks i k j e

done_held : (f : Task → Bool) (k : Worker) → is_done k ≡ true → count f (held k) ≡ 0
done_held f asking d = refl
done_held f (got tasks) d = cc d
done_held f (sending tasks) d = cc d
done_held f ended d = refl
done_held f stopped d = refl

both_true : (a b : Bool) → a && b ≡ true → (a ≡ true) × (b ≡ true)
both_true true b h = (refl, h)
both_true false b h = cc h

done_in : (f : Task → Bool) (ks : List Worker) → all_done ks ≡ true → in_workers f ks ≡ 0
done_in f [] d = refl
done_in f (k ∷ ks) d =
    let (a, b) = both_true (is_done k) (all_done ks) d in
    omega (arith, done_held f k a, done_in f ks b)

module _ {R C : Type 0} (s : TaskManager R C) (count_workers : ℕ)
    (results : List (Option (List Task))) (w : World R) where
  -- After `n` steps.
  record Holds (n : ℕ) (p : Pool R) : Type 0 where
    kept :
        (f : Task → Bool)
        → count f p.sent + (in_workers f p.workers + in_results f p.results) ≡ in_results f results
    cost : n + (steps_left p.workers + steps_due p.results) ≡ count_workers + steps_due results
    over : (i : ℕ) → get_elem? p.workers i ≡ some ended → p.results ≡ []

  put-Holds :
      {n : ℕ} (i : ℕ) (k : Worker) (p : Pool R) (o : Option (Worker × Pool R)) {p' : Pool R}
      → get_elem? p.workers i ≡ some k
      → worker_step s k p ≡ o
      → put_worker s i o ≡ some p'
      → Holds n p
      → Holds (suc n) p'
  unfolding put_worker
  put-Holds i k p none e q h r = cc h
  put-Holds {n} i k p (some (k', x)) {p' = p'} e q h r =
      let t = worker_step-Stepped s k p q in
      subst (Holds (suc n)) (some_inj h) (record {
        kept = λ f.
            let m = t.moved f in
            let c = in_workers-set f p.workers i k k' e in
            let l = r.kept f in rw (t.workers) (omega arith);
        cost =
            let c = steps_left-set p.workers i k k' e in
            let d = t.cost in let l = r.cost in rw (t.workers) (omega arith);
        over = λ j q. elim (set_elem x.workers i k' j q) [
          | inl l ↦ t.over l
          | inr l ↦ t.stays_over (r.over j (subst (λ ks. get_elem? ks j ≡ some ended) t.workers l))
        ];
      })

  step-Holds :
      {n : ℕ} (i : ℕ) (p : Pool R) {p' : Pool R}
      → step s i p ≡ some p'
      → Holds n p
      → Holds (suc n) p'
  unfolding step
  step-Holds i p h r = elim (Option-cases (get_elem? p.workers i)) [
    | inl e ↦
        cc (
          sym (ap (λ o. elim o [ none ↦ none | some k ↦ put_worker s i (worker_step s k p) ]) e)
          ∙ h)
    | inr (k, e) ↦
        put-Holds i k p (worker_step s k p) e refl
          (sym (ap (λ o. elim o [ none ↦ none | some k ↦ put_worker s i (worker_step s k p) ]) e)
            ∙ h)
          r
  ]

  start_in : (f : Task → Bool) (n : ℕ) → in_workers f (start_workers n) ≡ 0
  unfolding start_workers
  start_in f zero = refl
  start_in f (suc n) = omega (arith, start_in f n)

  start_steps : (n : ℕ) → steps_left (start_workers n) ≡ n
  unfolding start_workers
  start_steps zero = refl
  start_steps (suc n) = omega (arith, start_steps n)

  none_ended : (n i : ℕ) → get_elem? (start_workers n) i ≢ some ended
  unfolding start_workers
  none_ended zero i e = cc e
  none_ended (suc n) zero e = cc e
  none_ended (suc n) (suc i) e = none_ended n i e

  Reach-Holds : {n : ℕ} {p : Pool R} → Reach s (new_pool count_workers results w) n p → Holds n p
  Reach-Holds at_start = record {
    kept = λ f. let e = start_in f count_workers in omega arith;
    cost = let e = start_steps count_workers in omega arith;
    over = λ i e. absurd (none_ended count_workers i e);
  }
  Reach-Holds (after {p = p} i r h) = step-Holds i p h (Reach-Holds r)

  -- Of any number of workers that share the collections of a round, in any interleaving of their
  -- steps, once all are past their end and one of them has come to the end of the collections, the
  -- tasks sent to the waiting service are exactly those of the collections read without an error,
  -- each as often: for every test of tasks, as many of those sent pass it as of those in the
  -- answers of Next.
  pub preload-Once :
      {n : ℕ} {p : Pool R}
      → Reach s (new_pool count_workers results w) n p
      → all_done p.workers ≡ true
      → (i : ℕ) → get_elem? p.workers i ≡ some ended
      → (f : Task → Bool) → count f p.sent ≡ in_results f results
  preload-Once {p = p} r d i e f =
      let h = Reach-Holds r in
      let k = h.kept f in
      let o = ap (in_results f) (h.over i e) in let z = done_in f p.workers d in omega arith
