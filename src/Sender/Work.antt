-- ===== src/Sender/Work.antt =====
-- The steps that the sender has yet to make for the tasks that it has received.
use triggerhook.Base.{
  ℕ, zero, suc, ◌+◌, ◌*◌, ◌<◌, List, [], ◌∷◌, Bool, true, false, Bool-cases, Option, none, some,
  inl, inr, length, length-append, get_elem?, set, if◌then◌else◌, ◌≡◌, refl, sym, subst, ◌∙◌, arith,
}
use triggerhook.Domain.{Task}
use triggerhook.Sender.Queue.{pop, pop_from, push}
use triggerhook.Sender.Batcher.{
  Batcher, finish, hand_over, collect_step, send_step, step, Collector, collecting, done, pushed,
  Sender, popping, waiting, Event, value, expire, collect, send,
}
use triggerhook.Sender.Pipeline.{
  Worker, receiving, holding, called, Pipeline, Act, batches, measures, works, popped, sent,
  to_measure, put_batcher, batching, is_allowed,
}
use triggerhook.Sender.Hands.{some_inj}

abbrev pub collector_work : Collector → List Task → ℕ
collector_work collecting [] = 0
collector_work collecting (t ∷ ts) = 10
collector_work done [] = 1
collector_work done (t ∷ ts) = 9
collector_work pushed [] = 3
collector_work pushed (t ∷ ts) = 13

abbrev pub sender_work : Sender → ℕ
sender_work popping = 1
sender_work waiting = 0

abbrev pub signal_work : Bool → ℕ
signal_work true = 2
signal_work false = 0

abbrev pub batcher_work : Batcher → ℕ
batcher_work b =
    collector_work b.collector b.batch
    + 4 * length b.queue.queue
    + signal_work b.update_queue
    + sender_work b.sender

abbrev pub measure_work : List Task → ℕ
measure_work [] = 0
measure_work (t ∷ ts) = 1

abbrev pub worker_work : Worker → ℕ
worker_work receiving = 0
worker_work (holding batch) = 2
worker_work (called batch err) = 1

abbrev pub workers_work : List Worker → ℕ
workers_work [] = 0
workers_work (k ∷ ks) = worker_work k + workers_work ks

abbrev pub work : {R : Type 0} → Pipeline R → ℕ
work p =
    batcher_work p.batcher
    + measure_work p.unmeasured
    + 3 * length p.channel
    + workers_work p.workers

abbrev not_empty : List Task → Bool
not_empty [] = false
not_empty (t ∷ ts) = true

-- A step that goes on with what is there: no task arrives, and no timer of an empty batch expires.
unfoldable pub goes_on : {R : Type 0} → Act → Pipeline R → Bool
goes_on (batches (value t)) p = false
goes_on (batches expire) p = not_empty p.batcher.batch
goes_on (batches collect) p = true
goes_on (batches send) p = true
goes_on measures p = true
goes_on (works i) p = true

pub workers_work-set :
    (ks : List Worker) (i : ℕ) (k k' : Worker)
    → get_elem? ks i ≡ some k
    → workers_work (set ks i k') + worker_work k ≡ workers_work ks + worker_work k'
workers_work-set [] i k k' e = cc e
workers_work-set (x ∷ ks) zero k k' e = rw (some_inj e) (omega arith)
workers_work-set (x ∷ ks) (suc i) k k' e = omega (arith, workers_work-set ks i k k' e)

-- The work of the batcher, its measurement and what it sends, before and after a step.
abbrev Less : Event → Batcher → Batcher → Type 0
Less e b b' =
    (before : List Task)
    → batcher_work b'
        + measure_work (to_measure e b.collector b.batch before)
        + 3 * length (sent e b)
      < batcher_work b + measure_work before

finish-Less :
    (ts : List Task) (b : Batcher)
    → b.collector ≡ done
    → b.batch ≡ ts
    → Less collect b (finish ts b)
unfolding finish push to_measure sent
finish-Less [] b c e before = rw (c, e) (omega arith)
finish-Less (t ∷ ts) b c e before =
    let l = length-append b.queue.queue ((t ∷ ts) ∷ []) in rw (c, e) (omega (arith, l))

signal-Less :
    (ts : List Task) (u : Bool) (b : Batcher)
    → b.collector ≡ pushed
    → b.batch ≡ ts
    → b.update_queue ≡ u
    → Less collect b (record b { collector = collecting; update_queue = true })
unfolding to_measure sent
signal-Less [] true b c e h before = rw (c, e, h) (omega arith)
signal-Less [] false b c e h before = rw (c, e, h) (omega arith)
signal-Less (t ∷ ts) true b c e h before = rw (c, e, h) (omega arith)
signal-Less (t ∷ ts) false b c e h before = rw (c, e, h) (omega arith)

collect-Less :
    (max : ℕ) (c : Collector) (b : Batcher) {b' : Batcher}
    → b.collector ≡ c
    → collect_step c max collect b ≡ some b'
    → Less collect b b'
unfolding collect_step to_measure sent
collect-Less max collecting b c q = cc q
collect-Less max done b c q = subst (Less collect b) (some_inj q) (finish-Less b.batch b c refl)
collect-Less max pushed b c q =
    subst (Less collect b) (some_inj q) (signal-Less b.batch b.update_queue b c refl refl)

expire-Less :
    (max : ℕ) (c : Collector) (ts : List Task) (b : Batcher) {b' : Batcher}
    → b.collector ≡ c
    → b.batch ≡ ts
    → not_empty ts ≡ true
    → collect_step c max expire b ≡ some b'
    → Less expire b b'
unfolding collect_step to_measure sent
expire-Less max collecting [] b c e n q = cc n
expire-Less max collecting (t ∷ ts) b c e n q =
    subst (Less expire b) (some_inj q) (λ before. rw (c, e) (omega arith))
expire-Less max done ts b c e n q = cc q
expire-Less max pushed ts b c e n q = cc q

hand_over-Less :
    (q : List (List Task)) (b : Batcher)
    → b.sender ≡ popping
    → b.queue.queue ≡ q
    → Less send b (hand_over (pop_from q) b)
unfolding hand_over pop_from to_measure sent popped
hand_over-Less [] b k e before = rw (k, e) (omega arith)
hand_over-Less (x ∷ rest) b k e before = rw (k, e) (omega arith)

woken-Less :
    (u : Bool) (b : Batcher) {b' : Batcher}
    → b.sender ≡ waiting
    → b.update_queue ≡ u
    → (if u then some (record b { sender = popping; update_queue = false }) else none) ≡ some b'
    → Less send b b'
unfolding to_measure sent popped
woken-Less true b k e q = subst (Less send b) (some_inj q) (λ before. rw (k, e) (omega arith))
woken-Less false b k e q = cc q

send-Less :
    (k : Sender) (b : Batcher) {b' : Batcher}
    → b.sender ≡ k
    → send_step k b ≡ some b'
    → Less send b b'
unfolding send_step pop
send-Less popping b k q = subst (Less send b) (some_inj q) (hand_over-Less b.queue.queue b k refl)
send-Less waiting b k q = woken-Less b.update_queue b k refl q

step-Less :
    {R : Type 0} (max : ℕ) (e : Event) (p : Pipeline R) {b' : Batcher}
    → goes_on (batches e) p ≡ true
    → step max e p.batcher ≡ some b'
    → Less e p.batcher b'
unfolding step goes_on
step-Less max (value t) p g q = cc g
step-Less max expire p g q =
    expire-Less max p.batcher.collector p.batcher.batch p.batcher refl refl g q
step-Less max collect p g q = collect-Less max p.batcher.collector p.batcher refl q
step-Less max send p g q = send-Less p.batcher.sender p.batcher refl q

put_batcher-less :
    {R : Type 0} (max : ℕ) (e : Event) (p : Pipeline R) (o : Option Batcher) {p' : Pipeline R}
    → goes_on (batches e) p ≡ true
    → step max e p.batcher ≡ o
    → put_batcher e p o ≡ some p'
    → work p' < work p
unfolding put_batcher
put_batcher-less max e p none g h q = cc q
put_batcher-less max e p (some b) g h q =
    subst (λ x. work x < work p) (some_inj q)
      (let l = length-append p.channel (sent e p.batcher) in
        let d = step-Less max e p g h p.unmeasured in omega (arith, l, d))

pub batching-less :
    {R : Type 0} (max : ℕ) (e : Event) (p : Pipeline R) {p' : Pipeline R}
    → goes_on (batches e) p ≡ true
    → batching max e p ≡ some p'
    → work p' < work p
unfolding batching
batching-less max e p g q = elim (Bool-cases (is_allowed e p)) [
  | inl b ↦ put_batcher-less max e p (step max e p.batcher) g refl (sym (rw b refl) ∙ q)
  | inr b ↦ cc (b, q)
]
