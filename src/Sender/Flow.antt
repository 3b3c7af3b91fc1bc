-- ===== src/Sender/Flow.antt =====
-- What a step of generateBatch receives and hands over.
use triggerhook.Base.{
  ℕ, List, [], ◌∷◌, ◌++◌, append-nil, Bool, true, false, none, some, if◌then◌else◌, ◌≡◌, refl, sym,
  subst,
}
use triggerhook.Domain.{Task}
use triggerhook.Sender.Queue.{pop, pop_from}
use triggerhook.Sender.Batcher.{
  Batcher, finish, receive, hand_over, collect_step, send_step, step, Collector, collecting, done,
  pushed, Sender, popping, waiting, Event, value, expire, collect, send,
}
use triggerhook.Sender.Pipeline.{popped, sent}
use triggerhook.Sender.Hands.{some_inj}

abbrev pub brought : Event → List Task
brought (value t) = t ∷ []
brought e = []

pub record Passed (come : List Task) (gone : List (List Task)) (b b' : Batcher) : Type 0 where
  pub received : b'.received ≡ b.received ++ come
  pub handed_over : b'.handed_over ≡ b.handed_over ++ gone

-- A step to a state that is given.
arrives :
    {come : List Task} {gone : List (List Task)} {b x b' : Batcher}
    → some x ≡ some b'
    → Passed come gone b x
    → Passed come gone b b'
arrives {come} {gone} {b} q p = subst (Passed come gone b) (some_inj q) p

-- Nothing comes or goes.
quiet :
    {b b' : Batcher} → b'.received ≡ b.received → b'.handed_over ≡ b.handed_over → Passed [] [] b b'
quiet {b} r h = record { received = add_nothing r; handed_over = add_nothing h }
  where
    add_nothing : {A : Type 0} {xs ys : List A} → xs ≡ ys → xs ≡ ys ++ []
    add_nothing {ys = ys} e = subst (λ l. l ≡ ys ++ []) (sym e) (sym (append-nil ys))

finish-Passed : (ts : List Task) (b : Batcher) → Passed [] [] b (finish ts b)
unfolding finish
finish-Passed [] b = quiet refl refl
finish-Passed (t ∷ ts) b = quiet refl refl

collect_step-Passed :
    (max : ℕ) (c : Collector) (e : Event) (b : Batcher) {b' : Batcher}
    → collect_step c max e b ≡ some b'
    → Passed (brought e) [] b b'
unfolding collect_step receive
collect_step-Passed max collecting (value t) b q =
    arrives q (record { received = refl; handed_over = sym (append-nil b.handed_over) })
collect_step-Passed max collecting expire b q = arrives q (quiet refl refl)
collect_step-Passed max collecting collect b q = cc q
collect_step-Passed max collecting send b q = cc q
collect_step-Passed max done (value t) b q = cc q
collect_step-Passed max done expire b q = cc q
collect_step-Passed max done collect b q = arrives q (finish-Passed b.batch b)
collect_step-Passed max done send b q = cc q
collect_step-Passed max pushed (value t) b q = cc q
collect_step-Passed max pushed expire b q = cc q
collect_step-Passed max pushed collect b q = arrives q (quiet refl refl)
collect_step-Passed max pushed send b q = cc q

hand_over-Passed :
    (q : List (List Task)) (b : Batcher) → Passed [] (popped popping q) b (hand_over (pop_from q) b)
unfolding hand_over pop_from popped
hand_over-Passed [] b = quiet refl refl
hand_over-Passed (x ∷ rest) b = record {
  received = sym (append-nil b.received);
  handed_over = refl;
}

woken-Passed :
    (u : Bool) {b x b' : Batcher}
    → (if u then some x else none) ≡ some b'
    → Passed [] [] b x
    → Passed [] [] b b'
woken-Passed true q p = arrives q p
woken-Passed false q p = cc q

send_step-Passed :
    (k : Sender) (b : Batcher) {b' : Batcher}
    → send_step k b ≡ some b'
    → Passed [] (popped k b.queue.queue) b b'
unfolding send_step pop popped
send_step-Passed popping b q = arrives q (hand_over-Passed b.queue.queue b)
send_step-Passed waiting b q = woken-Passed b.update_queue q (quiet refl refl)

pub step-Passed :
    (max : ℕ) (e : Event) (b : Batcher) {b' : Batcher}
    → step max e b ≡ some b'
    → Passed (brought e) (sent e b) b b'
unfolding step sent
step-Passed max send b q = send_step-Passed b.sender b q
step-Passed max (value t) b q = collect_step-Passed max b.collector (value t) b q
step-Passed max expire b q = collect_step-Passed max b.collector expire b q
step-Passed max collect b q = collect_step-Passed max b.collector collect b q
