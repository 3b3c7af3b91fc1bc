-- ===== src/Sender/Batches.antt =====
-- What the batches hold, and how large they are.
use triggerhook.Base.{
  ◌≢◌, ◌⊎◌, ℕ, ◌<◌, ◌≤◌, ◌==◌, List, [], ◌∷◌, ◌++◌, append_assoc, append-nil, Bool, true, false,
  none, some, if◌then◌else◌, length, length-append, inl, inr, ◌≡◌, refl, sym, ap, subst, ◌∙◌, arith,
}
use triggerhook.Domain.{Task}
use triggerhook.Sender.Queue.{push, pop, pop_from}
use triggerhook.Sender.Batcher.{
  Batcher, Collector, collecting, done, pushed, Sender, popping, waiting, Event, value, expire,
  collect, send, start, receive, finish, collect_step, hand_over, send_step, step, Reach, at_start,
  after,
}
use triggerhook.Sender.Sizes.{
  flatten, flatten-append, AllSized, no_batches, AllSized-append, first_sized,
}

-- Nothing waits in the queue, or the waiting goroutine is about to be woken.
abbrev pub IsAwaited : Batcher → Type 0
IsAwaited s = (s.queue.queue ≡ []) ⊎ ((s.update_queue ≡ true) ⊎ (s.collector ≡ pushed))

-- The same queue and signal with another collector, which was not at its push.
still_awaited :
    (s : Batcher) (c : Collector)
    → s.collector ≢ pushed
    → IsAwaited s
    → (s.queue.queue ≡ []) ⊎ ((s.update_queue ≡ true) ⊎ (c ≡ pushed))
still_awaited s c n (inl e) = inl e
still_awaited s c n (inr (inl u)) = inr (inl u)
still_awaited s c n (inr (inr e)) = absurd (n e)

pub record Holds (max : ℕ) (s : Batcher) : Type 0 where
  pub order : flatten s.handed_over ++ (flatten s.queue.queue ++ s.batch) ≡ s.received
  pub handed_over : AllSized max s.handed_over
  pub queued : AllSized max s.queue.queue
  pub fits : length s.batch ≤ max
  pub room : s.collector ≡ collecting → length s.batch < max
  pub emptied : s.collector ≡ pushed → s.batch ≡ []
  pub awake : s.sender ≡ waiting → IsAwaited s

full_unless : (b : Bool) → (if b then done else collecting) ≡ collecting → b ≡ false
full_unless true e = cc e
full_unless false e = refl

never_pushed : (b : Bool) → (if b then done else collecting) ≢ pushed
never_pushed true e = cc e
never_pushed false e = cc e

receive-Holds :
    {max : ℕ} (t : Task) (s : Batcher)
    → s.collector ≡ collecting
    → Holds max s
    → Holds max (receive max t s)
unfolding receive
receive-Holds {max} t s c h =
    let longer = length-append s.batch (t ∷ []) in
    record {
      order =
          ap (λ l. flatten s.handed_over ++ l)
            (sym (append_assoc (flatten s.queue.queue) s.batch (t ∷ [])))
          ∙ sym (append_assoc (flatten s.handed_over) (flatten s.queue.queue ++ s.batch) (t ∷ []))
          ∙ ap (λ l. l ++ t ∷ []) h.order;
      handed_over = h.handed_over;
      queued = h.queued;
      fits = let r = h.room c in omega arith;
      room = λ e.
          let n = full_unless (length (s.batch ++ t ∷ []) == max) e in
          let r = h.room c in ground arith;
      emptied = λ e. absurd (never_pushed (length (s.batch ++ t ∷ []) == max) e);
      awake = λ w.
          still_awaited s (if length (s.batch ++ t ∷ []) == max then done else collecting)
            (λ e. cc (c, e)) (h.awake w);
    }

finish-Holds :
    {max : ℕ} (b : List Task) (s : Batcher)
    → 0 < max
    → s.collector ≡ done
    → s.batch ≡ b
    → Holds max s
    → Holds max (finish b s)
unfolding finish push
finish-Holds [] s p c e h = record {
  order = ap (λ b. flatten s.handed_over ++ (flatten s.queue.queue ++ b)) (sym e) ∙ h.order;
  handed_over = h.handed_over;
  queued = h.queued;
  fits = omega arith;
  room = λ _. p;
  emptied = λ _. refl;
  awake = λ w. still_awaited s collecting (λ q. cc (c, q)) (h.awake w);
}
finish-Holds {max} (t ∷ ts) s p c e h = record {
  order =
      ap (λ l. flatten s.handed_over ++ l) (append-nil _ ∙ flatten-append s.queue.queue (t ∷ ts))
      ∙ ap (λ b. flatten s.handed_over ++ (flatten s.queue.queue ++ b)) (sym e)
      ∙ h.order;
  handed_over = h.handed_over;
  queued = AllSized-append (t ∷ ts) h.queued (omega arith) (subst (λ b. length b ≤ max) e h.fits);
  fits = omega arith;
  room = λ q. cc q;
  emptied = λ _. refl;
  awake = λ w. inr (inr refl);
}

hand_over-Holds :
    {max : ℕ} (q : List (List Task)) (s : Batcher)
    → s.sender ≡ popping
    → s.queue.queue ≡ q
    → Holds max s
    → Holds max (hand_over (pop_from q) s)
unfolding hand_over pop_from flatten
hand_over-Holds [] s k e h = record {
  order = ap (λ q. flatten s.handed_over ++ (flatten q ++ s.batch)) (sym e) ∙ h.order;
  handed_over = h.handed_over;
  queued = no_batches;
  fits = h.fits;
  room = h.room;
  emptied = h.emptied;
  awake = λ w. inl refl;
}
hand_over-Holds {max} (b ∷ rest) s k e h =
    let (lower, upper, sized) = first_sized (subst (AllSized max) e h.queued) in
    record {
      order =
          ap (λ l. l ++ (flatten rest ++ s.batch)) (flatten-append s.handed_over b)
          ∙ append_assoc (flatten s.handed_over) b (flatten rest ++ s.batch)
          ∙ ap (λ l. flatten s.handed_over ++ l) (sym (append_assoc b (flatten rest) s.batch))
          ∙ ap (λ q. flatten s.handed_over ++ (flatten q ++ s.batch)) (sym e)
          ∙ h.order;
      handed_over = AllSized-append b h.handed_over lower upper;
      queued = sized;
      fits = h.fits;
      room = h.room;
      emptied = h.emptied;
      awake = λ w. cc (k, w);
    }

some_inj : {s s' : Batcher} → some s ≡ some s' → s ≡ s'
some_inj e = ap (λ o. elim o [ none ↦ start | some s ↦ s ]) e

collect_step-Holds :
    {max : ℕ} (c : Collector) (e : Event) (s : Batcher) {s' : Batcher}
    → 0 < max
    → s.collector ≡ c
    → Holds max s
    → collect_step c max e s ≡ some s'
    → Holds max s'
unfolding collect_step
collect_step-Holds {max} collecting (value t) s p c h q =
    subst (Holds max) (some_inj q) (receive-Holds t s c h)
collect_step-Holds {max} collecting expire s p c h q = subst (Holds max) (some_inj q) (record {
  order = h.order;
  handed_over = h.handed_over;
  queued = h.queued;
  fits = h.fits;
  room = λ e. cc e;
  emptied = λ e. cc e;
  awake = λ w. still_awaited s done (λ q. cc (c, q)) (h.awake w);
})
collect_step-Holds collecting collect s p c h q = cc q
collect_step-Holds collecting send s p c h q = cc q
collect_step-Holds {max} done collect s p c h q =
    subst (Holds max) (some_inj q) (finish-Holds s.batch s p c refl h)
collect_step-Holds done (value t) s p c h q = cc q
collect_step-Holds done expire s p c h q = cc q
collect_step-Holds done send s p c h q = cc q
collect_step-Holds {max} pushed collect s p c h q = subst (Holds max) (some_inj q) (record {
  order = h.order;
  handed_over = h.handed_over;
  queued = h.queued;
  fits = h.fits;
  room = λ _. subst (λ b. length b < max) (sym (h.emptied c)) p;
  emptied = λ e. cc e;
  awake = λ w. inr (inl refl);
})
collect_step-Holds pushed (value t) s p c h q = cc q
collect_step-Holds pushed expire s p c h q = cc q
collect_step-Holds pushed send s p c h q = cc q

signalled :
    {max : ℕ} {x s' : Batcher} (b : Bool)
    → (if b then some x else none) ≡ some s'
    → Holds max x
    → Holds max s'
signalled {max} true q h = subst (Holds max) (some_inj q) h
signalled false q h = cc q

send_step-Holds :
    {max : ℕ} (k : Sender) (s : Batcher) {s' : Batcher}
    → s.sender ≡ k
    → Holds max s
    → send_step k s ≡ some s'
    → Holds max s'
unfolding send_step pop
send_step-Holds {max} popping s k h q =
    subst (Holds max) (some_inj q) (hand_over-Holds s.queue.queue s k refl h)
send_step-Holds {max} waiting s k h q =
    signalled {x = record s { sender = popping; update_queue = false }} s.update_queue q (record {
      order = h.order;
      handed_over = h.handed_over;
      queued = h.queued;
      fits = h.fits;
      room = h.room;
      emptied = h.emptied;
      awake = λ w. cc w;
    })

step-Holds :
    {max : ℕ} (e : Event) (s : Batcher) {s' : Batcher}
    → 0 < max
    → Holds max s
    → step max e s ≡ some s'
    → Holds max s'
unfolding step
step-Holds send s p h q = send_step-Holds s.sender s refl h q
step-Holds (value t) s p h q = collect_step-Holds s.collector (value t) s p refl h q
step-Holds expire s p h q = collect_step-Holds s.collector expire s p refl h q
step-Holds collect s p h q = collect_step-Holds s.collector collect s p refl h q

pub Reach-Holds : {max : ℕ} {s : Batcher} → 0 < max → Reach max s → Holds max s
unfolding start flatten
Reach-Holds p at_start = record {
  order = refl;
  handed_over = no_batches;
  queued = no_batches;
  fits = omega arith;
  room = λ _. p;
  emptied = λ e. cc e;
  awake = λ _. inl refl;
}
Reach-Holds p (after {s = s} e r q) = step-Holds e s p (Reach-Holds p r) q

-- With a positive BatchMaxItems, in every state that the two goroutines of generateBatch reach,
-- however their steps interleave, the tasks handed over in batches, those in queued batches and
-- those of the open batch are together exactly the tasks received, in their order; and every batch
-- handed over has at least one task and at most BatchMaxItems.
pub batches-Kept :
    {max : ℕ} {s : Batcher}
    → 0 < max
    → Reach max s
    → (flatten s.handed_over ++ (flatten s.queue.queue ++ s.batch) ≡ s.received)
      × AllSized max s.handed_over
batches-Kept p r = let h = Reach-Holds p r in (h.order, h.handed_over)

-- With a positive BatchMaxItems, in every state that the two goroutines of generateBatch reach in
-- which the one that hands over waits for a wake-up, no batch is queued, or the wake-up channel
-- holds a value, or the collecting goroutine is between its push and its signal.
pub sender-IsAwaited :
    {max : ℕ} {s : Batcher} → 0 < max → Reach max s → s.sender ≡ waiting → IsAwaited s
sender-IsAwaited p r w = (Reach-Holds p r).awake w
