-- ===== src/ErrorService/Order.antt =====
-- The order of handling, and what is lost.
use triggerhook.Base.{
  ℕ, ◌≤◌, ◌<◌, ◌≡◌, refl, sym, ap, ◌∙◌, ℤ, pos, List, [], ◌∷◌, ◌++◌, append_assoc, append-nil, true,
  some, arith, length, length-append, ok,
}
use triggerhook.Contracts.{Level, EventError}
use triggerhook.ErrorService.Queue.{EventQueue, is_full, push, pop}
use triggerhook.ErrorService.System.{
  Config, System, Step, ignores, pushes, checks, sends, handles, sleeps, wakes, Reach, start, later,
  dispatch,
}

-- The events that have gone through the queue, and those in it, are those reported, in order.
record IsOrdered (cap : ℤ) (es : List EventError) (s : System) : Type 0 where
  same_cap : s.event_queue.max_queue_cap ≡ cap
  order : s.handled ++ s.event_queue.queue ≡ es

push_below :
    (now : ℤ) (e : EventError) (q q' : EventQueue) (n : ℕ)
    → q.max_queue_cap ≡ pos n
    → length q.queue < n
    → push now e q ≡ ok q'
    → (q'.max_queue_cap ≡ pos n) × (q'.queue ≡ q.queue ++ e ∷ [])
unfolding push is_full
push_below now e q q' n cap below ran = ground arith

dispatch_order :
    (c : Config) (e : EventError) (s : System)
    → ((l : Level) → c.has_handler l ≡ true)
    → ((dispatch c e s).event_queue ≡ s.event_queue)
      × ((dispatch c e s).handled ≡ s.handled ++ e ∷ [])
unfolding dispatch
dispatch_order c e s all = ground (arith, all e.level)

pop_some :
    (q q' : EventQueue) (e : EventError)
    → pop q ≡ (some e, q')
    → (q.queue ≡ e ∷ q'.queue) × (q'.max_queue_cap ≡ q.max_queue_cap)
unfolding pop
pop_some q q' e h = ground arith

unchanged :
    {cap : ℤ} {es : List EventError} {s : System} (t : System)
    → t.event_queue ≡ s.event_queue
    → t.handled ≡ s.handled
    → IsOrdered cap es s
    → IsOrdered cap (es ++ []) t
unchanged {es = es} t same handled o = record {
  same_cap = ap (λ (q : EventQueue). q.max_queue_cap) same ∙ o.same_cap;
  order = rw (same, handled, append-nil es) (o.order);
}

module _ (c : Config) (n : ℕ) (all : (l : Level) → c.has_handler l ≡ true) where
  pushed-IsOrdered :
      (s t : System) (es : List EventError) (now : ℤ) (e : EventError)
      → push now e s.event_queue ≡ ok t.event_queue
      → t.handled ≡ s.handled
      → length (es ++ e ∷ []) ≤ n
      → IsOrdered (pos n) es s
      → IsOrdered (pos n) (es ++ e ∷ []) t
  pushed-IsOrdered s t es now e ran handled le o =
      let total = ap length o.order in
      let sum = length-append s.handled s.event_queue.queue in
      let grown = length-append es (e ∷ []) in
      let (cap, queue) =
        push_below now e s.event_queue t.event_queue n o.same_cap (omega arith) ran in
      record {
        same_cap = cap;
        order =
            rw (queue, handled)
              (sym (append_assoc s.handled s.event_queue.queue (e ∷ []))
                ∙ ap (λ xs. xs ++ e ∷ []) o.order);
      }

  handled-IsOrdered :
      (s : System) (es : List EventError) (e : EventError) (q : EventQueue)
      → pop s.event_queue ≡ (some e, q)
      → IsOrdered (pos n) es s
      → IsOrdered (pos n) (es ++ []) (dispatch c e (record s { event_queue = q }))
  handled-IsOrdered s es e q p o =
      let (queue, cap) = pop_some s.event_queue q e p in
      let (same, handled) = dispatch_order c e (record s { event_queue = q }) all in
      record {
        same_cap = rw same (cap ∙ o.same_cap);
        order =
            rw (same, handled, append-nil es)
              (append_assoc s.handled (e ∷ []) q.queue ∙ ap (◌++◌ s.handled) (sym queue) ∙ o.order);
      }

  Step-IsOrdered :
      {s t : System} {es fs : List EventError}
      → Step c s fs t
      → length (es ++ fs) ≤ n
      → IsOrdered (pos n) es s
      → IsOrdered (pos n) (es ++ fs) t
  Step-IsOrdered {s} (ignores e h) le o = unchanged s refl refl o
  Step-IsOrdered {s} {es = es} (pushes i now e q h g p) le o =
      pushed-IsOrdered s _ es now e p refl le o
  Step-IsOrdered (checks i h) le o = unchanged _ refl refl o
  Step-IsOrdered (sends i h z) le o = unchanged _ refl refl o
  Step-IsOrdered {s} {es = es} (handles e q h p) le o = handled-IsOrdered s es e q p o
  Step-IsOrdered {s} (sleeps q h p) le o = unchanged _ refl refl o
  Step-IsOrdered (wakes h w) le o = unchanged _ refl refl o

  Reach-IsOrdered :
      {es : List EventError} {s : System}
      → Reach c (pos n) es s
      → length es ≤ n
      → IsOrdered (pos n) es s
  Reach-IsOrdered start le = record { same_cap = refl; order = refl }
  Reach-IsOrdered (later {es = es} {fs = fs} r step) le =
      Step-IsOrdered step le (Reach-IsOrdered r (omega (arith, length-append es fs)))

-- If every level has a handler and no more events than the capacity of the queue have been
-- reported, then in every reachable state the events handled, followed by those in the queue, are
-- exactly the events reported and not filtered, in the order of their pushes.
pub handled_in_order :
    (c : Config) (n : ℕ) {es : List EventError} {s : System}
    → ((l : Level) → c.has_handler l ≡ true)
    → Reach c (pos n) es s
    → length es ≤ n
    → s.handled ++ s.event_queue.queue ≡ es
handled_in_order c n all r le = (Reach-IsOrdered c n all r le).order
