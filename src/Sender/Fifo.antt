-- ===== src/Sender/Fifo.antt =====
-- What the buffer keeps of the tasks that enter it.
use triggerhook.Base.{
  List, [], ◌∷◌, ◌++◌, append_assoc, append-nil, Bool, true, false, Option, none, some, ◌≡◌, refl,
  sym, ap, subst, ◌∙◌, if◌then◌else◌,
}
use triggerhook.Domain.{Task}
use triggerhook.Sender.Buffer.{
  Loop, running, returned, Chan, Buffer, new_buffer, receive_from, receive, first_received,
  select_received, send_front, turn_empty, Case, sends, receives, turn, Event, turns, enters,
  leaves, closes, enter, leave, close, step, is_running, Reach, at_start, after,
}

abbrev pub held_in : Option Task → List Task
held_in none = []
held_in (some t) = t ∷ []

abbrev pub waiting_in : Option Chan → List Task
waiting_in none = []
waiting_in (some c) = held_in c.held

-- Nothing is left to receive, now and later.
abbrev pub Drained : Option Chan → Type 0
Drained none = Unit {0}
Drained (some c) = (c.held ≡ none) × (c.closed ≡ true)

pub record Holds (b : Buffer) : Type 0 where
  pub order : b.left ++ (held_in b.out_chan.held ++ (b.list ++ waiting_in b.in_chan)) ≡ b.entered
  pub ended : b.loop ≡ returned → (b.list ≡ []) × Drained b.in_chan

some_inj : {b b' : Buffer} → some b ≡ some b' → b ≡ b'
some_inj e = ap (λ o. elim o [ none ↦ new_buffer | some b ↦ b ]) e

-- One task has moved on from the channel into the list.
taken_in :
    (l o p : List Task) (t : Task) → l ++ (o ++ (p ++ t ∷ [])) ≡ l ++ (o ++ ((p ++ t ∷ []) ++ []))
taken_in l o p t = ap (λ x. l ++ (o ++ x)) (sym (append-nil (p ++ t ∷ [])))

-- The order of the tasks, with the channel that enters named.
order_of :
    {b : Buffer} {c : Option Chan}
    → b.in_chan ≡ c
    → Holds b
    → b.left ++ (held_in b.out_chan.held ++ (b.list ++ waiting_in c)) ≡ b.entered
order_of {b} i h =
    subst (λ c. b.left ++ (held_in b.out_chan.held ++ (b.list ++ waiting_in c)) ≡ b.entered) i
      h.order

received-Holds :
    (o : Option Task) (closed : Bool) (b : Buffer) {b' : Buffer}
    → b.loop ≡ running
    → b.in_chan ≡ some (record { held = o; closed = closed })
    → Holds b
    → select_received (receive_from o closed) b ≡ some b'
    → Holds b'
unfolding select_received receive_from
received-Holds (some t) closed b r i h q = subst Holds (some_inj q) (record {
  order = sym (taken_in b.left (held_in b.out_chan.held) b.list t) ∙ order_of i h;
  ended = λ e. cc (r, e);
})
received-Holds none true b r i h q =
    subst Holds (some_inj q) (record { order = order_of i h; ended = λ e. cc (r, e) })
received-Holds none false b r i h q = cc q

first-Holds :
    (o : Option Task) (closed : Bool) (b : Buffer) {b' : Buffer}
    → b.loop ≡ running
    → b.list ≡ []
    → b.in_chan ≡ some (record { held = o; closed = closed })
    → Holds b
    → first_received (receive_from o closed) b ≡ some b'
    → Holds b'
unfolding first_received receive_from select_received
first-Holds (some t) closed b r l i h q = received-Holds (some t) closed b r i h q
first-Holds none true b r l i h q =
    subst Holds (some_inj q)
      (record { order = h.order; ended = λ e. (l, subst Drained (sym i) (refl, refl)) })
first-Holds none false b r l i h q = cc q

front-Holds :
    (o : Option Task) (front : Task) (rest : List Task) (b : Buffer) {b' : Buffer}
    → b.loop ≡ running
    → b.out_chan.held ≡ o
    → b.list ≡ front ∷ rest
    → Holds b
    → send_front o front rest b ≡ some b'
    → Holds b'
unfolding send_front
front-Holds (some t) front rest b r o l h q = cc q
front-Holds none front rest b r o l h q = subst Holds (some_inj q) (record {
  order =
      ap (λ x. b.left ++ x)
        (ap (λ x. x ++ waiting_in b.in_chan) (sym l)
          ∙ ap (λ x. held_in x ++ (b.list ++ waiting_in b.in_chan)) (sym o))
      ∙ h.order;
  ended = λ e. cc (r, e);
})

turn_empty-Holds :
    (c : Option Chan) (b : Buffer) {b' : Buffer}
    → b.loop ≡ running
    → b.list ≡ []
    → b.in_chan ≡ c
    → Holds b
    → turn_empty c b ≡ some b'
    → Holds b'
unfolding turn_empty receive
turn_empty-Holds none b r l i h q =
    subst Holds (some_inj q)
      (record { order = h.order; ended = λ e. (l, subst Drained (sym i) tt) })
turn_empty-Holds (some c) b r l i h q = first-Holds c.held c.closed b r l i h q

select-Holds :
    (c : Option Chan) (b : Buffer) {b' : Buffer}
    → b.loop ≡ running
    → b.in_chan ≡ c
    → Holds b
    → select_received (receive c) b ≡ some b'
    → Holds b'
unfolding receive select_received
select-Holds none b r i h q = cc q
select-Holds (some c) b r i h q = received-Holds c.held c.closed b r i h q

turn-Holds :
    (k : Case) (l : List Task) (b : Buffer) {b' : Buffer}
    → b.loop ≡ running
    → b.list ≡ l
    → Holds b
    → turn k l b ≡ some b'
    → Holds b'
unfolding turn
turn-Holds sends [] b r l h q = cc q
turn-Holds receives [] b r l h q = turn_empty-Holds b.in_chan b r l refl h q
turn-Holds sends (front ∷ rest) b r l h q = front-Holds b.out_chan.held front rest b r refl l h q
turn-Holds receives (front ∷ rest) b r l h q = select-Holds b.in_chan b r refl h q

-- A task goes into an open channel that holds none.
entered_last :
    (l o p e : List Task) (t : Task)
    → l ++ (o ++ (p ++ [])) ≡ e
    → l ++ (o ++ (p ++ t ∷ [])) ≡ e ++ t ∷ []
entered_last l o p e t h =
    ap (λ x. l ++ (o ++ (x ++ t ∷ []))) (sym (append-nil p))
    ∙ ap (λ x. l ++ x) (sym (append_assoc o (p ++ []) (t ∷ [])))
    ∙ sym (append_assoc l (o ++ (p ++ [])) (t ∷ []))
    ∙ ap (λ x. x ++ t ∷ []) h

enter_at :
    (o : Option Task) (closed : Bool) (t : Task) (b : Buffer) {b' : Buffer}
    → b.in_chan ≡ some (record { held = o; closed = closed })
    → Holds b
    → enter (some (record { held = o; closed = closed })) t b ≡ some b'
    → Holds b'
unfolding enter
enter_at (some old) closed t b i h q = cc q
enter_at none true t b i h q = cc q
enter_at none false t b i h q = subst Holds (some_inj q) (record {
  order = entered_last b.left (held_in b.out_chan.held) b.list b.entered t (order_of i h);
  ended = λ e. absurd (let (l, d) = h.ended e in let (x, y) = subst Drained i d in cc y);
})

enter-Holds :
    (c : Option Chan) (t : Task) (b : Buffer) {b' : Buffer}
    → b.in_chan ≡ c
    → Holds b
    → enter c t b ≡ some b'
    → Holds b'
unfolding enter
enter-Holds none t b i h q = cc q
enter-Holds (some c) t b i h q = enter_at c.held c.closed t b i h q

leave-Holds :
    (o : Option Task) (b : Buffer) {b' : Buffer}
    → b.out_chan.held ≡ o
    → Holds b
    → leave o b ≡ some b'
    → Holds b'
unfolding leave
leave-Holds none b o h q = cc q
leave-Holds (some t) b o h q = subst Holds (some_inj q) (record {
  order =
      append_assoc b.left (t ∷ []) (b.list ++ waiting_in b.in_chan)
      ∙ ap (λ x. b.left ++ (held_in x ++ (b.list ++ waiting_in b.in_chan))) (sym o)
      ∙ h.order;
  ended = h.ended;
})

close-Holds :
    (c : Option Chan) (b : Buffer) {b' : Buffer}
    → b.in_chan ≡ c
    → Holds b
    → close c b ≡ some b'
    → Holds b'
unfolding close
close-Holds none b i h q = cc q
close-Holds (some c) b i h q = subst Holds (some_inj q) (record {
  order = order_of i h;
  ended = λ e. let (l, d) = h.ended e in let (x, y) = subst Drained i d in (l, (x, refl));
})

running_turn :
    (l : Loop) (c : Case) (b : Buffer) {b' : Buffer}
    → b.loop ≡ l
    → Holds b
    → (let next = turn c b.list b in if is_running l then next else none) ≡ some b'
    → Holds b'
running_turn running c b r h q = turn-Holds c b.list b r refl h q
running_turn returned c b r h q = cc q

step-Holds : (e : Event) (b : Buffer) {b' : Buffer} → Holds b → step e b ≡ some b' → Holds b'
unfolding step
step-Holds (turns c) b h q = running_turn b.loop c b refl h q
step-Holds (enters t) b h q = enter-Holds b.in_chan t b refl h q
step-Holds leaves b h q = leave-Holds b.out_chan.held b refl h q
step-Holds closes b h q = close-Holds b.in_chan b refl h q

pub Reach-Holds : {b : Buffer} → Reach b → Holds b
Reach-Holds at_start = record { order = refl; ended = λ e. cc e }
Reach-Holds (after {b = b} e r q) = step-Holds e b (Reach-Holds r) q

Drained-empty : (c : Option Chan) → Drained c → waiting_in c ≡ []
Drained-empty none d = refl
Drained-empty (some c) (h, k) = ap held_in h

-- In every state that the buffer of rolled back tasks reaches, however the turns of its goroutine
-- interleave with the tasks that enter and leave: what has left, what the outgoing channel holds,
-- the list, and what the incoming channel holds are together exactly the tasks that entered, in
-- their order; and once the goroutine has returned, what has left and what the outgoing channel
-- holds are all of them.
pub buffer-Kept :
    {b : Buffer}
    → Reach b
    → (b.left ++ (held_in b.out_chan.held ++ (b.list ++ waiting_in b.in_chan)) ≡ b.entered)
      × (b.loop ≡ returned → b.left ++ held_in b.out_chan.held ≡ b.entered)
buffer-Kept {b} r =
    let h = Reach-Holds r in
    (
      h.order,
      λ e.
          let (l, d) = h.ended e in
          ap (λ x. b.left ++ x)
            (sym (append-nil (held_in b.out_chan.held))
              ∙ ap (λ x. held_in b.out_chan.held ++ x) (sym (Drained-empty b.in_chan d))
              ∙ ap (λ x. held_in b.out_chan.held ++ (x ++ waiting_in b.in_chan)) (sym l))
          ∙ h.order,
    )
