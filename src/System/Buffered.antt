-- ===== src/System/Buffered.antt =====
-- The buffer of rolled back tasks: what a step moves.
use triggerhook.Base.{
  append-nil, Option-cases, inl, inr, ◌+◌, List, [], ◌∷◌, ◌++◌, Bool, true, false, Option, none,
  some, if◌then◌else◌, ◌≡◌, refl, sym, ap, subst, ◌∙◌, arith,
}
use triggerhook.Domain.{Task}
use triggerhook.Preloader.Shares.{count, count-append}
use triggerhook.Sender.Buffer.{
  Loop, running, returned, Chan, Buffer, Received, receive, first_received, select_received,
  send_front, turn_empty, Case, sends, receives, turn, turns, enters, leaves, enter, leave, step,
  is_running, Reach, after,
}
use triggerhook.Sender.Buffer.{value, end}
use triggerhook.Sender.Fifo.{held_in, waiting_in, buffer-Kept}
use triggerhook.Sender.Hands.{some_inj}
use triggerhook.System.{rolled_back_to}
use triggerhook.System.Places.{in_buffer}

-- The buffer holds what has entered and not left.
balance :
    (f : Task → Bool) {b : Buffer} → Reach b → count f b.left + in_buffer f b ≡ count f b.entered
balance f {b} r =
    let o = held_in b.out_chan.held in
    let w = waiting_in b.in_chan in
    let e = ap (count f) (buffer-Kept r).0 in
    let g = count-append f b.left (o ++ (b.list ++ w)) in
    let h = count-append f o (b.list ++ w) in
    let k = count-append f b.list w in omega (arith, e, g, h, k)

-- What has passed through the channels.
record Passed (b b' : Buffer) (come gone : List Task) : Type 0 where
  entered : b'.entered ≡ b.entered ++ come
  left : b'.left ≡ b.left ++ gone

passed :
    (f : Task → Bool) {b b' : Buffer} (come gone : List Task)
    → Reach b
    → Reach b'
    → Passed b b' come gone
    → in_buffer f b' + count f gone ≡ in_buffer f b + count f come
passed f {b} {b'} come gone r r' p =
    let x = balance f r in
    let y = balance f r' in
    let e = ap (count f) p.entered ∙ count-append f b.entered come in
    let l = ap (count f) p.left ∙ count-append f b.left gone in omega (arith, x, y, e, l)

-- A turn moves nothing through the channels.
record Turned (b b' : Buffer) : Type 0 where
  entered : b'.entered ≡ b.entered
  left : b'.left ≡ b.left

first-Turned :
    (o : Option (Received × Chan)) (b : Buffer) {b' : Buffer}
    → first_received o b ≡ some b'
    → Turned b b'
unfolding first_received
first-Turned none b q = cc q
first-Turned (some (value t, c)) b q =
    subst (Turned b) (some_inj q) (record { entered = refl; left = refl })
first-Turned (some (end, c)) b q =
    subst (Turned b) (some_inj q) (record { entered = refl; left = refl })

select-Turned :
    (o : Option (Received × Chan)) (b : Buffer) {b' : Buffer}
    → select_received o b ≡ some b'
    → Turned b b'
unfolding select_received
select-Turned none b q = cc q
select-Turned (some (value t, c)) b q =
    subst (Turned b) (some_inj q) (record { entered = refl; left = refl })
select-Turned (some (end, c)) b q =
    subst (Turned b) (some_inj q) (record { entered = refl; left = refl })

empty-Turned : (c : Option Chan) (b : Buffer) {b' : Buffer} → turn_empty c b ≡ some b' → Turned b b'
unfolding turn_empty
empty-Turned none b q = subst (Turned b) (some_inj q) (record { entered = refl; left = refl })
empty-Turned (some c) b q = first-Turned (receive (some c)) b q

front-Turned :
    (o : Option Task) (t : Task) (rest : List Task) (b : Buffer) {b' : Buffer}
    → send_front o t rest b ≡ some b'
    → Turned b b'
unfolding send_front
front-Turned (some old) t rest b q = cc q
front-Turned none t rest b q =
    subst (Turned b) (some_inj q) (record { entered = refl; left = refl })

turn-Turned :
    (c : Case) (l : List Task) (b : Buffer) {b' : Buffer} → turn c l b ≡ some b' → Turned b b'
unfolding turn
turn-Turned sends [] b q = cc q
turn-Turned receives [] b q = empty-Turned b.in_chan b q
turn-Turned sends (t ∷ rest) b q = front-Turned b.out_chan.held t rest b q
turn-Turned receives (t ∷ rest) b q = select-Turned (receive b.in_chan) b q

running-Turned :
    (l : Loop) (c : Case) (b : Buffer) {b' : Buffer}
    → (if is_running l then turn c b.list b else none) ≡ some b'
    → Turned b b'
running-Turned running c b q = turn-Turned c b.list b q
running-Turned returned c b q = cc q

pub in_buffer-turns :
    (f : Task → Bool) (c : Case) {b b' : Buffer}
    → Reach b
    → step (turns c) b ≡ some b'
    → in_buffer f b' ≡ in_buffer f b
unfolding step
in_buffer-turns f c {b} r q =
    let t = running-Turned b.loop c b q in
    let p : Passed b _ [] [] = record {
      entered = t.entered ∙ sym (append-nil b.entered);
      left = t.left ∙ sym (append-nil b.left);
    } in
    let h = passed f [] [] r (after (turns c) r q) p in omega (arith, h)

entered_once :
    (o : Option Task) (closed : Bool) (t : Task) (b : Buffer) {b' : Buffer}
    → enter (some (record { held = o; closed = closed })) t b ≡ some b'
    → Passed b b' (t ∷ []) []
unfolding enter
entered_once (some old) closed t b q = cc q
entered_once none true t b q = cc q
entered_once none false t b q =
    subst (λ b'. Passed b b' (t ∷ []) []) (some_inj q)
      (record { entered = refl; left = sym (append-nil b.left) })

enters-Passed :
    (c : Option Chan) (t : Task) (b : Buffer) {b' : Buffer}
    → enter c t b ≡ some b'
    → Passed b b' (t ∷ []) []
unfolding enter
enters-Passed none t b q = cc q
enters-Passed (some c) t b q = entered_once c.held c.closed t b q

leaves-Passed :
    (o : Option Task) (t : Task) (b : Buffer) {b' : Buffer}
    → o ≡ some t
    → leave o b ≡ some b'
    → Passed b b' [] (t ∷ [])
unfolding leave
leaves-Passed none t b e q = cc e
leaves-Passed (some x) t b e q =
    subst (λ b'. Passed b b' [] (t ∷ [])) (some_inj q)
      (record {
        entered = sym (append-nil b.entered);
        left = ap (λ x. b.left ++ x ∷ []) (some_inj e);
      })

pub in_buffer-leaves :
    (f : Task → Bool) (t : Task) {b b' : Buffer}
    → Reach b
    → b.out_chan.held ≡ some t
    → step leaves b ≡ some b'
    → in_buffer f b' + count f (t ∷ []) ≡ in_buffer f b
unfolding step
in_buffer-leaves f t {b} r e q =
    let h = passed f [] (t ∷ []) r (after leaves r q) (leaves-Passed b.out_chan.held t b e q) in
    omega (arith, h)

in_buffer-enters :
    (f : Task → Bool) (t : Task) {b b' : Buffer}
    → Reach b
    → step (enters t) b ≡ some b'
    → in_buffer f b' ≡ in_buffer f b + count f (t ∷ [])
unfolding step
in_buffer-enters f t {b} r q =
    let h = passed f (t ∷ []) [] r (after (enters t) r q) (enters-Passed b.in_chan t b q) in
    omega (arith, h)

-- The buffer after it has taken what a call sent to it.
pub record Taken (ts : List Task) (b b' : Buffer) : Type 0 where
  pub reached : Reach b'
  pub more : (f : Task → Bool) → in_buffer f b' ≡ in_buffer f b + count f ts

pub rolled_back_to-Taken :
    (ts : List Task) {b b' : Buffer} → Reach b → rolled_back_to ts b ≡ some b' → Taken ts b b'
unfolding rolled_back_to
rolled_back_to-Taken [] {b} r q =
    subst (Taken [] b) (some_inj q) (record { reached = r; more = λ f. omega arith })
rolled_back_to-Taken (t ∷ ts) {b} r q = elim (Option-cases (step (enters t) b)) [
  | inl h ↦ cc (h, q)
  | inr (b1, h) ↦
      let k =
        rolled_back_to-Taken ts (after (enters t) r h) (sym (rw (rolled_back_to, h) refl) ∙ q) in
      record {
        reached = k.reached;
        more = λ f.
            let x = k.more f in
            let y = in_buffer-enters f t r h in
            let z = count-append f (t ∷ []) ts in omega (arith, x, y, z);
      }
]
