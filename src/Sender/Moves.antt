-- ===== src/Sender/Moves.antt =====
-- The buffer does not get stuck.
use triggerhook.Base.{
  List, [], ◌∷◌, ◌++◌, append-nil, Option, none, some, Option-cases, inl, inr, if◌then◌else◌, ◌≢◌,
  ◌≡◌, refl, sym, ap, ◌∙◌,
}
use triggerhook.Domain.{Task}
use triggerhook.Sender.Buffer.{
  Loop, running, returned, Chan, Buffer, receive, receive_from, first_received, send_front,
  turn_empty, Case, sends, receives, turn, turns, leaves, leave, step, is_running, Reach,
}
use triggerhook.Sender.Fifo.{held_in, waiting_in, buffer-Kept}

-- A step that the goroutine or a consumer can make.
pub data Move (b : Buffer) : Type 0 where
  can_turn : (c : Case) (b' : Buffer) → step (turns c) b ≡ some b' → Move b
  can_leave : (b' : Buffer) → step leaves b ≡ some b' → Move b

if_running :
    (l : Loop) (next : Option Buffer) → l ≡ running → (if is_running l then next else none) ≡ next
if_running running next e = refl
if_running returned next e = cc e

turned :
    (b : Buffer) (c : Case) {b' : Buffer} → b.loop ≡ running → turn c b.list b ≡ some b' → Move b
unfolding step
turned b c {b' = b'} r e = can_turn c b' (if_running b.loop (turn c b.list b) r ∙ e)

-- With nothing in the outgoing channel, the goroutine can move what it has.
turn_moves :
    (l : List Task) (c : Option Chan) (b : Buffer)
    → b.loop ≡ running
    → b.out_chan.held ≡ none
    → b.list ≡ l
    → b.in_chan ≡ c
    → l ++ waiting_in c ≢ []
    → Move b
unfolding turn send_front turn_empty first_received receive receive_from
turn_moves (front ∷ rest) c b r o l i n =
    turned b sends r (ap (λ l. turn sends l b) l ∙ ap (λ o. send_front o front rest b) o)
turn_moves [] none b r o l i n = absurd (n refl)
turn_moves [] (some c) b r o l i n = elim (Option-cases c.held) [
  | inl h ↦ absurd (n (ap held_in h))
  | inr (t, h) ↦ turned b receives r (
      ap (λ l. turn receives l b) l
      ∙ ap (λ c. turn_empty c b) i
      ∙ ap (λ o. first_received (receive_from o c.closed) b) h)
]

nothing_moves :
    (o : Option Task) (k : Loop) (b : Buffer)
    → Reach b
    → b.out_chan.held ≡ o
    → b.loop ≡ k
    → b.left ≢ b.entered
    → Move b
unfolding step leave
nothing_moves (some t) k b r o l n = can_leave _ (ap (λ o. leave o b) o)
nothing_moves none running b r o l n = turn_moves b.list b.in_chan b l o refl refl λ e. n (
    sym (append-nil b.left)
    ∙ ap (λ x. b.left ++ x) (sym e)
    ∙ ap (λ x. b.left ++ (held_in x ++ (b.list ++ waiting_in b.in_chan))) (sym o)
    ∙ (buffer-Kept r).0)
nothing_moves none returned b r o l n =
    absurd
      (n (sym (append-nil b.left) ∙ ap (λ x. b.left ++ held_in x) (sym o) ∙ (buffer-Kept r).1 l))

-- In every state that the buffer of rolled back tasks reaches in which not all the tasks that
-- entered have left, its goroutine can make a turn or a consumer can receive a task: the buffer
-- does not block with a task in it.
pub buffer-Moves : {b : Buffer} → Reach b → b.left ≢ b.entered → Move b
buffer-Moves {b} r n = nothing_moves b.out_chan.held b.loop b r refl refl n
