-- ===== src/Sender/Buffer.antt =====
-- sender_service/task_queue.go: the buffer of tasks that were rolled back, one turn of its goroutine
-- at a time.
use triggerhook.Base.{
  List, [], ◌∷◌, ◌++◌, Bool, true, false, Option, none, some, if◌then◌else◌, ◌≡◌,
}
use triggerhook.Domain.{Task}

-- Where the goroutine stands: in its loop, or past the `close(b.Out)` before its return.
pub data Loop : Type 0 where
  running returned : Loop

-- A channel of capacity one: what it holds, and whether it is closed.
pub record Chan : Type 0 where
  pub held : Option Task
  pub closed : Bool

-- `in_chan` is `b.In`, which becomes nil. `entered` and `left` list what has gone into the one channel
-- and come out of the other.
pub record Buffer : Type 0 where
  pub in_chan : Option Chan
  pub out_chan : Chan
  pub list : List Task
  pub loop : Loop
  pub entered : List Task
  pub left : List Task

-- NewBuffer
abbrev pub new_buffer : Buffer
new_buffer = record {
  in_chan = some (record { held = none; closed = false });
  out_chan = record { held = none; closed = false };
  list = [];
  loop = running;
  entered = [];
  left = [];
}

-- `value, ok := <-b.In`: what a receive gives, and the channel after it; `none` if it blocks.
pub data Received : Type 0 where
  value : Task → Received
  end : Received

unfoldable pub receive_from : Option Task → Bool → Option (Received × Chan)
receive_from (some t) closed = some (value t, record { held = none; closed = closed })
receive_from none true = some (end, record { held = none; closed = true })
receive_from none false = none

unfoldable pub receive : Option Chan → Option (Received × Chan)
unfolding receive_from
receive none = none
receive (some c) = receive_from c.held c.closed

-- `close(b.Out)` and the return.
abbrev pub finish : Buffer → Buffer
finish b = record b { out_chan = record (b.out_chan) { closed = true }; loop = returned }

-- What a turn does with what it received, on an empty list and in the select.
unfoldable pub first_received : Option (Received × Chan) → Buffer → Option Buffer
first_received none b = none
first_received (some (value t, c)) b = some (record b { in_chan = some c; list = b.list ++ t ∷ [] })
first_received (some (end, c)) b = some (finish b)

unfoldable pub select_received : Option (Received × Chan) → Buffer → Option Buffer
select_received none b = none
select_received (some (value t, c)) b =
    some (record b { in_chan = some c; list = b.list ++ t ∷ [] })
select_received (some (end, c)) b = some (record b { in_chan = none })

-- `b.Out <- front.Value`, which needs room in the channel.
unfoldable pub send_front : Option Task → Task → List Task → Buffer → Option Buffer
send_front (some t) front rest b = none
send_front none front rest b =
    some (record b { out_chan = record (b.out_chan) { held = some front }; list = rest })

-- A turn with nothing in the list, which ends the loop if `b.In` is nil.
unfoldable pub turn_empty : Option Chan → Buffer → Option Buffer
unfolding first_received receive
turn_empty none b = some (finish b)
turn_empty (some c) b = first_received (receive (some c)) b

-- The case of the select that a turn takes; with nothing in the list it only receives.
pub data Case : Type 0 where
  sends receives : Case

unfoldable pub turn : Case → List Task → Buffer → Option Buffer
unfolding turn_empty send_front select_received receive
turn sends [] b = none
turn receives [] b = turn_empty b.in_chan b
turn sends (front ∷ rest) b = send_front b.out_chan.held front rest b
turn receives (front ∷ rest) b = select_received (receive b.in_chan) b

-- What the other goroutines do: a rollback sends, a consumer receives, and `b.In` is closed.
pub data Event : Type 0 where
  turns : Case → Event
  enters : Task → Event
  leaves : Event
  closes : Event

unfoldable pub enter : Option Chan → Task → Buffer → Option Buffer
enter none t b = none
enter (some c) t b = elim (c.held) [
  | some old ↦ none
  | none ↦
      if c.closed
      then none
      else some
          (record b { in_chan = some (record c { held = some t }); entered = b.entered ++ t ∷ [] })
]

unfoldable pub leave : Option Task → Buffer → Option Buffer
leave none b = none
leave (some t) b =
    some (record b { out_chan = record (b.out_chan) { held = none }; left = b.left ++ t ∷ [] })

unfoldable pub close : Option Chan → Buffer → Option Buffer
close none b = none
close (some c) b = some (record b { in_chan = some (record c { closed = true }) })

abbrev pub is_running : Loop → Bool
is_running running = true
is_running returned = false

-- One step, `none` if it cannot be made.
unfoldable pub step : Event → Buffer → Option Buffer
unfolding turn enter leave close
step (turns c) b = let next = turn c b.list b in if is_running b.loop then next else none
step (enters t) b = enter b.in_chan t b
step leaves b = leave b.out_chan.held b
step closes b = close b.in_chan b

-- The states that are reached.
pub data Reach : Buffer → Type 0 where
  at_start : Reach new_buffer
  after : {b b' : Buffer} (e : Event) → Reach b → step e b ≡ some b' → Reach b'
