-- ===== src/Waiting/Loop.antt =====
-- waiting_service/waiting_service.go, Run: one round of the loop, given what the `select` received
-- and what the clock showed.
pub mod Rounds
pub mod Timing
pub mod Overflow
pub mod Schedule
pub mod Fate
pub mod Cancel
mod Tests
use triggerhook.Base.{
  ℕ, zero, suc, ◌-◌, ◌^◌, ℤ, pos, ◌-ℤ◌, ◌*ℤ◌, int64, ltb_ℤ, String, List, [], ◌∷◌, Bool, Option,
  none, some, str_eq, if◌then◌else◌, Run, ok, panic, ◌>>=◌,
}
use triggerhook.Domain.{Task}
use triggerhook.Waiting.TaskHeap.{TaskHeap, add, take, delete_if_exist}

-- What ends the wait. With a received value come the values that the channel holds after it: the
-- greedy loop receives them, as many as its limit allows; the others stay in the channel.
pub data Wake : Type 0 where
  timer : Wake
  preloaded : Task → List Task → Wake
  canceled : String → List String → Wake

-- Nanoseconds, an int64 as time.Duration is.
abbrev pub second : ℤ
second = pos 1000000000

abbrev pub max_int64 : ℤ
max_int64 = pos (2 ^ 63 - 1)

unfoldable pub sleep_for : Option Task → ℤ → ℤ
sleep_for none now = max_int64
sleep_for (some t) now = int64 (int64 (t.exec_time -ℤ now) *ℤ second)

-- `s.tasksReadyToSend <- *task`
unfoldable pub send : Option Task → TaskHeap → Run (Option Task × TaskHeap)
send none h = panic
send (some x) h = ok (some x, h)

unfoldable pub put_back : Option Task → TaskHeap → Run TaskHeap
put_back none h = ok h
put_back (some x) h = add h x

unfoldable pub put_back_unless : String → Option Task → TaskHeap → Run TaskHeap
put_back_unless id none h = ok h
put_back_unless id (some x) h = let back = add h x in if str_eq id x.id then ok h else back

-- At most `limit` values are taken from those that the channel holds.
unfoldable pub greedy_add : ℕ → List Task → TaskHeap → Run TaskHeap
greedy_add zero ts h = ok h
greedy_add (suc n) [] h = ok h
greedy_add (suc n) (t ∷ ts) h = add h t >>= greedy_add n ts

unfoldable pub greedy_delete : ℕ → List String → TaskHeap → Run TaskHeap
greedy_delete zero ids h = ok h
greedy_delete (suc n) [] h = ok h
greedy_delete (suc n) (id ∷ ids) h = delete_if_exist h id >>= λ (_, h'). greedy_delete n ids h'

-- The branches of the outer `select`.
unfoldable pub wake_up : ℕ → Wake → Option Task → TaskHeap → Run (Option Task × TaskHeap)
unfolding send put_back put_back_unless greedy_add greedy_delete
wake_up limit timer task h = send task h
wake_up limit (preloaded t more) task h = do
  h1 ← put_back task h
  h2 ← add h1 t
  h3 ← greedy_add limit more h2
  ok (none, h3)
wake_up limit (canceled id more) task h = do
  h1 ← put_back_unless id task h
  (_, h2) ← delete_if_exist h1 id
  h3 ← greedy_delete limit more h2
  ok (none, h3)

-- One round: the task that it sends, if any, and the list that it leaves.
unfoldable pub round : ℕ → ℤ → Wake → TaskHeap → Run (Option Task × TaskHeap)
unfolding sleep_for send wake_up
round limit now wake h = do
  (task, h1) ← take h
  let sent = send task h1
  let woken = wake_up limit wake task h1
  if ltb_ℤ (pos 0) (sleep_for task now) then woken else sent

unfoldable pub append_sent : Option Task → List Task → List Task
append_sent none later = later
append_sent (some x) later = x ∷ later

-- The rounds of a schedule, and the tasks sent, in order.
unfoldable pub run : ℕ → List (ℤ × Wake) → TaskHeap → Run (List Task × TaskHeap)
unfolding round append_sent
run limit [] h = ok ([], h)
run limit ((now, wake) ∷ rounds) h = do
  (sent, h1) ← round limit now wake h
  (later, h2) ← run limit rounds h1
  ok (append_sent sent later, h2)
