-- ===== src/Waiting/Loop/Fate.antt =====
-- What becomes of a task: it is not lost, and a cancelled one is not sent.
use triggerhook.Base.{
  ℕ, ◌≡◌, ◌≢◌, refl, sym, ◌∙◌, ap, ℤ, String, List, [], ◌∷◌, Option, none, some, Bool-cases, ◌⊎◌,
  inl, inr, arith, str_eq, eq_iff, update, Run, ok, Returns, returns, Returns-bind, Returns-map,
}
use triggerhook.Base
use triggerhook.Domain.{Task}
use triggerhook.Waiting.TaskHeap.{TaskHeap}
use triggerhook.Waiting.TaskHeap.Valid.{tasks}
use triggerhook.Waiting.TaskHeap.Refines.{View, Refines}
use triggerhook.Waiting.Loop.{Wake, timer, preloaded, canceled, run, append_sent}
use triggerhook.Waiting.Loop.Rounds.{Round, sends, preloads, cancels, AreNew, put_all, drop_all}
use triggerhook.Waiting.Loop.Schedule.{Rounds, stop, next, IsFairSchedule, run_lem}

-- The task is among those sent.
abbrev pub IsSent : Task → List Task → Type 0
IsSent x [] = ⊥
IsSent x (y ∷ ys) = (y ≡ x) ⊎ IsSent x ys

-- No cancellation of the schedule names the id.
abbrev pub AllOther : String → List String → Type 0
AllOther id [] = Unit
AllOther id (j ∷ ids) = (j ≢ id) × AllOther id ids

abbrev pub Spares : ℕ → String → Wake → Type 0
Spares limit id (canceled j more) = AllOther id (j ∷ Base.take limit more)
Spares limit id timer = Unit
Spares limit id (preloaded t more) = Unit

abbrev pub IsSpared : ℕ → String → List (ℤ × Wake) → Type 0
IsSpared limit id [] = Unit
IsSpared limit id ((now, wake) ∷ rounds) = Spares limit id wake × IsSpared limit id rounds

update_other : (m : View) (j id : String) (o : Option Task) → j ≢ id → update m j o id ≡ m id
update_other m j id o ne = ground (arith, eq_iff j id)

put_all-keeps :
    (ts : List Task) (m : View) (id : String) (x : Task)
    → AreNew ts m
    → m id ≡ some x
    → put_all ts m id ≡ some x
put_all-keeps [] m id x new e = e
put_all-keeps (t ∷ ts) m id x (new, rest) e =
    put_all-keeps ts (update m t.id (some t)) id x rest (ground (arith, eq_iff t.id id))

pub drop_all-keeps :
    (ids : List String) (m : View) (id : String) → AllOther id ids → drop_all ids m id ≡ m id
drop_all-keeps [] m id other = refl
drop_all-keeps (j ∷ ids) m id (ne, rest) =
    drop_all-keeps ids (update m j none) id rest ∙ update_other m j id none ne

-- A task stays or is sent, in a round that does not cancel it.
Round-keeps :
    {limit : ℕ} {now : ℤ} {m m' : View} {wake : Wake} {sent : Option Task}
    → Round limit now m wake sent m'
    → (x : Task) → m x.id ≡ some x
    → Spares limit x.id wake
    → (m' x.id ≡ some x) ⊎ (sent ≡ some x)
Round-keeps {m = m} (sends y (at, _) over) x there spared = elim (Bool-cases (str_eq y.id x.id)) [
  | inl same ↦ inr (sym at ∙ ap m ((eq_iff y.id x.id).0 same) ∙ there)
  | inr other ↦ inl (ground (arith, other))
]
Round-keeps {limit = limit} {m = m} (preloads held h a t more new) x there spared =
    inl (put_all-keeps (t ∷ Base.take limit more) m x.id x new there)
Round-keeps {limit = limit} {m = m} (cancels held h a id more) x there spared =
    inl (drop_all-keeps (id ∷ Base.take limit more) m x.id spared ∙ there)

IsSent-later :
    (x : Task) (sent : Option Task) (later : List Task)
    → IsSent x later
    → IsSent x (append_sent sent later)
unfolding append_sent
IsSent-later x none later s = s
IsSent-later x (some y) later s = inr s

IsSent-now :
    (x : Task) (sent : Option Task) (later : List Task)
    → sent ≡ some x
    → IsSent x (append_sent sent later)
unfolding append_sent
IsSent-now x none later e = cc
IsSent-now x (some y) later e = inl (cc e)

Rounds-keep :
    {limit : ℕ} {m m' : View} {rounds : List (ℤ × Wake)} {sent : List Task}
    → Rounds limit m rounds sent m'
    → (x : Task) → m x.id ≡ some x
    → IsSpared limit x.id rounds
    → (m' x.id ≡ some x) ⊎ IsSent x sent
Rounds-keep stop x there spared = inl there
Rounds-keep {m' = m'} (next {sent = sent} {later = later} step steps) x there (spared, rest) =
    elim (Round-keeps step x there spared) [
      | inl stays ↦ elim (Rounds-keep steps x stays rest) [
        | inl stays ↦ inl stays
        | inr goes ↦ inr (IsSent-later x sent later goes)
      ]
      | inr goes ↦ inr (IsSent-now x sent later goes)
    ]

-- For every schedule of rounds of the waiting loop that is fair (each round is brought only tasks
-- with new ids, and its timer runs out only while a task waits), the loop returns, and a task that
-- waits in a valid list and that no cancellation of the schedule names is either still in the list
-- or among the tasks sent.
pub run_keeps :
    (limit : ℕ) (rounds : List (ℤ × Wake)) (h : TaskHeap) (m : View) (x : Task)
    → Refines h m
    → IsFairSchedule limit m rounds
    → m x.id ≡ some x
    → IsSpared limit x.id rounds
    → Returns (λ (sent, h'). (tasks h' x.id ≡ some x) ⊎ IsSent x sent) (run limit rounds h)
run_keeps limit rounds h m x r fair there spared =
    Returns-map (run_lem limit rounds h m r fair) λ (sent, h') (m', steps, (_, e)).
      elim (Rounds-keep steps x there spared) [
        | inl stays ↦ inl (ap (λ (f : View). f x.id) e ∙ stays)
        | inr goes ↦ inr goes
      ]
