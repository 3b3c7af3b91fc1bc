-- ===== src/Waiting/Loop/Cancel.antt =====
-- A cancelled task is not sent, unless a channel brings it once more.
use triggerhook.Base.{
  ℕ, ◌≡◌, ◌≢◌, refl, sym, ◌∙◌, ap, ℤ, String, List, [], ◌∷◌, Option, none, some, arith, eq_iff,
  update, str_eq, ok, Returns, Returns-map, given_result,
}
use triggerhook.Base
use triggerhook.Domain.{Task}
use triggerhook.Waiting.TaskHeap.{TaskHeap}
use triggerhook.Waiting.TaskHeap.Valid.{tasks}
use triggerhook.Waiting.TaskHeap.Refines.{View, Refines}
use triggerhook.Waiting.Loop.{Wake, timer, preloaded, canceled, round, run, append_sent}
use triggerhook.Waiting.Loop.Rounds.{Round, sends, preloads, cancels, put_all, drop_all, round_lem}
use triggerhook.Waiting.Loop.Schedule.{Rounds, stop, next, IsFairSchedule, run_lem}

-- None of the tasks has the id.
abbrev pub NoneHas : String → List Task → Type 0
NoneHas id [] = Unit
NoneHas id (t ∷ ts) = (t.id ≢ id) × NoneHas id ts

abbrev pub Withholds : ℕ → String → Wake → Type 0
Withholds limit id (preloaded t more) = NoneHas id (t ∷ Base.take limit more)
Withholds limit id timer = Unit
Withholds limit id (canceled j more) = Unit

-- No round of the schedule brings a task with the id.
abbrev pub IsWithheld : ℕ → String → List (ℤ × Wake) → Type 0
IsWithheld limit id [] = Unit
IsWithheld limit id ((now, wake) ∷ rounds) = Withholds limit id wake × IsWithheld limit id rounds

put_all-without :
    (ts : List Task) (m : View) (id : String) → NoneHas id ts → m id ≡ none → put_all ts m id ≡ none
put_all-without [] m id h e = e
put_all-without (t ∷ ts) m id (ne, rest) e =
    put_all-without ts (update m t.id (some t)) id rest (ground (arith, eq_iff t.id id))

drop_all-without :
    (ids : List String) (m : View) (id : String) → m id ≡ none → drop_all ids m id ≡ none
drop_all-without [] m id e = e
drop_all-without (j ∷ ids) m id e = drop_all-without ids (update m j none) id (ground arith)

-- What a round sends does not have the id.
abbrev SendsOther : String → Option Task → Type 0
SendsOther id none = Unit
SendsOther id (some x) = x.id ≢ id

Round-without :
    {limit : ℕ} {now : ℤ} {m m' : View} {wake : Wake} {sent : Option Task}
    → Round limit now m wake sent m'
    → (id : String) → m id ≡ none
    → Withholds limit id wake
    → SendsOther id sent × (m' id ≡ none)
Round-without {m = m} (sends x (at, _) over) id e w =
    (λ same. cc (sym at ∙ ap m same ∙ e), ground arith)
Round-without {limit = limit} {m = m} (preloads held h a t more new) id e w =
    (tt, put_all-without (t ∷ Base.take limit more) m id w e)
Round-without {limit = limit} {m = m} (cancels held h a j more) id e w =
    (tt, drop_all-without (j ∷ Base.take limit more) m id e)

append_sent-NoneHas :
    (id : String) (sent : Option Task) (later : List Task)
    → SendsOther id sent
    → NoneHas id later
    → NoneHas id (append_sent sent later)
unfolding append_sent
append_sent-NoneHas id none later s l = l
append_sent-NoneHas id (some x) later s l = (s, l)

Rounds-without :
    {limit : ℕ} {m m' : View} {rounds : List (ℤ × Wake)} {sent : List Task}
    → Rounds limit m rounds sent m'
    → (id : String) → m id ≡ none
    → IsWithheld limit id rounds
    → NoneHas id sent × (m' id ≡ none)
Rounds-without stop id e w = (tt, e)
Rounds-without (next {sent = sent} {later = later} step steps) id e (w, rest) =
    let (s, e') = Round-without step id e w in
    let (l, e'') = Rounds-without steps id e' rest in (append_sent-NoneHas id sent later s l, e'')

-- A round that takes in a cancellation clears its id.
canceled_clears :
    {limit : ℕ} {now : ℤ} {m m' : View} {id : String} {more : List String} {wake : Wake}
    {sent : Option Task}
    → Round limit now m wake sent m'
    → wake ≡ canceled id more
    → sent ≡ none
    → m' id ≡ none
canceled_clears (sends x h over) e s = cc
canceled_clears (preloads held h a t more new) e s = cc
canceled_clears {limit = limit} {m = m} {id = id} (cancels held h a j more) e s =
    drop_all-without (Base.take limit more) (update m j none) id (ground (arith, eq_iff j id))

-- If a round of the waiting loop, from a valid list, was brought the cancellation of an id and
-- sent nothing, then every fair schedule of later rounds, none of which brings a task with that
-- id, returns, sends no task with that id, and leaves none in the list.
pub canceled-NoneHas :
    (limit : ℕ) (now : ℤ) (id : String) (more : List String) (h h1 : TaskHeap) (m : View)
    (rounds : List (ℤ × Wake))
    → Refines h m
    → round limit now (canceled id more) h ≡ ok (none, h1)
    → ((m1 : View) → Refines h1 m1 → IsFairSchedule limit m1 rounds)
    → IsWithheld limit id rounds
    → Returns (λ (sent, h'). NoneHas id sent × (tasks h' id ≡ none)) (run limit rounds h1)
canceled-NoneHas limit now id more h h1 m rounds r ran fair w =
    let (m1, step, r1) = given_result (round_lem limit now (canceled id more) h m r tt) ran in
    let cleared = canceled_clears step refl refl in
    Returns-map (run_lem limit rounds h1 m1 r1 (fair m1 r1)) λ (later, h') (m', steps, (_, e)).
      let (l, gone) = Rounds-without steps id cleared w in (l, ap (λ (f : View). f id) e ∙ gone)
