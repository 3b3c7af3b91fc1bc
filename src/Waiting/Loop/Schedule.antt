-- ===== src/Waiting/Loop/Schedule.antt =====
-- Whole schedules of rounds: what becomes of a task.
use triggerhook.Base.{ℕ, ℤ, List, [], ◌∷◌, Option, Returns, returns, Returns-bind}
use triggerhook.Domain.{Task}
use triggerhook.Waiting.TaskHeap.{TaskHeap}
use triggerhook.Waiting.TaskHeap.Refines.{View, Refines}
use triggerhook.Waiting.Loop.{Wake, run, append_sent}
use triggerhook.Waiting.Loop.Rounds.{Round, IsFair, round_lem}

-- The rounds in turn, each a step of `Round`.
pub data Rounds (limit : ℕ) : View → List (ℤ × Wake) → List Task → View → Type 0 where
  stop : {m : View} → Rounds limit m [] [] m
  next :
      {m m' m'' : View} {now : ℤ} {wake : Wake} {sent : Option Task} {rounds : List (ℤ × Wake)}
      {later : List Task}
      → Round limit now m wake sent m'
      → Rounds limit m' rounds later m''
      → Rounds limit m ((now, wake) ∷ rounds) (append_sent sent later) m''

-- Each round finds what it needs, whatever the rounds before it did.
abbrev pub IsFairSchedule : ℕ → View → List (ℤ × Wake) → Type 0
IsFairSchedule limit m [] = Unit
IsFairSchedule limit m ((now, wake) ∷ rounds) =
    IsFair limit m wake
    × ((sent : Option Task) (m' : View)
        → Round limit now m wake sent m'
        → IsFairSchedule limit m' rounds)

abbrev pub Scheduled : ℕ → View → List (ℤ × Wake) → List Task × TaskHeap → Type 0
Scheduled limit m rounds (sent, h') = (m' : View) × Rounds limit m rounds sent m' × Refines h' m'

pub run_lem :
    (limit : ℕ) (rounds : List (ℤ × Wake)) (h : TaskHeap) (m : View)
    → Refines h m
    → IsFairSchedule limit m rounds
    → Returns (Scheduled limit m rounds) (run limit rounds h)
unfolding run
run_lem limit [] h m r fair = returns (m, stop, r)
run_lem limit ((now, wake) ∷ rounds) h m r (fair, rest) =
    Returns-bind (round_lem limit now wake h m r fair) λ (sent, h1) (m1, step, r1).
      Returns-bind (run_lem limit rounds h1 m1 r1 (rest sent m1 step))
        λ (later, h2) (m2, steps, r2). returns (m2, next step steps, r2)
