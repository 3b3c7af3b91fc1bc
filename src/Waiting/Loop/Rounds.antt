-- ===== src/Waiting/Loop/Rounds.antt =====
-- What a round of the loop does to the waiting tasks.
use mathlib.Core.Path.{fun_ext}
use triggerhook.Base.{
  ℕ, zero, suc, ◌≡◌, refl, sym, ◌∙◌, ap, ℤ, pos, ltb_ℤ, String, List, [], ◌∷◌, Option, none, some,
  Bool, true, false, Bool-cases, ◌⊎◌, inl, inr, arith, str_eq, eq_iff, update, length, Run, ok,
  ◌>>=◌, Returns, returns, Returns-map, Returns-bind, if◌then◌else◌,
}
use triggerhook.Base
use triggerhook.Domain.{Task}
use triggerhook.Waiting.TaskHeap.{TaskHeap}
use triggerhook.Waiting.TaskHeap.Refines.{
  View, Refines, IsFirst, TakenFrom, add-Refines, delete-Refines, take-Refines,
}
use triggerhook.Waiting.Loop.{
  Wake, timer, preloaded, canceled, sleep_for, send, put_back, put_back_unless, greedy_add,
  greedy_delete, wake_up, round,
}

abbrev pub put_all : List Task → View → View
put_all [] m = m
put_all (t ∷ ts) m = put_all ts (update m t.id (some t))

abbrev pub drop_all : List String → View → View
drop_all [] m = m
drop_all (id ∷ ids) m = drop_all ids (update m id none)

-- The tasks have ids that are not in the map, and that differ from each other.
abbrev pub AreNew : List Task → View → Type 0
AreNew [] m = Unit
AreNew (t ∷ ts) m = (m t.id ≡ none) × AreNew ts (update m t.id (some t))

-- `held` is what the round has taken from `m` at its start.
abbrev pub IsHeld : View → Option Task → Type 0
IsHeld m none = (id : String) → m id ≡ none
IsHeld m (some x) = (m x.id ≡ some x) × IsFirst m x

-- The wait for `held` is over before it has begun.
abbrev pub IsDue : Option Task → ℤ → Type 0
IsDue held now = ltb_ℤ (pos 0) (sleep_for held now) ≡ false

abbrev pub IsAsleep : Option Task → ℤ → Type 0
IsAsleep held now = ltb_ℤ (pos 0) (sleep_for held now) ≡ true

-- A round either sends a first task, when its wait is over or ends, or takes in what a channel
-- brought, while the first task still has to wait.
pub data Round (limit : ℕ) (now : ℤ) (m : View) : Wake → Option Task → View → Type 0 where
  sends :
      {wake : Wake} (x : Task)
      → IsHeld m (some x)
      → IsDue (some x) now ⊎ (wake ≡ timer)
      → Round limit now m wake (some x) (update m x.id none)
  preloads :
      (held : Option Task)
      → IsHeld m held
      → IsAsleep held now
      → (t : Task) (more : List Task) → AreNew (t ∷ Base.take limit more) m
      → Round limit now m (preloaded t more) none (put_all (t ∷ Base.take limit more) m)
  cancels :
      (held : Option Task)
      → IsHeld m held
      → IsAsleep held now
      → (id : String) (more : List String)
      → Round limit now m (canceled id more) none (drop_all (id ∷ Base.take limit more) m)

-- What a round needs: new ids, and a timer only for a task. (With no task it runs for 292 years.)
abbrev pub IsFair : ℕ → View → Wake → Type 0
IsFair limit m timer = (x : Task) × (m x.id ≡ some x)
IsFair limit m (preloaded t more) = AreNew (t ∷ Base.take limit more) m
IsFair limit m (canceled id more) = Unit

update_back :
    (m : View) (x : Task) → m x.id ≡ some x → update (update m x.id none) x.id (some x) ≡ m
update_back m x e = fun_ext λ id. elim (Bool-cases (str_eq x.id id)) [
  | inl same ↦ rw same (sym e ∙ ap m ((eq_iff x.id id).0 same))
  | inr other ↦ rw other
]

update_twice :
    (m : View) (id j : String) → id ≡ j → update (update m j none) id none ≡ update m id none
update_twice m id j e = fun_ext λ k. ground (arith, eq_iff id k, eq_iff j k)

pub greedy_add-Refines :
    (n : ℕ) (ts : List Task) (h : TaskHeap) (m : View)
    → Refines h m
    → AreNew (Base.take n ts) m
    → Returns (λ h'. Refines h' (put_all (Base.take n ts) m)) (greedy_add n ts h)
unfolding greedy_add
greedy_add-Refines zero ts h m r new = returns r
greedy_add-Refines (suc n) [] h m r new = returns r
greedy_add-Refines (suc n) (t ∷ ts) h m r (new, rest) =
    Returns-bind (add-Refines h m t r new)
      λ h' r'. greedy_add-Refines n ts h' (update m t.id (some t)) r' rest

greedy_delete-Refines :
    (n : ℕ) (ids : List String) (h : TaskHeap) (m : View)
    → Refines h m
    → Returns (λ h'. Refines h' (drop_all (Base.take n ids) m)) (greedy_delete n ids h)
unfolding greedy_delete
greedy_delete-Refines zero ids h m r = returns r
greedy_delete-Refines (suc n) [] h m r = returns r
greedy_delete-Refines (suc n) (id ∷ ids) h m r =
    Returns-bind (delete-Refines h m id r)
      λ (_, h') (_, r'). greedy_delete-Refines n ids h' (update m id none) r'

put_back-Refines :
    (m : View) (task : Option Task) (h : TaskHeap)
    → TakenFrom m task h
    → Returns (λ h'. Refines h' m) (put_back task h)
unfolding put_back
put_back-Refines m none h (r, _) = returns r
put_back-Refines m (some x) h (r, at, _) =
    Returns-map (add-Refines h (update m x.id none) x r (ground (arith, eq_iff x.id x.id)))
      λ h' (v, e). (v, e ∙ update_back m x at)

-- The map after the held task went back, unless it is the one to be cleared.
abbrev ClearsTo : View → String → TaskHeap → Type 0
ClearsTo m id h = (m' : View) × Refines h m' × (update m' id none ≡ update m id none)

put_back_unless-Refines :
    (m : View) (id : String) (task : Option Task) (h : TaskHeap)
    → TakenFrom m task h
    → Returns (ClearsTo m id) (put_back_unless id task h)
unfolding put_back_unless put_back
put_back_unless-Refines m id none h (r, _) = returns (m, r, refl)
put_back_unless-Refines m id (some x) h (r, at, first) = elim (Bool-cases (str_eq id x.id)) [
  | inl same ↦
      rw same (returns (update m x.id none, r, update_twice m id x.id ((eq_iff id x.id).0 same)))
  | inr other ↦
      rw other (Returns-map (put_back-Refines m (some x) h (r, at, first)) λ h' r'. (m, r', refl))
]

-- The outcome of a round that starts from `m`: a step of `Round`, which the new list refines.
abbrev pub Rounded : ℕ → ℤ → View → Wake → Option Task × TaskHeap → Type 0
Rounded limit now m wake (sent, h') = (m' : View) × Round limit now m wake sent m' × Refines h' m'

sent-Rounded :
    (limit : ℕ) (now : ℤ) (m : View) (wake : Wake) (x : Task) (h : TaskHeap)
    → TakenFrom m (some x) h
    → IsDue (some x) now ⊎ (wake ≡ timer)
    → Returns (Rounded limit now m wake) (send (some x) h)
unfolding send
sent-Rounded limit now m wake x h (r, at, first) over =
    returns (update m x.id none, sends x (at, first) over, r)

taken-IsHeld : (m : View) (task : Option Task) (h : TaskHeap) → TakenFrom m task h → IsHeld m task
taken-IsHeld m none h (_, held) = held
taken-IsHeld m (some x) h (_, at, first) = (at, first)

woken-Rounded :
    (limit : ℕ) (now : ℤ) (m : View) (wake : Wake) (task : Option Task) (h : TaskHeap)
    → TakenFrom m task h
    → IsFair limit m wake
    → IsAsleep task now
    → Returns (Rounded limit now m wake) (wake_up limit wake task h)
unfolding wake_up
woken-Rounded limit now m timer none h (_, empty) (x, at) asleep =
    absurd (cc (sym (empty x.id) ∙ at))
woken-Rounded limit now m timer (some x) h taken fair asleep =
    sent-Rounded limit now m timer x h taken (inr refl)
woken-Rounded limit now m (preloaded t more) task h taken (new, rest) asleep =
    Returns-bind (put_back-Refines m task h taken) λ h1 r1.
      Returns-bind (add-Refines h1 m t r1 new) λ h2 r2.
        Returns-bind (greedy_add-Refines limit more h2 (update m t.id (some t)) r2 rest) λ h3 r3.
          returns (_, preloads task (taken-IsHeld m task h taken) asleep t more (new, rest), r3)
woken-Rounded limit now m (canceled id more) task h taken fair asleep =
    Returns-bind (put_back_unless-Refines m id task h taken) λ h1 (m1, r1, same).
      Returns-bind (delete-Refines h1 m1 id r1) λ (_, h2) (_, (v2, e2)).
        Returns-bind (greedy_delete-Refines limit more h2 (update m id none) (v2, e2 ∙ same))
          λ h3 r3. returns (_, cancels task (taken-IsHeld m task h taken) asleep id more, r3)

due-Rounded :
    (limit : ℕ) (now : ℤ) (m : View) (wake : Wake) (task : Option Task) (h : TaskHeap)
    → TakenFrom m task h
    → IsDue task now
    → Returns (Rounded limit now m wake) (send task h)
unfolding sleep_for
due-Rounded limit now m wake none h taken due = absurd (ground arith)
due-Rounded limit now m wake (some x) h taken due =
    sent-Rounded limit now m wake x h taken (inl due)

-- A fair round over a list that refines a map from ids to tasks returns, and its outcome is a step
-- on maps, which the new list refines: it sends a first task, which leaves the map, when the wait
-- for it is over or ended by the timer; or, while the first task has to wait, it adds the
-- preloaded tasks or clears the cancelled ids, as many as the greedy limit allows, and loses
-- nothing else.
pub round_lem :
    (limit : ℕ) (now : ℤ) (wake : Wake) (h : TaskHeap) (m : View)
    → Refines h m
    → IsFair limit m wake
    → Returns (Rounded limit now m wake) (round limit now wake h)
unfolding round
round_lem limit now wake h m r fair = Returns-bind (take-Refines h m r) λ (task, h1) taken.
    elim (Bool-cases (ltb_ℤ (pos 0) (sleep_for task now))) [
      | inl asleep ↦ rw asleep (woken-Rounded limit now m wake task h1 taken fair asleep)
      | inr due ↦ rw due (due-Rounded limit now m wake task h1 taken due)
    ]
