-- ===== src/System/Turns.antt =====
-- What a round of the waiting service moves.
use triggerhook.Base.{
  ℕ, ◌+◌, ℤ, String, str_eq, eq_iff, List, [], ◌∷◌, Option, none, some, Bool-cases, inl, inr, take,
  update, ◌≡◌, refl, sym, ap, ◌∙◌, arith,
}
use triggerhook.Domain.{Task}
use triggerhook.Waiting.TaskHeap.Refines.{View}
use triggerhook.Waiting.Loop.{Wake, timer, preloaded, canceled}
use triggerhook.Waiting.Loop.Rounds.{Round, sends, preloads, cancels, AreNew, put_all}
use triggerhook.Waiting.Loop.Fate.{Spares, drop_all-keeps}
use triggerhook.Preloader.Shares.{count}
use triggerhook.System.Places.{has_id, in_view}

put_all-count :
    (id : String) (ts : List Task) (m : View)
    → AreNew ts m
    → in_view (put_all ts m id) ≡ in_view (m id) + count (has_id id) ts
put_all-count id [] m new = omega arith
put_all-count id (t ∷ ts) m (new, rest) =
    let h = put_all-count id ts (update m t.id (some t)) rest in
    elim (Bool-cases (str_eq t.id id)) [
      | inl same ↦
          let e : in_view (update m t.id (some t) id) ≡ 1 = rw same refl in
          let z : in_view (m id) ≡ 0 = ap in_view (ap m (sym ((eq_iff t.id id).0 same)) ∙ new) in
          rw same (omega (arith, h, e, z))
      | inr other ↦
          let e : in_view (update m t.id (some t) id) ≡ in_view (m id) = rw other refl in
          rw other (omega (arith, h, e))
    ]

-- The tasks of an id after a round: those before it, without the one sent, with those received.
abbrev pub Turned : ℕ → String → View → Wake → Option Task → View → Type 0
Turned limit id m wake (some x) m' = in_view (m' id) + count (has_id id) (x ∷ []) ≡ in_view (m id)
Turned limit id m timer none m' = in_view (m' id) ≡ in_view (m id)
Turned limit id m (preloaded t more) none m' =
    in_view (m' id) ≡ in_view (m id) + count (has_id id) (t ∷ take limit more)
Turned limit id m (canceled j more) none m' = in_view (m' id) ≡ in_view (m id)

sent-Turned :
    (id : String) (m : View) (x : Task)
    → m x.id ≡ some x
    → in_view (update m x.id none id) + count (has_id id) (x ∷ []) ≡ in_view (m id)
sent-Turned id m x at = elim (Bool-cases (str_eq x.id id)) [
  | inl same ↦
      let e : in_view (m id) ≡ 1 = ap in_view (ap m (sym ((eq_iff x.id id).0 same)) ∙ at) in
      rw same (omega (arith, e))
  | inr other ↦ rw other (omega arith)
]

pub Round-Turned :
    {limit : ℕ} {now : ℤ} {m m' : View} {wake : Wake} {sent : Option Task} (id : String)
    → Round limit now m wake sent m'
    → Spares limit id wake
    → Turned limit id m wake sent m'
Round-Turned {m = m} id (sends x (at, _) over) spared = sent-Turned id m x at
Round-Turned {limit = limit} {m = m} id (preloads held h a t more new) spared =
    put_all-count id (t ∷ take limit more) m new
Round-Turned {limit = limit} {m = m} id (cancels held h a j more) spared =
    ap in_view (drop_all-keeps (j ∷ take limit more) m id spared)
