-- ===== src/Waiting/Loop/Tests.antt =====
-- The theorems on the loop at concrete inputs.
use triggerhook.Base.{
  ◌≡◌, ◌≢◌, refl, ℤ, pos, ◌-ℤ◌, ◌*ℤ◌, int64, List, [], ◌∷◌, none, some, ◌⊎◌, arith, update, eq_iff,
  ok, ◌>>=◌, value, Returns, Returns-value,
}
use triggerhook.Domain.{Task}
use triggerhook.Container.Heap
use triggerhook.Waiting.Items.{items_heap}
use triggerhook.Waiting.TaskHeap.{TaskHeap, empty, add, take, delete_if_exist}
use triggerhook.Waiting.TaskHeap.Valid.{tasks}
use triggerhook.Waiting.TaskHeap.Refines.{View, Refines, add-Refines}
use triggerhook.Waiting.Loop.{Wake, preloaded, canceled, round, run}
use triggerhook.Waiting.Loop.Rounds.{Rounded, round_lem}
use triggerhook.Waiting.Loop.Timing.{
  AllNear, IsPunctual, round-IsPunctual, SendsDue, round-SendsDue,
}
use triggerhook.Waiting.Loop.Overflow.{SendsEarly, round-SendsEarly}
use triggerhook.Waiting.Loop.Fate.{IsSent, run_keeps}
use triggerhook.Waiting.Loop.Cancel.{NoneHas, canceled-NoneHas}
use triggerhook.Waiting.Tests.{task, nothing, two, two_view, two-Refines, empty-Refines}

round_lem_example :
    Returns
      (Rounded 10 (pos 5) two_view (preloaded (task "c" 7) []))
      (round 10 (pos 5) (preloaded (task "c" 7) []) two)
unfolding nothing
round_lem_example =
    round_lem 10 (pos 5) (preloaded (task "c" 7) []) two two_view two-Refines (refl, tt)

two_near : AllNear two_view (pos 15)
unfolding nothing ◌-ℤ◌
two_near id x e = ground (arith, eq_iff "a" id, eq_iff "b" id)

round-IsPunctual_example :
    Returns
      (λ (sent, _). IsPunctual two_view (pos 15) sent)
      (round 10 (pos 15) (canceled "b" []) two)
round-IsPunctual_example =
    round-IsPunctual 10 (pos 15) (canceled "b" []) two two_view two-Refines tt two_near (λ e. cc)

round-SendsDue_example :
    Returns (λ (sent, _). SendsDue (pos 15) sent) (round 10 (pos 15) (canceled "a" []) two)
unfolding nothing
round-SendsDue_example =
    round-SendsDue 10 (pos 15) (canceled "a" []) two two_view (task "a" 10) two-Refines tt two_near
      refl (omega arith)

-- A list whose only task is due in three hundred years.
abbrev far_task : Task
far_task = task "f" 9500000000

abbrev far : TaskHeap
far = value empty (add empty far_task)

abbrev far_view : View
far_view = update nothing "f" (some far_task)

far-Refines : Refines far far_view
unfolding nothing
far-Refines = Returns-value empty (add-Refines empty nothing far_task empty-Refines refl)

round-SendsEarly_example :
    Returns (λ (sent, _). SendsEarly (pos 100) sent) (round 10 (pos 100) (canceled "b" []) far)
unfolding nothing ◌-ℤ◌
round-SendsEarly_example =
    round-SendsEarly 10 (pos 100) (canceled "b" []) far far_view far_task far-Refines tt refl
      (λ id y e. ground (arith, eq_iff "f" id)) (omega arith) (omega arith)

far_sent : (round 10 (pos 100) (canceled "b" []) far >>= λ (sent, _). ok sent) ≡ ok (some far_task)
unfolding round add take delete_if_exist items_heap Heap.push Heap.pop Heap.up Heap.down Heap.remove
    ◌-ℤ◌ ◌*ℤ◌ int64
far_sent = refl

abbrev schedule : List (ℤ × Wake)
schedule =
    (pos 5, preloaded (task "c" 30) [])
    ∷ (pos 6, canceled "b" ("c" ∷ []))
    ∷ (pos 12, canceled "z" [])
    ∷ []

not_b : "b" ≢ (task "a" 10).id
not_b e = ground (arith, eq_iff "b" "a")

not_c : "c" ≢ (task "a" 10).id
not_c e = ground (arith, eq_iff "c" "a")

not_z : "z" ≢ (task "a" 10).id
not_z e = ground (arith, eq_iff "z" "a")

run_keeps_example :
    Returns
      (λ (sent, h'). (tasks h' "a" ≡ some (task "a" 10)) ⊎ IsSent (task "a" 10) sent)
      (run 10 schedule two)
unfolding nothing
run_keeps_example =
    run_keeps 10 schedule two two_view (task "a" 10) two-Refines
      ((refl, tt), λ _ _ _. (tt, λ _ _ _. (tt, λ _ _ _. tt))) refl
      (tt, ((not_b, (not_c, tt)), ((not_z, tt), tt)))

abbrev without : TaskHeap
without = value two (round 10 (pos 5) (canceled "a" []) two >>= λ (_, h). ok h)

canceled-NoneHas_example :
    Returns
      (λ (sent, h'). NoneHas "a" sent × (tasks h' "a" ≡ none))
      (run 10 ((pos 25, canceled "z" []) ∷ []) without)
unfolding round add take delete_if_exist items_heap Heap.push Heap.pop Heap.up Heap.down Heap.remove
    ◌-ℤ◌ ◌*ℤ◌ int64
canceled-NoneHas_example =
    canceled-NoneHas 10 (pos 5) "a" [] two without two_view ((pos 25, canceled "z" []) ∷ [])
      two-Refines refl (λ m1 r. (tt, λ _ _ _. tt)) (tt, tt)
