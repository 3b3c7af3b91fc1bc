-- ===== src/Waiting/TaskHeap/Drop.antt =====
-- Dropping the last item, after the heap functions have moved the right one there.
use mathlib.Core.Option
use triggerhook.Base.{
  ℕ, suc, ◌-◌, ◌<◌, ◌≡◌, ◌≢◌, sym, ◌∙◌, ap, String, Option, none, some, length, take, length-take,
  get_or-take, arith, update, write, if◌then◌else◌, str_eq, eq_iff, ok, negsuc, inl, inr,
  Bool-cases, Returns, returns,
}
use triggerhook.Domain.{Task}
use triggerhook.Container.Order.{parent, IsHeap}
use triggerhook.Container.Whole.{Unhooked}
use triggerhook.Waiting.Items.{Items, items_heap, elem}
use triggerhook.Waiting.Links.{IsLinked, prio, items_laws, elem-ok, elem-injective}
use triggerhook.Waiting.TaskHeap.{TaskHeap}
use triggerhook.Waiting.TaskHeap.Valid.{IsListed, IsBacked, IsValid, IsValid-of, tasks_of, tasks}

-- The items without the last.
abbrev dropped : ℕ → Items → Items
dropped n t =
    let x = elem t n in
    record t { store = write t.store x (record (t.store x) { index = negsuc 0 }); pq = take n t.pq }

-- `h'` is `h` without the task `x`.
pub record Gone (h : TaskHeap) (x : Task) (h' : TaskHeap) : Type 0 where
  pub valid : IsValid h'
  pub rest : (id : String) → tasks h' id ≡ (if str_eq x.id id then none else tasks h id)
  pub size : length h.items.pq ≡ suc (length h'.items.pq)

-- The task of the item at position `r`.
abbrev pub target : TaskHeap → ℕ → Task
target h r = (h.items.store (elem h.items r)).task

-- What heap.Pop and heap.Remove return: the item of the task, and the items without it.
pub record Removed (h : TaskHeap) (r : ℕ) (x : ℕ × Items) : Type 0 where
  pub task : (x.1.store x.0).task ≡ target h r
  pub gone :
      Gone h (target h r) (record { items = x.1; index = update h.index (target h r).id none })

module _ (h : TaskHeap) (n r : ℕ) (v : IsValid h) (size : length h.items.pq ≡ suc n)
    (inside : r < suc n) where
  abbrev Ready : Items → Type 0
  Ready =
      Unhooked items_heap (IsLinked h.items) elem (prio h.items) (items_laws h.items) h.items r n

  -- The index without the task.
  index' : String → Option ℕ
  index' = update h.index (target h r).id none

  index'-other :
      {id : String} {o : Option ℕ} → id ≢ (target h r).id → h.index id ≡ o → index' id ≡ o
  unfolding index'
  index'-other {id} ne e = ground (arith, eq_iff (target h r).id id, ne)

  index'-some :
      (id : String) (a : ℕ) → index' id ≡ some a → (id ≢ (target h r).id) × (h.index id ≡ some a)
  unfolding index'
  index'-some id a e = ground (arith, eq_iff (target h r).id id)

  tasks-index' :
      (id : String)
      → Option.map (λ a. (h.items.store a).task) (index' id)
        ≡ (if str_eq (target h r).id id then none else tasks h id)
  unfolding index'
  tasks-index' id = elim (Bool-cases (str_eq (target h r).id id)) [
    | inl here ↦ rw here
    | inr there ↦ rw there
  ]

  -- Two items have two ids.
  id_apart :
      (j : ℕ)
      → j < suc n
      → elem h.items j ≢ elem h.items r
      → (h.items.store (elem h.items j)).task.id ≢ (target h r).id
  id_apart j p apart same =
      let l = v.listed j (omega arith) in
      let m = v.listed r (omega arith) in apart (cc (sym l.mapped ∙ ap h.index same ∙ m.mapped))

  module _ (t : Items) (u : Ready t) where
    full : length t.pq ≡ suc n
    unfolding items_heap
    full = u.moved.size ∙ size

    pop-dropped : items_heap.pop t ≡ ok (elem h.items r, dropped n t)
    unfolding items_heap
    pop-dropped =
        let last : length t.pq - 1 ≡ n = omega (arith, full) in
        rw (last, elem-ok h.items t n (omega (arith, full)), u.last)

    length-dropped : length (dropped n t).pq ≡ n
    length-dropped = length-take n t.pq (omega (arith, full))

    elem-dropped : (i : ℕ) → i < n → elem (dropped n t) i ≡ elem t i
    elem-dropped i p = get_or-take n t.pq i 0 p

    dropped-IsLinked : IsLinked h.items (dropped n t)
    dropped-IsLinked = record {
      linked = λ i p.
          let q : i < n = omega (arith, length-dropped) in
          ground (
            arith,
            elem-dropped i q,
            l.linked i (omega (arith, full)),
            l.linked n (omega (arith, full)),
          );
      same_task = λ a. ground (arith, l.same_task a, l.same_task (elem t n));
      same_priority = λ a. ground (arith, l.same_priority a, l.same_priority (elem t n));
      same_next = l.same_next;
    }
      where
        l : IsLinked h.items t
        l = u.moved.inv

    moved_apart : (i : ℕ) → i < n → elem t i ≢ elem t n
    moved_apart i p e = omega (
      arith,
      elem-injective h.items u.moved.inv i n (omega (arith, full)) (omega (arith, full)) e,
    )

    listed' : (i : ℕ) → i < n → IsListed h.items index' (elem (dropped n t) i)
    listed' i p =
        let (j, q, same) = u.moved.shuffled.sound i (omega arith) in
        let there : elem t i ≡ elem h.items j = same in
        let apart : elem h.items j ≢ elem h.items r =
          λ e. moved_apart i p (there ∙ e ∙ sym u.last) in
        let l = v.listed j (omega arith) in
        rw (elem-dropped i p, there)
          (record {
            fresh = l.fresh;
            keyed = l.keyed;
            mapped = index'-other (id_apart j (omega arith) apart) l.mapped;
          })

    backed' : IsBacked n (elem (dropped n t)) h.items index'
    backed' id a e =
        let (other, there) = index'-some id a e in
        let (j, q, at, same) = v.backed id a there in
        let (i, p, found) = u.moved.shuffled.complete j (omega arith) in
        let kept : i ≢ n = λ last. other (
          sym same
          ∙ ap (λ b. (h.items.store b).task.id) (sym at ∙ found ∙ ap (elem t) last ∙ u.last)) in
        let below : i < n = omega arith in (i, below, elem-dropped i below ∙ sym found ∙ at, same)

    -- What is left when the task is taken out.
    dropped-Gone : Gone h (target h r) (record { items = dropped n t; index = index' })
    dropped-Gone = record {
      valid =
          IsValid-of h.items (dropped n t) index' n dropped-IsLinked length-dropped ordered listed'
            backed';
      rest = λ id.
          tasks_of h.items (dropped n t) index' n dropped-IsLinked length-dropped id
          ∙ tasks-index' id;
      size = omega (arith, length-dropped);
    }
      where
        ordered : IsHeap 0 n (λ c. prio h.items (elem (dropped n t) c))
        ordered c p q l =
            rw (elem-dropped c q, elem-dropped (parent c) (omega arith)) (u.heap c p q l)

    pub pop-Removed : Returns (Removed h r) (items_heap.pop t)
    unfolding index'
    pop-Removed = rw pop-dropped (
        returns
          (record { task = dropped-IsLinked.same_task (elem h.items r); gone = dropped-Gone }))
