-- ===== src/Waiting/TaskHeap/Add.antt =====
-- Add: a task with a new id joins the others.
use mathlib.Core.Option
use triggerhook.Base.{
  ℕ, suc, ◌<◌, ◌≡◌, refl, sym, ◌∙◌, ap, String, Option, none, some, [], ◌∷◌, ◌++◌, length,
  length-append, get_or-append, get_or-append_last, arith, if◌then◌else◌, str_eq, eq_iff, ok, pos,
  inl, inr, Bool-cases, Option-cases, Returns, returns, Returns-bind, update, write, dec_lt,
}
use triggerhook.Domain.{Task}
use triggerhook.Container.Order.{parent, IsHeap}
use triggerhook.Container.Laws.{Moved, Moved-refl}
use triggerhook.Container.Whole.{push_lem}
use triggerhook.Waiting.Items.{Item, Items, items_heap, elem}
use triggerhook.Waiting.Links.{IsLinked, prio, items_laws}
use triggerhook.Waiting.TaskHeap.{TaskHeap, allocate, add}
use triggerhook.Waiting.TaskHeap.Valid.{
  IsValid, IsStored, IsValid-IsStored, IsListed, IsBacked, tasks, tasks_of, IsValid-of, IsStored-of,
}

-- `h'` is `h` with the task `t`.
pub record Added (h : TaskHeap) (t : Task) (h' : TaskHeap) : Type 0 where
  pub valid : IsValid h'
  pub present : (id : String) → tasks h' id ≡ (if str_eq t.id id then some t else tasks h id)
  pub size : length h'.items.pq ≡ suc (length h.items.pq)

module _ (h : TaskHeap) (t : Task) (v : IsStored h) (new : h.index t.id ≡ none) where
  abbrev n : ℕ
  n = length h.items.pq

  abbrev fresh : ℕ
  fresh = h.items.next

  -- The store with the new item.
  abbrev base : Items
  base = allocate h.items t 0

  -- The slice with the new item at its end.
  abbrev pub pushed : Items
  pushed = record base {
    store = write base.store fresh (record (base.store fresh) { index = pos n });
    pq = h.items.pq ++ fresh ∷ [];
  }

  abbrev index' : String → Option ℕ
  index' = update h.index t.id (some fresh)

  push-pushed : items_heap.push fresh base ≡ ok pushed
  unfolding items_heap allocate
  push-pushed = refl

  length-pushed : length pushed.pq ≡ suc n
  unfolding allocate
  length-pushed = omega (arith, length-append h.items.pq (fresh ∷ []))

  pushed-old : (i : ℕ) → i < n → elem pushed i ≡ elem h.items i
  unfolding allocate
  pushed-old i p = get_or-append h.items.pq (fresh ∷ []) i 0 p

  pushed-new : elem pushed n ≡ fresh
  unfolding allocate
  pushed-new = get_or-append_last h.items.pq fresh n 0 refl

  pushed-IsLinked : IsLinked base pushed
  unfolding allocate
  pushed-IsLinked = record {
    linked = λ i p. elim (dec_lt i n) [
      | yes q ↦ ground (arith, pushed-old i q, v.linked.linked i q, (v.listed i q).fresh)
      | no q ↦
          let last : i ≡ n = omega (arith, length-pushed) in rw last (ground (arith, pushed-new))
    ];
    same_task = λ a. ground arith;
    same_priority = λ a. ground arith;
    same_next = refl;
  }

  -- An item of the old list is the same in the new store.
  base-old : (i : ℕ) → i < n → base.store (elem h.items i) ≡ h.items.store (elem h.items i)
  unfolding allocate
  base-old i p = ground (arith, (v.listed i p).fresh)

  base-new : base.store fresh ≡ record { task = t; priority = t.exec_time; index = pos 0 }
  unfolding allocate
  base-new = ground arith

  base-next : base.next ≡ suc fresh
  unfolding allocate
  base-next = refl

  key-old : (i : ℕ) → i < n → prio base (elem pushed i) ≡ (h.items.store (elem h.items i)).priority
  key-old i p = ap (prio base) (pushed-old i p) ∙ ap (λ (x : Item). x.priority) (base-old i p)

  -- The stored task of an id other than the new one.
  base-known : (id : String) (a : ℕ) → h.index id ≡ some a → base.store a ≡ h.items.store a
  base-known id a e =
      let (i, p, at, _) = v.backed id a e in
      ap base.store (sym at) ∙ base-old i p ∙ ap h.items.store at

  pushed-IsHeap :
      IsHeap 0 n (λ c. (h.items.store (elem h.items c)).priority)
      → IsHeap 0 n (λ c. prio base (elem pushed c))
  pushed-IsHeap heap c p q l =
      ground (arith, key-old c q, key-old (parent c) (omega arith), heap c p q l)

  IsListed-old : (j : ℕ) → j < n → IsListed base index' (elem h.items j)
  IsListed-old j p =
      let l = v.listed j p in
      record {
        fresh = omega (arith, l.fresh, base-next);
        keyed = rw (base-old j p) l.keyed;
        mapped =
            rw (base-old j p)
              (ground (arith, eq_iff t.id (h.items.store (elem h.items j)).task.id, l.mapped, new));
      }

  IsListed-new : IsListed base index' fresh
  IsListed-new = record {
    fresh = omega (arith, base-next);
    keyed = rw base-new;
    mapped = rw base-new (ground (arith, eq_iff t.id t.id));
  }

  module _ (u : Items) (m : Moved items_heap (IsLinked base) elem (suc n) pushed u) where
    listed' : (i : ℕ) → i < suc n → IsListed base index' (elem u i)
    listed' i p =
        let (j, q, same) = m.shuffled.sound i p in
        rw same (elim (dec_lt j n) [
          | yes r ↦ rw (pushed-old j r) (IsListed-old j r)
          | no r ↦
              let last : j ≡ n = omega arith in rw (ap (elem pushed) last ∙ pushed-new) IsListed-new
        ])

    backed' : IsBacked (suc n) (elem u) base index'
    backed' id a e = elim (Bool-cases (str_eq t.id id)) [
      | inl same ↦
          let (i, p, at) = m.shuffled.complete n (omega arith) in
          let there : a ≡ fresh = ground (arith, same) in
          (i, p, sym at ∙ pushed-new ∙ sym there, rw there (rw base-new ((eq_iff t.id id).0 same)))
      | inr other ↦
          let old : h.index id ≡ some a = ground (arith, other) in
          let (j, q, at, named) = v.backed id a old in
          let (i, p, found) = m.shuffled.complete j (omega arith) in
          (
            i,
            p,
            sym found ∙ pushed-old j q ∙ at,
            ap (λ (x : Item). x.task.id) (base-known id a old) ∙ named,
          )
    ]

  present' :
      (id : String)
      → Option.map (λ a. (base.store a).task) (index' id)
        ≡ (if str_eq t.id id then some t else tasks h id)
  present' id = elim (Bool-cases (str_eq t.id id)) [
    | inl same ↦ rw (same, base-new)
    | inr other ↦ rw other (elim (Option-cases (h.index id)) [
      | inl absent ↦ rw absent
      | inr (a, found) ↦ rw (found, base-known id a found)
    ])
  ]

  -- The list once the heap functions have moved the items, with the new one.
  pub placed_in :
      (u : Items)
      → Moved items_heap (IsLinked base) elem (suc n) pushed u
      → IsHeap 0 (suc n) (λ c. prio base (elem u c))
      → Added h t (record { items = u; index = index' })
  unfolding items_heap
  placed_in u m heap = record {
    valid =
        IsValid-of base u index' (suc n) m.inv (m.size ∙ length-pushed) heap (listed' u m)
          (backed' u m);
    present = λ id. tasks_of base u index' (suc n) m.inv (m.size ∙ length-pushed) id ∙ present' id;
    size = m.size ∙ length-pushed;
  }

  -- The same list before they do.
  pub record Appended (h' : TaskHeap) : Type 0 where
    pub stored : IsStored h'
    pub present : (id : String) → tasks h' id ≡ (if str_eq t.id id then some t else tasks h id)

  pub pushed-Appended : Appended (record { items = pushed; index = index' })
  unfolding items_heap
  pushed-Appended =
      let m = Moved-refl items_heap (IsLinked base) elem pushed-IsLinked in
      record {
        stored =
            IsStored-of base pushed index' (suc n) pushed-IsLinked length-pushed (listed' pushed m)
              (backed' pushed m);
        present = λ id.
            tasks_of base pushed index' (suc n) pushed-IsLinked length-pushed id ∙ present' id;
      }

-- Add, for an id that is not in the list yet.
pub add_lem :
    (h : TaskHeap) (t : Task) → IsValid h → h.index t.id ≡ none → Returns (Added h t) (add h t)
unfolding add items_heap
add_lem h t valid new =
    let v = IsValid-IsStored valid in
    Returns-bind
      (push_lem items_heap (IsLinked (base h t v new)) elem (prio (base h t v new))
        (items_laws (base h t v new)) (base h t v new) (pushed h t v new) h.items.next (n h t v new)
        (push-pushed h t v new) (length-pushed h t v new) (pushed-IsLinked h t v new)
        (pushed-IsHeap h t v new valid.heap))
      λ u (m, heap). returns (placed_in h t v new u m heap)
