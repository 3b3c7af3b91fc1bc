-- ===== src/Waiting/TaskHeap/Valid.antt =====
-- The invariant of the waiting list, and the tasks that it stands for, by id.
use mathlib.Core.Option
use mathlib.Core.Path.{fun_ext}
use triggerhook.Base.{
  ℕ, ◌<◌, ◌≡◌, refl, ◌∙◌, ap, String, Option, some, length, arith, sym, Option-cases, inl, inr,
}
use triggerhook.Domain.{Task}
use triggerhook.Container.Order.{parent, IsHeap}
use triggerhook.Waiting.Items.{Items, elem}
use triggerhook.Waiting.Links.{IsLinked}
use triggerhook.Waiting.TaskHeap.{TaskHeap, empty}

-- The item at `a` stands in the list at its own priority, and the index leads back to it.
pub record IsListed (items : Items) (index : String → Option ℕ) (a : ℕ) : Type 0 where
  pub fresh : a < items.next
  pub keyed : (items.store a).priority ≡ (items.store a).task.exec_time
  pub mapped : index (items.store a).task.id ≡ some a

-- Every id in the index belongs to an item among the first `n` of `f`.
abbrev pub IsBacked : ℕ → (ℕ → ℕ) → Items → (String → Option ℕ) → Type 0
IsBacked n f items index =
    (id : String) (a : ℕ)
    → index id ≡ some a
    → (i : ℕ) × (i < n) × (f i ≡ a) × ((items.store a).task.id ≡ id)

pub record IsValid (h : TaskHeap) : Type 0 where
  pub heap : IsHeap 0 (length h.items.pq) (λ c. (h.items.store (elem h.items c)).priority)
  pub linked : IsLinked h.items h.items
  pub listed : (i : ℕ) → i < length h.items.pq → IsListed h.items h.index (elem h.items i)
  pub backed : IsBacked (length h.items.pq) (elem h.items) h.items h.index

-- The invariant but for the order of the list.
pub record IsStored (h : TaskHeap) : Type 0 where
  pub linked : IsLinked h.items h.items
  pub listed : (i : ℕ) → i < length h.items.pq → IsListed h.items h.index (elem h.items i)
  pub backed : IsBacked (length h.items.pq) (elem h.items) h.items h.index

pub IsValid-IsStored : {h : TaskHeap} → IsValid h → IsStored h
IsValid-IsStored v = record { linked = v.linked; listed = v.listed; backed = v.backed }

pub empty-IsValid : IsValid empty
empty-IsValid = record {
  heap = λ c p q l. absurd (omega arith);
  linked = record {
    linked = λ i p. absurd (omega arith);
    same_task = λ a. refl;
    same_priority = λ a. refl;
    same_next = refl;
  };
  listed = λ i p. absurd (omega arith);
  backed = λ id a e. absurd (cc e);
}

-- The waiting task with a given id.
abbrev pub tasks : TaskHeap → String → Option Task
tasks h id = Option.map (λ a. (h.items.store a).task) (h.index id)

-- What the operations establish, in terms of the store `base` that the heap functions started from.
module _ (base u : Items) (index : String → Option ℕ) (n : ℕ) (l : IsLinked base u)
    (size : length u.pq ≡ n) where
  pub IsStored-of :
      ((i : ℕ) → i < n → IsListed base index (elem u i))
      → IsBacked n (elem u) base index
      → IsStored (record { items = u; index = index })
  IsStored-of listed backed = record {
    linked = record {
      linked = l.linked;
      same_task = λ a. refl;
      same_priority = λ a. refl;
      same_next = refl;
    };
    listed = λ i p.
        let old = listed i (omega arith) in
        let t = l.same_task (elem u i) in
        record {
          fresh = omega (arith, old.fresh, l.same_next);
          keyed = l.same_priority (elem u i) ∙ old.keyed ∙ sym (ap (λ (x : Task). x.exec_time) t);
          mapped = ap (λ (x : Task). index x.id) t ∙ old.mapped;
        };
    backed = λ id a e.
        let (i, p, at, same) = backed id a e in
        (i, omega arith, at, ap (λ (x : Task). x.id) (l.same_task a) ∙ same);
  }

  pub IsValid-of :
      IsHeap 0 n (λ c. (base.store (elem u c)).priority)
      → ((i : ℕ) → i < n → IsListed base index (elem u i))
      → IsBacked n (elem u) base index
      → IsValid (record { items = u; index = index })
  IsValid-of heap listed backed =
      let st = IsStored-of listed backed in
      record {
        heap = λ c p q l'.
            let old = heap c p (omega arith) in
            ground (arith, l.same_priority (elem u c), l.same_priority (elem u (parent c)), old);
        linked = st.linked;
        listed = st.listed;
        backed = st.backed;
      }

  pub tasks_of :
      (id : String)
      → tasks (record { items = u; index = index }) id
        ≡ Option.map (λ a. (base.store a).task) (index id)
  tasks_of id = ap (λ (f : ℕ → Task). Option.map f (index id)) (fun_ext l.same_task)

-- A valid list that holds nothing but what is in the index.
pub tasks-listed :
    {h : TaskHeap}
    → IsValid h
    → (i : ℕ) → i < length h.items.pq
    → tasks h (h.items.store (elem h.items i)).task.id ≡ some (h.items.store (elem h.items i)).task
tasks-listed {h} v i p = rw ((v.listed i p).mapped)

-- Every waiting task stands in the list.
pub tasks-backed :
    {h : TaskHeap}
    → IsValid h
    → (id : String) (t : Task) → tasks h id ≡ some t
    → (i : ℕ) × (i < length h.items.pq) × ((h.items.store (elem h.items i)).task ≡ t) × (t.id ≡ id)
tasks-backed {h} v id t e = elim (Option-cases (h.index id)) [
  | inl absent ↦ absurd (ground (arith, absent))
  | inr (a, found) ↦
      let (i, p, at, same) = v.backed id a found in
      (i, p, ground (arith, found, at), ground (arith, found, same))
]
