-- ===== src/System/Lent.antt =====
-- The handles: what Consume, Confirm and Rollback do with the tasks that they hold.
use triggerhook.Base.{
  ℕ, zero, suc, ◌+◌, ◌<◌, ◌≢◌, ◌≤◌, ◌==◌, List, [], ◌∷◌, Bool, true, false, Bool-cases, inl, inr,
  ◌≡◌, refl, ap, subst, arith,
}
use triggerhook.Domain.{Task}
use triggerhook.Preloader.Shares.{count, count-append}
use triggerhook.Sender.Handles.{TaskToSend, Handles, assign, get, consume, confirm, rollback}
use triggerhook.Sender.Lending.{Use, confirms, rolls_back, use_handle}
use triggerhook.System.Places.{in_handle, lent}

abbrev pub Apart : ℕ → List ℕ → Type 0
Apart h [] = Unit {0}
Apart h (x ∷ xs) = (x ≢ h) × Apart h xs

-- Handles in the pool are processed, known, and there once.
pub data Pooled (store : ℕ → TaskToSend) (next : ℕ) : List ℕ → Type 0 where
  no_handle : Pooled store next []
  and_handle :
      {h : ℕ} {pool : List ℕ}
      → h < next
      → (store h).is_processed ≡ true
      → Apart h pool
      → Pooled store next pool
      → Pooled store next (h ∷ pool)

assigned_other :
    (store : ℕ → TaskToSend) (h x : ℕ) (v : TaskToSend) → x ≢ h → assign store h v x ≡ store x
assigned_other store h x v ne = ground arith

assigned : (store : ℕ → TaskToSend) (h : ℕ) (v : TaskToSend) → assign store h v h ≡ v
assigned store h v = ground arith

Pooled-assign :
    {store : ℕ → TaskToSend} {next : ℕ} {pool : List ℕ} (h : ℕ) (v : TaskToSend)
    → Pooled store next pool
    → Apart h pool
    → Pooled (assign store h v) next pool
Pooled-assign h v no_handle apart = no_handle
Pooled-assign {store} h v (and_handle {h = x} l p a r) (ne, apart) =
    and_handle l (rw (assigned_other store h x v ne) p) a (Pooled-assign h v r apart)

-- A handle that is not processed is not in the pool.
unprocessed-Apart :
    {store : ℕ → TaskToSend} {next : ℕ} {pool : List ℕ} (h : ℕ)
    → (store h).is_processed ≡ false
    → Pooled store next pool
    → Apart h pool
unprocessed-Apart h e no_handle = tt
unprocessed-Apart {store} h e (and_handle {h = x} l p a r) =
    (λ q. cc (subst (λ x. (store x).is_processed ≡ true) q p, e), unprocessed-Apart h e r)

lent-above :
    (f : Task → Bool) (store : ℕ → TaskToSend) (h : ℕ) (v : TaskToSend) (n : ℕ)
    → n ≤ h
    → lent f (assign store h v) n ≡ lent f store n
lent-above f store h v zero l = refl
lent-above f store h v (suc n) l =
    let e = ap (in_handle f) (assigned_other store h n v (omega arith)) in
    omega (arith, e, lent-above f store h v n (omega arith))

lent-assign :
    (f : Task → Bool) (store : ℕ → TaskToSend) (h : ℕ) (v : TaskToSend) (n : ℕ)
    → h < n
    → lent f (assign store h v) n + in_handle f (store h) ≡ lent f store n + in_handle f v
lent-assign f store h v zero l = omega arith
lent-assign f store h v (suc n) l = elim (Bool-cases (n == h)) [
  | inl same ↦
      let q : n ≡ h = ground arith in
      let e : in_handle f (assign store h v n) ≡ in_handle f v =
        rw q (ap (in_handle f) (assigned store h v)) in
      let g = ap (λ n. in_handle f (store n)) q in
      omega (arith, e, g, lent-above f store h v n (omega arith))
  | inr other ↦
      let e = ap (in_handle f) (assigned_other store h n v (ground arith)) in
      omega (arith, e, lent-assign f store h v n (ground arith))
]

pub record Consumed (t : Task) (s o : Handles) : Type 0 where
  pub pooled : Pooled o.store o.next o.pool
  pub lent_more :
      (f : Task → Bool) → lent f o.store o.next ≡ lent f s.store s.next + count f (t ∷ [])

taken_from :
    (pool : List ℕ) (t : Task) (s : Handles)
    → Pooled s.store s.next pool
    → let (h, s') = get pool s in
      Consumed t s
        (record s' { store = assign s'.store h (record { is_processed = false; task = t }) })
unfolding get
taken_from [] t s p =
    let v : TaskToSend = record { is_processed = false; task = t } in
    record {
      pooled = no_handle;
      lent_more = λ f.
          let e : in_handle f (assign s.store s.next v s.next) ≡ in_handle f v =
            ap (in_handle f) (assigned s.store s.next v) in
          omega (arith, e, lent-above f s.store s.next v s.next (omega arith));
    }
taken_from (h ∷ rest) t s (and_handle l q a r) =
    let v : TaskToSend = record { is_processed = false; task = t } in
    record {
      pooled = Pooled-assign h v r a;
      lent_more = λ f.
          let e : in_handle f (s.store h) ≡ 0 = rw q refl in
          omega (arith, e, lent-assign f s.store h v s.next l);
    }

pub consume-Consumed :
    (t : Task) (s : Handles) → Pooled s.store s.next s.pool → Consumed t s (consume t s).1
unfolding consume
consume-Consumed t s p = taken_from s.pool t s p

pub record Used (s o : Handles) : Type 0 where
  pub pooled : Pooled o.store o.next o.pool
  pub moved :
      (f : Task → Bool)
      → lent f o.store o.next + count f o.confirmed + count f o.rolled_back
        ≡ lent f s.store s.next + count f s.confirmed + count f s.rolled_back

-- A handle that has sent its task goes into the pool.
processed-Pooled :
    (h : ℕ) (s : Handles)
    → h < s.next
    → (s.store h).is_processed ≡ false
    → Pooled s.store s.next s.pool
    → Pooled (assign s.store h (record (s.store h) { is_processed = true })) s.next (h ∷ s.pool)
processed-Pooled h s l e p =
    let v : TaskToSend = record (s.store h) { is_processed = true } in
    let a = unprocessed-Apart h e p in
    and_handle l (ap (λ (x : TaskToSend). x.is_processed) (assigned s.store h v)) a
      (Pooled-assign h v p a)

processed-lent :
    (f : Task → Bool) (h : ℕ) (s : Handles)
    → h < s.next
    → (s.store h).is_processed ≡ false
    → lent f (assign s.store h (record (s.store h) { is_processed = true })) s.next
        + count f ((s.store h).task ∷ [])
      ≡ lent f s.store s.next
processed-lent f h s l e =
    let v : TaskToSend = record (s.store h) { is_processed = true } in
    let g : in_handle f (s.store h) ≡ count f ((s.store h).task ∷ []) = rw e refl in
    omega (arith, g, lent-assign f s.store h v s.next l)

pub use_handle-Used :
    (h : ℕ) (u : Use) (s : Handles)
    → h < s.next
    → Pooled s.store s.next s.pool
    → Used s (use_handle h u s)
unfolding use_handle confirm rollback
use_handle-Used h confirms s l p = elim (Bool-cases ((s.store h).is_processed)) [
  | inl e ↦ rw e (record { pooled = p; moved = λ f. refl })
  | inr e ↦ rw e (record {
    pooled = processed-Pooled h s l e p;
    moved = λ f.
        let a = processed-lent f h s l e in
        let c = count-append f s.confirmed ((s.store h).task ∷ []) in omega (arith, a, c);
  })
]
use_handle-Used h rolls_back s l p = elim (Bool-cases ((s.store h).is_processed)) [
  | inl e ↦ rw e (record { pooled = p; moved = λ f. refl })
  | inr e ↦ rw e (record {
    pooled = processed-Pooled h s l e p;
    moved = λ f.
        let a = processed-lent f h s l e in
        let c = count-append f s.rolled_back ((s.store h).task ∷ []) in omega (arith, a, c);
  })
]
