-- ===== src/Container/Laws.antt =====
-- What the heap functions rely on in a container, and how a run of exchanges relates two of its
-- states.
use triggerhook.Base.{
  ℕ, ◌≤◌, ◌<◌, ◌≡◌, refl, ℤ, ltb_ℤ, arith, ◌==◌, if◌then◌else◌, ok, ◌∙◌, sym, dec_lt,
}
use triggerhook.Container.Heap.{HeapInterface}
use triggerhook.Container.Order.{IsSwap}

-- `elem s i` is the element at index `i`, and `prio` its priority. `Inv` holds between the steps.
pub record HeapLaws {S X : Type 0} (h : HeapInterface S X) (Inv : S → Type 0) (elem : S → ℕ → X)
    (prio : X → ℤ) : Type 0 where
  pub less_ok :
      (s : S) (i j : ℕ)
      → Inv s
      → i < h.len s
      → j < h.len s
      → h.less s i j ≡ ok (ltb_ℤ (prio (elem s i)) (prio (elem s j)))
  pub swap_ok :
      (s : S) (i j : ℕ)
      → Inv s
      → i < h.len s
      → j < h.len s
      → (s' : S) × (h.swap s i j ≡ ok s')
        × Inv s'
        × (h.len s' ≡ h.len s)
        × IsSwap (elem s) (elem s') i j

-- Where the element at `c` comes from in an exchange of `i` and `j`.
abbrev partner : ℕ → ℕ → ℕ → ℕ
partner i j c = if j == c then i else if i == c then j else c

module _ {X : Type 0} where
  -- The first `n` elements of `g` stand among those of `f`.
  abbrev pub Among : ℕ → (ℕ → X) → (ℕ → X) → Type 0
  Among n f g = (i : ℕ) → i < n → (j : ℕ) × (j < n) × (g i ≡ f j)

  -- `g` has the elements of `f` below `n` in another order, and the same ones from there on.
  pub record Shuffled (n : ℕ) (f g : ℕ → X) : Type 0 where
    pub sound : Among n f g
    pub complete : Among n g f
    pub frame : (c : ℕ) → n ≤ c → g c ≡ f c

  pub Shuffled-refl : (n : ℕ) (f : ℕ → X) → Shuffled n f f
  Shuffled-refl n f = record {
    sound = λ i p. (i, p, refl);
    complete = λ i p. (i, p, refl);
    frame = λ c p. refl;
  }

  Among-trans : {n : ℕ} {f g h : ℕ → X} → Among n f g → Among n g h → Among n f h
  Among-trans a b i p = let (j, q, e) = b i p in let (k, r, d) = a j q in (k, r, e ∙ d)

  pub Shuffled-trans : {n : ℕ} {f g h : ℕ → X} → Shuffled n f g → Shuffled n g h → Shuffled n f h
  Shuffled-trans a b = record {
    sound = Among-trans a.sound b.sound;
    complete = Among-trans b.complete a.complete;
    frame = λ c p. b.frame c p ∙ a.frame c p;
  }

  pub Shuffled-swap : {n i j : ℕ} {f g : ℕ → X} → i < n → j < n → IsSwap f g i j → Shuffled n f g
  Shuffled-swap {i = i} {j = j} hi hj e = record {
    sound = λ c p. (partner i j c, ground arith, ground (arith, e c));
    complete = λ c p. (partner i j c, ground arith, ground (arith, e i, e j, e c));
    frame = λ c p. ground (arith, e c);
  }

module _ {S X : Type 0} (h : HeapInterface S X) (Inv : S → Type 0) (elem : S → ℕ → X) where
  -- `t` is reached from `s` by exchanges among the first `n` elements.
  pub record Moved (n : ℕ) (s t : S) : Type 0 where
    pub inv : Inv t
    pub size : h.len t ≡ h.len s
    pub shuffled : Shuffled n (elem s) (elem t)

  pub Moved-refl : {n : ℕ} {s : S} → Inv s → Moved n s s
  Moved-refl {n} {s} i = record { inv = i; size = refl; shuffled = Shuffled-refl n (elem s) }

  pub Moved-trans : {n : ℕ} {s t u : S} → Moved n s t → Moved n t u → Moved n s u
  Moved-trans a b = record {
    inv = b.inv;
    size = b.size ∙ a.size;
    shuffled = Shuffled-trans a.shuffled b.shuffled;
  }

Among-mono :
    {X : Type 0} {n m : ℕ} {f g : ℕ → X}
    → n ≤ m
    → Among n f g
    → ((c : ℕ) → n ≤ c → g c ≡ f c)
    → Among m f g
Among-mono {n = n} le a frame i p = elim (dec_lt i n) [
  | yes q ↦ let (j, r, e) = a i q in (j, omega arith, e)
  | no q ↦ (i, p, frame i (omega arith))
]

pub Moved-mono :
    {S X : Type 0} {h : HeapInterface S X} {Inv : S → Type 0} {elem : S → ℕ → X} {n m : ℕ} {s t : S}
    → n ≤ m
    → Moved h Inv elem n s t
    → Moved h Inv elem m s t
Moved-mono le a = record {
  inv = a.inv;
  size = a.size;
  shuffled = record {
    sound = Among-mono le a.shuffled.sound a.shuffled.frame;
    complete = Among-mono le a.shuffled.complete (λ c p. sym (a.shuffled.frame c p));
    frame = λ c p. a.shuffled.frame c (omega arith);
  };
}
