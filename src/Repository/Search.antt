-- ===== src/Repository/Search.antt =====
-- What a search selects, and that it marks what it selects.
use triggerhook.Base.{
  arith, ℕ, ◌==◌, ℤ, ltb_ℤ, String, str_eq, eq_iff, List, [], ◌∷◌, map, Bool, true, false, not,
  ◌&&◌, ◌||◌, Bool-cases, inl, inr, ◌≡◌, refl, subst,
}
use triggerhook.Repository.Tables.{Collection, is_among}
use triggerhook.Repository.Find.{insert_by_time, is_due, select_due, set_taken}

abbrev pub ids_of : List Collection → List ℕ
ids_of l = map (λ c. c.id) l

-- A collection stands in a list.
pub data In (c : Collection) : List Collection → Type 0 where
  here : {l : List Collection} → In c (c ∷ l)
  there : {a : Collection} {l : List Collection} → In c l → In c (a ∷ l)

pub or_right : (a : Bool) {b : Bool} → b ≡ true → a || b ≡ true
or_right true h = refl
or_right false h = h

insert_by_time-head :
    (c : Collection) (l : List Collection) → is_among c.id (ids_of (insert_by_time c l)) ≡ true
unfolding insert_by_time is_among
insert_by_time-head c [] = ground arith
insert_by_time-head c (a ∷ rest) =
    let h = insert_by_time-head c rest in
    elim (Bool-cases (ltb_ℤ a.exec_time c.exec_time)) [
      | inl b ↦ rw b (or_right (a.id == c.id) h)
      | inr b ↦ rw b (ground arith)
    ]

insert_by_time-tail :
    (id : ℕ) (c : Collection) (l : List Collection)
    → is_among id (ids_of l) ≡ true
    → is_among id (ids_of (insert_by_time c l)) ≡ true
unfolding insert_by_time is_among
insert_by_time-tail id c [] h = cc h
insert_by_time-tail id c (a ∷ rest) h = elim (Bool-cases (ltb_ℤ a.exec_time c.exec_time)) [
  | inl b ↦ rw b (elim (Bool-cases (a.id == id)) [
    | inl e ↦ rw e refl
    | inr e ↦
        rw e
          (insert_by_time-tail id c rest (subst (λ x. x || is_among id (ids_of rest) ≡ true) e h))
  ])
  | inr b ↦ rw b (or_right (c.id == id) h)
]

-- A collection that is due is selected.
pub select_due-among :
    (limit : ℤ) (app : String) {c : Collection} {l : List Collection}
    → In c l
    → is_due limit app c ≡ true
    → is_among c.id (ids_of (select_due limit app l)) ≡ true
unfolding select_due
select_due-among limit app {l = []} m d = elim m [ ]
select_due-among limit app {c} {l = a ∷ l} here d =
    rw d (insert_by_time-head c (select_due limit app l))
select_due-among limit app {c} {l = a ∷ l} (there m) d = elim (Bool-cases (is_due limit app a)) [
  | inl b ↦
      rw b (insert_by_time-tail c.id a (select_due limit app l) (select_due-among limit app m d))
  | inr b ↦ rw b (select_due-among limit app m d)
]

pub str_eq_refl : (s : String) → str_eq s s ≡ true
str_eq_refl s = (eq_iff s s).1 refl

and_false : (a : Bool) → a && false ≡ false
and_false true = refl
and_false false = refl

-- A taken collection is not due for the one who took it.
taken_not_due :
    (limit : ℤ) (app : String) (c : Collection)
    → is_due limit app (record c { taken_by_instance = app }) ≡ false
taken_not_due limit app c = rw (str_eq_refl app) (and_false (not (ltb_ℤ limit c.exec_time)))

-- Every collection of a list that is due is named.
pub Covers : ℤ → String → List ℕ → List Collection → Type 0
Covers limit app ids l =
    (c : Collection) → In c l → is_due limit app c ≡ true → is_among c.id ids ≡ true

pub set_taken-none_due :
    (limit : ℤ) (app : String) (ids : List ℕ) (l : List Collection)
    → Covers limit app ids l
    → select_due limit app (set_taken app ids l) ≡ []
unfolding select_due set_taken Covers
set_taken-none_due limit app ids [] covers = refl
set_taken-none_due limit app ids (c ∷ l) covers =
    let rest = set_taken-none_due limit app ids l (λ a m d. covers a (there m) d) in
    elim (Bool-cases (is_among c.id ids)) [
      | inl b ↦ rw (b, taken_not_due limit app c) rest
      | inr b ↦ elim (Bool-cases (is_due limit app c)) [
        | inl d ↦ cc (covers c here d, b)
        | inr d ↦ rw (b, d) rest
      ]
    ]

pub select_due-Covers :
    (limit : ℤ) (app : String) (l : List Collection)
    → Covers limit app (ids_of (select_due limit app l)) l
unfolding Covers
select_due-Covers limit app l c m d = select_due-among limit app m d
