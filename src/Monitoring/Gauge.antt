-- ===== src/Monitoring/Gauge.antt =====
-- An integral metric holds the sum of what is published to it.
use triggerhook.Base.{
  ℤ, pos, negsuc, ◌+ℤ◌, int64, IsInt64, int64_eq, int64-IsInt64, String, str_eq, List, [], ◌∷◌,
  true, false, Bool-cases, some, Option-cases, inl, inr, ◌≡◌, refl, sym, subst, arith,
}
use triggerhook.Contracts.{
  Topic, waiting_for_confirmation, confirmation_rate, preloaded, preloading_rate, creating_rate,
  deleting_rate, sending_rate, all, is_all, topic_text,
}
use triggerhook.TaskManager.Totals.{total, +ℤ_assoc, +ℤ_zero}
use triggerhook.Monitoring.Metrics.{integral, set}
use triggerhook.Monitoring.Registry.{Monitoring, publish}

-- The int64 sum does not depend on when it is cut to 64 bits.
int64-add : (a b : ℤ) → int64 (int64 a +ℤ b) ≡ int64 (a +ℤ b)
unfolding int64 ◌+ℤ◌
int64-add (pos a) (pos b) = ground arith
int64-add (pos a) (negsuc b) = ground arith
int64-add (negsuc a) (pos b) = ground arith
int64-add (negsuc a) (negsuc b) = ground arith

-- The measurements of a log, published one after another.
unfoldable pub publish_all : List (Topic × ℤ) → Monitoring → Monitoring
unfolding topic_text publish
publish_all [] m = m
publish_all ((topic, n) ∷ log) m = publish_all log (publish (topic_text topic) n m).1

-- The metric of all tasks holds `v`.
abbrev pub Reads : ℤ → Monitoring → Type 0
Reads v m = m.metrics "all" ≡ some (integral v)

publish-other :
    (name : String) (n v : ℤ) (m : Monitoring)
    → str_eq name "all" ≡ false
    → Reads v m
    → Reads v (publish name n m).1
unfolding publish
publish-other name n v m d h = elim (Option-cases (m.metrics name)) [
  | inl e ↦ rw (publish, e) h
  | inr (x, e) ↦ rw (publish, e) (rw d h)
]

publish-all : (n v : ℤ) (m : Monitoring) → Reads v m → Reads (int64 (v +ℤ n)) (publish "all" n m).1
unfolding publish set
publish-all n v m h = rw (publish, h) refl

publish-named :
    {name : String}
    → name ≡ "all"
    → (n v : ℤ) (m : Monitoring) → Reads v m
    → Reads (int64 (v +ℤ n)) (publish name n m).1
publish-named e n v m h =
    subst (λ name. Reads (int64 (v +ℤ n)) (publish name n m).1) (sym e) (publish-all n v m h)

-- The text of another topic is another text.
other_text : (topic : Topic) → is_all topic ≡ false → str_eq (topic_text topic) "all" ≡ false
unfolding topic_text
other_text waiting_for_confirmation e = refl
other_text confirmation_rate e = refl
other_text preloaded e = refl
other_text preloading_rate e = refl
other_text creating_rate e = refl
other_text deleting_rate e = refl
other_text sending_rate e = refl
other_text all e = cc e

is_all-eq : (topic : Topic) → is_all topic ≡ true → topic_text topic ≡ "all"
unfolding topic_text
is_all-eq waiting_for_confirmation e = cc e
is_all-eq confirmation_rate e = cc e
is_all-eq preloaded e = cc e
is_all-eq preloading_rate e = cc e
is_all-eq creating_rate e = cc e
is_all-eq deleting_rate e = cc e
is_all-eq sending_rate e = cc e
is_all-eq all e = refl

-- After a log, the metric of all tasks holds what it held with the sum of the log added.
pub publish_all-Reads :
    (log : List (Topic × ℤ)) (v : ℤ) (m : Monitoring)
    → IsInt64 v
    → Reads v m
    → Reads (int64 (v +ℤ total log)) (publish_all log m)
unfolding publish_all total
publish_all-Reads [] v m i h = rw (+ℤ_zero v, int64_eq v i) h
publish_all-Reads ((topic, n) ∷ log) v m i h = elim (Bool-cases (is_all topic)) [
  | inl b ↦
      rw (b, sym (+ℤ_assoc v n (total log)), sym (int64-add (v +ℤ n) (total log)))
        (publish_all-Reads log (int64 (v +ℤ n)) (publish (topic_text topic) n m).1
          (int64-IsInt64 (v +ℤ n)) (publish-named (is_all-eq topic b) n v m h))
  | inr b ↦ rw b (
      publish_all-Reads log v (publish (topic_text topic) n m).1 i
        (publish-other (topic_text topic) n v m (other_text topic b) h))
]
