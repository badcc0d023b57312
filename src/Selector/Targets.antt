-- ===== src/Selector/Targets.antt =====
-- The kernel's map `targets`, and what the events of step 10 of `Evaluate`
-- (src/collect/target_selector.cpp) make of it.
use e_trace_diag.Prelude.{
  ==_iff, ℕ, ◌≡◌, true, not, ◌&&◌, ◌||◌, List, [], ◌∷◌, ◌++◌, arith, ◌==◌, if◌then◌else◌, refl, sym,
  ap,
}
use e_trace_diag.Selector.Maps.{has, include}
use e_trace_diag.Selector.Evaluate.{
  TargetsEvent, join_event, leave_event, leave_events, join_events,
}

-- The map `targets` after an event, of updates that succeed.
abbrev pub remove : ℕ → List ℕ → List ℕ
remove k [] = []
remove k (j ∷ s) = if j == k then remove k s else j ∷ remove k s

has-append : (k : ℕ) (xs ys : List ℕ) → has k (xs ++ ys) ≡ (has k xs || has k ys)
has-append k [] ys = refl
has-append k (x ∷ xs) ys = ground (arith, has-append k xs ys)

has-remove : (k j : ℕ) (s : List ℕ) → has k (remove j s) ≡ (has k s && not (j == k))
has-remove k j [] = refl
has-remove k j (x ∷ s) = ground (arith, has-remove k j s)

pub has_same : (k j : ℕ) (s : List ℕ) → (j == k) ≡ true → has k s ≡ has j s
has_same k j s h = ap (λ i. has i s) (sym (omega (arith, (==_iff j k).0 h)))

pub has-include : (k j : ℕ) (s : List ℕ) → has k (include j s) ≡ (has k s || (j == k))
has-include k j s = ground (arith, has_same k j s, has-append k s (j ∷ []))

module _ {Double : Type 0} where
  unfoldable pub apply_events : List (TargetsEvent Double) → List ℕ → List ℕ
  apply_events [] targets = targets
  apply_events (join_event tid tgid score rank ∷ es) targets = apply_events es (include tid targets)
  apply_events (leave_event tid rank ∷ es) targets = apply_events es (remove tid targets)

  pub apply_events-append :
      (xs ys : List (TargetsEvent Double)) (s : List ℕ)
      → apply_events (xs ++ ys) s ≡ apply_events ys (apply_events xs s)
  unfolding apply_events
  apply_events-append [] ys s = refl
  apply_events-append (join_event tid tgid score rank ∷ xs) ys s = apply_events-append xs ys _
  apply_events-append (leave_event tid rank ∷ xs) ys s = apply_events-append xs ys _

  pub join_events_lem :
      (z : Double) (tgids rank : List (ℕ × ℕ)) (scores : List (ℕ × Double))
      (members desired s : List ℕ) (k : ℕ)
      → has k (apply_events (join_events z tgids rank scores members desired) s)
        ≡ (has k s || (has k desired && not (has k members)))
  unfolding apply_events join_events
  join_events_lem z tgids rank scores members [] s k = ground arith
  join_events_lem z tgids rank scores members (tid ∷ desired) s k = ground (
    arith,
    has_same k tid members,
    has-include k tid s,
    join_events_lem z tgids rank scores members desired s k,
    join_events_lem z tgids rank scores members desired (include tid s) k,
  )

-- After the leave events a thread is in the map if it was, and is desired or was no member.
pub leave_events_lem :
    (Double : Type 0) (tgids rank : List (ℕ × ℕ)) (desired members s : List ℕ) (k : ℕ)
    → has k (apply_events (leave_events {Double = Double} tgids rank desired members) s)
      ≡ (has k s && (has k desired || not (has k members)))
unfolding apply_events leave_events
leave_events_lem Double tgids rank desired [] s k = ground arith
leave_events_lem Double tgids rank desired (tid ∷ members) s k = ground (
  arith,
  has_same k tid desired,
  has-remove k tid s,
  leave_events_lem Double tgids rank desired members s k,
  leave_events_lem Double tgids rank desired members (remove tid s) k,
)

pub apply_no_events : (Double : Type 0) (s : List ℕ) → apply_events {Double = Double} [] s ≡ s
unfolding apply_events
apply_no_events Double s = refl
