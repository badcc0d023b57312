-- ===== src/Selector/PinnedTraced.antt =====
-- What the start-up and the evaluations of `TargetSelector` (src/collect/target_selector.cpp) make
-- of the pinned threads.
use e_trace_diag.Prelude.{
  inl, inr, Bool-cases, ℕ, ◌≡◌, true, false, ◌||◌, List, [], ◌∷◌, arith, refl, sym, ap, ◌∙◌, ◌==◌,
}
use e_trace_diag.Prelude.Float.{Float}
use e_trace_diag.Selector.Maps.{has}
use e_trace_diag.Selector.Evaluate.{Host}
use e_trace_diag.Selector.Targets.{has-include, has_same}
use e_trace_diag.Selector.Membership.{evaluate-targets, evaluate_keeps_pinned, evaluate-pinned}
use e_trace_diag.Selector.Pinned.{
  Proc, Tracing, pin, apply_pinned, new_tracing, Evaluation, follow, follow_all,
}

-- The kernel's map holds the members, and the pinned threads are members.
record IsTraced (t : Tracing) : Type 0 where
  follows : (k : ℕ) → has k t.targets ≡ has k t.selector.members
  pinned_stay : (k : ℕ) → has k t.selector.pinned ≡ true → has k t.selector.members ≡ true

pin-IsTraced : (p : Proc) (tid : ℕ) (t : Tracing) → IsTraced t → IsTraced (pin p tid t)
unfolding pin
pin-IsTraced p tid t h = record {
  follows = λ k.
      has-include k tid t.targets
      ∙ ap (λ b. b || (tid == k)) (h.follows k)
      ∙ sym (has-include k tid t.selector.members);
  pinned_stay = λ k e. ground (
    arith,
    has-include k tid t.selector.pinned,
    has-include k tid t.selector.members,
    h.pinned_stay k,
    e,
  );
}

apply_pinned-IsTraced :
    (p : Proc) (tids : List ℕ) (t : Tracing) → IsTraced t → IsTraced (apply_pinned p tids t)
unfolding apply_pinned
apply_pinned-IsTraced p [] t h = h
apply_pinned-IsTraced p (tid ∷ tids) t h =
    apply_pinned-IsTraced p tids _ (elim (Bool-cases (tid == 0 || has tid t.selector.pinned)) [
      | inl e ↦ rw e h
      | inr e ↦ rw e (pin-IsTraced p tid t h)
    ])

pin-pinned :
    (p : Proc) (tid : ℕ) (t : Tracing) (k : ℕ)
    → has k (pin p tid t).selector.pinned ≡ (has k t.selector.pinned || (tid == k))
unfolding pin
pin-pinned p tid t k = has-include k tid t.selector.pinned

-- Every thread that is asked for, but the thread 0, gets pinned, and the ones that were remain so.
apply_pinned-pinned :
    (p : Proc) (tids : List ℕ) (t : Tracing) (k : ℕ)
    → (k == 0) ≡ false
    → (has k t.selector.pinned || has k tids) ≡ true
    → has k (apply_pinned p tids t).selector.pinned ≡ true
unfolding apply_pinned
apply_pinned-pinned p [] t k z h = ground arith
apply_pinned-pinned p (tid ∷ tids) t k z h =
    apply_pinned-pinned p tids _ k z (elim (Bool-cases (tid == 0 || has tid t.selector.pinned)) [
      | inl e ↦ rw e (ground (arith, has_same k tid t.selector.pinned))
      | inr e ↦ rw e (ground (arith, pin-pinned p tid t k))
    ])

module _ (f : Float) (host : Host f) where
  follow-IsTraced :
      (e : Evaluation f host) (t : Tracing) → IsTraced t → IsTraced (follow f host e t)
  unfolding follow
  follow-IsTraced e t h =
      let sel = record t.selector { thread_budget = e.budget } in
      let pinned = evaluate-pinned f host e.maps e.cfg e.table e.now_ns sel in
      record {
        follows = evaluate-targets f host e.maps e.cfg e.table e.now_ns sel t.targets h.follows;
        pinned_stay = λ k a.
            let b = sym (ap (has k) pinned) ∙ a in
            evaluate_keeps_pinned f host e.maps e.cfg e.table e.now_ns sel k b (h.pinned_stay k b);
      }

  follow_all-IsTraced :
      (es : List (Evaluation f host)) (t : Tracing) → IsTraced t → IsTraced (follow_all f host es t)
  unfolding follow_all
  follow_all-IsTraced [] t h = h
  follow_all-IsTraced (e ∷ es) t h = follow_all-IsTraced es _ (follow-IsTraced e t h)

  follow_all-pinned :
      (es : List (Evaluation f host)) (t : Tracing) (k : ℕ)
      → has k t.selector.pinned ≡ true
      → has k (follow_all f host es t).selector.pinned ≡ true
  unfolding follow_all follow
  follow_all-pinned [] t k h = h
  follow_all-pinned (e ∷ es) t k h =
      let sel = record t.selector { thread_budget = e.budget } in
      follow_all-pinned es _ k
        (ap (has k) (evaluate-pinned f host e.maps e.cfg e.table e.now_ns sel) ∙ h)

  -- A thread that the configuration pins, other than 0, is in the kernel's map `targets` after the
  -- start-up and after any evaluations, whatever their configurations, budgets and tables are. Updates
  -- of the map succeed.
  pub pinned_traced :
      (p : Proc) (tids : List ℕ) (es : List (Evaluation f host)) (k : ℕ)
      → (k == 0) ≡ false
      → has k tids ≡ true
      → has k (follow_all f host es (apply_pinned p tids new_tracing)).targets ≡ true
  pinned_traced p tids es k z a =
      let started = apply_pinned p tids new_tracing in
      let h = follow_all-IsTraced es started (
        apply_pinned-IsTraced p tids new_tracing
          (record { follows = λ i. refl; pinned_stay = λ i e. e })) in
      h.follows k
      ∙ h.pinned_stay k
          (follow_all-pinned es started k (apply_pinned-pinned p tids new_tracing k z a))
