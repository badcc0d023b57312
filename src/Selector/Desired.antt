-- ===== src/Selector/Desired.antt =====
-- Step 9 of `Evaluate` (src/collect/target_selector.cpp): the threads that are to be traced.
use e_trace_diag.Prelude.{
  ℕ, zero, suc, Bool, true, false, not, ◌&&◌, List, [], ◌∷◌, ◌++◌, leb, if◌then◌else◌, length,
}
use e_trace_diag.Selector.Maps.{adjust, find_or, store, has, include}
use e_trace_diag.Selector.Counters.{tgid_of}
use e_trace_diag.Selector.Hysteresis.{ProcState, fresh}

-- The loop over the threads of one process, the best first: at most `take` of them, and none that
-- is new once the budget is reached.
unfoldable pub take_threads : ℕ → ℕ → List ℕ → List ℕ → List ℕ
take_threads budget take [] desired = desired
take_threads budget zero (tid ∷ tids) desired = desired
take_threads budget (suc take) (tid ∷ tids) desired =
    let rest = take_threads budget take tids (include tid desired) in
    if leb budget (length desired) && not (has tid desired) then desired else rest

-- The same loop of the fallback, which stops at the budget in any case.
unfoldable pub take_fallback : ℕ → ℕ → List ℕ → List ℕ → List ℕ
take_fallback budget take [] desired = desired
take_fallback budget zero (tid ∷ tids) desired = desired
take_fallback budget (suc take) (tid ∷ tids) desired =
    let rest = take_fallback budget take tids (include tid desired) in
    if leb budget (length desired) then desired else rest

abbrev pub empty : List ℕ → Bool
empty [] = true
empty (x ∷ xs) = false

abbrev pub firsts : {D : Type 0} → List (ℕ × D) → List ℕ
firsts [] = []
firsts ((k, d) ∷ m) = k ∷ firsts m

module _ {Double : Type 0} where
  -- `threads_by_proc` before its lists are sorted.
  unfoldable pub threads_by_proc :
      List (ℕ × ℕ) → List (ℕ × Double) → List (ℕ × List (ℕ × Double)) → List (ℕ × List (ℕ × Double))
  unfolding store find_or tgid_of
  threads_by_proc tgids [] m = m
  threads_by_proc tgids ((tid, score) ∷ scores) m =
      let tgid = tgid_of tgids tid in
      threads_by_proc tgids scores (store tgid (find_or [] tgid m ++ (tid, score) ∷ []) m)

  module _ (sort_scores : List (ℕ × Double) → List (ℕ × Double)) (budget per_proc_threads : ℕ) where
    -- The loop over the processes, in the order `order` in which the map is iterated.
    unfoldable pub pick_threads :
        List (ℕ × ProcState) → List (ℕ × List (ℕ × Double)) → List ℕ → List ℕ → List ℕ
    unfolding take_threads find_or
    pick_threads pstate by_proc [] desired = desired
    pick_threads pstate by_proc (tgid ∷ order) desired =
        let st = find_or (fresh tgid) tgid pstate in
        pick_threads pstate by_proc order (
          if not st.pinned_proc && not st.member
          then desired
          else take_threads budget per_proc_threads (firsts (sort_scores (find_or [] tgid by_proc)))
              desired)

    -- The best process and its threads, if nothing is desired: the fallback.
    unfoldable pub fall_back :
        ℕ
        → List (ℕ × Double)
        → List (ℕ × List (ℕ × Double))
        → List (ℕ × ProcState)
        → List ℕ
        → List (ℕ × ProcState) × List ℕ
    unfolding take_fallback find_or adjust
    fall_back now_ns [] by_proc pstate desired = (pstate, desired)
    fall_back now_ns ((top, score) ∷ pscored) by_proc pstate desired =
        if empty desired
        then (
          adjust top (λ st. record st { member = true; joined_ns = now_ns }) pstate,
          take_fallback budget per_proc_threads (firsts (sort_scores (find_or [] top by_proc)))
              desired,
        )
        else (pstate, desired)
