-- ===== src/Selector/DesiredBounds.antt =====
-- The desired set of `Evaluate` (src/collect/target_selector.cpp): its size, and the pinned threads.
use e_trace_diag.Prelude.{
  ℕ, zero, suc, ◌≤◌, ◌≡◌, true, not, ◌&&◌, List, [], ◌∷◌, ◌++◌, arith, leb, if_cases, length,
  length-append,
}
use e_trace_diag.Selector.Maps.{has, include, find_or}
use e_trace_diag.Selector.Hysteresis.{ProcState, fresh}
use e_trace_diag.Selector.Desired.{take_threads, take_fallback, pick_threads, fall_back, empty}

has-append : (k j : ℕ) (s : List ℕ) → has k s ≡ true → has k (s ++ j ∷ []) ≡ true
has-append k j [] h = ground arith
has-append k j (x ∷ s) h = ground (arith, has-append k j s)

include_keeps : (k j : ℕ) (s : List ℕ) → has k s ≡ true → has k (include j s) ≡ true
include_keeps k j s h = ground (arith, has-append k j s h)

length-include : (k : ℕ) (s : List ℕ) → length (include k s) ≤ suc (length s)
length-include k s = ground (arith, length-append s (k ∷ []))

include_same : (k : ℕ) (s : List ℕ) → has k s ≡ true → include k s ≡ s
include_same k s h = ground arith

take_threads-length :
    (n budget t : ℕ) (tids s : List ℕ)
    → budget ≤ n
    → length s ≤ n
    → length (take_threads budget t tids s) ≤ n
unfolding take_threads
take_threads-length n budget t [] s b h = h
take_threads-length n budget zero (tid ∷ tids) s b h = h
take_threads-length n budget (suc t) (tid ∷ tids) s b h = ground (
  arith,
  include_same tid s,
  length-include tid s,
  take_threads-length n budget t tids (include tid s) b,
)

take_fallback-length :
    (n budget t : ℕ) (tids s : List ℕ)
    → budget ≤ n
    → length s ≤ n
    → length (take_fallback budget t tids s) ≤ n
unfolding take_fallback
take_fallback-length n budget t [] s b h = h
take_fallback-length n budget zero (tid ∷ tids) s b h = h
take_fallback-length n budget (suc t) (tid ∷ tids) s b h =
    ground (arith, length-include tid s, take_fallback-length n budget t tids (include tid s) b)

take_threads_keeps :
    (k budget t : ℕ) (tids s : List ℕ)
    → has k s ≡ true
    → has k (take_threads budget t tids s) ≡ true
unfolding take_threads
take_threads_keeps k budget t [] s h = h
take_threads_keeps k budget zero (tid ∷ tids) s h = h
take_threads_keeps k budget (suc t) (tid ∷ tids) s h =
    if_cases (λ (r : List ℕ). has k r ≡ true) (leb budget (length s) && not (has tid s)) (λ e. h)
      (λ e. take_threads_keeps k budget t tids (include tid s) (include_keeps k tid s h))

module _ {Double : Type 0} (sort_scores : List (ℕ × Double) → List (ℕ × Double)) (budget per : ℕ)
    (pstate : List (ℕ × ProcState)) (by_proc : List (ℕ × List (ℕ × Double))) where
  pub pick_threads-length :
      (n : ℕ) (order s : List ℕ)
      → budget ≤ n
      → length s ≤ n
      → length (pick_threads sort_scores budget per pstate by_proc order s) ≤ n
  unfolding pick_threads
  pick_threads-length n [] s b h = h
  pick_threads-length n (tgid ∷ order) s b h = pick_threads-length n order _ b (
      if_cases (λ (r : List ℕ). length r ≤ n)
        (not (find_or (fresh tgid) tgid pstate).pinned_proc
          && not (find_or (fresh tgid) tgid pstate).member)
        (λ e. h) (λ e. take_threads-length n budget per _ s b h))

  pub pick_threads_keeps :
      (k : ℕ) (order s : List ℕ)
      → has k s ≡ true
      → has k (pick_threads sort_scores budget per pstate by_proc order s) ≡ true
  unfolding pick_threads
  pick_threads_keeps k [] s h = h
  pick_threads_keeps k (tgid ∷ order) s h = pick_threads_keeps k order _ (
      if_cases (λ (r : List ℕ). has k r ≡ true)
        (not (find_or (fresh tgid) tgid pstate).pinned_proc
          && not (find_or (fresh tgid) tgid pstate).member)
        (λ e. h) (λ e. take_threads_keeps k budget per _ s h))

  pub fall_back-length :
      (n now_ns : ℕ) (pscored : List (ℕ × Double)) (s : List ℕ)
      → budget ≤ n
      → length s ≤ n
      → length (fall_back sort_scores budget per now_ns pscored by_proc pstate s).1 ≤ n
  unfolding fall_back
  fall_back-length n now_ns [] s b h = h
  fall_back-length n now_ns ((top, score) ∷ pscored) s b h =
      if_cases (λ (r : List (ℕ × ProcState) × List ℕ). length r.1 ≤ n) (empty s)
        (λ e. take_fallback-length n budget per _ s b h) (λ e. h)

  pub fall_back_keeps :
      (k now_ns : ℕ) (pscored : List (ℕ × Double)) (s : List ℕ)
      → has k s ≡ true
      → has k (fall_back sort_scores budget per now_ns pscored by_proc pstate s).1 ≡ true
  unfolding fall_back
  fall_back_keeps k now_ns [] s h = h
  fall_back_keeps k now_ns ((top, score) ∷ pscored) [] h = absurd (ground arith)
  fall_back_keeps k now_ns ((top, score) ∷ pscored) (x ∷ s) h = h
