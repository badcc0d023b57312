-- ===== src/Selector/History.antt =====
-- The sliding window of `Evaluate` (src/collect/target_selector.cpp).
use e_trace_diag.Prelude.{
  ℕ, suc, ◌≤◌, ◌≡◌, ◌⊎◌, ◌&&◌, List, [], ◌∷◌, arith, ltb, refl, if_cases, length, sub64, drop,
}
use e_trace_diag.Selector.Evaluate.{Snapshot, slide}

-- The first snapshot is at most `window_ns` old, or only two are left.
abbrev pub InWindow : ℕ → ℕ → List Snapshot → Type 0
InWindow window_ns now_ns [] = Unit {0}
InWindow window_ns now_ns (s ∷ ss) = (length (s ∷ ss) ≤ 2) ⊎ (sub64 now_ns s.ts_ns ≤ window_ns)

-- The loop that slides the window drops snapshots from the front only, keeps at least two of them
-- where it has two, and stops when the first is at most `window_ns` old or two are left.
pub slide_lem :
    (window_ns now_ns : ℕ) (history : List Snapshot)
    → 2 ≤ length history
    → (2 ≤ length (slide window_ns now_ns history))
      × InWindow window_ns now_ns (slide window_ns now_ns history)
      × ((n : ℕ) × (slide window_ns now_ns history ≡ drop n history))
unfolding slide
slide_lem window_ns now_ns [] h = absurd (omega (arith, h))
slide_lem window_ns now_ns (s ∷ ss) h =
    if_cases
      (λ (r : List Snapshot).
        (2 ≤ length r) × InWindow window_ns now_ns r × ((n : ℕ) × (r ≡ drop n (s ∷ ss))))
      (ltb 2 (length (s ∷ ss)) && ltb window_ns (sub64 now_ns s.ts_ns))
      (λ e. let (a, b, (n, c)) = slide_lem window_ns now_ns ss (ground arith) in (a, b, (suc n, c)))
      (λ e. (h, ground arith, (0, refl)))
