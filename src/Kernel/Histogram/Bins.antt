-- ===== src/Kernel/Histogram/Bins.antt =====
-- The histograms of bpf/etrace.bpf.c: `base4_bin` and `add_hist13`, `log2l_bin` and `add_hist64`.
-- A histogram is the list of its bins, which are counters of 32 bits.
use e_trace_diag.Prelude.{ℕ, zero, suc, ◌+◌, ◌/◌, List, [], ◌∷◌, ltb, if◌then◌else◌, u32}

-- At most `n` rounds that shift `v` by two bits while it is at least 4.
unfoldable pub shift_by_two : ℕ → ℕ → ℕ → ℕ
shift_by_two zero v b = b
shift_by_two (suc n) v b = let rest = shift_by_two n (v / 4) (b + 1) in if ltb v 4 then b else rest

unfoldable pub base4_bin : ℕ → ℕ
unfolding shift_by_two
base4_bin ns =
    let b = shift_by_two 30 (ns / 256) 0 in if ltb ns 256 then 0 else if ltb 12 b then 12 else b

-- `hist[i]++`; both callers give an index below the number of bins.
unfoldable pub count_in : ℕ → List ℕ → List ℕ
count_in i [] = []
count_in zero (n ∷ ns) = u32 (n + 1) ∷ ns
count_in (suc i) (n ∷ ns) = n ∷ count_in i ns

unfoldable pub add_hist13 : List ℕ → ℕ → List ℕ
unfolding count_in base4_bin
add_hist13 hist ns = count_in (base4_bin ns) hist

-- At most `n` rounds that shift `v` by one bit while it is at least 2.
unfoldable pub shift_by_one : ℕ → ℕ → ℕ → ℕ
shift_by_one zero v b = b
shift_by_one (suc n) v b = let rest = shift_by_one n (v / 2) (b + 1) in if ltb v 2 then b else rest

unfoldable pub log2l_bin : ℕ → ℕ
unfolding shift_by_one
log2l_bin v = let b = shift_by_one 63 v 0 in if ltb v 2 then 0 else if ltb 63 b then 63 else b

unfoldable pub add_hist64 : List ℕ → ℕ → List ℕ
unfolding count_in log2l_bin
add_hist64 hist ns = count_in (log2l_bin ns) hist
