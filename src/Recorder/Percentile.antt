-- ===== src/Recorder/Percentile.antt =====
-- `PercentileUs` of src/collect/deep_collector.cpp, on a histogram as the list of its bins.
use e_trace_diag.Prelude.{
  ℕ, zero, suc, ◌+◌, ◌*◌, ◌≤◌, ◌<◌, ◌≡◌, List, [], ◌∷◌, Option, some, none, leb, ◌==◌,
  if◌then◌else◌, arith, u64, take, Bool-cases, leb→le, inl, inr,
}
use e_trace_diag.Prelude.Float.{Float}

-- The count of the samples. The sum of 64 counters of 32 bits does not wrap.
unfoldable pub total_count : List ℕ → ℕ
total_count [] = 0
total_count (n ∷ ns) = n + total_count ns

-- The loop that adds up the bins from number `i` on until they reach the target.
unfoldable pub find_bin : ℕ → ℕ → ℕ → List ℕ → Option ℕ
find_bin target acc i [] = none
find_bin target acc i (n ∷ ns) =
    let rest = find_bin target (acc + n) (suc i) ns in if leb target (acc + n) then some i else rest

-- `lo`: the lower edge of bin `i`.
unfoldable pub bin_edge : ℕ → ℕ → ℕ → ℕ
bin_edge base_ns factor zero = base_ns
bin_edge base_ns factor (suc i) = u64 (bin_edge base_ns factor i * factor)

module _ (f : Float) where
  open f use {Double, of_nat, mul, div, truncate, to_float}

  unfoldable pub rank_of : ℕ → Double → ℕ
  rank_of total q =
      let target = truncate (mul (of_nat total) q) in if target == 0 then 1 else target

  -- The zero of `return 0.0f`, and the edge as a `float`.
  unfoldable pub edge_us : ℕ → ℕ → Option ℕ → Double
  unfolding bin_edge
  edge_us base_ns factor none = of_nat 0
  edge_us base_ns factor (some i) =
      to_float (div (of_nat (bin_edge base_ns factor i)) (of_nat 1000))

  unfoldable pub percentile_us : List ℕ → ℕ → ℕ → Double → Double
  unfolding total_count find_bin rank_of edge_us
  percentile_us hist base_ns factor q =
      if total_count hist == 0
      then of_nat 0
      else edge_us base_ns factor (find_bin (rank_of (total_count hist) q) 0 0 hist)

-- Where the histogram has at least as many samples as the target, which is not 0, the loop ends at
-- a bin: the bins up to it hold the target, and those before it do not.
pub find_bin_lem :
    (target acc i : ℕ) (hist : List ℕ)
    → acc < target
    → target ≤ acc + total_count hist
    → (k : ℕ) × (find_bin target acc i hist ≡ some (i + k))
      × (target ≤ acc + total_count (take (suc k) hist))
      × (acc + total_count (take k hist) < target)
unfolding find_bin total_count
find_bin_lem target acc i [] h l = absurd (omega (arith, h, l))
find_bin_lem target acc i (n ∷ ns) h l = elim (Bool-cases (leb target (acc + n))) [
  | inl e ↦ (0, ground (arith, e), omega (arith, leb→le target (acc + n) e), omega (arith, h))
  | inr e ↦
      let (k, a, b, c) =
        find_bin_lem target (acc + n) (suc i) ns (ground (arith, e)) (omega (arith, l)) in
      (suc k, ground (arith, e, a), omega (arith, b), omega (arith, c))
]
