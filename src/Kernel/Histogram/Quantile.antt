-- ===== src/Kernel/Histogram/Quantile.antt =====
-- What `PercentileUs` of src/collect/deep_collector.cpp says of the latencies that `add_hist13` of
-- bpf/etrace.bpf.c counted.
use e_trace_diag.Prelude.{
  ℕ, zero, suc, ◌+◌, ◌*◌, ◌^◌, ◌≤◌, ◌<◌, ◌≡◌, refl, ap, subst, sym, ◌∙◌, ltb→lt, if_cases, false,
  arith, List, ltb, length, take, All, some, ◌==◌, Bool-cases, inl, inr,
}
use e_trace_diag.Prelude.Float.{Float}
use e_trace_diag.Recorder.Percentile.{
  total_count, find_bin, find_bin_lem, bin_edge, rank_of, edge_us, percentile_us,
}
use e_trace_diag.Kernel.Histogram.BinRanges.{pow4, pow4-lt, lower4}
use e_trace_diag.Kernel.Histogram.Samples.{
  histogram, count_below, histogram_lem, histogram-length, take-all,
}

-- The latency of rank `t` lies in bin `i`: fewer than `t` come before the bin, and at least `t`
-- before the next one.
pub record HasRank (t i : ℕ) (ls : List ℕ) : Type 0 where
  pub bin : i ≤ 12
  pub before : count_below (lower4 i) ls < t
  pub reached : i < 12 → t ≤ count_below (lower4 (suc i)) ls

take-long : (ls : List ℕ) (k : ℕ) → 13 ≤ k → take k (histogram ls) ≡ histogram ls
take-long ls k h = take-all k (histogram ls) (omega (arith, h, histogram-length ls))

bin_edge-pow4 : (i : ℕ) → i ≤ 12 → bin_edge 256 4 i ≡ 256 * pow4 i
unfolding bin_edge
bin_edge-pow4 zero h = refl
bin_edge-pow4 (suc i) h =
    omega (arith, bin_edge-pow4 i (omega (arith, h)), pow4-lt i 12 (omega (arith, h)))

HasRank-found :
    (t k : ℕ) (ls : List ℕ)
    → All (λ ns. ns < 2 ^ 64) ls
    → length ls < 2 ^ 32
    → t ≤ total_count (take (suc k) (histogram ls))
    → total_count (take k (histogram ls)) < t
    → t ≤ length ls
    → HasRank t k ls
HasRank-found t k ls h l above below q = record {
  bin = few;
  before = omega (arith, firsts k few, below);
  reached = λ lt. omega (arith, firsts (suc k) (omega (arith, lt)), above);
}
  where
    every : total_count (histogram ls) ≡ length ls
    every = (histogram_lem ls h l).0

    firsts : (j : ℕ) → j ≤ 12 → total_count (take j (histogram ls)) ≡ count_below (lower4 j) ls
    firsts = (histogram_lem ls h l).1

    few : k ≤ 12
    few = elim (Bool-cases (ltb 12 k)) [
      | inl e ↦
          absurd (omega (arith, below, q, every, ap total_count (take-long ls k (ltb→lt 12 k e))))
      | inr e ↦ ground (arith, e)
    ]

zero_add : (k : ℕ) → 0 + k ≡ k
zero_add k = omega arith

find_bin-HasRank :
    (t : ℕ) (ls : List ℕ)
    → All (λ ns. ns < 2 ^ 64) ls
    → length ls < 2 ^ 32
    → 0 < t
    → t ≤ length ls
    → (i : ℕ) × (find_bin t 0 0 (histogram ls) ≡ some i) × HasRank t i ls
find_bin-HasRank t ls h l p q =
    let every = (histogram_lem ls h l).0 in
    let (k, found, above, below) = find_bin_lem t 0 0 (histogram ls) p (omega (arith, q, every)) in
    (
      k,
      found ∙ ap some (zero_add k),
      HasRank-found t k ls h l (omega (arith, above)) (omega (arith, below)) q,
    )

module _ (f : Float) (q : f.Double) where
  rank_of_pos : (n : ℕ) → 0 < rank_of f n q
  unfolding rank_of
  rank_of_pos n =
      if_cases (λ t. 0 < t) (f.truncate (f.mul (f.of_nat n) q) == 0) (λ e. omega arith)
        (λ e. ground (arith, e))

  percentile_us_lem :
      (hist : List ℕ) (i e : ℕ)
      → (total_count hist == 0) ≡ false
      → find_bin (rank_of f (total_count hist) q) 0 0 hist ≡ some i
      → bin_edge 256 4 i ≡ e
      → percentile_us f hist 256 4 q ≡ f.to_float (f.div (f.of_nat e) (f.of_nat 1000))
  unfolding percentile_us edge_us
  percentile_us_lem hist i e pos found edge =
      rw (pos, found) (ap (λ n. f.to_float (f.div (f.of_nat n) (f.of_nat 1000))) edge)

  -- Let at least one and fewer than 2 ^ 32 latencies of 64 bits be counted by `add_hist13` from an
  -- empty histogram on, and let `t` be the rank that `PercentileUs` asks for, at most their number.
  -- Then it gives 256 * 4 ^ i nanoseconds, in microseconds as a `float`, for a bin `i` in which the latency of
  -- rank `t` lies: fewer than `t` of them are below the bin and, unless it is the last bin, `t` or
  -- more are below the next.
  pub percentile_us-HasRank :
      (ls : List ℕ)
      → All (λ ns. ns < 2 ^ 64) ls
      → 0 < length ls
      → length ls < 2 ^ 32
      → rank_of f (length ls) q ≤ length ls
      → (i : ℕ) × (percentile_us f (histogram ls) 256 4 q
          ≡ f.to_float (f.div (f.of_nat (256 * pow4 i)) (f.of_nat 1000)))
        × HasRank (rank_of f (length ls) q) i ls
  percentile_us-HasRank ls h p l r =
      let every = (histogram_lem ls h l).0 in
      let (i, found, rank) = find_bin-HasRank (rank_of f (length ls) q) ls h l (rank_of_pos _) r in
      (
        i,
        percentile_us_lem (histogram ls) i (256 * pow4 i) (ground (arith, every, p))
            (subst (λ n. find_bin (rank_of f n q) 0 0 (histogram ls) ≡ some i) (sym every) found)
            (bin_edge-pow4 i rank.bin),
        rank,
      )
