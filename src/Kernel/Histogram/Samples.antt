-- ===== src/Kernel/Histogram/Samples.antt =====
-- Latencies that `add_hist13` of bpf/etrace.bpf.c counts, and what `PercentileUs` of
-- src/collect/deep_collector.cpp reads from the histogram.
use e_trace_diag.Prelude.{
  ℕ, zero, suc, ◌+◌, ◌^◌, ◌≤◌, ◌<◌, ◌≡◌, refl, ap, subst, sym, ◌∙◌, arith, List, [], ◌∷◌, ltb,
  if◌then◌else◌, Bool-cases, inl, inr, length, take, replicate, All, true, false, ltb→lt,
}
use e_trace_diag.Recorder.Percentile.{total_count}
use e_trace_diag.Kernel.Histogram.Bins.{count_in, base4_bin, add_hist13}
use e_trace_diag.Kernel.Histogram.BinRanges.{pow4-lt, lower4, InBin, base4_bin-InBin}

-- The histogram after the latencies, the last of them first.
unfoldable pub histogram : List ℕ → List ℕ
unfolding add_hist13
histogram [] = replicate 13 0
histogram (ns ∷ ls) = add_hist13 (histogram ls) ns

-- How many of the latencies are below `c`.
abbrev pub count_below : ℕ → List ℕ → ℕ
count_below c [] = 0
count_below c (x ∷ xs) = let rest = count_below c xs in if ltb x c then suc rest else rest

count_in-length : (b : ℕ) (hist : List ℕ) → length (count_in b hist) ≡ length hist
unfolding count_in
count_in-length b [] = refl
count_in-length zero (n ∷ ns) = refl
count_in-length (suc b) (n ∷ ns) = ap suc (count_in-length b ns)

total_count-count_in :
    (b k : ℕ) (hist : List ℕ)
    → b < length hist
    → total_count hist + 1 < 2 ^ 32
    → total_count (take k (count_in b hist))
      ≡ (if ltb b k then total_count (take k hist) + 1 else total_count (take k hist))
unfolding count_in total_count
total_count-count_in b k [] h l = absurd (omega (arith, h))
total_count-count_in zero zero (n ∷ ns) h l = ground arith
total_count-count_in (suc b) zero (n ∷ ns) h l = ground arith
total_count-count_in zero (suc k) (n ∷ ns) h l = ground (arith, l)
total_count-count_in (suc b) (suc k) (n ∷ ns) h l =
    ground (arith, total_count-count_in b k ns (omega (arith, h)) (omega (arith, l)))

pub take-all : (k : ℕ) (hist : List ℕ) → length hist ≤ k → take k hist ≡ hist
take-all zero [] h = refl
take-all zero (n ∷ ns) h = absurd (omega (arith, h))
take-all (suc k) [] h = refl
take-all (suc k) (n ∷ ns) h = ap (◌∷◌ n) (take-all k ns (omega (arith, h)))

lt→ltb : (a b : ℕ) → a < b → ltb a b ≡ true
lt→ltb a b h = ground arith

ltb-le : (a b : ℕ) → b ≤ a → ltb a b ≡ false
ltb-le a b h = ground arith

ltb-eq : (i k : ℕ) → ltb i k ≡ false → ltb k i ≡ false → i ≡ k
ltb-eq i k e f = ground arith

total_count-zeros : (k n : ℕ) → total_count (take k (replicate n 0)) ≡ 0
unfolding total_count
total_count-zeros zero n = refl
total_count-zeros (suc k) zero = refl
total_count-zeros (suc k) (suc n) = omega (arith, total_count-zeros k n)

count_below-cons :
    (c x : ℕ) (xs : List ℕ)
    → count_below c (x ∷ xs) ≡ (if ltb x c then count_below c xs + 1 else count_below c xs)
count_below-cons c x xs = ground arith

pub histogram-length : (ls : List ℕ) → length (histogram ls) ≡ 13
unfolding histogram
histogram-length [] = refl
histogram-length (ns ∷ ls) = count_in-length (base4_bin ns) (histogram ls) ∙ histogram-length ls

lower4-above : (i k ns : ℕ) → k ≤ 12 → InBin i ns → i < k → ns < lower4 k
lower4-above i zero ns l b h = absurd (omega (arith, h))
lower4-above i (suc k) ns l b h = omega (arith, b.upper (omega (arith, h, l)), pow4-lt i (suc k) h)

lower4-below : (i k ns : ℕ) → InBin i ns → k < i → lower4 k ≤ ns
lower4-below i zero ns b h = omega arith
lower4-below zero (suc k) ns b h = absurd (omega (arith, h))
lower4-below (suc i) (suc k) ns b h = omega (arith, b.lower, pow4-lt (suc k) (suc i) h)

-- A latency is below the least value of bin `k` when its own bin comes before.
ltb-lower4 : (i k ns : ℕ) → k ≤ 12 → InBin i ns → ltb i k ≡ ltb ns (lower4 k)
ltb-lower4 i k ns l b = elim (Bool-cases (ltb i k)) [
  | inl e ↦ e ∙ sym (lt→ltb ns (lower4 k) (lower4-above i k ns l b (ltb→lt i k e)))
  | inr e ↦ elim (Bool-cases (ltb k i)) [
    | inl f ↦ e ∙ sym (ltb-le ns (lower4 k) (lower4-below i k ns b (ltb→lt k i f)))
    | inr f ↦ e ∙ sym (ltb-le ns (lower4 k) (subst (λ j. lower4 j ≤ ns) (ltb-eq i k e f) b.lower))
  ]
]

here : (ns : ℕ) (ls : List ℕ) → ns < 2 ^ 64 → base4_bin ns < length (histogram ls)
here ns ls small = omega (arith, histogram-length ls, (base4_bin-InBin ns small).bin)

added :
    (ns : ℕ) (ls : List ℕ) (k : ℕ)
    → k ≤ 12
    → ns < 2 ^ 64
    → total_count (histogram ls) + 1 < 2 ^ 32
    → total_count (take k (histogram ls)) ≡ count_below (lower4 k) ls
    → total_count (take k (histogram (ns ∷ ls))) ≡ count_below (lower4 k) (ns ∷ ls)
unfolding histogram
added ns ls k b small room e =
    total_count-count_in (base4_bin ns) k (histogram ls) (here ns ls small) room
    ∙ ap
        (λ test.
          if test
          then total_count (take k (histogram ls)) + 1
          else total_count (take k (histogram ls)))
        (ltb-lower4 (base4_bin ns) k ns b (base4_bin-InBin ns small))
    ∙ ap (λ n. if ltb ns (lower4 k) then n + 1 else n) e
    ∙ sym (count_below-cons (lower4 k) ns ls)

pub total_count-histogram :
    (ls : List ℕ) → total_count (take 13 (histogram ls)) ≡ total_count (histogram ls)
total_count-histogram ls =
    ap total_count (take-all 13 (histogram ls) (omega (arith, histogram-length ls)))

added_all :
    (ns : ℕ) (ls : List ℕ)
    → ns < 2 ^ 64
    → total_count (histogram ls) ≡ length ls
    → length ls + 1 < 2 ^ 32
    → total_count (histogram (ns ∷ ls)) ≡ suc (length ls)
unfolding histogram
added_all ns ls small e l =
    sym (total_count-histogram (ns ∷ ls))
    ∙ total_count-count_in (base4_bin ns) 13 (histogram ls) (here ns ls small) (omega (arith, e, l))
    ∙ ap
        (λ test.
          if test
          then total_count (take 13 (histogram ls)) + 1
          else total_count (take 13 (histogram ls)))
        (lt→ltb (base4_bin ns) 13 (omega (arith, (base4_bin-InBin ns small).bin)))
    ∙ omega (arith, total_count-histogram ls, e)

-- The first `k` bins hold the latencies below the least value of bin `k`.
pub histogram_lem :
    (ls : List ℕ)
    → All (λ ns. ns < 2 ^ 64) ls
    → length ls < 2 ^ 32
    → (total_count (histogram ls) ≡ length ls)
      × ((k : ℕ) → k ≤ 12 → total_count (take k (histogram ls)) ≡ count_below (lower4 k) ls)
unfolding histogram total_count
histogram_lem [] h l = (refl, λ k b. total_count-zeros k 13)
histogram_lem (ns ∷ ls) (small, h) l =
    let (every, firsts) = histogram_lem ls h (omega (arith, l)) in
    (
      added_all ns ls small every (omega (arith, l)),
      λ k b. added ns ls k b small (omega (arith, l, every)) (firsts k b),
    )
