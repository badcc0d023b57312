-- ===== src/Kernel/Histogram/BinRanges.antt =====
-- Which values the bins of bpf/etrace.bpf.c count.
use e_trace_diag.Prelude.{
  ℕ, zero, suc, ◌+◌, ◌*◌, ◌/◌, ◌^◌, ◌≤◌, ◌<◌, ◌≡◌, ◌↔◌, subst, if_cases, ltb→lt, arith, ltb,
  if◌then◌else◌, Bool-cases, inl, inr,
}
use e_trace_diag.Kernel.Histogram.Bins.{shift_by_two, base4_bin, shift_by_one, log2l_bin}

abbrev pub pow4 : ℕ → ℕ
pow4 zero = 1
pow4 (suc n) = 4 * pow4 n

abbrev pub pow2 : ℕ → ℕ
pow2 zero = 1
pow2 (suc n) = 2 * pow2 n

pub pow4-lt : (i k : ℕ) → i < k → 4 * pow4 i ≤ pow4 k
pow4-lt i zero h = absurd (omega (arith, h))
pow4-lt zero (suc zero) h = omega arith
pow4-lt (suc i) (suc zero) h = absurd (omega (arith, h))
pow4-lt zero (suc (suc k)) h = omega (arith, pow4-lt 0 (suc k) (omega arith))
pow4-lt (suc i) (suc (suc k)) h = omega (arith, pow4-lt i (suc k) (omega (arith, h)))

pow2-lt : (i k : ℕ) → i < k → 2 * pow2 i ≤ pow2 k
pow2-lt i zero h = absurd (omega (arith, h))
pow2-lt zero (suc zero) h = omega arith
pow2-lt (suc i) (suc zero) h = absurd (omega (arith, h))
pow2-lt zero (suc (suc k)) h = omega (arith, pow2-lt 0 (suc k) (omega arith))
pow2-lt (suc i) (suc (suc k)) h = omega (arith, pow2-lt i (suc k) (omega (arith, h)))

from_zero : {b k : ℕ} → b ≡ 0 + k → k ≡ b
from_zero e = omega (arith, e)

-- With rounds enough, the loop finds the power below the value.
shift_by_two_lem :
    (n v b : ℕ)
    → 0 < v
    → v < 4 * pow4 n
    → (k : ℕ) × (shift_by_two n v b ≡ b + k) × (pow4 k ≤ v) × (v < 4 * pow4 k)
unfolding shift_by_two
shift_by_two_lem zero v b p h = (0, omega arith, omega (arith, p), omega (arith, h))
shift_by_two_lem (suc n) v b p h = elim (Bool-cases (ltb v 4)) [
  | inl e ↦ (0, ground (arith, e), omega (arith, p), ground (arith, e))
  | inr e ↦
      let (k, r, lo, hi) =
        shift_by_two_lem n (v / 4) (b + 1) (ground (arith, e)) (omega (arith, h)) in
      (suc k, ground (arith, e, r), omega (arith, lo), omega (arith, hi))
]

shift_by_one_lem :
    (n v b : ℕ)
    → 0 < v
    → v < 2 * pow2 n
    → (k : ℕ) × (shift_by_one n v b ≡ b + k) × (k ≤ n) × (pow2 k ≤ v) × (v < 2 * pow2 k)
unfolding shift_by_one
shift_by_one_lem zero v b p h = (0, omega arith, omega arith, omega (arith, p), omega (arith, h))
shift_by_one_lem (suc n) v b p h = elim (Bool-cases (ltb v 2)) [
  | inl e ↦ (0, ground (arith, e), omega arith, omega (arith, p), ground (arith, e))
  | inr e ↦
      let (k, r, l, lo, hi) =
        shift_by_one_lem n (v / 2) (b + 1) (ground (arith, e)) (omega (arith, h)) in
      (suc k, ground (arith, e, r), omega (arith, l), omega (arith, lo), omega (arith, hi))
]

-- The least value of bin `i` of `base4_bin`.
abbrev pub lower4 : ℕ → ℕ
lower4 zero = 0
lower4 (suc i) = 1024 * pow4 i

-- `ns` lies in bin `i` of 13, of which the last has no upper end.
pub record InBin (i ns : ℕ) : Type 0 where
  pub bin : i ≤ 12
  pub lower : lower4 i ≤ ns
  pub upper : i < 12 → ns < 1024 * pow4 i

pub InBin-apart : (i k ns : ℕ) → InBin i ns → InBin k ns → i < k → ◌≡◌ {A = ℕ} 0 1
InBin-apart i zero ns a b h = absurd (omega (arith, h))
InBin-apart i (suc k) ns a b h =
    omega (arith, a.upper (omega (arith, h, b.bin)), b.lower, pow4-lt i (suc k) h)

InBin-unique : (i k ns : ℕ) → InBin i ns → InBin k ns → i ≡ k
InBin-unique i k ns a b = elim (Bool-cases (ltb i k)) [
  | inl e ↦ absurd (omega (arith, InBin-apart i k ns a b (ltb→lt i k e)))
  | inr e ↦ elim (Bool-cases (ltb k i)) [
    | inl f ↦ absurd (omega (arith, InBin-apart k i ns b a (ground (arith, f))))
    | inr f ↦ ground (arith, e, f)
  ]
]

InBin-big : (k ns : ℕ) → 12 < k → 256 * pow4 k ≤ ns → InBin 12 ns
InBin-big k ns h l = record {
  bin = omega arith;
  lower = omega (arith, l, pow4-lt 12 k h);
  upper = λ lt. absurd (omega (arith, lt));
}

InBin-small : (k ns : ℕ) → k ≤ 12 → 256 * pow4 k ≤ ns → ns < 1024 * pow4 k → InBin k ns
InBin-small zero ns h l u = record { bin = h; lower = omega arith; upper = λ lt. u }
InBin-small (suc k) ns h l u = record { bin = h; lower = omega (arith, l); upper = λ lt. u }

InBin-capped :
    (k ns : ℕ) → 256 * pow4 k ≤ ns → ns < 1024 * pow4 k → InBin (if ltb 12 k then 12 else k) ns
InBin-capped k ns lo hi =
    if_cases (λ b. InBin b ns) (ltb 12 k) (λ f. InBin-big k ns (ltb→lt 12 k f) lo)
      (λ f. InBin-small k ns (ground (arith, f)) lo hi)

pub base4_bin-InBin : (ns : ℕ) → ns < 2 ^ 64 → InBin (base4_bin ns) ns
unfolding base4_bin
base4_bin-InBin ns h =
    if_cases (λ b. InBin b ns) (ltb ns 256)
      (λ e. record { bin = omega arith; lower = omega arith; upper = λ lt. ground (arith, e) })
      (λ e.
        let (k, r, lo, hi) =
          shift_by_two_lem 30 (ns / 256) 0 (ground (arith, e)) (omega (arith, h)) in
        subst (λ b. InBin (if ltb 12 b then 12 else b) ns) (from_zero r)
          (InBin-capped k ns (omega (arith, lo)) (omega (arith, hi))))

-- `base4_bin` puts a latency of 64 bits into bin `i` exactly when `i` is at most 12, the latency is
-- at least 256 * 4 ^ i (for bin 0, at least 0) and, unless the bin is the last, below
-- 256 * 4 ^ (i + 1).
pub base4_bin_iff : (ns i : ℕ) → ns < 2 ^ 64 → (base4_bin ns ≡ i) ↔ InBin i ns
base4_bin_iff ns i h = (
  λ e. subst (λ j. InBin j ns) e (base4_bin-InBin ns h),
  λ b. InBin-unique (base4_bin ns) i ns (base4_bin-InBin ns h) b,
)

-- The least value of bin `i` of `log2l_bin`.
abbrev pub lower2 : ℕ → ℕ
lower2 zero = 0
lower2 (suc i) = pow2 (suc i)

-- `v` lies in bin `i` of 64.
pub record InBin64 (i v : ℕ) : Type 0 where
  pub lower : lower2 i ≤ v
  pub upper : v < 2 * pow2 i

InBin64-apart : (i k v : ℕ) → InBin64 i v → InBin64 k v → i < k → ◌≡◌ {A = ℕ} 0 1
InBin64-apart i zero v a b h = absurd (omega (arith, h))
InBin64-apart i (suc k) v a b h = omega (arith, a.upper, b.lower, pow2-lt i (suc k) h)

InBin64-unique : (i k v : ℕ) → InBin64 i v → InBin64 k v → i ≡ k
InBin64-unique i k v a b = elim (Bool-cases (ltb i k)) [
  | inl e ↦ absurd (omega (arith, InBin64-apart i k v a b (ltb→lt i k e)))
  | inr e ↦ elim (Bool-cases (ltb k i)) [
    | inl f ↦ absurd (omega (arith, InBin64-apart k i v b a (ltb→lt k i f)))
    | inr f ↦ ground (arith, e, f)
  ]
]

InBin64-pow2 : (k v : ℕ) → pow2 k ≤ v → v < 2 * pow2 k → InBin64 k v
InBin64-pow2 zero v lo hi = record { lower = omega arith; upper = hi }
InBin64-pow2 (suc k) v lo hi = record { lower = lo; upper = hi }

InBin64-capped :
    (k v : ℕ) → k ≤ 63 → pow2 k ≤ v → v < 2 * pow2 k → InBin64 (if ltb 63 k then 63 else k) v
InBin64-capped k v l lo hi =
    if_cases (λ b. InBin64 b v) (ltb 63 k) (λ f. absurd (omega (arith, l, ltb→lt 63 k f)))
      (λ f. InBin64-pow2 k v lo hi)

log2l_bin-InBin64 : (v : ℕ) → v < 2 ^ 64 → InBin64 (log2l_bin v) v
unfolding log2l_bin
log2l_bin-InBin64 v h =
    if_cases (λ b. InBin64 b v) (ltb v 2)
      (λ e. record { lower = omega arith; upper = ground (arith, e) })
      (λ e.
        let (k, r, l, lo, hi) = shift_by_one_lem 63 v 0 (ground (arith, e)) (omega (arith, h)) in
        subst (λ b. InBin64 (if ltb 63 b then 63 else b) v) (from_zero r)
          (InBin64-capped k v l lo hi))

-- `log2l_bin` puts a value of 64 bits into bin `i` exactly when the value is at least 2 ^ i (for
-- bin 0, at least 0) and below 2 ^ (i + 1).
pub log2l_bin_iff : (v i : ℕ) → v < 2 ^ 64 → (log2l_bin v ≡ i) ↔ InBin64 i v
log2l_bin_iff v i h = (
  λ e. subst (λ j. InBin64 j v) e (log2l_bin-InBin64 v h),
  λ b. InBin64-unique (log2l_bin v) i v (log2l_bin-InBin64 v h) b,
)
