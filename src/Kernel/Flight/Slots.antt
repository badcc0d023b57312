-- ===== src/Kernel/Flight/Slots.antt =====
-- The slots of the flight recorder: `head & (ETD_RING_CAP - 1)` of bpf/etrace.bpf.c is the
-- remainder.
use Prim.Native.Nat.{digits, bit_and-bitwise}
use e_trace_diag.Prelude.{ℕ, zero, suc, ◌+◌, ◌*◌, ◌/◌, ◌%◌, ◌≤◌, ◌≡◌, refl, ap, ◌∙◌, arith, min}
use e_trace_diag.Recorder.Ring.{slot}
use e_trace_diag.Kernel.Flight.Commit.{ring_cap}

-- `2 ^ m - 1`, and the last `m` binary digits of a number.
abbrev pub ones : ℕ → ℕ
ones zero = 0
ones (suc m) = 2 * ones m + 1

abbrev pub low : ℕ → ℕ → ℕ
low zero a = 0
low (suc m) a = low m (a / 2) * 2 + a % 2

low-zero : (m : ℕ) → low m 0 ≡ 0
low-zero zero = refl
low-zero (suc m) = omega (arith, low-zero m)

half_ones : (m : ℕ) → (2 * ones m + 1) / 2 ≡ ones m
half_ones m = omega arith

pub digits-ones : (m n a : ℕ) → a ≤ n → digits (λ b. 0) min n a (ones m) ≡ low m a
digits-ones m zero zero h = omega (arith, low-zero m)
digits-ones m zero (suc a) h = absurd (omega (arith, h))
digits-ones m (suc n) zero h = omega (arith, low-zero m)
digits-ones zero (suc n) (suc a) h =
    omega (arith, digits-ones zero n (suc a / 2) (omega (arith, h)))
digits-ones (suc m) (suc n) (suc a) h =
    ap (λ b. digits (λ b. 0) min n (suc a / 2) b * 2 + min (suc a % 2) ((2 * ones m + 1) % 2))
      (half_ones m)
    ∙ omega (arith, digits-ones m n (suc a / 2) (omega (arith, h)))

low-15 : (a : ℕ) → low 15 a ≡ a % 32768
low-15 a = omega arith

pub slot_lem : (k : ℕ) → slot ring_cap k ≡ k % 32768
unfolding slot
slot_lem k = omega (arith, bit_and-bitwise k 32767, digits-ones 15 k k (omega arith), low-15 k)
