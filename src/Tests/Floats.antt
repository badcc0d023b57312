-- ===== src/Tests/Floats.antt =====
-- Thousandths in place of `double`, and the configurations that `Sanitize` and `DefaultConfig`
-- (src/config.cpp) make with them.
use e_trace_diag.Prelude.{ℕ, ◌+◌, ◌*◌, ◌/◌, ◌≤◌, true, false, ◌≡◌, arith, ltb, leb}
use e_trace_diag.Prelude.Float.{Float, FloatOrder}
use e_trace_diag.Config.{Config, default_config, sanitize}
use e_trace_diag.Config.Bounds.{IsSane, sanitize-IsSane}

abbrev pub thousandths : Float
thousandths = record {
  Double = ℕ;
  lt = ltb;
  le = leb;
  add = λ a b. a + b;
  mul = λ a b. a * b / 1000;
  div = λ a b. a * 1000 / b;
  of_nat = λ n. n * 1000;
  milli = λ n. n;
  truncate = λ a. a / 1000;
  ceil = λ a. (a + 999) / 1000 * 1000;
  to_float = λ a. a;
}

pub ltb_irrefl : (x : ℕ) → ltb x x ≡ false
ltb_irrefl x = ground arith

pub ltb_le : (a b : ℕ) → a ≤ b → ltb b a ≡ false
ltb_le a b h = ground arith

pub leb_refl : (x : ℕ) → leb x x ≡ true
leb_refl x = ground arith

not_number : (x : ℕ) → leb x x ≡ false → ⊥
not_number x h = ground (arith, h)

pub no_nan : (x y z : ℕ) → leb z z ≡ false → ltb x y ≡ false
no_nan x y z h = absurd (not_number z h)

pub not_ltb : (x y : ℕ) → ltb x y ≡ false → leb y x ≡ true
not_ltb x y h = ground (arith, h)

pub leb_not_ltb : (x y : ℕ) → leb x y ≡ true → ltb y x ≡ false
leb_not_ltb x y h = ground (arith, h)

abbrev pub thousandths_order : FloatOrder thousandths
thousandths_order = record {
  lt_irrefl = ltb_irrefl;
  milli_mono = ltb_le;
  milli_number = λ a. leb_refl a;
  lt_nan = λ x y h. no_nan x y x h;
  nan_lt = λ x y h. no_nan y x x h;
  not_lt = λ x y a b h. not_ltb x y h;
  le_not_lt = λ x y h. leb_not_ltb x y h;
}

abbrev pub defaults : Config ℕ
defaults = default_config thousandths

-- More targets at least than at most, and a weight beyond 1.
abbrev pub odd : Config ℕ
odd = record defaults {
  targets = record defaults.targets { max_targets = 0; min_targets = 7; concurrency_factor = 1 };
}

sanitize-IsSane_example : IsSane thousandths (sanitize thousandths odd)
sanitize-IsSane_example = sanitize-IsSane thousandths thousandths_order odd
