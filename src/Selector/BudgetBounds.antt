-- ===== src/Selector/BudgetBounds.antt =====
-- Bounds of the thread budget of `Probe` (src/collect/target_selector.cpp).
use native.Mathlib.Nat.{div-mul-le_self, mul-le-mul_right}
use e_trace_diag.Prelude.{
  u32, subst, sym, ℕ, ◌*◌, ◌/◌, ◌≤◌, ◌<◌, ◌^◌, ◌≡◌, ◌⊎◌, inl, inr, true, false, arith, min,
  if◌then◌else◌, ◌==◌,
}
use e_trace_diag.Prelude.Float.{Float}
use e_trace_diag.Config.{Config, TargetsTunables}
use e_trace_diag.Config.Bounds.{IsSane}
use e_trace_diag.Selector.Budget.{
  HardwareProbe, thread_budget, clamp_budget, by_ring, by_concurrency, backlog_ticks,
}

divisor : (n : ℕ) → 0 < n → n < 2 ^ 32 → (if n == 0 then 1 else u32 n) ≡ n
divisor n h k = ground arith

product_fits : (a b t n : ℕ) → a ≤ b → b * t ≤ n → a * t ≤ n
product_fits a b t n h k = omega (arith, mul-le-mul_right t h, k)

module _ (f : Float) where
  open f use {Double}

  clamp_budget-Within :
      (t : TargetsTunables Double) (b : ℕ)
      → t.min_targets ≤ t.max_targets
      → (t.min_targets ≤ clamp_budget f t b) × (clamp_budget f t b ≤ t.max_targets)
  unfolding clamp_budget
  clamp_budget-Within t b h = ground arith

  -- Under a configuration that `Sanitize` accepts the budget is at least one thread and at most
  -- `max_targets`, and with `auto_scale` at least `min_targets`, whatever the hardware.
  pub thread_budget-Within :
      (cfg : Config Double) (hw : HardwareProbe)
      → IsSane f cfg
      → (1 ≤ thread_budget f cfg hw)
        × (thread_budget f cfg hw ≤ cfg.targets.max_targets)
        × ((cfg.targets.auto_scale ≡ false) ⊎ (cfg.targets.min_targets ≤ thread_budget f cfg hw))
  unfolding thread_budget
  thread_budget-Within cfg hw sane =
      let b = min (by_concurrency f hw.eff_cpus cfg.targets) (by_ring f hw.ring_slots cfg) in
      ground (
        arith,
        clamp_budget-Within cfg.targets b sane.targets.min_targets.1,
        sane.targets.min_targets,
        sane.targets.max_targets,
      )

  clamp_budget_cases :
      (t : TargetsTunables Double) (b : ℕ)
      → t.min_targets ≤ t.max_targets
      → (clamp_budget f t b ≡ t.min_targets) ⊎ (clamp_budget f t b ≤ b)
  unfolding clamp_budget
  clamp_budget_cases t b h = ground arith

  thread_budget_cases :
      (cfg : Config Double) (hw : HardwareProbe)
      → IsSane f cfg
      → cfg.targets.auto_scale ≡ true
      → (thread_budget f cfg hw ≡ cfg.targets.min_targets)
        ⊎ (thread_budget f cfg hw ≤ by_ring f hw.ring_slots cfg)
  unfolding thread_budget
  thread_budget_cases cfg hw sane auto =
      let b = min (by_concurrency f hw.eff_cpus cfg.targets) (by_ring f hw.ring_slots cfg) in
      ground (
        arith,
        clamp_budget_cases cfg.targets b sane.targets.min_targets.1,
        clamp_budget-Within cfg.targets b sane.targets.min_targets.1,
        sane.targets.min_targets,
      )

  by_ring_fits :
      (cfg : Config Double) (slots : ℕ)
      → 0 < backlog_ticks f cfg
      → backlog_ticks f cfg < 2 ^ 32
      → by_ring f slots cfg * backlog_ticks f cfg ≤ slots
  unfolding by_ring
  by_ring_fits cfg slots many small =
      subst (λ d. slots / d * backlog_ticks f cfg ≤ slots)
        (sym (divisor (backlog_ticks f cfg) many small))
        (div-mul-le_self slots (backlog_ticks f cfg))

  -- With `auto_scale` and a sane configuration, a budget beyond `min_targets` fits in the ring: one
  -- slot for every thread of the budget in each round of the backlog, where a 32-bit number counts
  -- the rounds and there is one at least.
  pub thread_budget_fits :
      (cfg : Config Double) (hw : HardwareProbe)
      → IsSane f cfg
      → cfg.targets.auto_scale ≡ true
      → 0 < backlog_ticks f cfg
      → backlog_ticks f cfg < 2 ^ 32
      → (thread_budget f cfg hw ≡ cfg.targets.min_targets)
        ⊎ (thread_budget f cfg hw * backlog_ticks f cfg ≤ hw.ring_slots)
  thread_budget_fits cfg hw sane auto many small = elim (thread_budget_cases cfg hw sane auto) [
    | inl e ↦ inl e
    | inr e ↦ inr (
        product_fits (thread_budget f cfg hw) (by_ring f hw.ring_slots cfg) (backlog_ticks f cfg)
          hw.ring_slots e (by_ring_fits cfg hw.ring_slots many small))
  ]
