-- ===== src/Selector/Budget.antt =====
-- `HardwareProbe` and the budget that `Probe` derives from it (src/collect/target_selector.cpp).
-- What the system says of itself is an argument.
use e_trace_diag.Prelude.{
  ℕ, ◌*◌, ◌/◌, ◌&&◌, not, Option, some, none, ltb, ◌==◌, if◌then◌else◌, min, u32, u64,
}
use e_trace_diag.Prelude.Float.{Float}
use e_trace_diag.Config.{Config, TargetsTunables}

-- `sysconf`, the cgroup files, `/proc/meminfo`, and the entries of the map `recorder`, if it is there.
pub record System : Type 0 where
  pub online_cpus : ℕ
  pub quota_cpus : ℕ
  pub cpuset_cpus : ℕ
  pub mem_total_kb : ℕ
  pub recorder_entries : Option ℕ

pub record HardwareProbe : Type 0 where
  pub online_cpus : ℕ
  pub quota_cpus : ℕ
  pub cpuset_cpus : ℕ
  pub eff_cpus : ℕ
  pub mem_total_kb : ℕ
  pub ring_slots : ℕ

-- `if (limit && limit < eff) eff = limit`.
unfoldable pub cap_cpus : ℕ → ℕ → ℕ
cap_cpus limit eff = if not (limit == 0) && ltb limit eff then limit else eff

unfoldable pub effective_cpus : System → ℕ
unfolding cap_cpus
effective_cpus s =
    cap_cpus s.cpuset_cpus
      (cap_cpus s.quota_cpus (if u32 s.online_cpus == 0 then 1 else u32 s.online_cpus))

unfoldable pub ring_slots : System → ℕ
ring_slots s = elim (s.recorder_entries) [ none ↦ 32768 | some n ↦ u32 n ]

unfoldable pub probe_hardware : System → HardwareProbe
unfolding effective_cpus ring_slots
probe_hardware s = record {
  online_cpus = u32 s.online_cpus;
  quota_cpus = s.quota_cpus;
  cpuset_cpus = s.cpuset_cpus;
  eff_cpus = effective_cpus s;
  mem_total_kb = s.mem_total_kb;
  ring_slots = ring_slots s;
}

-- `v ? v : d`.
abbrev pub or_default : ℕ → ℕ → ℕ
or_default v d = if v == 0 then d else v

module _ (f : Float) where
  open f use {Double, of_nat, mul, ceil, truncate}

  unfoldable pub by_concurrency : ℕ → TargetsTunables Double → ℕ
  by_concurrency eff_cpus t = u32 (truncate (ceil (mul (of_nat eff_cpus) t.concurrency_factor)))

  -- How many rounds of the recorder the backlog holds.
  unfoldable pub backlog_ticks : Config Double → ℕ
  backlog_ticks cfg =
      u64 (or_default cfg.window.ring_backlog_seconds 90 * 1000)
      / or_default cfg.sample.fine_interval_ms 100

  unfoldable pub by_ring : ℕ → Config Double → ℕ
  unfolding backlog_ticks
  by_ring slots cfg = let ticks = backlog_ticks cfg in slots / (if ticks == 0 then 1 else u32 ticks)

  -- The three clamps in the order of the source.
  unfoldable pub clamp_budget : TargetsTunables Double → ℕ → ℕ
  clamp_budget t b =
      let capped = min b t.max_targets in
      let raised = if ltb capped t.min_targets then t.min_targets else capped in
      if ltb t.max_targets raised then t.max_targets else raised

  -- `thread_budget_` after `Probe`.
  unfoldable pub thread_budget : Config Double → HardwareProbe → ℕ
  unfolding by_concurrency by_ring clamp_budget
  thread_budget cfg hw =
      let t = cfg.targets in
      or_default
        (if t.auto_scale
          then clamp_budget t (min (by_concurrency hw.eff_cpus t) (by_ring hw.ring_slots cfg))
          else t.max_targets)
        1
