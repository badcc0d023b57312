-- ===== src/Tests/Selection.antt =====
-- Two evaluations of three threads by `TargetSelector` (src/collect/target_selector.cpp).
use e_trace_diag.Prelude.{
  ℕ, ◌≤◌, ◌*◌, ◌≡◌, ◌⊎◌, refl, true, List, [], ◌∷◌, some, none, arith, length, All, take, ltb,
  seconds_ns, sub64,
}
use e_trace_diag.Config.{TargetsTunables, default_config}
use e_trace_diag.Config.Bounds.{default_config-IsSane}
use e_trace_diag.Selector.Maps.{has}
use e_trace_diag.Selector.Budget.{HardwareProbe, thread_budget, backlog_ticks}
use e_trace_diag.Selector.BudgetBounds.{thread_budget_fits}
use e_trace_diag.Selector.Counters.{ProcessRow, KernelMaps}
use e_trace_diag.Selector.Hysteresis.{ProcState, fresh, leaves, note_rank}
use e_trace_diag.Selector.Streaks.{leaves_lem}
use e_trace_diag.Selector.Evaluate.{TargetSelector, Host, evaluate}
use e_trace_diag.Selector.Targets.{apply_events}
use e_trace_diag.Selector.Membership.{evaluate-targets, evaluate-length}
use e_trace_diag.Selector.Pinned.{Proc, apply_pinned, new_tracing, Evaluation, follow_all}
use e_trace_diag.Selector.PinnedTraced.{pinned_traced}
use e_trace_diag.Tests.Floats.{thousandths, thousandths_order, defaults}

abbrev row : ℕ → ℕ → ProcessRow
row pid used = record {
  pid = pid;
  tgid = 1;
  utime = used;
  stime = 0;
  nvcsw = 0;
  nivcsw = 0;
  minflt = 0;
  majflt = 0;
  start_time = 0;
}

abbrev kernel_maps : KernelMaps
kernel_maps = record { block_io = λ tid. some (tid, 4096); lock_st = λ tid. none }

abbrev host : Host thousandths
host = record {
  sort_scores = λ xs. xs;
  sort_ranks = λ rank xs. xs;
  ticks_per_s = 100000;
  order = λ ks. ks;
}

abbrev hardware : HardwareProbe
hardware = record {
  online_cpus = 8;
  quota_cpus = 0;
  cpuset_cpus = 4;
  eff_cpus = 4;
  mem_total_kb = 1000000;
  ring_slots = 32768;
}

-- A selector that traces the pinned thread 9 and has one snapshot.
abbrev selector : TargetSelector
selector = record {
  thread_budget = 2;
  pstate = [];
  pinned = 9 ∷ [];
  members = 9 ∷ [];
  procs = 9 ∷ [];
  history = record { ts_ns = 1000000000; c = [] } ∷ [];
  start_time = [];
}

abbrev table : List ProcessRow
table = row 1 50 ∷ row 2 80 ∷ row 3 10 ∷ []

abbrev targets : TargetsTunables ℕ
targets = defaults.targets

-- A member process since second 1, and one that is none.
abbrev member_process : ProcState
member_process = record (fresh 4) { member = true; joined_ns = 1000000000 }

abbrev strict : TargetsTunables ℕ
strict = record targets {
  hold_periods = 2;
  leave_rank = 20;
  enter_rank = 10;
  min_residency_seconds = 5;
}

-- Ranks, the latest first.
abbrev worse : List ℕ
worse = 30 ∷ 40 ∷ 1 ∷ []

thread_budget_fits_example :
    (thread_budget thousandths defaults hardware ≡ targets.min_targets)
    ⊎ (thread_budget thousandths defaults hardware * backlog_ticks thousandths defaults ≤ 32768)
unfolding backlog_ticks default_config
thread_budget_fits_example =
    thread_budget_fits thousandths defaults hardware
      (default_config-IsSane thousandths thousandths_order) refl (omega arith) (omega arith)

leaves_lem_example :
    (length (take 2 worse) ≡ 2)
    × All (λ r. ltb 20 r ≡ true) (take 2 worse)
    × (seconds_ns 5 ≤ sub64 9000000000 1000000000)
unfolding leaves note_rank
leaves_lem_example = leaves_lem strict 9000000000 worse member_process refl refl refl refl

evaluate-targets_example :
    has 1 (
      apply_events
        (evaluate thousandths host kernel_maps defaults table 3000000000 selector).events
        (9 ∷ []))
    ≡ has 1
        (evaluate thousandths host kernel_maps defaults table 3000000000 selector).selector.members
evaluate-targets_example =
    evaluate-targets thousandths host kernel_maps defaults table 3000000000 selector (9 ∷ [])
      (λ k. refl) 1

evaluate-length_example :
    length
      (evaluate thousandths host kernel_maps defaults table 3000000000 selector).selector.members
    ≤ 2
evaluate-length_example =
    evaluate-length thousandths host kernel_maps defaults table 3000000000 selector 2 (omega arith)
      (omega arith) (omega arith)

abbrev proc : Proc
proc = record {
  status = λ tid. (78 ∷ []) ∷ (84 ∷ 103 ∷ 105 ∷ 100 ∷ 58 ∷ 9 ∷ 49 ∷ []) ∷ [];
  strtoul = λ cs. 1;
  pinned_at = λ tid. 1000000000;
}

abbrev evaluation : ℕ → Evaluation thousandths host
evaluation now_ns = record {
  maps = kernel_maps;
  cfg = defaults;
  table = table;
  now_ns = now_ns;
  budget = 2;
}

pinned_traced_example :
    has 9
      (follow_all thousandths host
        (evaluation 1000000000 ∷ evaluation 3000000000 ∷ [])
        (apply_pinned proc (0 ∷ 9 ∷ 9 ∷ []) new_tracing)).targets
    ≡ true
pinned_traced_example =
    pinned_traced thousandths host proc (0 ∷ 9 ∷ 9 ∷ [])
      (evaluation 1000000000 ∷ evaluation 3000000000 ∷ []) 9 refl refl
