-- ===== src/Tests/Programs.antt =====
-- A processor with room in its maps, and events on it (bpf/etrace.bpf.c).
use e_trace_diag.Prelude.{
  ℕ, zero, suc, All, ◌+◌, ◌-◌, ◌^◌, ◌<◌, ◌≡◌, refl, List, [], ◌∷◌, some, none, arith, replicate,
  false, ◌&&◌, ◌==◌, u64, sub64,
}
use e_trace_diag.Kernel.Programs.Tables.{Table, lookup}
use e_trace_diag.Kernel.Programs.Stats.{Locals, LatStat}
use e_trace_diag.Kernel.Programs.State.{Cpu}
use e_trace_diag.Kernel.Programs.OnCpu.{Switch, run_switches, time_on_cpu, run_switches-on_cpu}
use e_trace_diag.Kernel.Programs.Events.{
  on_contention_begin, on_contention_end, on_sys_enter, on_sys_exit, on_rq_insert, on_rq_issue,
  on_rq_complete,
}
use e_trace_diag.Kernel.Programs.Counted.{waits}
use e_trace_diag.Kernel.Programs.Pairs.{EndsWait, EndsRequest, device, contention_lem, request_lem}
use e_trace_diag.Kernel.Programs.Calls.{EndsCall, sys_enter_exit_lem}
use e_trace_diag.Kernel.Programs.Oom.{
  OomEvent, OomRing, mark_all, dump_oom_events, dump_oom_events-marked,
}
use e_trace_diag.Kernel.Producers.Snapshot.{Slice, snap_sum, copy_slice, zeroed}
use e_trace_diag.Kernel.Producers.SamplerMerge.{IsSlice, sums, merge_all, merge_all-snap_sum}

abbrev no_lat : LatStat
no_lat = record { count = 0; lat_sum = 0; hist = replicate 13 0 }

abbrev locals : Locals
locals = record {
  switch = record { vol = 0; invol = 0 };
  blk = record { ops = 0; bytes = 0; lat_sum = 0; hist = replicate 13 0 };
  faults = record { minor = 0; major = 0 };
  lat = no_lat;
  sys = record { count = 0; lat_sum = 0; error_count = 0; hist = replicate 64 0 };
  lock = record { count = 0; lat_sum = 0 };
}

abbrev empty : {V : Type 0} → Table V
empty = record { entries = []; max_entries = 4 }

-- Thread 7 is a target and runs since time 10.
abbrev cpu : Cpu
cpu = record {
  targets = λ tid. tid == 7;
  deep_enabled = 1;
  offcpu_fallback = 1;
  offcpu_rate = 99;
  locals = locals;
  cur_tid = 7;
  last_run_ts = 10;
  on_cpu_ns = record { entries = (7, 100) ∷ []; max_entries = 4 };
  switches = empty;
  offcpu_last_ts = empty;
  offcpu_stash = empty;
  offcpu_time = empty;
  offcpu_stat = empty;
  wakeup_ts = empty;
  runq_st = empty;
  sys_start = empty;
  sys_lat = empty;
  sys_st = empty;
  futex_st = empty;
  io_start = empty;
  connect_start = empty;
  lock_wait = empty;
  lock_st = empty;
  lock_hot = empty;
  blk_req = empty;
  block_io = empty;
  dev_io = empty;
  faults = empty;
}

-- From 7 to 3 at 25, back at 40, and away at 60.
abbrev switches : List Switch
switches =
    record { now = 25; prev_pid = 7; prev_state = 1; next_pid = 3 }
    ∷ record { now = 40; prev_pid = 3; prev_state = 0; next_pid = 7 }
    ∷ record { now = 60; prev_pid = 7; prev_state = 0; next_pid = 3 }
    ∷ []

run_switches-on_cpu_example :
    lookup (run_switches switches cpu).on_cpu_ns 7 ≡ some (u64 (100 + time_on_cpu 7 7 10 switches))
unfolding lookup
run_switches-on_cpu_example = run_switches-on_cpu 7 100 switches cpu refl refl (omega arith) refl

contention_lem_example :
    EndsWait
      (300 - 100)
      7
      4096
      cpu
      (on_contention_end 300 7 4096 (on_contention_begin 100 7 4096 2 cpu))
contention_lem_example =
    contention_lem 100 300 7 4096 2 cpu (λ e. omega arith) (λ e. omega arith) (λ e. omega arith)

sys_enter_exit_lem_example :
    EndsCall 7 202
      (202 == 202 && waits 137)
      false
      (sub64 300 100)
      cpu
      (on_sys_exit 300 7 false (on_sys_enter 202 100 7 (some 202) 137 cpu))
sys_enter_exit_lem_example =
    sys_enter_exit_lem 202 100 300 7 202 137 false cpu (omega arith) (omega arith) refl
      (λ e. omega arith) (λ e. omega arith) (λ e. omega arith) (λ e. omega arith)

request_lem_example :
    EndsRequest
      (300 - 100)
      4096
      7
      (device 8 0)
      65536
      cpu
      (on_rq_complete 300 65536 4096 (on_rq_issue 100 65536 (on_rq_insert 77 50 65536 8 0 7 1 cpu)))
request_lem_example =
    request_lem 77 50 100 300 65536 8 0 7 1 4096 cpu (omega arith) (λ e. omega arith)
      (λ e. omega arith) (λ e. omega arith)

abbrev victims : List OomEvent
victims = record { ts = 5; pid = 11 } ∷ record { ts = 6; pid = 12 } ∷ []

abbrev oom_ring : OomRing
oom_ring = record { seq = 63; events = λ ix. record { ts = 0; pid = 0 } }

dump_oom_events-marked_example :
    dump_oom_events
      (λ ix. some ((mark_all victims oom_ring).events ix))
      (some (mark_all victims oom_ring).seq)
      63
    ≡ (victims, (mark_all victims oom_ring).seq)
dump_oom_events-marked_example =
    dump_oom_events-marked victims oom_ring (omega arith) (omega arith) (omega arith)

-- One processor has counters of the thread, the other its on-CPU time only.
abbrev first_slice : Slice
first_slice = record {
  on_cpu = some 70;
  switch = some (record { vol = 3; invol = 1 });
  blk = none;
  fault = none;
  lock = some (record { count = 1; lat_sum = 300; hist = 1 ∷ replicate 12 0 });
  sys = none;
  futex = none;
  runq = none;
}

abbrev second_slice : Slice
second_slice = record first_slice { on_cpu = some 30; switch = none; lock = none }

bins : (n : ℕ) → All (λ k. k < 2 ^ 32) (replicate n 0)
bins zero = tt
bins (suc n) = (omega arith, bins n)

first_slice-IsSlice : IsSlice first_slice
first_slice-IsSlice = record {
  on_cpu_ns = omega arith;
  nr_sw_vol = omega arith;
  nr_sw_invol = omega arith;
  io_ops = tt;
  io_bytes = tt;
  io_hist = tt;
  pf_minor = tt;
  pf_major = tt;
  lock_waits = omega arith;
  lock_lat_ns = omega arith;
  lock_hist = (refl, (omega arith, bins 12));
  syscall_count = tt;
  syscall_lat_ns = tt;
  syscall_hist = tt;
  futex_waits = tt;
  futex_lat_ns = tt;
  futex_hist = tt;
  runq_wait_ns = tt;
  runq_wait_count = tt;
  runq_hist = tt;
}

merge_all-snap_sum_example :
    sums (
      merge_all
        (record (copy_slice first_slice zeroed) { ts_ns = 5 })
        (record (copy_slice second_slice zeroed) { ts_ns = 6 } ∷ []))
    ≡ sums (snap_sum (first_slice ∷ second_slice ∷ []) zeroed)
merge_all-snap_sum_example =
    merge_all-snap_sum first_slice (second_slice ∷ [])
      (record (copy_slice first_slice zeroed) { ts_ns = 5 })
      (record (copy_slice second_slice zeroed) { ts_ns = 6 } ∷ []) first_slice-IsSlice refl
      (refl, tt)
