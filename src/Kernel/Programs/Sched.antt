-- ===== src/Kernel/Programs/Sched.antt =====
-- The scheduler's programs of bpf/etrace.bpf.c on one processor: `on_switch`, `record_wakeup`,
-- `offcpu_schedule` and `on_process_exit`.
use e_trace_diag.Prelude.{
  ℕ, ◌+◌, ◌*◌, ◌-◌, Bool, true, not, ◌&&◌, ◌||◌, Option, some, none, ◌==◌, leb, ltb, if◌then◌else◌,
  bit_and, u64, sub64,
}
use e_trace_diag.Kernel.Programs.Tables.{
  lookup, modify, update_any, update_noexist, delete, count_at,
}
use e_trace_diag.Kernel.Programs.State.{OffcpuStash, Cpu, deep_mode}
use e_trace_diag.Kernel.Programs.Stats.{add_lat, add_switch, pair_key}

-- The test of section 1 of `on_switch`.
abbrev pub may_attribute : ℕ → Cpu → Bool
may_attribute now s =
    not (s.cur_tid == 0) && not (s.last_run_ts == 0) && ltb s.last_run_ts now && s.targets s.cur_tid

unfoldable pub attribute : ℕ → Cpu → Cpu
unfolding count_at
attribute now s =
    let delta = now - s.last_run_ts in
    if may_attribute now s
    then record s { on_cpu_ns = count_at s.on_cpu_ns s.cur_tid 0 (λ v. u64 (v + delta)) }
    else s

unfoldable pub count_switch : ℕ → ℕ → Cpu → Cpu
unfolding count_at add_switch
count_switch prev_pid prev_state s =
    if not (prev_pid == 0) && s.targets prev_pid
    then record s {
      switches = count_at s.switches prev_pid s.locals.switch (add_switch prev_state);
    }
    else s

-- `elapsed`: the time since the last sample, 0 where there is none.
abbrev pub since_last : ℕ → Option ℕ → ℕ
since_last now none = 0
since_last now (some last) = if ltb last now then now - last else 0

-- `*last == 0 || elapsed * rate >= 1000000000`.
abbrev pub is_due : ℕ → ℕ → ℕ → Bool
is_due now rate last = last == 0 || leb 1000000000 (u64 (since_last now (some last) * rate))

abbrev pub is_blocked : ℕ → Bool
is_blocked state =
    not (state == 0)
    && (bit_and state 256 == 0)
    && (bit_and state 128 == 0)
    && not (bit_and state 127 == 0)

-- Section 2b, for a thread that it may stash, given the time of its last sample.
unfoldable pub stash_last : ℕ → ℕ → Option ℕ → Cpu → Cpu
unfolding modify update_any
stash_last now prev_pid none s = s
stash_last now prev_pid (some last) s =
    if not (s.offcpu_rate == 0) && is_due now s.offcpu_rate last
    then record s {
      offcpu_stash =
          update_any s.offcpu_stash prev_pid
            (record { out_ts = now; ksid = 0; stack_available = 0 });
      offcpu_last_ts = modify s.offcpu_last_ts prev_pid (λ v. now);
    }
    else s

abbrev pub may_stash : ℕ → ℕ → Cpu → Bool
may_stash prev_pid prev_state s =
    deep_mode s
    && not (prev_pid == 0)
    && s.targets prev_pid
    && is_blocked prev_state
    && not (s.offcpu_fallback == 0)

-- Section 2b.
unfoldable pub stash_fallback : ℕ → ℕ → ℕ → Cpu → Cpu
unfolding lookup stash_last
stash_fallback now prev_pid prev_state s =
    if may_stash prev_pid prev_state s
    then stash_last now prev_pid (lookup s.offcpu_last_ts prev_pid) s
    else s

-- Section 3, the first half: the dwell of a stashed thread.
unfoldable pub complete_offcpu : ℕ → ℕ → Cpu → Cpu
unfolding lookup count_at add_lat delete
complete_offcpu now next_pid s = elim (lookup s.offcpu_stash next_pid) [
  | none ↦ s
  | some st ↦
      let dwell = sub64 now st.out_ts in
      let stash = delete s.offcpu_stash next_pid in
      if not (st.stack_available == 0)
      then record s {
        offcpu_stash = stash;
        offcpu_time = count_at s.offcpu_time (pair_key next_pid st.ksid) 0 (λ v. u64 (v + dwell));
      }
      else record s {
        offcpu_stash = stash;
        offcpu_stat = count_at s.offcpu_stat next_pid s.locals.lat (add_lat dwell);
      }
]

-- Section 3, the second half: the latency from the wakeup to the switch.
unfoldable pub complete_runq : ℕ → ℕ → Cpu → Cpu
unfolding lookup count_at add_lat delete
complete_runq now next_pid s = elim (lookup s.wakeup_ts next_pid) [
  | none ↦ s
  | some woken ↦ record s {
    runq_st = count_at s.runq_st next_pid s.locals.lat (add_lat (sub64 now woken));
    wakeup_ts = delete s.wakeup_ts next_pid;
  }
]

unfoldable pub complete : ℕ → ℕ → Cpu → Cpu
unfolding complete_offcpu complete_runq
complete now next_pid s =
    if deep_mode s && s.targets next_pid
    then complete_runq now next_pid (complete_offcpu now next_pid s)
    else s

unfoldable pub on_switch : ℕ → ℕ → ℕ → ℕ → Cpu → Cpu
unfolding attribute count_switch stash_fallback complete
on_switch now prev_pid prev_state next_pid s =
    let attributed = record (attribute now s) { cur_tid = next_pid; last_run_ts = now } in
    complete now next_pid
      (stash_fallback now prev_pid prev_state (count_switch prev_pid prev_state attributed))

unfoldable pub record_wakeup : ℕ → ℕ → Cpu → Cpu
unfolding update_noexist
record_wakeup now pid s =
    if deep_mode s && s.targets pid
    then record s { wakeup_ts = update_noexist s.wakeup_ts pid now }
    else s

-- Whether a thread is sampled, by its last sample.
unfoldable pub is_sampled : ℕ → ℕ → Option ℕ → Bool
is_sampled now rate none = true
is_sampled now rate (some last) = rate == 0 || is_due now rate last

unfoldable pub stash_of : ℕ → Option ℕ → OffcpuStash
stash_of now none = record { out_ts = now; ksid = 0; stack_available = 0 }
stash_of now (some ksid) = record { out_ts = now; ksid = ksid; stack_available = 1 }

-- `stack`: the number that bpf_get_stackid gives, where it does not fail.
unfoldable pub offcpu_schedule : ℕ → ℕ → Option ℕ → Cpu → Cpu
unfolding lookup update_any is_sampled stash_of
offcpu_schedule now tid stack s =
    if deep_mode s && s.targets tid && is_sampled now s.offcpu_rate (lookup s.offcpu_last_ts tid)
    then record s {
      offcpu_stash = update_any s.offcpu_stash tid (stash_of now stack);
      offcpu_last_ts = update_any s.offcpu_last_ts tid now;
    }
    else s

unfoldable pub on_process_exit : ℕ → Cpu → Cpu
unfolding delete
on_process_exit tid s = record s {
  wakeup_ts = delete s.wakeup_ts tid;
  offcpu_stash = delete s.offcpu_stash tid;
  offcpu_last_ts = delete s.offcpu_last_ts tid;
  sys_start = delete s.sys_start tid;
  io_start = delete s.io_start tid;
  connect_start = delete s.connect_start tid;
}
