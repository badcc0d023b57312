-- ===== src/Kernel/Programs/Events.antt =====
-- The programs of bpf/etrace.bpf.c for block I/O, page faults, lock contention and system calls.
use e_trace_diag.Prelude.{
  ℕ, ◌-◌, ◌^◌, Bool, not, ◌&&◌, ◌||◌, Option, some, none, ◌==◌, ltb, if◌then◌else◌, ◌*◌, bit_and,
  bit_or, u32, sub64,
}
use e_trace_diag.Kernel.Programs.Tables.{lookup, modify, update_any, delete, count_at}
use e_trace_diag.Kernel.Programs.Stats.{add_lat, add_blk, add_fault, add_hot, add_sys, pair_key}
use e_trace_diag.Kernel.Programs.State.{Cpu, SysStart, LockWait, BlkReq, deep_mode}

-- `rq` is the address of the request. `junk` is what the local `e` holds as its `issue_ts`.
unfoldable pub on_rq_insert : ℕ → ℕ → ℕ → ℕ → ℕ → ℕ → ℕ → Cpu → Cpu
unfolding update_any
on_rq_insert junk now rq major first_minor pid cmd_flags s = record s {
  blk_req = update_any s.blk_req rq (record {
    insert_ts = now;
    issue_ts = junk;
    dev = bit_or (u32 (major * 2 ^ 20)) first_minor;
    pid = pid;
    rw = bit_and cmd_flags 255;
  });
}

unfoldable pub on_rq_issue : ℕ → ℕ → Cpu → Cpu
unfolding modify
on_rq_issue now rq s = record s { blk_req = modify s.blk_req rq (λ e. record e { issue_ts = now }) }

-- `lat` of `on_rq_complete`.
abbrev pub issue_latency : ℕ → BlkReq → ℕ
issue_latency now e = if not (e.issue_ts == 0) && ltb e.issue_ts now then now - e.issue_ts else 0

unfoldable pub on_rq_complete : ℕ → ℕ → ℕ → Cpu → Cpu
unfolding lookup count_at add_blk delete
on_rq_complete now rq nr_bytes s = elim (lookup s.blk_req rq) [
  | none ↦ s
  | some e ↦ record s {
    block_io = count_at s.block_io e.pid s.locals.blk (add_blk nr_bytes (issue_latency now e));
    dev_io = count_at s.dev_io e.dev s.locals.blk (add_blk nr_bytes (issue_latency now e));
    blk_req = delete s.blk_req rq;
  }
]

unfoldable pub fault_ret : ℕ → ℕ → Cpu → Cpu
unfolding count_at add_fault
fault_ret tid ret s =
    if s.targets tid
    then record s { faults = count_at s.faults tid s.locals.faults (add_fault ret) }
    else s

unfoldable pub on_contention_begin : ℕ → ℕ → ℕ → ℕ → Cpu → Cpu
unfolding update_any
on_contention_begin now tid addr flags s = record s {
  lock_wait = update_any s.lock_wait tid (record { lock_addr = addr; ts = now; flags = flags });
}

abbrev pub wait_time : ℕ → LockWait → ℕ
wait_time now w = if ltb w.ts now then now - w.ts else 0

-- What both programs for the end of a wait do, for the lock at `addr`.
unfoldable pub end_wait : ℕ → ℕ → ℕ → LockWait → Cpu → Cpu
unfolding count_at add_lat add_hot delete
end_wait now tid addr w s = record s {
  lock_st = count_at s.lock_st tid s.locals.lat (add_lat (wait_time now w));
  lock_hot = count_at s.lock_hot addr s.locals.lock (add_hot (wait_time now w));
  lock_wait = delete s.lock_wait tid;
}

unfoldable pub on_contention_end : ℕ → ℕ → ℕ → Cpu → Cpu
unfolding lookup end_wait
on_contention_end now tid addr s = elim (lookup s.lock_wait tid) [
  | none ↦ s
  | some w ↦ end_wait now tid addr w s
]

-- The fallback, which finds the address in the map.
unfoldable pub mutex_lock_slow_ret : ℕ → ℕ → Cpu → Cpu
unfolding lookup end_wait
mutex_lock_slow_ret now tid s = elim (lookup s.lock_wait tid) [
  | none ↦ s
  | some w ↦ end_wait now tid w.lock_addr w s
]

unfoldable pub mutex_lock_slow : ℕ → ℕ → ℕ → Cpu → Cpu
unfolding on_contention_begin
mutex_lock_slow now tid addr s = on_contention_begin now tid addr 0 s

unfoldable pub syslat_account : ℕ → ℕ → Bool → ℕ → Bool → Cpu → Cpu
unfolding count_at add_lat add_sys
syslat_account tid id futex_wait lat failed s =
    if futex_wait
    then record s { futex_st = count_at s.futex_st tid s.locals.lat (add_lat lat) }
    else record s {
      sys_lat = count_at s.sys_lat (pair_key tid id) s.locals.sys (add_sys lat failed);
      sys_st = count_at s.sys_st tid s.locals.lat (add_lat lat);
    }

-- `FUTEX_CMD_MASK`, FUTEX_WAIT and FUTEX_WAIT_BITSET; `nr_futex` is ETD_NR_FUTEX.
unfoldable pub is_futex_wait : ℕ → ℕ → ℕ → Bool
is_futex_wait nr_futex id arg1 =
    let cmd = bit_and arg1 (2 ^ 64 - 1 - 384) in (id == nr_futex) && (cmd == 0 || cmd == 9)

unfoldable pub start_call : ℕ → ℕ → ℕ → ℕ → ℕ → Cpu → Cpu
unfolding update_any is_futex_wait
start_call nr_futex now tid id arg1 s =
    if s.targets tid
    then record s {
      sys_start =
          update_any s.sys_start tid
            (record { id = u32 id; ts = now; futex_wait = is_futex_wait nr_futex id arg1 });
    }
    else s

unfoldable pub end_call : ℕ → ℕ → Bool → SysStart → Cpu → Cpu
unfolding syslat_account delete
end_call now tid failed st s =
    let counted = syslat_account tid st.id st.futex_wait (sub64 now st.ts) failed s in
    record counted { sys_start = delete counted.sys_start tid }

-- `failed`: the call returned a negative number.
unfoldable pub on_sys_exit : ℕ → ℕ → Bool → Cpu → Cpu
unfolding lookup end_call
on_sys_exit now tid failed s =
    if s.targets tid
    then elim (lookup s.sys_start tid) [ none ↦ s | some st ↦ end_call now tid failed st s ]
    else s

-- `id`: none if it is negative.
unfoldable pub on_sys_enter : ℕ → ℕ → ℕ → Option ℕ → ℕ → Cpu → Cpu
unfolding start_call
on_sys_enter nr_futex now tid none arg1 s = s
on_sys_enter nr_futex now tid (some id) arg1 s = start_call nr_futex now tid id arg1 s

-- The primary pair, which works in DEEP only.
unfoldable pub fentry_sys : ℕ → ℕ → ℕ → ℕ → ℕ → Cpu → Cpu
unfolding start_call
fentry_sys nr_futex now tid id arg1 s =
    if deep_mode s then start_call nr_futex now tid id arg1 s else s

unfoldable pub fexit_sys : ℕ → ℕ → Bool → Cpu → Cpu
unfolding on_sys_exit
fexit_sys now tid failed s = if deep_mode s then on_sys_exit now tid failed s else s
