-- ===== src/Kernel/Programs/State.antt =====
-- The maps of bpf/etrace.bpf.c, as a program on one processor finds them.
use e_trace_diag.Prelude.{ℕ, Bool, not, List, ◌==◌}
use e_trace_diag.Kernel.Programs.Tables.{Table}
use e_trace_diag.Kernel.Programs.Stats.{
  SwitchCount, BlkIo, FaultCount, LatStat, SysLat, LockHot, Locals,
}

-- `struct offcpu_stash_t`.
pub record OffcpuStash : Type 0 where
  pub out_ts : ℕ
  pub ksid : ℕ
  pub stack_available : ℕ

-- `struct sys_start_t`.
pub record SysStart : Type 0 where
  pub id : ℕ
  pub ts : ℕ
  pub futex_wait : Bool

-- `struct lock_wait_t`.
pub record LockWait : Type 0 where
  pub lock_addr : ℕ
  pub ts : ℕ
  pub flags : ℕ

-- `struct blk_req_t`.
pub record BlkReq : Type 0 where
  pub insert_ts : ℕ
  pub issue_ts : ℕ
  pub dev : ℕ
  pub pid : ℕ
  pub rw : ℕ

-- The maps as a program on this processor finds them. The first four are written by user
-- space. The values of `io_start` and `connect_start` stay bytes.
pub record Cpu : Type 0 where
  pub targets : ℕ → Bool
  pub deep_enabled : ℕ
  pub offcpu_fallback : ℕ
  pub offcpu_rate : ℕ
  pub locals : Locals
  pub cur_tid : ℕ
  pub last_run_ts : ℕ
  pub on_cpu_ns : Table ℕ
  pub switches : Table SwitchCount
  pub offcpu_last_ts : Table ℕ
  pub offcpu_stash : Table OffcpuStash
  pub offcpu_time : Table ℕ
  pub offcpu_stat : Table LatStat
  pub wakeup_ts : Table ℕ
  pub runq_st : Table LatStat
  pub sys_start : Table SysStart
  pub sys_lat : Table SysLat
  pub sys_st : Table LatStat
  pub futex_st : Table LatStat
  pub io_start : Table (List ℕ)
  pub connect_start : Table (List ℕ)
  pub lock_wait : Table LockWait
  pub lock_st : Table LatStat
  pub lock_hot : Table LockHot
  pub blk_req : Table BlkReq
  pub block_io : Table BlkIo
  pub dev_io : Table BlkIo
  pub faults : Table FaultCount

abbrev pub deep_mode : Cpu → Bool
deep_mode s = not (s.deep_enabled == 0)
