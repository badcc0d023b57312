-- ===== src/Kernel/Producers/Snapshot.antt =====
-- The producers of the flight recorder in bpf/etrace.bpf.c: the timer, which sums the counters of a
-- thread over the processors (`snap_sum_cpu`, `snap_collect_one`), and the sampler on every
-- processor (`collect_tid_current_cpu`, `snap_collect_one_cpu`).
use e_trace_diag.Prelude.{ℕ, ◌+◌, List, [], ◌∷◌, Option, some, none, replicate, u32, u64, Bool}
use e_trace_diag.Recorder.Snapshot.{KernelSnapshotRec, add_hist}
use e_trace_diag.Kernel.Programs.Tables.{lookup, update_noexist}
use e_trace_diag.Kernel.Programs.Stats.{SwitchCount, BlkIo, FaultCount, LatStat}
use e_trace_diag.Kernel.Programs.State.{Cpu}
use e_trace_diag.Kernel.Flight.Commit.{Flight, rec_commit}

-- The counters of a thread on one processor, where the maps have them.
pub record Slice : Type 0 where
  pub on_cpu : Option ℕ
  pub switch : Option SwitchCount
  pub blk : Option BlkIo
  pub fault : Option FaultCount
  pub lock : Option LatStat
  pub sys : Option LatStat
  pub futex : Option LatStat
  pub runq : Option LatStat

unfoldable pub slice_of : ℕ → Cpu → Slice
unfolding lookup
slice_of tid s = record {
  on_cpu = lookup s.on_cpu_ns tid;
  switch = lookup s.switches tid;
  blk = lookup s.block_io tid;
  fault = lookup s.faults tid;
  lock = lookup s.lock_st tid;
  sys = lookup s.sys_st tid;
  futex = lookup s.futex_st tid;
  runq = lookup s.runq_st tid;
}

-- A field of a counter, if the lookup found it.
abbrev pub field {ℓ} : {A : Type ℓ} {V : Type 0} → (V → A) → Option V → Option A
field f none = none
field f (some v) = some (f v)

-- `if (v) x += *v`, on words of 64 and 32 bits and on histograms.
abbrev pub sum64 : ℕ → Option ℕ → ℕ
sum64 x none = x
sum64 x (some v) = u64 (x + v)

abbrev pub sum32 : ℕ → Option ℕ → ℕ
sum32 x none = x
sum32 x (some v) = u32 (x + v)

unfoldable pub sum_hist : List ℕ → Option (List ℕ) → List ℕ
unfolding add_hist
sum_hist h none = h
sum_hist h (some g) = add_hist h g

unfoldable pub snap_sum_cpu : Slice → KernelSnapshotRec → KernelSnapshotRec
unfolding sum_hist
snap_sum_cpu c scr = record scr {
  on_cpu_ns = sum64 scr.on_cpu_ns c.on_cpu;
  nr_sw_vol = sum32 scr.nr_sw_vol (field (λ v. v.vol) c.switch);
  nr_sw_invol = sum32 scr.nr_sw_invol (field (λ v. v.invol) c.switch);
  io_ops = sum64 scr.io_ops (field (λ v. v.ops) c.blk);
  io_bytes = sum64 scr.io_bytes (field (λ v. v.bytes) c.blk);
  io_hist = sum_hist scr.io_hist (field (λ v. v.hist) c.blk);
  pf_minor = sum32 scr.pf_minor (field (λ v. v.minor) c.fault);
  pf_major = sum32 scr.pf_major (field (λ v. v.major) c.fault);
  lock_waits = sum64 scr.lock_waits (field (λ v. v.count) c.lock);
  lock_lat_ns = sum64 scr.lock_lat_ns (field (λ v. v.lat_sum) c.lock);
  lock_hist = sum_hist scr.lock_hist (field (λ v. v.hist) c.lock);
  syscall_count = sum64 scr.syscall_count (field (λ v. v.count) c.sys);
  syscall_lat_ns = sum64 scr.syscall_lat_ns (field (λ v. v.lat_sum) c.sys);
  syscall_hist = sum_hist scr.syscall_hist (field (λ v. v.hist) c.sys);
  futex_waits = sum64 scr.futex_waits (field (λ v. v.count) c.futex);
  futex_lat_ns = sum64 scr.futex_lat_ns (field (λ v. v.lat_sum) c.futex);
  futex_hist = sum_hist scr.futex_hist (field (λ v. v.hist) c.futex);
  runq_wait_ns = sum64 scr.runq_wait_ns (field (λ v. v.lat_sum) c.runq);
  runq_wait_count = sum32 scr.runq_wait_count (field (λ v. u32 v.count) c.runq);
  runq_hist = sum_hist scr.runq_hist (field (λ v. v.hist) c.runq);
}

-- `bpf_loop` over the processors.
unfoldable pub snap_sum : List Slice → KernelSnapshotRec → KernelSnapshotRec
unfolding snap_sum_cpu
snap_sum [] scr = scr
snap_sum (c ∷ cs) scr = snap_sum cs (snap_sum_cpu c scr)

-- `if (v) x = *v`.
abbrev pub get {ℓ} : {A : Type ℓ} → A → Option A → A
get x none = x
get x (some v) = v

-- `collect_tid_current_cpu`, from what the helpers give.
unfoldable pub copy_slice : Slice → KernelSnapshotRec → KernelSnapshotRec
copy_slice c scr = record scr {
  on_cpu_ns = get scr.on_cpu_ns c.on_cpu;
  nr_sw_vol = get scr.nr_sw_vol (field (λ v. v.vol) c.switch);
  nr_sw_invol = get scr.nr_sw_invol (field (λ v. v.invol) c.switch);
  io_ops = get scr.io_ops (field (λ v. v.ops) c.blk);
  io_bytes = get scr.io_bytes (field (λ v. v.bytes) c.blk);
  io_hist = get scr.io_hist (field (λ v. v.hist) c.blk);
  pf_minor = get scr.pf_minor (field (λ v. v.minor) c.fault);
  pf_major = get scr.pf_major (field (λ v. v.major) c.fault);
  lock_waits = get scr.lock_waits (field (λ v. v.count) c.lock);
  lock_lat_ns = get scr.lock_lat_ns (field (λ v. v.lat_sum) c.lock);
  lock_hist = get scr.lock_hist (field (λ v. v.hist) c.lock);
  syscall_count = get scr.syscall_count (field (λ v. v.count) c.sys);
  syscall_lat_ns = get scr.syscall_lat_ns (field (λ v. v.lat_sum) c.sys);
  syscall_hist = get scr.syscall_hist (field (λ v. v.hist) c.sys);
  futex_waits = get scr.futex_waits (field (λ v. v.count) c.futex);
  futex_lat_ns = get scr.futex_lat_ns (field (λ v. v.lat_sum) c.futex);
  futex_hist = get scr.futex_hist (field (λ v. v.hist) c.futex);
  runq_wait_ns = get scr.runq_wait_ns (field (λ v. v.lat_sum) c.runq);
  runq_wait_count = get scr.runq_wait_count (field (λ v. u32 v.count) c.runq);
  runq_hist = get scr.runq_hist (field (λ v. v.hist) c.runq);
}

-- The helpers of the sampler create the counters that the maps do not have.
unfoldable pub create_counters : ℕ → Cpu → Cpu
unfolding update_noexist
create_counters tid s = record s {
  on_cpu_ns = update_noexist s.on_cpu_ns tid 0;
  switches = update_noexist s.switches tid s.locals.switch;
  block_io = update_noexist s.block_io tid s.locals.blk;
  faults = update_noexist s.faults tid s.locals.faults;
  lock_st = update_noexist s.lock_st tid s.locals.lat;
  sys_st = update_noexist s.sys_st tid s.locals.lat;
  futex_st = update_noexist s.futex_st tid s.locals.lat;
  runq_st = update_noexist s.runq_st tid s.locals.lat;
}

-- `struct task_meta_t`.
pub record TaskMeta : Type 0 where
  pub tgid : ℕ
  pub comm : List ℕ

unfoldable pub rec_set_meta : Option TaskMeta → ℕ → KernelSnapshotRec → KernelSnapshotRec
rec_set_meta none tid scr = record scr { tid = tid; tgid = 0 }
rec_set_meta (some meta) tid scr = record scr { tid = tid; tgid = meta.tgid; comm = meta.comm }

-- `__builtin_memset(scr, 0, sizeof(*scr))`.
abbrev pub zeroed : KernelSnapshotRec
zeroed = record {
  seq = 0;
  ts_ns = 0;
  tgid = 0;
  tid = 0;
  comm = replicate 16 0;
  on_cpu_ns = 0;
  nr_sw_vol = 0;
  nr_sw_invol = 0;
  io_ops = 0;
  io_bytes = 0;
  io_hist = replicate 13 0;
  pf_minor = 0;
  pf_major = 0;
  lock_waits = 0;
  lock_lat_ns = 0;
  lock_hist = replicate 13 0;
  syscall_count = 0;
  syscall_lat_ns = 0;
  syscall_hist = replicate 13 0;
  futex_waits = 0;
  futex_lat_ns = 0;
  futex_hist = replicate 13 0;
  runq_wait_ns = 0;
  runq_wait_count = 0;
  runq_hist = replicate 13 0;
  flags = 0;
}

-- `slices`: the thread's counters on the processors 0 to `ncpus - 1`, 1024 at most.
unfoldable pub snap_collect_one : Option TaskMeta → ℕ → List Slice → ℕ → Bool → Flight → Flight
unfolding snap_sum rec_set_meta rec_commit
snap_collect_one meta tid slices now deep ring =
    rec_commit ring (rec_set_meta meta tid (snap_sum slices zeroed)) now deep

unfoldable pub snap_collect_one_cpu : Option TaskMeta → ℕ → Cpu → ℕ → Bool → Flight → Flight
unfolding slice_of copy_slice create_counters rec_set_meta rec_commit
snap_collect_one_cpu meta tid s now deep ring =
    rec_commit ring
      (rec_set_meta meta tid (copy_slice (slice_of tid (create_counters tid s)) zeroed)) now deep
