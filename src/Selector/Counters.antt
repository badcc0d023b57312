-- ===== src/Selector/Counters.antt =====
-- The counters of a thread and the score of `ComputeScore`, `ReadTid` and steps 1 and 4 of
-- `Evaluate` (src/collect/target_selector.cpp).
use e_trace_diag.Prelude.{
  ℕ, ◌+◌, ◌-◌, List, [], ◌∷◌, Option, some, none, leb, ◌==◌, if◌then◌else◌, u64, sub64,
}
use e_trace_diag.Prelude.Float.{Float}
use e_trace_diag.Config.{Config}
use e_trace_diag.Selector.Maps.{find, store, find_or}

-- The fields of `ProcessRow` that the selector reads.
pub record ProcessRow : Type 0 where
  pub pid : ℕ
  pub tgid : ℕ
  pub utime : ℕ
  pub stime : ℕ
  pub nvcsw : ℕ
  pub nivcsw : ℕ
  pub minflt : ℕ
  pub majflt : ℕ
  pub start_time : ℕ

pub record Counters : Type 0 where
  pub on_cpu_ns : ℕ
  pub sw_vol : ℕ
  pub sw_invol : ℕ
  pub io_ops : ℕ
  pub io_bytes : ℕ
  pub pf_minor : ℕ
  pub pf_major : ℕ
  pub lock_waits : ℕ

pub record ProcAgg : Type 0 where
  pub on_cpu_ns : ℕ
  pub sw : ℕ
  pub io_ops : ℕ
  pub io_bytes : ℕ
  pub faults : ℕ
  pub lock : ℕ

abbrev pub no_agg : ProcAgg
no_agg = record { on_cpu_ns = 0; sw = 0; io_ops = 0; io_bytes = 0; faults = 0; lock = 0 }

-- The kernel's maps `block_io` (operations and bytes) and `lock_st` (waits), by thread.
pub record KernelMaps : Type 0 where
  pub block_io : ℕ → Option (ℕ × ℕ)
  pub lock_st : ℕ → Option ℕ

abbrev pub io_or_zero : Option (ℕ × ℕ) → ℕ × ℕ
io_or_zero none = (0, 0)
io_or_zero (some v) = v

abbrev pub or_zero : Option ℕ → ℕ
or_zero none = 0
or_zero (some n) = n

unfoldable pub read_tid : KernelMaps → ℕ → ProcessRow → Counters
read_tid maps tid proc = record {
  on_cpu_ns = u64 (proc.utime + proc.stime);
  sw_vol = proc.nvcsw;
  sw_invol = proc.nivcsw;
  io_ops = (io_or_zero (maps.block_io tid)).0;
  io_bytes = (io_or_zero (maps.block_io tid)).1;
  pf_minor = proc.minflt;
  pf_major = proc.majflt;
  lock_waits = or_zero (maps.lock_st tid);
}

-- `tid2tgid`, of a table in which a later row of the same thread counts.
unfoldable pub tid2tgid : List ProcessRow → List (ℕ × ℕ) → List (ℕ × ℕ)
unfolding store
tid2tgid [] m = m
tid2tgid (r ∷ rows) m = tid2tgid rows (store r.pid (if r.tgid == 0 then r.pid else r.tgid) m)

-- `tid2tgid.count(tid) ? tid2tgid[tid] : tid`.
unfoldable pub tgid_of : List (ℕ × ℕ) → ℕ → ℕ
unfolding find_or
tgid_of m tid = find_or tid tid m

-- `snap.c`.
unfoldable pub read_all : KernelMaps → List ProcessRow → List (ℕ × Counters) → List (ℕ × Counters)
unfolding read_tid store
read_all maps [] m = m
read_all maps (r ∷ rows) m = read_all maps rows (store r.pid (read_tid maps r.pid r) m)

-- `c >= b ? c - b : 0`.
abbrev pub since_base : ℕ → ℕ → ℕ
since_base c b = if leb b c then c - b else 0

-- The delta against the base snapshot, or the whole count for a thread that is new.
unfoldable pub delta : Counters → Option Counters → Counters
delta c none = c
delta c (some b) = record {
  on_cpu_ns = since_base c.on_cpu_ns b.on_cpu_ns;
  sw_vol = since_base c.sw_vol b.sw_vol;
  sw_invol = since_base c.sw_invol b.sw_invol;
  io_ops = since_base c.io_ops b.io_ops;
  io_bytes = since_base c.io_bytes b.io_bytes;
  pf_minor = since_base c.pf_minor b.pf_minor;
  pf_major = since_base c.pf_major b.pf_major;
  lock_waits = since_base c.lock_waits b.lock_waits;
}

-- `thread_delta`.
unfoldable pub thread_deltas : List (ℕ × Counters) → List (ℕ × Counters) → List (ℕ × Counters)
unfolding delta find
thread_deltas base [] = []
thread_deltas base ((tid, c) ∷ cur) = (tid, delta c (find tid base)) ∷ thread_deltas base cur

-- What `ComputeScore` takes of one thread.
unfoldable pub thread_agg : ℕ → Counters → ProcAgg
thread_agg cpu_ns d = record {
  on_cpu_ns = cpu_ns;
  sw = u64 (d.sw_vol + d.sw_invol);
  io_ops = d.io_ops;
  io_bytes = d.io_bytes;
  faults = u64 (d.pf_minor + d.pf_major);
  lock = d.lock_waits;
}

-- One thread's counts added to those of its process.
unfoldable pub add_agg : ProcAgg → ProcAgg → ProcAgg
add_agg t a = record {
  on_cpu_ns = u64 (a.on_cpu_ns + t.on_cpu_ns);
  sw = u64 (a.sw + t.sw);
  io_ops = u64 (a.io_ops + t.io_ops);
  io_bytes = u64 (a.io_bytes + t.io_bytes);
  faults = u64 (a.faults + t.faults);
  lock = u64 (a.lock + t.lock);
}

module _ (f : Float) where
  open f use {Double, lt, le, add, mul, div, of_nat, milli, truncate}

  -- The lambda `sat`.
  unfoldable pub saturate : Double → Double
  saturate v = if lt v (of_nat 0) then of_nat 0 else (if lt (of_nat 1) v then of_nat 1 else v)

  unfoldable pub compute_score : Config Double → Double → ProcAgg → Double
  unfolding saturate
  compute_score cfg window_s a =
      let w = cfg.targets.weights in
      let cpu_util = saturate (div (of_nat a.on_cpu_ns) (mul window_s (of_nat 1000000000))) in
      let sw = div (of_nat a.sw) window_s in
      let io_rate = div (of_nat a.io_ops) window_s in
      let io_bw = div (of_nat a.io_bytes) window_s in
      let fault = div (of_nat a.faults) window_s in
      let lock = div (of_nat a.lock) window_s in
      let cpu_part = mul w.cpu cpu_util in
      let switch_part = mul w.swch (saturate (div sw (of_nat 10000))) in
      let io_sum =
        add (saturate (div io_rate (of_nat 10000))) (saturate (div io_bw (of_nat 1073741824))) in
      let io_part = mul w.io (div io_sum (of_nat 2)) in
      let fault_part = mul w.fault (saturate (div fault (of_nat 10000))) in
      let lock_part = mul w.lock (saturate (div lock (of_nat 1000))) in
      add (add (add (add cpu_part switch_part) io_part) fault_part) lock_part

  -- `(uint64_t)cpu_ns`, where `ticks_per_s` is `sysconf(_SC_CLK_TCK)`.
  unfoldable pub cpu_ns : Double → Counters → ℕ
  cpu_ns ticks_per_s d = truncate (
      if lt (of_nat 0) ticks_per_s
      then div (mul (of_nat d.on_cpu_ns) (of_nat 1000000000)) ticks_per_s
      else of_nat 0)

  -- `tid_score`.
  unfoldable pub thread_scores :
      Config Double → Double → Double → List (ℕ × Counters) → List (ℕ × Double)
  unfolding compute_score cpu_ns thread_agg
  thread_scores cfg ticks_per_s window_s [] = []
  thread_scores cfg ticks_per_s window_s ((tid, d) ∷ ds) =
      (tid, compute_score cfg window_s (thread_agg (cpu_ns ticks_per_s d) d))
      ∷ thread_scores cfg ticks_per_s window_s ds

  -- `pacc`.
  unfoldable pub aggregate :
      Double → List (ℕ × ℕ) → List (ℕ × Counters) → List (ℕ × ProcAgg) → List (ℕ × ProcAgg)
  unfolding cpu_ns thread_agg add_agg store tgid_of find_or
  aggregate ticks_per_s tgids [] m = m
  aggregate ticks_per_s tgids ((tid, d) ∷ ds) m =
      let tgid = tgid_of tgids tid in
      aggregate ticks_per_s tgids ds
        (store tgid (add_agg (thread_agg (cpu_ns ticks_per_s d) d) (find_or no_agg tgid m)) m)

  -- `pscored` before it is sorted.
  unfoldable pub process_scores : Config Double → Double → List (ℕ × ProcAgg) → List (ℕ × Double)
  unfolding compute_score
  process_scores cfg window_s [] = []
  process_scores cfg window_s ((tgid, a) ∷ m) =
      (tgid, compute_score cfg window_s a) ∷ process_scores cfg window_s m

  -- `window_s`.
  unfoldable pub window_length : ℕ → ℕ → Double
  window_length cur_ts base_ts =
      let s = div (of_nat (sub64 cur_ts base_ts)) (of_nat 1000000000) in
      if le s (of_nat 0) then of_nat 1 else s
