-- ===== src/Recorder/Snapshot.antt =====
-- `KernelSnapshotRec` and `CanonicalSnapshot` (src/collect/map_reader.h,
-- include/etrace_diag/metrics.h), `DecodeSnapshot` (src/collect/map_reader.cpp) and `AddSnap`
-- (src/collect/deep_collector.cpp). A histogram is the list of its 13 bins.
use e_trace_diag.Prelude.{ℕ, ◌+◌, List, [], ◌∷◌, bit_or, ltb, if◌then◌else◌, u32, u64}

pub record KernelSnapshotRec : Type 0 where
  pub seq : ℕ
  pub ts_ns : ℕ
  pub tgid : ℕ
  pub tid : ℕ
  pub comm : List ℕ
  pub on_cpu_ns : ℕ
  pub nr_sw_vol : ℕ
  pub nr_sw_invol : ℕ
  pub io_ops : ℕ
  pub io_bytes : ℕ
  pub io_hist : List ℕ
  pub pf_minor : ℕ
  pub pf_major : ℕ
  pub lock_waits : ℕ
  pub lock_lat_ns : ℕ
  pub lock_hist : List ℕ
  pub syscall_count : ℕ
  pub syscall_lat_ns : ℕ
  pub syscall_hist : List ℕ
  pub futex_waits : ℕ
  pub futex_lat_ns : ℕ
  pub futex_hist : List ℕ
  pub runq_wait_ns : ℕ
  pub runq_wait_count : ℕ
  pub runq_hist : List ℕ
  pub flags : ℕ

-- The row that is written: the record without its sequence number.
pub record CanonicalSnapshot : Type 0 where
  pub ts_ns : ℕ
  pub tgid : ℕ
  pub tid : ℕ
  pub comm : List ℕ
  pub on_cpu_ns : ℕ
  pub nr_sw_vol : ℕ
  pub nr_sw_invol : ℕ
  pub io_ops : ℕ
  pub io_bytes : ℕ
  pub io_hist : List ℕ
  pub pf_minor : ℕ
  pub pf_major : ℕ
  pub lock_waits : ℕ
  pub lock_lat_ns : ℕ
  pub lock_hist : List ℕ
  pub syscall_count : ℕ
  pub syscall_lat_ns : ℕ
  pub syscall_hist : List ℕ
  pub futex_waits : ℕ
  pub futex_lat_ns : ℕ
  pub futex_hist : List ℕ
  pub runq_wait_ns : ℕ
  pub runq_wait_count : ℕ
  pub runq_hist : List ℕ
  pub flags : ℕ

unfoldable pub decode_snapshot : KernelSnapshotRec → CanonicalSnapshot
decode_snapshot r = record {
  ts_ns = r.ts_ns;
  tgid = r.tgid;
  tid = r.tid;
  comm = r.comm;
  on_cpu_ns = r.on_cpu_ns;
  nr_sw_vol = r.nr_sw_vol;
  nr_sw_invol = r.nr_sw_invol;
  io_ops = r.io_ops;
  io_bytes = r.io_bytes;
  io_hist = r.io_hist;
  pf_minor = r.pf_minor;
  pf_major = r.pf_major;
  lock_waits = r.lock_waits;
  lock_lat_ns = r.lock_lat_ns;
  lock_hist = r.lock_hist;
  syscall_count = r.syscall_count;
  syscall_lat_ns = r.syscall_lat_ns;
  syscall_hist = r.syscall_hist;
  futex_waits = r.futex_waits;
  futex_lat_ns = r.futex_lat_ns;
  futex_hist = r.futex_hist;
  runq_wait_ns = r.runq_wait_ns;
  runq_wait_count = r.runq_wait_count;
  runq_hist = r.runq_hist;
  flags = r.flags;
}

-- `dst[i] += src[i]` over `uint32_t` bins.
unfoldable pub add_hist : List ℕ → List ℕ → List ℕ
add_hist [] ys = []
add_hist (x ∷ xs) [] = x ∷ xs
add_hist (x ∷ xs) (y ∷ ys) = u32 (x + y) ∷ add_hist xs ys

-- The sequence number, the ids and the name of `dst` stay.
unfoldable pub add_snap : KernelSnapshotRec → KernelSnapshotRec → KernelSnapshotRec
unfolding add_hist
add_snap dst src = record dst {
  on_cpu_ns = u64 (dst.on_cpu_ns + src.on_cpu_ns);
  nr_sw_vol = u32 (dst.nr_sw_vol + src.nr_sw_vol);
  nr_sw_invol = u32 (dst.nr_sw_invol + src.nr_sw_invol);
  io_ops = u64 (dst.io_ops + src.io_ops);
  io_bytes = u64 (dst.io_bytes + src.io_bytes);
  io_hist = add_hist dst.io_hist src.io_hist;
  pf_minor = u32 (dst.pf_minor + src.pf_minor);
  pf_major = u32 (dst.pf_major + src.pf_major);
  lock_waits = u64 (dst.lock_waits + src.lock_waits);
  lock_lat_ns = u64 (dst.lock_lat_ns + src.lock_lat_ns);
  lock_hist = add_hist dst.lock_hist src.lock_hist;
  syscall_count = u64 (dst.syscall_count + src.syscall_count);
  syscall_lat_ns = u64 (dst.syscall_lat_ns + src.syscall_lat_ns);
  syscall_hist = add_hist dst.syscall_hist src.syscall_hist;
  futex_waits = u64 (dst.futex_waits + src.futex_waits);
  futex_lat_ns = u64 (dst.futex_lat_ns + src.futex_lat_ns);
  futex_hist = add_hist dst.futex_hist src.futex_hist;
  runq_wait_ns = u64 (dst.runq_wait_ns + src.runq_wait_ns);
  runq_wait_count = u32 (dst.runq_wait_count + src.runq_wait_count);
  runq_hist = add_hist dst.runq_hist src.runq_hist;
  ts_ns = if ltb dst.ts_ns src.ts_ns then src.ts_ns else dst.ts_ns;
  flags = bit_or dst.flags src.flags;
}
