-- ===== src/Tests/Recordings.antt =====
-- Records of two threads, a ring of four slots, and two drains of it
-- (src/collect/deep_collector.cpp).
use e_trace_diag.Prelude.{
  ◌+◌, ℕ, ◌+◌, ◌*◌, ◌-◌, ◌%◌, ◌^◌, ◌≡◌, refl, List, [], ◌∷◌, ◌++◌, Option, some, none, arith, map,
  ltb, if◌then◌else◌, u64,
}
use e_trace_diag.Prelude.Sorting.{insertion}
use e_trace_diag.Recorder.Snapshot.{KernelSnapshotRec, add_snap}
use e_trace_diag.Recorder.Merge.{ByTime, merge_per_cpu}
use e_trace_diag.Recorder.Conserve.{total, merge_per_cpu-total, IsCounter}
use e_trace_diag.Recorder.Ring.{Reader, read_record, checked, post_records}
use e_trace_diag.Recorder.Drains.{numbers, IsCommitted, post_records_skip}

-- Record number `k`, of thread 1, as the kernel commits it.
abbrev truth : ℕ → KernelSnapshotRec
truth k = record {
  seq = u64 (k * 2);
  ts_ns = k;
  tgid = 1;
  tid = 1;
  comm = [];
  on_cpu_ns = 7;
  nr_sw_vol = 0;
  nr_sw_invol = 0;
  io_ops = 0;
  io_bytes = 0;
  io_hist = [];
  pf_minor = 0;
  pf_major = 0;
  lock_waits = 0;
  lock_lat_ns = 0;
  lock_hist = [];
  syscall_count = 0;
  syscall_lat_ns = 0;
  syscall_hist = [];
  futex_waits = 0;
  futex_lat_ns = 0;
  futex_hist = [];
  runq_wait_ns = 0;
  runq_wait_count = 0;
  runq_hist = [];
  flags = 0;
}

abbrev by_time : ByTime
by_time = insertion (λ r. r.ts_ns)

abbrev records : List KernelSnapshotRec
records = truth 3 ∷ truth 5 ∷ record (truth 3) { tid = 2 } ∷ []

-- What a lookup finds when the records below `head` are there.
abbrev found : ℕ → ℕ → ℕ → Option KernelSnapshotRec
found head k ix = if ltb k head then some (truth k) else none

abbrev ring : ℕ → Reader
ring head = record { first = found head; second = found head }

ring-IsCommitted : (head : ℕ) → IsCommitted truth (ring head) 4 head
unfolding read_record checked
ring-IsCommitted head = record { visible = λ k h g. ground arith; unwritten = λ h. ground arith }

on_cpu : IsCounter (λ r. r.on_cpu_ns) (2 ^ 64)
unfolding add_snap
on_cpu a b = refl

merge_per_cpu-total_example :
    total (λ r. r.on_cpu_ns) (merge_per_cpu by_time 0 records) % 2 ^ 64
    ≡ total (λ r. r.on_cpu_ns) records % 2 ^ 64
merge_per_cpu-total_example =
    merge_per_cpu-total (λ r. r.on_cpu_ns) (2 ^ 64) on_cpu by_time 0 records

post_records_skip_example :
    post_records (ring 4) 4 1 4 ++ post_records (ring 7) 4 4 7
    ≡ map truth (numbers (1 + 1) (4 - (1 + 1))) ++ map truth (numbers (4 + 1) (7 - (4 + 1)))
post_records_skip_example =
    post_records_skip truth (ring 4) (ring 7) 4 1 4 7 (ring-IsCommitted 4) (ring-IsCommitted 7)
      (omega arith) (omega arith) (omega arith) (omega arith)
