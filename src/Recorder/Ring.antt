-- ===== src/Recorder/Ring.antt =====
-- The ring loops of `ExtractPre` and `DrainPost` (src/collect/deep_collector.cpp). The kernel goes
-- on writing while they read: `Reader` says what the two lookups of each round find.
use e_trace_diag.Prelude.{
  ℕ, zero, suc, ◌+◌, ◌-◌, ◌*◌, ◌%◌, Bool, not, ◌||◌, List, [], ◌∷◌, Option, some, none, bit_and,
  ltb, leb, ◌==◌, if◌then◌else◌, map, u32, u64, sub64, seconds_ns,
}
use e_trace_diag.Recorder.Snapshot.{KernelSnapshotRec, CanonicalSnapshot, decode_snapshot}
use e_trace_diag.Recorder.Merge.{ByTime, merge_per_cpu}

-- In the round for record number `i`, at slot `ix`: the first lookup and the second.
pub record Reader : Type 0 where
  pub first : ℕ → ℕ → Option KernelSnapshotRec
  pub second : ℕ → ℕ → Option KernelSnapshotRec

-- `(u32)(i & (cap - 1))`.
unfoldable pub slot : ℕ → ℕ → ℕ
slot cap i = u32 (bit_and i (cap - 1))

-- The checks of one round: committed, unchanged between the lookups, and of this number.
unfoldable pub checked : ℕ → KernelSnapshotRec → KernelSnapshotRec → Option KernelSnapshotRec
checked i a b = if not (a.seq == b.seq) || not (a.seq == u64 (i * 2)) then none else some b

unfoldable pub read_record : Reader → ℕ → ℕ → Option KernelSnapshotRec
unfolding slot checked
read_record rd cap i = elim (rd.first i (slot cap i)) [
  | none ↦ none
  | some a ↦
      if a.seq % 2 == 1
      then none
      else elim (rd.second i (slot cap i)) [ none ↦ none | some b ↦ checked i a b ]
]

abbrev pub cons_some : Option KernelSnapshotRec → List KernelSnapshotRec → List KernelSnapshotRec
cons_some none rs = rs
cons_some (some r) rs = r ∷ rs

-- The rounds for `n` numbers from `i` on.
unfoldable pub read_records : Reader → ℕ → ℕ → ℕ → List KernelSnapshotRec
unfolding read_record
read_records rd cap i zero = []
read_records rd cap i (suc n) = cons_some (read_record rd cap i) (read_records rd cap (suc i) n)

-- `if (b.ts_ns >= cutoff)`.
unfoldable pub since : ℕ → List KernelSnapshotRec → List KernelSnapshotRec
since cutoff [] = []
since cutoff (r ∷ rs) = if leb cutoff r.ts_ns then r ∷ since cutoff rs else since cutoff rs

-- The rows in the order in which they are written: merged per tick, or sorted by time.
unfoldable pub rows : ByTime → Bool → ℕ → List KernelSnapshotRec → List CanonicalSnapshot
unfolding decode_snapshot merge_per_cpu
rows by_time per_cpu interval_ms rs =
    map decode_snapshot (if per_cpu then merge_per_cpu by_time interval_ms rs else by_time.sort rs)

unfoldable pub pre_cutoff : ℕ → ℕ → ℕ
pre_cutoff pre_anomaly_seconds anomaly_start_ns =
    let pre_ns = seconds_ns pre_anomaly_seconds in
    if ltb pre_ns anomaly_start_ns then anomaly_start_ns - pre_ns else 0

-- The records that `ExtractPre` picks, of the last `cap` below `head`.
unfoldable pub pre_records : Reader → ℕ → ℕ → ℕ → List KernelSnapshotRec
unfolding read_records since
pre_records rd cap head cutoff =
    let start = if ltb cap head then head - cap else 0 in
    since cutoff (read_records rd cap start (head - start))

unfoldable pub extract_pre : ByTime → Bool → ℕ → Reader → ℕ → ℕ → ℕ → ℕ → List CanonicalSnapshot
unfolding pre_records rows pre_cutoff
extract_pre by_time per_cpu interval_ms rd cap head pre_anomaly_seconds anomaly_start_ns =
    rows by_time per_cpu interval_ms
      (pre_records rd cap head (pre_cutoff pre_anomaly_seconds anomaly_start_ns))

-- What `DrainPost` leaves: the new `prev_head_`, a gap if the ring was overrun, and the rows.
pub record Drained : Type 0 where
  pub prev_head : ℕ
  pub gap : Option (ℕ × ℕ)
  pub series : List CanonicalSnapshot

-- The records that `DrainPost` picks: the numbers `prev_head + 1` to `head`.
unfoldable pub post_records : Reader → ℕ → ℕ → ℕ → List KernelSnapshotRec
unfolding read_records
post_records rd cap prev_head head = read_records rd cap (prev_head + 1) (head - prev_head)

unfoldable pub drain_post : ByTime → Bool → ℕ → Reader → ℕ → ℕ → ℕ → Drained
unfolding post_records rows
drain_post by_time per_cpu interval_ms rd cap prev_head head = record {
  prev_head = head;
  gap = if leb (sub64 cap 64) (sub64 head prev_head) then some (prev_head, head) else none;
  series = rows by_time per_cpu interval_ms (post_records rd cap prev_head head);
}
