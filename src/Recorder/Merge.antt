-- ===== src/Recorder/Merge.antt =====
-- `MergePerCpu` of src/collect/deep_collector.cpp. The `std::map` is the list of its entries in the
-- order of the keys.
use e_trace_diag.Prelude.{
  ℕ, ◌/◌, ◌&&◌, ◌||◌, List, [], ◌∷◌, ltb, ◌==◌, if◌then◌else◌, map, millis_ns,
}
use e_trace_diag.Prelude.Sorting.{Sort}
use e_trace_diag.Recorder.Snapshot.{KernelSnapshotRec, add_snap}

-- The key is a thread and a tick.
pub record Group : Type 0 where
  pub tid : ℕ
  pub bucket : ℕ
  pub snap : KernelSnapshotRec

-- `ns_per_tick`.
unfoldable pub tick_ns : ℕ → ℕ
tick_ns interval_ms = if millis_ns interval_ms == 0 then 100000000 else millis_ns interval_ms

-- One round of the first loop: a new entry at its place, or the sum into the old one.
unfoldable pub add_record : ℕ → ℕ → KernelSnapshotRec → List Group → List Group
add_record tid bucket r [] = record { tid = tid; bucket = bucket; snap = r } ∷ []
add_record tid bucket r (g ∷ gs) =
    if tid == g.tid && bucket == g.bucket
    then record g { snap = add_snap g.snap r } ∷ gs
    else if ltb tid g.tid || (tid == g.tid && ltb bucket g.bucket)
    then record { tid = tid; bucket = bucket; snap = r } ∷ g ∷ gs
    else g ∷ add_record tid bucket r gs

unfoldable pub group_all : ℕ → List KernelSnapshotRec → List Group → List Group
unfolding add_record
group_all tick [] gs = gs
group_all tick (r ∷ rs) gs = group_all tick rs (add_record r.tid (r.ts_ns / tick) r gs)

abbrev pub ByTime : Type 0
ByTime = Sort KernelSnapshotRec (λ r. r.ts_ns)

unfoldable pub merge_per_cpu : ByTime → ℕ → List KernelSnapshotRec → List KernelSnapshotRec
unfolding tick_ns group_all
merge_per_cpu by_time interval_ms rs =
    by_time.sort (map (λ g. g.snap) (group_all (tick_ns interval_ms) rs []))
