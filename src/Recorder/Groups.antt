-- ===== src/Recorder/Groups.antt =====
-- How `MergePerCpu` of src/collect/deep_collector.cpp groups the records.
use e_trace_diag.Prelude.{ℕ, ◌/◌, ◌<◌, List, [], ◌∷◌, ◌≡◌, ◌⊎◌, refl, arith, All}
use e_trace_diag.Recorder.Snapshot.{KernelSnapshotRec, add_snap}
use e_trace_diag.Recorder.Merge.{Group, add_record, group_all}

-- The keys rise strictly, so one tick of one thread is one group.
abbrev pub InOrder : ℕ → ℕ → List Group → Type 0
InOrder tid bucket [] = Unit {0}
InOrder tid bucket (g ∷ gs) =
    ((tid < g.tid) ⊎ ((tid ≡ g.tid) × (bucket < g.bucket))) × InOrder g.tid g.bucket gs

abbrev pub Strict : List Group → Type 0
Strict [] = Unit {0}
Strict (g ∷ gs) = InOrder g.tid g.bucket gs

add_record-InOrder :
    (t b tid bucket : ℕ) (r : KernelSnapshotRec) (gs : List Group)
    → ((t < tid) ⊎ ((t ≡ tid) × (b < bucket)))
    → InOrder t b gs
    → InOrder t b (add_record tid bucket r gs)
unfolding add_record
add_record-InOrder t b tid bucket r [] lt h = (lt, tt)
add_record-InOrder t b tid bucket r (g ∷ gs) lt h =
    ground (arith, add_record-InOrder g.tid g.bucket tid bucket r gs)

add_record-Strict :
    (tid bucket : ℕ) (r : KernelSnapshotRec) (gs : List Group)
    → Strict gs
    → Strict (add_record tid bucket r gs)
unfolding add_record
add_record-Strict tid bucket r [] h = tt
add_record-Strict tid bucket r (g ∷ gs) h =
    ground (arith, add_record-InOrder g.tid g.bucket tid bucket r gs)

-- The record of a group lies in the thread and the tick of its key.
abbrev pub IsKeyed : ℕ → Group → Type 0
IsKeyed tick g = (g.snap.tid ≡ g.tid) × (g.snap.ts_ns / tick ≡ g.bucket)

add_record-IsKeyed :
    (tick : ℕ) (r : KernelSnapshotRec) (gs : List Group)
    → All (IsKeyed tick) gs
    → All (IsKeyed tick) (add_record r.tid (r.ts_ns / tick) r gs)
unfolding add_record add_snap
add_record-IsKeyed tick r [] h = ((refl, refl), tt)
add_record-IsKeyed tick r (g ∷ gs) h = ground (arith, add_record-IsKeyed tick r gs h.1)

group_all-keeps :
    (tick : ℕ) (rs : List KernelSnapshotRec) (gs : List Group)
    → Strict gs
    → All (IsKeyed tick) gs
    → Strict (group_all tick rs gs) × All (IsKeyed tick) (group_all tick rs gs)
unfolding group_all
group_all-keeps tick [] gs s k = (s, k)
group_all-keeps tick (r ∷ rs) gs s k =
    group_all-keeps tick rs (add_record r.tid (r.ts_ns / tick) r gs)
      (add_record-Strict r.tid (r.ts_ns / tick) r gs s) (add_record-IsKeyed tick r gs k)

-- The groups have strictly rising keys, so no two are of one thread and one tick, and the merged
-- record of each group lies in the thread and the tick of its key.
pub group_all_lem :
    (tick : ℕ) (rs : List KernelSnapshotRec)
    → Strict (group_all tick rs []) × All (IsKeyed tick) (group_all tick rs [])
group_all_lem tick rs = group_all-keeps tick rs [] tt tt
