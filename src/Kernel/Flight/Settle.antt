-- ===== src/Kernel/Flight/Settle.antt =====
-- That the calls of `rec_commit` (bpf/etrace.bpf.c) under way come to an end, in whatever order they
-- are run, and what the reader then finds.
use e_trace_diag.Prelude.{ℕ, zero, suc, ◌+◌, ◌≡◌}
use e_trace_diag.Recorder.Snapshot.{KernelSnapshotRec}
use e_trace_diag.Kernel.Flight.Commit.{
  put, copy_record, settle, commit_seq, Stage, waiting, claimed, copied, finished, System,
}

-- A number of steps that end a copy or a call; no call begins.
pub data Ends (s : System) : ℕ → System → Type 0 where
  stop : Ends s zero s
  ends_copy :
      {n : ℕ} {t : System} (k : ℕ) (r : KernelSnapshotRec)
      → Ends s n t
      → t.stage k ≡ claimed r
      → Ends s
          (suc n)
          (record { flight = copy_record t.flight k r; stage = put t.stage k (copied r) })
  ends_call :
      {n : ℕ} {t : System} (k : ℕ) (r : KernelSnapshotRec)
      → Ends s n t
      → t.stage k ≡ copied r
      → Ends s
          (suc n)
          (record { flight = commit_seq t.flight k; stage = put t.stage k (finished (settle k r)) })

-- None of these steps is left.
abbrev pub AllRun : System → Type 0
AllRun t = (u : System) → Ends t 1 u → ⊥

-- How many of them a call has before it.
weight : Stage → ℕ
weight waiting = 0
weight (claimed r) = 2
weight (copied r) = 1
weight (finished r) = 0

left_over : (ℕ → Stage) → ℕ → ℕ
unfolding weight
left_over stage zero = 0
left_over stage (suc n) = weight (stage n) + left_over stage n

-- What a number of steps leaves of those that were to come.
record Counted (s : System) (n : ℕ) (t : System) : Type 0 where
  head : t.flight.head ≡ s.flight.head
  count : n + left_over t.stage t.flight.head ≡ left_over s.stage s.flight.head
