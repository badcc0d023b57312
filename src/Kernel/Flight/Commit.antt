-- ===== src/Kernel/Flight/Commit.antt =====
-- `rec_commit` of bpf/etrace.bpf.c, which puts a record into the flight recorder. Every processor
-- runs it, at the same time as the others and as the reader of src/collect/deep_collector.cpp.
use e_trace_diag.Prelude.{ℕ, ◌+◌, ◌*◌, ◌^◌, ◌<◌, ◌≡◌, ◌⊎◌, Bool, ◌==◌, if◌then◌else◌, some, u64}
use e_trace_diag.Recorder.Snapshot.{KernelSnapshotRec}
use e_trace_diag.Recorder.Ring.{Reader, slot}

-- `ETD_RING_CAP`.
abbrev pub ring_cap : ℕ
ring_cap = 32768

-- The maps `ring_head` and `recorder`. A lookup in an array map finds a value for every index.
pub record Flight : Type 0 where
  pub head : ℕ
  pub ring : ℕ → KernelSnapshotRec

abbrev pub put {ℓ} : {A : Type ℓ} → (ℕ → A) → ℕ → A → ℕ → A
put f i a j = if i == j then a else f j

-- `__sync_fetch_and_add(headp, 1)`.
unfoldable pub fetch_add : Flight → Flight
fetch_add s = record s { head = u64 (s.head + 1) }

-- The scratch record with its time, its flags and `(head << 1) | 1`.
unfoldable pub stamp : KernelSnapshotRec → ℕ → Bool → ℕ → KernelSnapshotRec
stamp scr now deep head = record scr {
  ts_ns = now;
  flags = if deep then 1 else 0;
  seq = u64 (head * 2) + 1;
}

-- `__builtin_memcpy(rec, scr, sizeof(*rec))`, in whole.
unfoldable pub copy_record : Flight → ℕ → KernelSnapshotRec → Flight
unfolding slot
copy_record s head scr = record s { ring = put s.ring (slot ring_cap head) scr }

-- The record with `head << 1`.
unfoldable pub settle : ℕ → KernelSnapshotRec → KernelSnapshotRec
settle head rec = record rec { seq = u64 (head * 2) }

-- `rec->seq = head << 1`.
unfoldable pub commit_seq : Flight → ℕ → Flight
unfolding slot settle
commit_seq s head =
    let ix = slot ring_cap head in record s { ring = put s.ring ix (settle head (s.ring ix)) }

-- The function where nothing comes between.
unfoldable pub rec_commit : Flight → KernelSnapshotRec → ℕ → Bool → Flight
unfolding fetch_add stamp copy_record commit_seq
rec_commit s scr now deep =
    let head = s.head in commit_seq (copy_record (fetch_add s) head (stamp scr now deep head)) head

-- How far the call that got number `k` has come; its scratch record, and in the end the record that
-- it left.
pub data Stage : Type 0 where
  waiting : Stage
  claimed : KernelSnapshotRec → Stage
  copied : KernelSnapshotRec → Stage
  finished : KernelSnapshotRec → Stage

-- The maps and the calls that use them. A call is known by the number that it gets.
pub record System : Type 0 where
  pub flight : Flight
  pub stage : ℕ → Stage

-- One step of one call. The environment: a call ends before `ring_cap` further records are claimed,
-- and fewer than 2 ^ 63 are. While the copy runs, the slot may hold anything, but for its sequence
-- number, which is the old one or the new one.
pub data Step (s : System) : System → Type 0 where
  claim :
      (scr : KernelSnapshotRec) (now : ℕ) (deep : Bool)
      → s.flight.head + 1 < 2 ^ 63
      → ((k : ℕ)
          → k + ring_cap ≡ s.flight.head
          → (r : KernelSnapshotRec) × (s.stage k ≡ finished r))
      → Step s (record {
        flight = fetch_add s.flight;
        stage = put s.stage s.flight.head (claimed (stamp scr now deep s.flight.head));
      })
  tear :
      (k : ℕ) (r w : KernelSnapshotRec)
      → s.stage k ≡ claimed r
      → (w.seq ≡ (s.flight.ring (slot ring_cap k)).seq) ⊎ (w.seq ≡ r.seq)
      → Step s (record s { flight = copy_record s.flight k w })
  copy :
      (k : ℕ) (r : KernelSnapshotRec)
      → s.stage k ≡ claimed r
      → Step s (record { flight = copy_record s.flight k r; stage = put s.stage k (copied r) })
  finish :
      (k : ℕ) (r : KernelSnapshotRec)
      → s.stage k ≡ copied r
      → Step s
          (record { flight = commit_seq s.flight k; stage = put s.stage k (finished (settle k r)) })

-- The states that steps lead to.
pub data Reach (s : System) : System → Type 0 where
  here : Reach s s
  next : {t u : System} → Reach s t → Step t u → Reach s u

-- The maps as they are loaded: all zero.
pub record IsStart (s : System) : Type 0 where
  pub head : s.flight.head ≡ 0
  pub zeroed : (ix : ℕ) → (s.flight.ring ix).seq ≡ 0
  pub idle : (k : ℕ) → s.stage k ≡ waiting

-- What the lookups of the reader find in a state.
abbrev pub view : System → Reader
view s = record {
  first = λ k ix. some (s.flight.ring ix);
  second = λ k ix. some (s.flight.ring ix);
}
