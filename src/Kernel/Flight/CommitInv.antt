-- ===== src/Kernel/Flight/CommitInv.antt =====
-- What every state of the flight recorder's writers keeps (`rec_commit` of bpf/etrace.bpf.c).
use e_trace_diag.Prelude.{
  ℕ, ◌+◌, ◌*◌, ◌%◌, ◌^◌, ◌≤◌, ◌<◌, ◌≡◌, ◌⊎◌, inl, inr, subst, arith, ◌==◌, ltb, ◌-◌, true, false,
  Bool-cases, ==_iff,
}
use e_trace_diag.Recorder.Snapshot.{KernelSnapshotRec}
use e_trace_diag.Recorder.Ring.{slot}
use e_trace_diag.Kernel.Flight.Commit.{
  ring_cap, put, Stage, waiting, claimed, copied, finished, System, IsStart,
}
use e_trace_diag.Kernel.Flight.Slots.{slot_lem}

-- What a slot holds while the call with its last number `k` is at a stage. Before the copy has
-- begun that is the record before, or nothing yet.
abbrev pub Fits : ℕ → Stage → KernelSnapshotRec → Type 0
Fits k waiting now = Unit {0}
Fits k (claimed r) now =
    (r.seq ≡ k * 2 + 1)
    × ((now.seq ≡ k * 2 + 1) ⊎ (now.seq + 65536 ≡ k * 2) ⊎ ((now.seq ≡ 0) × (k < ring_cap)))
Fits k (copied r) now = (r.seq ≡ k * 2 + 1) × (now ≡ r)
Fits k (finished r) now = (r.seq ≡ k * 2) × (now ≡ r)

abbrev pub IsPending : Stage → Type 0
IsPending waiting = ⊥
IsPending (claimed r) = Unit {0}
IsPending (copied r) = Unit {0}
IsPending (finished r) = ⊥

abbrev pub IsTaken : Stage → Type 0
IsTaken waiting = ⊥
IsTaken g = Unit {0}

pub record Inv (s : System) : Type 0 where
  pub few : s.flight.head < 2 ^ 63
  pub later : (k : ℕ) → s.flight.head ≤ k → s.stage k ≡ waiting
  pub taken : (k : ℕ) → k < s.flight.head → IsTaken (s.stage k)
  pub recent : (k : ℕ) → IsPending (s.stage k) → s.flight.head ≤ k + ring_cap
  pub slots :
      (k : ℕ)
      → k < s.flight.head
      → s.flight.head ≤ k + ring_cap
      → Fits k (s.stage k) (s.flight.ring (k % 32768))
  pub fresh : (k : ℕ) → s.flight.head ≤ k → k < ring_cap → (s.flight.ring (k % 32768)).seq ≡ 0

pub IsStart-Inv : (s : System) → IsStart s → Inv s
IsStart-Inv s h = record {
  few = omega (arith, h.head);
  later = λ k l. h.idle k;
  taken = λ k l. absurd (omega (arith, l, h.head));
  recent = λ k p. omega (arith, h.head);
  slots = λ k l. absurd (omega (arith, l, h.head));
  fresh = λ k l q. h.zeroed (k % 32768);
}

-- A pending call has a number below the head.
pub pending-lt : (s : System) → Inv s → (k : ℕ) → IsPending (s.stage k) → k < s.flight.head
pending-lt s inv k p = ground (arith, inv.later k)

pub ltb-ge : (a b : ℕ) → ltb a b ≡ false → b ≤ a
ltb-ge a b e = ground arith

pub same_rest : (h : ℕ) → ring_cap ≤ h → (h - ring_cap) % 32768 ≡ h % 32768
same_rest h l = omega (arith, l)

pub same_number : (k : ℕ) → (k == k) ≡ true
same_number k = ground arith

other_slot :
    (h j k : ℕ)
    → j < h
    → k < h
    → h ≤ j + ring_cap
    → h ≤ k + ring_cap
    → (k == j) ≡ false
    → (k % 32768 == j % 32768) ≡ false
other_slot h j k a b c d e = ground arith

-- A step of the call with number `k`, which writes its slot and comes to a stage: the others stay.
pub record Moves (s : System) (k : ℕ) (stage : ℕ → Stage) : Type 0 where
  pub pending : IsPending (s.stage k)
  pub comes : IsTaken (stage k)
  pub others : (j : ℕ) → (k == j) ≡ false → stage j ≡ s.stage j

module _ (s : System) (k : ℕ) (stage : ℕ → Stage) (w : KernelSnapshotRec) (inv : Inv s)
    (m : Moves s k stage) (fits : Fits k (stage k) w) where
  below : k < s.flight.head
  below = pending-lt s inv k m.pending

  in_window : s.flight.head ≤ k + ring_cap
  in_window = inv.recent k m.pending

  write-slots :
      (j : ℕ)
      → j < s.flight.head
      → s.flight.head ≤ j + ring_cap
      → Fits j (stage j) (put s.flight.ring (k % 32768) w (j % 32768))
  write-slots j l q = elim (Bool-cases (k == j)) [
    | inl e ↦
        subst (λ i. Fits i (stage i) (put s.flight.ring (k % 32768) w (i % 32768)))
          ((==_iff k j).0 e) (rw (same_number (k % 32768)) fits)
    | inr e ↦
        rw (other_slot s.flight.head j k l below q in_window e, m.others j e) (inv.slots j l q)
  ]

  pub write-Inv : Inv (record {
    flight = record s.flight { ring = put s.flight.ring (slot ring_cap k) w };
    stage = stage;
  })
  write-Inv = record {
    few = inv.few;
    later = λ j l. ground (arith, below, inv.later j l, m.others j);
    taken = λ j l. elim (Bool-cases (k == j)) [
      | inl e ↦ subst (λ i. IsTaken (stage i)) ((==_iff k j).0 e) m.comes
      | inr e ↦ rw (m.others j e) (inv.taken j l)
    ];
    recent = λ j q. ground (arith, in_window, inv.recent j, m.others j);
    slots = λ j l q. rw (slot_lem k) (write-slots j l q);
    fresh = λ j l q. rw (slot_lem k) (ground (arith, below, in_window, inv.fresh j l q));
  }
