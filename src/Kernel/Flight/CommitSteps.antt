-- ===== src/Kernel/Flight/CommitSteps.antt =====
-- Every step of the writers of the flight recorder keeps the invariant (`rec_commit` of
-- bpf/etrace.bpf.c).
use e_trace_diag.Prelude.{
  ℕ, ◌+◌, ◌*◌, ◌%◌, ◌^◌, ◌≤◌, ◌<◌, ◌≡◌, ◌⊎◌, inl, inr, refl, sym, subst, arith, ◌==◌, u64, ◌∙◌, ap,
  ltb, ltb→lt, ◌-◌, Bool-cases, ==_iff,
}
use e_trace_diag.Recorder.Snapshot.{KernelSnapshotRec}
use e_trace_diag.Recorder.Ring.{slot}
use e_trace_diag.Kernel.Flight.Commit.{
  ring_cap, put, fetch_add, stamp, copy_record, settle, commit_seq, Stage, claimed, copied,
  finished, System, Step, claim, tear, copy, finish, Reach, here, next,
}
use e_trace_diag.Kernel.Flight.Slots.{slot_lem}
use e_trace_diag.Kernel.Flight.CommitInv.{
  Fits, IsPending, Inv, pending-lt, ltb-ge, same_rest, same_number, write-Inv,
}

-- What the invariant says of the slot of a call, by its stage.
at_stage :
    (s : System) (k : ℕ) (g : Stage)
    → Inv s
    → s.stage k ≡ g
    → IsPending g
    → Fits k g (s.flight.ring (k % 32768))
at_stage s k g inv e p =
    subst (λ x. Fits k x (s.flight.ring (k % 32768))) e
      (inv.slots k (pending-lt s inv k (subst IsPending (sym e) p))
        (inv.recent k (subst IsPending (sym e) p)))

-- The slot of the next number holds nothing yet, or the record `ring_cap` numbers before.
next_slot :
    (s : System)
    → Inv s
    → ((k : ℕ) → k + ring_cap ≡ s.flight.head → (q : KernelSnapshotRec) × (s.stage k ≡ finished q))
    → let here = (s.flight.ring (s.flight.head % 32768)).seq in
      (here + 65536 ≡ s.flight.head * 2) ⊎ ((here ≡ 0) × (s.flight.head < ring_cap))
next_slot s inv over = elim (Bool-cases (ltb s.flight.head ring_cap)) [
  | inl e ↦ inr (inv.fresh s.flight.head (omega arith) (ltb→lt _ _ e), ltb→lt _ _ e)
  | inr e ↦
      let k = s.flight.head - ring_cap in
      let full = ltb-ge s.flight.head ring_cap e in
      let (q, f) = over k (omega (arith, full)) in
      let (even, same) =
        subst (λ x. Fits k x (s.flight.ring (k % 32768))) f
          (inv.slots k (omega (arith, full)) (omega (arith, full))) in
      inl (
        subst (λ ix. (s.flight.ring ix).seq + 65536 ≡ s.flight.head * 2)
          (same_rest s.flight.head full) (omega (arith, even, full, ap (λ r. r.seq) same)))
]

claim-Fits :
    (s : System) (r : KernelSnapshotRec)
    → Inv s
    → ((k : ℕ) → k + ring_cap ≡ s.flight.head → (q : KernelSnapshotRec) × (s.stage k ≡ finished q))
    → r.seq ≡ s.flight.head * 2 + 1
    → Fits s.flight.head (claimed r) (s.flight.ring (s.flight.head % 32768))
claim-Fits s r inv over seq = (seq, inr (next_slot s inv over))

claim-recent :
    (s : System) (r : KernelSnapshotRec)
    → Inv s
    → ((k : ℕ) → k + ring_cap ≡ s.flight.head → (q : KernelSnapshotRec) × (s.stage k ≡ finished q))
    → (k : ℕ) → IsPending (put s.stage s.flight.head (claimed r) k)
    → s.flight.head + 1 ≤ k + ring_cap
claim-recent s r inv over k p = ground (arith, inv.recent k, over k)

claim-Inv :
    (s : System) (r : KernelSnapshotRec)
    → Inv s
    → s.flight.head + 1 < 2 ^ 63
    → ((k : ℕ) → k + ring_cap ≡ s.flight.head → (q : KernelSnapshotRec) × (s.stage k ≡ finished q))
    → r.seq ≡ s.flight.head * 2 + 1
    → Inv (record {
      flight = record s.flight { head = s.flight.head + 1 };
      stage = put s.stage s.flight.head (claimed r);
    })
claim-Inv s r inv few over seq = record {
  few = few;
  later = λ k l. ground (arith, inv.later k);
  taken = λ k l. elim (Bool-cases (s.flight.head == k)) [
    | inl e ↦ rw e tt
    | inr e ↦ rw e (inv.taken k (ground (arith, e, l)))
  ];
  recent = claim-recent s r inv over;
  slots = λ k l q. elim (Bool-cases (s.flight.head == k)) [
    | inl e ↦
        subst (λ i. Fits i (put s.stage s.flight.head (claimed r) i) (s.flight.ring (i % 32768)))
          ((==_iff s.flight.head k).0 e)
          (rw (same_number s.flight.head) (claim-Fits s r inv over seq))
    | inr e ↦ rw e (inv.slots k (ground (arith, e, l)) (omega (arith, q)))
  ];
  fresh = λ k l q. inv.fresh k (omega (arith, l)) q;
}

tear-Fits :
    (k : ℕ) (r w old : KernelSnapshotRec)
    → Fits k (claimed r) old
    → (w.seq ≡ old.seq) ⊎ (w.seq ≡ r.seq)
    → Fits k (claimed r) w
tear-Fits k r w old f seq = ground (arith, f, seq)

no_wrap : (n : ℕ) → n < 2 ^ 64 → n ≡ u64 n
no_wrap n h = omega (arith, h)

doubled : (k : ℕ) → k < 2 ^ 63 → u64 (k * 2) ≡ k * 2
doubled k h = omega (arith, h)

-- Every step keeps the invariant.
pub Step-Inv : {s t : System} → Step s t → Inv s → Inv t
unfolding fetch_add stamp copy_record commit_seq settle
Step-Inv {s} (claim scr now deep few over) inv =
    subst
      (λ n. Inv (record {
        flight = record s.flight { head = n };
        stage = put s.stage s.flight.head (claimed (stamp scr now deep s.flight.head));
      }))
      (no_wrap (s.flight.head + 1) (omega (arith, few)))
      (claim-Inv s (stamp scr now deep s.flight.head) inv few over (omega (arith, few)))
Step-Inv {s} (tear k r w g seq) inv =
    write-Inv s k s.stage w inv
      (record { pending = rw g tt; comes = rw g tt; others = λ j e. refl })
      (rw g (
        tear-Fits k r w (s.flight.ring (k % 32768)) (at_stage s k (claimed r) inv g tt)
          (subst (λ ix. (w.seq ≡ (s.flight.ring ix).seq) ⊎ (w.seq ≡ r.seq)) (slot_lem k) seq)))
Step-Inv {s} (copy k r g) inv =
    write-Inv s k (put s.stage k (copied r)) r inv
      (record { pending = rw g tt; comes = rw (same_number k) tt; others = λ j e. rw e refl })
      (rw (same_number k) ((at_stage s k (claimed r) inv g tt).0, refl))
Step-Inv {s} (finish k r g) inv =
    write-Inv s k (put s.stage k (finished (settle k r)))
      (settle k (s.flight.ring (slot ring_cap k))) inv
      (record { pending = rw g tt; comes = rw (same_number k) tt; others = λ j e. rw e refl })
      (rw (same_number k) (
        doubled k (omega (arith, inv.few, pending-lt s inv k (rw g tt))),
        ap (λ ix. settle k (s.flight.ring ix)) (slot_lem k)
            ∙ ap (settle k) (at_stage s k (copied r) inv g tt).1,
      ))

-- Every state that steps lead to from maps that are all zero keeps it too.
pub Reach-Inv : {s t : System} → Reach s t → Inv s → Inv t
Reach-Inv here inv = inv
Reach-Inv (next r st) inv = Step-Inv st (Reach-Inv r inv)
