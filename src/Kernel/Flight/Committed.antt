-- ===== src/Kernel/Flight/Committed.antt =====
-- What the reader of src/collect/deep_collector.cpp finds of the records that `rec_commit` of
-- bpf/etrace.bpf.c leaves.
use e_trace_diag.Prelude.{
  ℕ, ◌+◌, ◌-◌, ◌*◌, ◌%◌, ◌^◌, ◌≤◌, ◌<◌, ◌≡◌, inl, inr, refl, sym, ap, subst, ◌∙◌, arith, ◌==◌, u64,
  Bool-cases, ==_iff, false, ltb, ltb→lt, some, none, map, List, [], ◌∷◌, if◌then◌else◌,
}
use e_trace_diag.Recorder.Snapshot.{KernelSnapshotRec}
use e_trace_diag.Recorder.Ring.{Reader, slot, checked, read_record, pre_records, since}
use e_trace_diag.Recorder.Drains.{numbers, IsCommitted, pre_records_lem, FoundAs, read_record-some}
use e_trace_diag.Kernel.Flight.Commit.{
  ring_cap, Stage, waiting, claimed, copied, finished, System, Reach, IsStart, view,
}
use e_trace_diag.Kernel.Flight.Slots.{slot_lem}
use e_trace_diag.Kernel.Flight.CommitSteps.{Reach-Inv}
use e_trace_diag.Kernel.Flight.CommitInv.{Fits, IsTaken, Inv, IsStart-Inv, ltb-ge, same_rest}

-- A slot with the even number of `k` holds what the call with that number left.
Fits-even :
    (k : ℕ) (g : Stage) (r : KernelSnapshotRec)
    → 0 < k
    → IsTaken g
    → Fits k g r
    → r.seq ≡ k * 2
    → g ≡ finished r
Fits-even k waiting r p t f e = absurd t
Fits-even k (claimed q) r p t f e = absurd (ground (arith, f, e, p))
Fits-even k (copied q) r p t f e = absurd (omega (arith, f.0, e, ap (λ x. x.seq) f.1))
Fits-even k (finished q) r p t f e = ap finished (sym f.1)

Fits-le : (k : ℕ) (g : Stage) (r : KernelSnapshotRec) → IsTaken g → Fits k g r → r.seq ≤ k * 2 + 1
Fits-le k waiting r t f = absurd t
Fits-le k (claimed q) r t f = ground (arith, f)
Fits-le k (copied q) r t f = omega (arith, f.0, ap (λ x. x.seq) f.1)
Fits-le k (finished q) r t f = omega (arith, f.0, ap (λ x. x.seq) f.1)

some_injective : {a b : KernelSnapshotRec} → some a ≡ some b → a ≡ b
some_injective e = ground (arith, e)

strictly : (a b : ℕ) → a ≤ b → (a == b) ≡ false → a < b
strictly a b l e = ground arith

module _ (s : System) (inv : Inv s) where
  -- The slot of the next number still has an older one.
  head-seq : 0 < s.flight.head → (s.flight.ring (s.flight.head % 32768)).seq < s.flight.head * 2
  head-seq p = elim (Bool-cases (ltb s.flight.head ring_cap)) [
    | inl e ↦ omega (arith, inv.fresh s.flight.head (omega arith) (ltb→lt _ _ e), p)
    | inr e ↦
        let k = s.flight.head - ring_cap in
        let full = ltb-ge s.flight.head ring_cap e in
        subst (λ ix. (s.flight.ring ix).seq < s.flight.head * 2) (same_rest s.flight.head full)
          (omega (
            arith,
            full,
            Fits-le k (s.stage k) (s.flight.ring (k % 32768)) (inv.taken k (omega (arith, full)))
                (inv.slots k (omega (arith, full)) (omega (arith, full))),
          ))
  ]

  even-finished :
      (k : ℕ)
      → 0 < k
      → k ≤ s.flight.head
      → s.flight.head ≤ k + ring_cap
      → (s.flight.ring (k % 32768)).seq ≡ k * 2
      → s.stage k ≡ finished (s.flight.ring (k % 32768))
  even-finished k p l q e = elim (Bool-cases (k == s.flight.head)) [
    | inl h ↦ absurd (
        omega (
          arith,
          e,
          p,
          subst (λ j. 0 < j → (s.flight.ring (j % 32768)).seq < j * 2)
              (sym ((==_iff k s.flight.head).0 h)) head-seq p,
        ))
    | inr h ↦
        let lt = strictly k s.flight.head l h in
        Fits-even k (s.stage k) _ p (inv.taken k lt) (inv.slots k lt q) e
  ]

  read-finished :
      (rd : Reader) (k : ℕ) (r : KernelSnapshotRec)
      → 0 < k
      → k ≤ s.flight.head
      → s.flight.head ≤ k + ring_cap
      → rd.second k (slot ring_cap k) ≡ some (s.flight.ring (slot ring_cap k))
      → FoundAs rd ring_cap k 1 r
      → s.stage k ≡ finished r
  read-finished rd k r p l q look f =
      subst (λ x. s.stage k ≡ finished x) here
        (even-finished k p l q (ap (λ x. x.seq) here ∙ f.committed ∙ doubled number))
    where
      number : f.number ≡ k
      number = omega (arith, f.from, f.below)

      here : s.flight.ring (k % 32768) ≡ r
      here = some_injective (
          sym (ap (λ ix. some (s.flight.ring ix)) (slot_lem k))
          ∙ sym look
          ∙ subst (λ n. rd.second n (slot ring_cap n) ≡ some r) number f.seen)

      doubled : f.number ≡ k → u64 (f.number * 2) ≡ k * 2
      doubled e = omega (arith, e, l, inv.few)

-- Let the writers take any steps from maps that are all zero. If the second lookup of the round for
-- number `k`, which is neither 0 nor above the head nor overrun, finds the slot as it is then, and
-- the round picks a record, whatever the first lookup found, then the call with number `k` has
-- ended and this is the record it left. A call is taken to end before `ring_cap` more have begun.
pub read_record-committed :
    (start s : System) (rd : Reader) (k : ℕ) (r : KernelSnapshotRec)
    → IsStart start
    → Reach start s
    → 0 < k
    → k ≤ s.flight.head
    → s.flight.head ≤ k + ring_cap
    → rd.second k (slot ring_cap k) ≡ some (s.flight.ring (slot ring_cap k))
    → read_record rd ring_cap k ≡ some r
    → s.stage k ≡ finished r
read_record-committed start s rd k r zeroed steps p l q look e =
    read-finished s (Reach-Inv steps (IsStart-Inv start zeroed)) rd k r p l q look
      (read_record-some rd ring_cap k r e)

-- The record that a call left, or has so far.
abbrev pub log : System → ℕ → KernelSnapshotRec
log s k = elim (s.stage k) [
  | waiting ↦ s.flight.ring 0
  | claimed r ↦ r
  | copied r ↦ r
  | finished r ↦ r
]

-- No call is under way.
abbrev pub IsQuiet : System → Type 0
IsQuiet s = (k : ℕ) → k < s.flight.head → (r : KernelSnapshotRec) × (s.stage k ≡ finished r)

view-some :
    (s : System) (k : ℕ)
    → k < 2 ^ 63
    → (s.flight.ring (slot ring_cap k)).seq ≡ k * 2
    → read_record (view s) ring_cap k ≡ some (s.flight.ring (slot ring_cap k))
unfolding read_record checked
view-some s k l e = ground (arith, l, e)

view-none :
    (s : System) (k : ℕ)
    → k < 2 ^ 63
    → (s.flight.ring (slot ring_cap k)).seq < k * 2
    → read_record (view s) ring_cap k ≡ none
unfolding read_record checked
view-none s k l e = ground (arith, l, e)

quiet-visible :
    (s : System)
    → Inv s
    → IsQuiet s
    → (k : ℕ) → k < s.flight.head
    → s.flight.head ≤ k + ring_cap
    → read_record (view s) ring_cap k ≡ some (log s k)
quiet-visible s inv quiet k l q =
    let (r, e) = quiet k l in
    let (even, same) = subst (λ g. Fits k g (s.flight.ring (k % 32768))) e (inv.slots k l q) in
    view-some s k (omega (arith, l, inv.few)) (
      subst (λ ix. (s.flight.ring ix).seq ≡ k * 2) (sym (slot_lem k)) (ap (λ x. x.seq) same ∙ even))
    ∙ ap (λ ix. some (s.flight.ring ix)) (slot_lem k)
    ∙ ap some (same ∙ rw (log, e) refl)

pub quiet-IsCommitted :
    (s : System) → Inv s → IsQuiet s → IsCommitted (log s) (view s) ring_cap s.flight.head
quiet-IsCommitted s inv quiet = record {
  visible = quiet-visible s inv quiet;
  unwritten = λ p. view-none s s.flight.head inv.few (
      subst (λ ix. (s.flight.ring ix).seq < s.flight.head * 2) (sym (slot_lem s.flight.head))
        (head-seq s inv p));
}

-- Without the records whose time is before the cutoff.
abbrev pub not_before : ℕ → List KernelSnapshotRec → List KernelSnapshotRec
not_before cutoff [] = []
not_before cutoff (r ∷ rs) =
    if ltb r.ts_ns cutoff then not_before cutoff rs else r ∷ not_before cutoff rs

since-not_before :
    (cutoff : ℕ) (rs : List KernelSnapshotRec) → since cutoff rs ≡ not_before cutoff rs
unfolding since
since-not_before cutoff [] = refl
since-not_before cutoff (r ∷ rs) = ground (arith, since-not_before cutoff rs)

-- Let the writers take any steps from maps that are all zero, and none be under way at the end.
-- Then `ExtractPre` picks, of the records that the last `ring_cap` calls left, in the order of their
-- numbers, those whose time is not before the cutoff. A call is taken to end before `ring_cap` more
-- have begun.
pub pre_records-log :
    (start s : System) (cutoff : ℕ)
    → IsStart start
    → Reach start s
    → IsQuiet s
    → pre_records (view s) ring_cap s.flight.head cutoff
      ≡ not_before cutoff (
          map
            (log s)
            (numbers (s.flight.head - ring_cap) (s.flight.head - (s.flight.head - ring_cap))))
pre_records-log start s cutoff zeroed steps quiet =
    pre_records_lem (log s) (view s) ring_cap s.flight.head
      (quiet-IsCommitted s (Reach-Inv steps (IsStart-Inv start zeroed)) quiet) cutoff
    ∙ since-not_before cutoff _
