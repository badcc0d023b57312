-- ===== src/Recorder/Drains.antt =====
-- Which records of the flight recorder `ExtractPre` and `DrainPost` of
-- src/collect/deep_collector.cpp hand on.
use e_trace_diag.Prelude.{
  ℕ, zero, suc, ◌+◌, ◌-◌, ◌*◌, ◌≤◌, ◌<◌, List, [], ◌∷◌, ◌++◌, Option, some, none, ◌≡◌, refl, ap,
  ap₂, subst, ◌∙◌, sym, arith, map, ltb, if◌then◌else◌, All, u64,
}
use e_trace_diag.Recorder.Snapshot.{KernelSnapshotRec}
use e_trace_diag.Recorder.Ring.{
  Reader, slot, checked, read_record, cons_some, read_records, since, pre_records, post_records,
}

-- `n` numbers from `i` on.
abbrev pub numbers : ℕ → ℕ → List ℕ
numbers i zero = []
numbers i (suc n) = i ∷ numbers (suc i) n

-- Record `r` was found under number `k`, by both lookups of its round, with the sequence number that
-- the kernel writes last.
pub record FoundAs (rd : Reader) (cap i n : ℕ) (r : KernelSnapshotRec) : Type 0 where
  pub number : ℕ
  pub from : i ≤ number
  pub below : number < i + n
  pub committed : r.seq ≡ u64 (number * 2)
  pub seen : rd.second number (slot cap number) ≡ some r
  pub earlier : KernelSnapshotRec
  pub unchanged : (rd.first number (slot cap number) ≡ some earlier) × (earlier.seq ≡ r.seq)

checked_cases :
    (i : ℕ) (a b r : KernelSnapshotRec)
    → checked i a b ≡ some r
    → (a.seq ≡ b.seq) × (a.seq ≡ u64 (i * 2)) × (b ≡ r)
unfolding checked
checked_cases i a b r e = ground arith

-- A record that one round picks passed all of its checks.
read_record_cases :
    (rd : Reader) (cap i : ℕ) (r : KernelSnapshotRec)
    → read_record rd cap i ≡ some r
    → (a : KernelSnapshotRec) × (b : KernelSnapshotRec) × (rd.first i (slot cap i) ≡ some a)
      × (rd.second i (slot cap i) ≡ some b)
      × (checked i a b ≡ some r)
unfolding read_record
read_record_cases rd cap i r e = ground arith

pub read_record-some :
    (rd : Reader) (cap i : ℕ) (r : KernelSnapshotRec)
    → read_record rd cap i ≡ some r
    → FoundAs rd cap i 1 r
read_record-some rd cap i r e =
    let (a, b, f, g, c) = read_record_cases rd cap i r e in
    let (same, number, here) = checked_cases i a b r c in
    record {
      number = i;
      from = omega arith;
      below = omega arith;
      committed = ap (λ x. x.seq) (sym here) ∙ sym same ∙ number;
      seen = g ∙ ap some here;
      earlier = a;
      unchanged = (f, same ∙ ap (λ x. x.seq) here);
    }

FoundAs-suc :
    {rd : Reader} {cap i n : ℕ} {r : KernelSnapshotRec}
    → FoundAs rd cap (suc i) n r
    → FoundAs rd cap i (suc n) r
FoundAs-suc h = record {
  number = h.number;
  from = omega (arith, h.from);
  below = omega (arith, h.below);
  committed = h.committed;
  seen = h.seen;
  earlier = h.earlier;
  unchanged = h.unchanged;
}

FoundAs-one :
    {rd : Reader} {cap i : ℕ} (n : ℕ) {r : KernelSnapshotRec}
    → FoundAs rd cap i 1 r
    → FoundAs rd cap i (suc n) r
FoundAs-one n h = record {
  number = h.number;
  from = h.from;
  below = omega (arith, h.below);
  committed = h.committed;
  seen = h.seen;
  earlier = h.earlier;
  unchanged = h.unchanged;
}

All-map :
    {P Q : KernelSnapshotRec → Type 0} (rs : List KernelSnapshotRec)
    → ((r : KernelSnapshotRec) → P r → Q r)
    → All P rs
    → All Q rs
All-map [] f h = tt
All-map (r ∷ rs) f (p, h) = (f r p, All-map rs f h)

cons_some-All :
    {P : KernelSnapshotRec → Type 0} (o : Option KernelSnapshotRec) (rs : List KernelSnapshotRec)
    → ((r : KernelSnapshotRec) → o ≡ some r → P r)
    → All P rs
    → All P (cons_some o rs)
cons_some-All none rs f h = h
cons_some-All (some r) rs f h = (f r refl, h)

-- Everything that a loop over the ring picks was found so, whatever the kernel does meanwhile.
pub read_records-FoundAs :
    (rd : Reader) (cap i n : ℕ) → All (FoundAs rd cap i n) (read_records rd cap i n)
unfolding read_records
read_records-FoundAs rd cap i zero = tt
read_records-FoundAs rd cap i (suc n) =
    cons_some-All (read_record rd cap i) _ (λ r f. FoundAs-one n (read_record-some rd cap i r f))
      (All-map _ (λ r. FoundAs-suc) (read_records-FoundAs rd cap (suc i) n))

-- A ring in which the records below `head` are committed, as `truth` says, and number `head`,
-- where it is not 0, is not.
pub record IsCommitted (truth : ℕ → KernelSnapshotRec) (rd : Reader) (cap head : ℕ) : Type 0 where
  pub visible : (k : ℕ) → k < head → head ≤ k + cap → read_record rd cap k ≡ some (truth k)
  pub unwritten : 0 < head → read_record rd cap head ≡ none

start_lem : (cap head : ℕ) → (if ltb cap head then head - cap else 0) ≡ head - cap
start_lem cap head = ground arith

module _ (truth : ℕ → KernelSnapshotRec) (rd : Reader) (cap head : ℕ)
    (ring : IsCommitted truth rd cap head) where
  read_records-visible :
      (i n : ℕ) → i + n ≤ head → head ≤ i + cap → read_records rd cap i n ≡ map truth (numbers i n)
  unfolding read_records
  read_records-visible i zero h k = refl
  read_records-visible i (suc n) h k =
      ap₂ cons_some (ring.visible i (omega arith) k)
        (read_records-visible (suc i) n (omega arith) (omega arith))

  -- The loop of `DrainPost` also asks for the number `head`, which is not yet written.
  read_records-last :
      (i n : ℕ)
      → i + n ≡ head
      → 0 < i
      → head ≤ i + cap
      → read_records rd cap i (suc n) ≡ map truth (numbers i n)
  unfolding read_records
  read_records-last i zero h p k =
      ap₂ cons_some
        (subst (λ m. read_record rd cap m ≡ none) (omega (arith, h))
          (ring.unwritten (omega (arith, h, p))))
        refl
  read_records-last i (suc n) h p k =
      ap₂ cons_some (ring.visible i (omega arith) k)
        (read_records-last (suc i) n (omega arith) (omega arith) (omega arith))

  -- `ExtractPre` picks every record of the last `cap` below the head whose time is not before the
  -- cutoff, and no other, in the order of their numbers.
  pub pre_records_lem :
      (cutoff : ℕ)
      → pre_records rd cap head cutoff
        ≡ since cutoff (map truth (numbers (head - cap) (head - (head - cap))))
  unfolding pre_records
  pre_records_lem cutoff = ap (since cutoff) (
      subst
        (λ start.
          read_records rd cap start (head - start)
          ≡ map truth (numbers (head - cap) (head - (head - cap))))
        (sym (start_lem cap head))
        (read_records-visible (head - cap) (head - (head - cap)) (omega arith) (omega arith)))

  -- `DrainPost` picks the records after number `prev_head`, without it.
  pub post_records_lem :
      (prev_head : ℕ)
      → prev_head < head
      → head ≤ prev_head + 1 + cap
      → post_records rd cap prev_head head
        ≡ map truth (numbers (prev_head + 1) (head - (prev_head + 1)))
  unfolding post_records
  post_records_lem prev_head h k =
      ap (read_records rd cap (prev_head + 1)) count
      ∙ read_records-last (prev_head + 1) (head - (prev_head + 1)) (omega arith) (omega arith)
          (omega arith)
    where
      count : head - prev_head ≡ suc (head - (prev_head + 1))
      count = omega arith

-- Of two drains of a ring that was not overrun, the first at head `h1` and the second at `h2`, the
-- records are those of the numbers `p + 1` to `h1 - 1` and `h1 + 1` to `h2 - 1`: number `h1`,
-- which is committed after the first drain, is in neither.
pub post_records_skip :
    (truth : ℕ → KernelSnapshotRec) (rd1 rd2 : Reader) (cap p h1 h2 : ℕ)
    → IsCommitted truth rd1 cap h1
    → IsCommitted truth rd2 cap h2
    → p < h1
    → h1 < h2
    → h1 ≤ p + 1 + cap
    → h2 ≤ h1 + 1 + cap
    → post_records rd1 cap p h1 ++ post_records rd2 cap h1 h2
      ≡ map truth (numbers (p + 1) (h1 - (p + 1))) ++ map truth (numbers (h1 + 1) (h2 - (h1 + 1)))
post_records_skip truth rd1 rd2 cap p h1 h2 r1 r2 a b k l =
    ap₂ ◌++◌ (post_records_lem truth rd1 cap h1 r1 p a k)
      (post_records_lem truth rd2 cap h2 r2 h1 b l)
