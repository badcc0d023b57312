-- ===== src/Kernel/Programs/Oom.antt =====
-- `on_mark_victim` of bpf/etrace.bpf.c, which notes the victims of the OOM killer in a ring of 64, and
-- `DumpOomEvents` of src/app.cpp, which hands them on.
use e_trace_diag.Prelude.{
  ℕ, zero, suc, ◌+◌, ◌-◌, ◌%◌, ◌^◌, ◌≤◌, ◌<◌, ◌≡◌, refl, ap, ap₂, subst, ◌∙◌, arith, List, [], ◌∷◌,
  Option, some, none, bit_and, ◌==◌, false, true, if◌then◌else◌, u32, min, length,
}
use Prim.Native.Nat.{bit_and-bitwise}
use e_trace_diag.Kernel.Flight.Commit.{put}
use e_trace_diag.Kernel.Flight.Slots.{low, digits-ones}

-- `struct oom_event_t`.
pub record OomEvent : Type 0 where
  pub ts : ℕ
  pub pid : ℕ

-- The maps `oom_seq` and `oom_events`.
pub record OomRing : Type 0 where
  pub seq : ℕ
  pub events : ℕ → OomEvent

unfoldable pub on_mark_victim : ℕ → ℕ → OomRing → OomRing
on_mark_victim now pid r = record {
  seq = u32 (r.seq + 1);
  events = put r.events (bit_and r.seq 63) (record { ts = now; pid = pid });
}

-- The rounds of `DumpOomEvents` from number `s` on, `n` of them; a lookup that fails is passed over.
unfoldable pub dump_rounds : (ℕ → Option OomEvent) → ℕ → ℕ → List OomEvent
dump_rounds find s zero = []
dump_rounds find s (suc n) =
    let rest = dump_rounds find (s + 1) n in
    elim (find (bit_and s 63)) [ none ↦ rest | some ev ↦ ev ∷ rest ]

-- The events that are written, and the new `last_seq`. `seq`: none if its lookup fails.
unfoldable pub dump_oom_events : (ℕ → Option OomEvent) → Option ℕ → ℕ → List OomEvent × ℕ
unfolding dump_rounds
dump_oom_events find none last_seq = ([], last_seq)
dump_oom_events find (some seq) last_seq =
    if seq == last_seq
    then ([], last_seq)
    else (dump_rounds find last_seq (min (seq - last_seq) 1000), seq)

-- A victim after another.
abbrev pub mark_all : List OomEvent → OomRing → OomRing
mark_all [] r = r
mark_all (e ∷ es) r = mark_all es (on_mark_victim e.ts e.pid r)

low-6 : (k : ℕ) → bit_and k 63 ≡ k % 64
low-6 k = omega (arith, bit_and-bitwise k 63, digits-ones 6 k k (omega arith), low_mod k)
  where
    low_mod : (a : ℕ) → low 6 a ≡ a % 64
    low_mod a = omega arith

-- A slot that no further victim takes stays.
mark_all-slot :
    (es : List OomEvent) (r : OomRing) (k : ℕ)
    → k < r.seq
    → r.seq + length es ≤ k + 64
    → r.seq + length es < 2 ^ 32
    → (mark_all es r).events (bit_and k 63) ≡ r.events (bit_and k 63)
unfolding on_mark_victim
mark_all-slot [] r k l h w = refl
mark_all-slot (e ∷ es) r k l h w =
    mark_all-slot es (on_mark_victim e.ts e.pid r) k (omega (arith, l, w)) (omega (arith, h, w))
      (omega (arith, w))
    ∙ rw (other_victim r.seq k l (omega (arith, h))) refl
  where
    other_victim : (a b : ℕ) → b < a → a < b + 64 → (bit_and a 63 == bit_and b 63) ≡ false
    other_victim a b p q = ground (arith, low-6 a, low-6 b, p, q)

same_slot : (k : ℕ) → (k == k) ≡ true
same_slot k = ground arith

next_seq : (k : ℕ) → k + 1 < 2 ^ 32 → u32 (k + 1) ≡ k + 1
next_seq k h = omega (arith, h)

-- The note of the first victim, when at most 63 more are marked.
mark_all-first :
    (e : OomEvent) (es : List OomEvent) (r : OomRing)
    → length es + 1 ≤ 64
    → r.seq + (length es + 1) < 2 ^ 32
    → (mark_all (e ∷ es) r).events (bit_and r.seq 63) ≡ e
unfolding on_mark_victim
mark_all-first e es r few w =
    mark_all-slot es (on_mark_victim e.ts e.pid r) r.seq (omega (arith, w)) (omega (arith, few, w))
      (omega (arith, w))
    ∙ rw (same_slot (bit_and r.seq 63)) refl

dump_rounds-marked :
    (es : List OomEvent) (r : OomRing)
    → length es ≤ 64
    → r.seq + length es < 2 ^ 32
    → dump_rounds (λ ix. some ((mark_all es r).events ix)) r.seq (length es) ≡ es
unfolding dump_rounds on_mark_victim
dump_rounds-marked [] r few w = refl
dump_rounds-marked (e ∷ es) r few w =
    ap₂ ◌∷◌ (mark_all-first e es r (omega (arith, few)) (omega (arith, w))) (
      subst (λ k. dump_rounds (λ ix. some ((mark_all (e ∷ es) r).events ix)) k (length es) ≡ es)
        (next_seq r.seq (omega (arith, w)))
        (dump_rounds-marked es (on_mark_victim e.ts e.pid r) (omega (arith, few))
          (omega (arith, w))))

mark_all-seq :
    (es : List OomEvent) (r : OomRing)
    → r.seq + length es < 2 ^ 32
    → (mark_all es r).seq ≡ r.seq + length es
unfolding on_mark_victim
mark_all-seq [] r w = omega arith
mark_all-seq (e ∷ es) r w =
    omega (arith, w, mark_all-seq es (on_mark_victim e.ts e.pid r) (omega (arith, w)))

later : (seq last n : ℕ) → seq ≡ last + n → 0 < n → (seq == last) ≡ false
later seq last n e p = ground (arith, e, p)

rounds : (seq last n : ℕ) → seq ≡ last + n → n ≤ 1000 → min (seq - last) 1000 ≡ n
rounds seq last n e l = omega (arith, e, l)

dump_oom_events-some :
    (find : ℕ → Option OomEvent) (seq last n : ℕ)
    → seq ≡ last + n
    → 0 < n
    → n ≤ 1000
    → dump_oom_events find (some seq) last ≡ (dump_rounds find last n, seq)
unfolding dump_oom_events
dump_oom_events-some find seq last n e p l = rw (later seq last n e p, rounds seq last n e l) refl

-- Let 64 victims at most, and one at least, be marked after the number up to which the events were
-- handed on, and the numbers stay below 2 ^ 32. Then the next call hands on exactly these, in their
-- order, and remembers the new number.
pub dump_oom_events-marked :
    (es : List OomEvent) (r : OomRing)
    → 0 < length es
    → length es ≤ 64
    → r.seq + length es < 2 ^ 32
    → let after = mark_all es r in
      dump_oom_events (λ ix. some (after.events ix)) (some after.seq) r.seq ≡ (es, after.seq)
dump_oom_events-marked es r p few w =
    dump_oom_events-some (λ ix. some ((mark_all es r).events ix)) (mark_all es r).seq r.seq
      (length es) (mark_all-seq es r w) p (omega (arith, few))
    ∙ ap (λ (xs : List OomEvent). (xs, (mark_all es r).seq)) (dump_rounds-marked es r few w)
