-- ===== src/Recorder/Conserve.antt =====
-- What `MergePerCpu` of src/collect/deep_collector.cpp keeps of the records.
use e_trace_diag.Prelude.{
  ℕ, ◌+◌, ◌/◌, ◌%◌, ◌^◌, ◌&&◌, ◌||◌, List, [], ◌∷◌, ◌≡◌, refl, ap, sym, ◌∙◌, arith, ltb, ◌==◌, map,
  if_cases,
}
use mathlib.Core.List.{Perm, Permᴰ}
use mathlib.Core.Logic.{∥∥₁_elim}
use native.Mathlib.Nat.{ℕ_set, add-mod-mod, mod-add-mod}
use e_trace_diag.Recorder.Snapshot.{KernelSnapshotRec, add_snap}
use e_trace_diag.Recorder.Merge.{Group, tick_ns, add_record, group_all, ByTime, merge_per_cpu}

-- The sum of a field over the records.
abbrev pub total : (KernelSnapshotRec → ℕ) → List KernelSnapshotRec → ℕ
total f [] = 0
total f (r ∷ rs) = f r + total f rs

-- A field that `AddSnap` adds up in a word with `m` values.
abbrev pub IsCounter : (KernelSnapshotRec → ℕ) → ℕ → Type 0
IsCounter f m = (a b : KernelSnapshotRec) → f (add_snap a b) ≡ (f a + f b) % m

abbrev snaps : List Group → List KernelSnapshotRec
snaps = map (λ g. g.snap)

Permᴰ-total :
    (f : KernelSnapshotRec → ℕ) {xs ys : List KernelSnapshotRec}
    → Permᴰ xs ys
    → total f xs ≡ total f ys
Permᴰ-total f Permᴰ.nil = refl
Permᴰ-total f (Permᴰ.cons e p) = omega (arith, ap f e, Permᴰ-total f p)
Permᴰ-total f (Permᴰ.swap e g) = omega (arith, ap f e, ap f g)
Permᴰ-total f (Permᴰ.trans p q) = Permᴰ-total f p ∙ Permᴰ-total f q

perm-total :
    (f : KernelSnapshotRec → ℕ) {xs ys : List KernelSnapshotRec}
    → Perm xs ys
    → total f xs ≡ total f ys
perm-total f p = ∥∥₁_elim p (ℕ_set _ _) (Permᴰ-total f)

mod_congr : (m a x y : ℕ) → x % m ≡ y % m → (a + x) % m ≡ (a + y) % m
mod_congr m a x y e = sym (add-mod-mod a x m) ∙ ap (λ t. (a + t) % m) e ∙ add-mod-mod a y m

module _ (f : KernelSnapshotRec → ℕ) (m : ℕ) (counts : IsCounter f m) where
  Adds : KernelSnapshotRec → List Group → List Group → Type 0
  Adds r gs gs' = total f (snaps gs') % m ≡ (f r + total f (snaps gs)) % m

  add_record-total :
      (tid bucket : ℕ) (r : KernelSnapshotRec) (gs : List Group)
      → Adds r gs (add_record tid bucket r gs)
  unfolding Adds add_record
  add_record-total tid bucket r [] = refl
  add_record-total tid bucket r (g ∷ gs) =
      if_cases (Adds r (g ∷ gs)) (tid == g.tid && bucket == g.bucket) (λ _. same)
        (λ _.
          if_cases (Adds r (g ∷ gs)) (ltb tid g.tid || (tid == g.tid && ltb bucket g.bucket))
            (λ _. refl) (λ _. later (add_record-total tid bucket r gs)))
    where
      t : ℕ
      t = total f (snaps gs)

      same : (f (add_snap g.snap r) + t) % m ≡ (f r + (f g.snap + t)) % m
      same =
          ap (λ x. (x + t) % m) (counts g.snap r)
          ∙ mod-add-mod (f g.snap + f r) m t
          ∙ ap (λ x. x % m) (omega arith)

      later :
          total f (snaps (add_record tid bucket r gs)) % m ≡ (f r + t) % m
          → (f g.snap + total f (snaps (add_record tid bucket r gs))) % m
            ≡ (f r + (f g.snap + t)) % m
      later e =
          mod_congr m (f g.snap) (total f (snaps (add_record tid bucket r gs))) (f r + t) e
          ∙ ap (λ x. x % m) (omega arith)

  group_all-total :
      (tick : ℕ) (rs : List KernelSnapshotRec) (gs : List Group)
      → total f (snaps (group_all tick rs gs)) % m ≡ (total f rs + total f (snaps gs)) % m
  unfolding Adds group_all
  group_all-total tick [] gs = ap (λ x. x % m) (omega arith)
  group_all-total tick (r ∷ rs) gs =
      let gs' = add_record r.tid (r.ts_ns / tick) r gs in
      group_all-total tick rs gs'
      ∙ mod_congr m (total f rs) (total f (snaps gs')) (f r + total f (snaps gs))
          (add_record-total r.tid (r.ts_ns / tick) r gs)
      ∙ ap (λ x. x % m) (omega arith)

  -- Merging the records of the CPUs keeps the sum of every field that `AddSnap` adds up, modulo the
  -- size of the field's word.
  pub merge_per_cpu-total :
      (by_time : ByTime) (interval_ms : ℕ) (rs : List KernelSnapshotRec)
      → total f (merge_per_cpu by_time interval_ms rs) % m ≡ total f rs % m
  unfolding merge_per_cpu
  merge_per_cpu-total by_time interval_ms rs =
      ap (λ x. x % m) (perm-total f (by_time.sort-perm _))
      ∙ group_all-total (tick_ns interval_ms) rs []
      ∙ ap (λ x. x % m) (omega arith)

-- The scalar fields that are counters: those of 64 bits, and those of 32.
pub counters64 :
    IsCounter (λ r. r.on_cpu_ns) (2 ^ 64)
    × IsCounter (λ r. r.io_ops) (2 ^ 64)
    × IsCounter (λ r. r.io_bytes) (2 ^ 64)
    × IsCounter (λ r. r.lock_waits) (2 ^ 64)
    × IsCounter (λ r. r.lock_lat_ns) (2 ^ 64)
    × IsCounter (λ r. r.syscall_count) (2 ^ 64)
    × IsCounter (λ r. r.syscall_lat_ns) (2 ^ 64)
    × IsCounter (λ r. r.futex_waits) (2 ^ 64)
    × IsCounter (λ r. r.futex_lat_ns) (2 ^ 64)
    × IsCounter (λ r. r.runq_wait_ns) (2 ^ 64)
unfolding add_snap
counters64 = (
  λ a b. refl,
  λ a b. refl,
  λ a b. refl,
  λ a b. refl,
  λ a b. refl,
  λ a b. refl,
  λ a b. refl,
  λ a b. refl,
  λ a b. refl,
  λ a b. refl,
)
