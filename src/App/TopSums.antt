-- ===== src/App/TopSums.antt =====
-- What the rows of `BuildTopTasks` (src/app.cpp) hold.
use mathlib.Core.List.{Mem, Perm, mem-cons_self, mem-cons_of_mem}
use mathlib.Core.List.Perm
use e_trace_diag.Prelude.{
  ℕ, ◌+◌, ◌<◌, ◌^◌, ◌≡◌, ◌⊎◌, inl, inr, true, false, ◌||◌, List, [], ◌∷◌, ◌==◌, if◌then◌else◌,
  arith, refl, sym, ap, ◌∙◌, u64, map, subst, Bool-cases, if_cases, ==_iff,
}
use e_trace_diag.Selector.Maps.{find, find_or, keys, has}
use e_trace_diag.ProcessTable.Rows.{TaskRow}
use e_trace_diag.App.TopTasks.{zero_row, process, gather_one, gather, values, build_top_tasks}
use e_trace_diag.App.TopEntries.{
  Summed, counter, total, entry, joined, sum_with, entry-sum_with, entry_other, has-keys-sum_with,
  same, summed, tgid_added, or_row, find_or_lem, counter-zero,
}

module _ (procs : List ℕ) where
  gather_one_lem :
      (r : TaskRow) (agg : List (ℕ × TaskRow))
      → gather_one procs r agg ≡ (if has (process r) procs then sum_with (process r) r agg else agg)
  unfolding gather_one sum_with joined entry
  gather_one_lem r agg = refl

  gather_one_hit :
      (g : ℕ) (r : TaskRow) (agg : List (ℕ × TaskRow))
      → has g procs ≡ true
      → g ≡ process r
      → entry g (gather_one procs r agg) ≡ joined g r (entry g agg)
  gather_one_hit g r agg wanted e =
      ap (entry g) (gather_one_lem r agg)
      ∙ subst
          (λ p. entry g (if has p procs then sum_with p r agg else agg) ≡ joined g r (entry g agg))
          e (rw wanted (entry-sum_with g r agg))

  gather_one_miss :
      (g : ℕ) (r : TaskRow) (agg : List (ℕ × TaskRow))
      → (process r == g) ≡ false
      → entry g (gather_one procs r agg) ≡ entry g agg
  gather_one_miss g r agg e =
      ap (entry g) (gather_one_lem r agg)
      ∙ if_cases (λ m. entry g m ≡ entry g agg) (has (process r) procs)
          (λ h. entry_other (process r) g r agg e) (λ h. refl)

  gather-counter :
      (k : Summed) (g : ℕ) (rows : List TaskRow) (agg : List (ℕ × TaskRow))
      → has g procs ≡ true
      → counter k (entry g agg) < 2 ^ 64
      → counter k (entry g (gather procs rows agg)) ≡ u64 (counter k (entry g agg) + total k g rows)
  unfolding gather total joined
  gather-counter k g [] agg wanted small = omega arith
  gather-counter k g (r ∷ rows) agg wanted small = elim (Bool-cases (process r == g)) [
    | inl e ↦ rw e (
        let now =
          ap (counter k) (gather_one_hit g r agg wanted (sym ((==_iff (process r) g).0 e)))
          ∙ summed k r _
          ∙ ap (λ n. u64 (n + counter k r)) (same k g r (entry g agg)) in
        gather-counter k g rows (gather_one procs r agg) wanted
          (subst (λ n. n < 2 ^ 64) (sym now) (omega arith))
        ∙ ap (λ n. u64 (n + total k g rows)) now
        ∙ omega arith)
    | inr e ↦ rw e (
        let now = ap (counter k) (gather_one_miss g r agg e) in
        gather-counter k g rows (gather_one procs r agg) wanted
          (subst (λ n. n < 2 ^ 64) (sym now) small)
        ∙ ap (λ n. u64 (n + total k g rows)) now
        ∙ omega arith)
  ]

  gather_one-tgid :
      (g : ℕ) (r : TaskRow) (agg : List (ℕ × TaskRow))
      → has g procs ≡ true
      → ((entry g agg).tgid ≡ 0) ⊎ ((entry g agg).tgid ≡ g)
      → ((process r == g) ≡ true → (entry g (gather_one procs r agg)).tgid ≡ g)
        × ((process r == g) ≡ false → (entry g (gather_one procs r agg)).tgid ≡ (entry g agg).tgid)
  unfolding joined
  gather_one-tgid g r agg wanted h = (
    λ e.
        ap (λ a. a.tgid) (gather_one_hit g r agg wanted (sym ((==_iff (process r) g).0 e)))
        ∙ tgid_added g r (entry g agg) h,
    λ e. ap (λ a. a.tgid) (gather_one_miss g r agg e),
  )

  gather-tgid :
      (g : ℕ) (rows : List TaskRow) (agg : List (ℕ × TaskRow))
      → has g procs ≡ true
      → ((entry g agg).tgid ≡ g) ⊎ (((entry g agg).tgid ≡ 0) × (has g (map process rows) ≡ true))
      → (entry g (gather procs rows agg)).tgid ≡ g
  unfolding gather
  gather-tgid g [] agg wanted (inl e) = e
  gather-tgid g [] agg wanted (inr (z, e)) = ground (arith, e)
  gather-tgid g (r ∷ rows) agg wanted (inl e) =
      let step = gather_one-tgid g r agg wanted (inr e) in
      gather-tgid g rows (gather_one procs r agg) wanted
        (inl (elim (Bool-cases (process r == g)) [ inl d ↦ step.0 d | inr d ↦ step.1 d ∙ e ]))
  gather-tgid g (r ∷ rows) agg wanted (inr (z, e)) =
      let step = gather_one-tgid g r agg wanted (inl z) in
      gather-tgid g rows (gather_one procs r agg) wanted (elim (Bool-cases (process r == g)) [
        | inl d ↦ inl (step.0 d)
        | inr d ↦ inr (step.1 d ∙ z, ground (arith, d, e))
      ])

  gather_one-keys :
      (g : ℕ) (r : TaskRow) (agg : List (ℕ × TaskRow))
      → has g procs ≡ true
      → has g (keys (gather_one procs r agg)) ≡ (has g (keys agg) || (process r == g))
  gather_one-keys g r agg wanted = elim (Bool-cases (process r == g)) [
    | inl e ↦
        ap (λ m. has g (keys m)) (gather_one_lem r agg)
        ∙ subst
            (λ p.
              has g (keys (if has p procs then sum_with p r agg else agg))
              ≡ (has g (keys agg) || (p == g)))
            (sym ((==_iff (process r) g).0 e)) (rw wanted (has-keys-sum_with g g r agg))
    | inr e ↦
        ap (λ m. has g (keys m)) (gather_one_lem r agg)
        ∙ if_cases (λ m. has g (keys m) ≡ (has g (keys agg) || (process r == g)))
            (has (process r) procs) (λ h. has-keys-sum_with g (process r) r agg)
            (λ h. ground (arith, e))
  ]

  gather-keys :
      (g : ℕ) (rows : List TaskRow) (agg : List (ℕ × TaskRow))
      → has g procs ≡ true
      → has g (keys (gather procs rows agg)) ≡ (has g (keys agg) || has g (map process rows))
  unfolding gather
  gather-keys g [] agg wanted = ground arith
  gather-keys g (r ∷ rows) agg wanted =
      gather-keys g rows (gather_one procs r agg) wanted
      ∙ ground (arith, gather_one-keys g r agg wanted)

find-mem :
    (g : ℕ) (v : TaskRow) (m : List (ℕ × TaskRow))
    → has g (keys m) ≡ true
    → Mem (or_row v (find g m)) (values m)
unfolding find or_row
find-mem g v [] e = ground (arith, e)
find-mem g v ((j, a) ∷ m) e = elim (Bool-cases (j == g)) [
  | inl d ↦ rw d mem-cons_self
  | inr d ↦ rw d (mem-cons_of_mem a (find-mem g v m (ground (arith, d, e))))
]

-- Each selected process with a thread in the table has a row: its number is that of the process, and
-- each of its seven summed counters is the sum over the threads of the process, modulo 2 ^ 64. Of
-- the sort it is assumed that it rearranges its list.
pub build_top_tasks-row :
    (sort : List TaskRow → List TaskRow) (table : List TaskRow) (procs : List ℕ) (g : ℕ)
    → ((xs : List TaskRow) → Perm (sort xs) xs)
    → has g procs ≡ true
    → has g (map process table) ≡ true
    → (a : TaskRow) × Mem a (build_top_tasks sort table procs)
      × (a.tgid ≡ g)
      × ((k : Summed) → counter k a ≡ u64 (total k g table))
unfolding build_top_tasks entry find_or find zero_row
build_top_tasks-row sort table procs g perm wanted occurs = (
  entry g (gather procs table []),
  (Perm.mem_iff (perm (values (gather procs table [])))).1 (
      subst (λ a. Mem a (values (gather procs table [])))
        (sym (find_or_lem g zero_row (gather procs table [])))
        (find-mem g zero_row (gather procs table [])
          (gather-keys procs g table [] wanted ∙ ground (arith, occurs)))),
  gather-tgid procs g table [] wanted (inr (refl, occurs)),
  λ k.
      gather-counter procs k g table [] wanted
        (subst (λ n. n < 2 ^ 64) (sym (counter-zero k)) (omega arith))
      ∙ ap (λ n. u64 (n + total k g table)) (counter-zero k)
      ∙ omega arith,
)
