-- ===== src/App/TopEntries.antt =====
-- The entry of one process in the map of `BuildTopTasks` (src/app.cpp).
use e_trace_diag.Prelude.{
  ℕ, ◌+◌, ◌≡◌, ◌⊎◌, inl, inr, Bool, true, false, ◌||◌, List, [], ◌∷◌, ◌==◌, if◌then◌else◌, arith,
  refl, Option, some, none, sym, ap, ◌∙◌, u64, Bool-cases,
}
use e_trace_diag.Selector.Maps.{find, find_or, store, keys, has}
use e_trace_diag.ProcessTable.Rows.{TaskRow}
use e_trace_diag.App.TopTasks.{zero_row, process, identify, keep_comm, add_task}

-- The counters that are summed.
pub data Summed : Type 0 where
  utime : Summed
  stime : Summed
  nvcsw : Summed
  nivcsw : Summed
  minflt : Summed
  majflt : Summed
  total_vm : Summed

unfoldable pub counter : Summed → TaskRow → ℕ
counter utime r = r.utime
counter stime r = r.stime
counter nvcsw r = r.nvcsw
counter nivcsw r = r.nivcsw
counter minflt r = r.minflt
counter majflt r = r.majflt
counter total_vm r = r.total_vm

-- Of the threads of a process.
unfoldable pub total : Summed → ℕ → List TaskRow → ℕ
unfolding counter
total k g [] = 0
total k g (r ∷ rows) = (if process r == g then counter k r else 0) + total k g rows

other : (i j k : ℕ) → (i == j) ≡ true → (j == k) ≡ false → (i == k) ≡ false
other i j k e d = ground (arith, e, d)

unfoldable pub entry : ℕ → List (ℕ × TaskRow) → TaskRow
entry g agg = find_or zero_row g agg

find-store :
    (k j : ℕ) (w : TaskRow) (m : List (ℕ × TaskRow))
    → find k (store j w m) ≡ (if j == k then some w else find k m)
unfolding find store
find-store k j w [] = refl
find-store k j w ((i, x) ∷ m) = ground (arith, find-store k j w m, other i j k, other j i k)

-- `find_or`, from what is found.
unfoldable pub or_row : TaskRow → Option TaskRow → TaskRow
or_row v none = v
or_row v (some w) = w

pub find_or_lem :
    (k : ℕ) (v : TaskRow) (m : List (ℕ × TaskRow)) → find_or v k m ≡ or_row v (find k m)
unfolding find_or or_row
find_or_lem k v m = by_found (find k m)
  where
    by_found : (o : Option TaskRow) → elim o [ none ↦ v | some w ↦ w ] ≡ or_row v o
    by_found none = refl
    by_found (some w) = refl

find_or-store :
    (k j : ℕ) (v w : TaskRow) (m : List (ℕ × TaskRow))
    → find_or v k (store j w m) ≡ (if j == k then w else find_or v k m)
unfolding or_row
find_or-store k j v w m =
    find_or_lem k v (store j w m)
    ∙ ap (or_row v) (find-store k j w m)
    ∙ elim (Bool-cases (j == k)) [ inl e ↦ rw e refl | inr e ↦ rw e (sym (find_or_lem k v m)) ]

has-keys-store :
    (k j : ℕ) (w : TaskRow) (m : List (ℕ × TaskRow))
    → has k (keys (store j w m)) ≡ (has k (keys m) || (j == k))
unfolding store
has-keys-store k j w [] = ground arith
has-keys-store k j w ((i, x) ∷ m) = elim (Bool-cases (i == j)) [
  | inl e ↦ rw e (ground (arith, e))
  | inr e ↦ rw e (ground (arith, has-keys-store k j w m))
]

-- The sums, of what the names leave.
pub same :
    (k : Summed) (g : ℕ) (r a : TaskRow) → counter k (keep_comm g r (identify g r a)) ≡ counter k a
unfolding counter keep_comm identify
same utime g r a = ground arith
same stime g r a = ground arith
same nvcsw g r a = ground arith
same nivcsw g r a = ground arith
same minflt g r a = ground arith
same majflt g r a = ground arith
same total_vm g r a = ground arith

pub summed :
    (k : Summed) (r a : TaskRow) → counter k (add_task r a) ≡ u64 (counter k a + counter k r)
unfolding counter add_task
summed utime r a = refl
summed stime r a = refl
summed nvcsw r a = refl
summed nivcsw r a = refl
summed minflt r a = refl
summed majflt r a = refl
summed total_vm r a = refl

pub tgid_added :
    (g : ℕ) (r a : TaskRow)
    → (a.tgid ≡ 0) ⊎ (a.tgid ≡ g)
    → (add_task r (keep_comm g r (identify g r a))).tgid ≡ g
unfolding add_task keep_comm identify
tgid_added g r a h = ground arith

pub counter-zero : (k : Summed) → counter k zero_row ≡ 0
unfolding counter zero_row
counter-zero utime = refl
counter-zero stime = refl
counter-zero nvcsw = refl
counter-zero nivcsw = refl
counter-zero minflt = refl
counter-zero majflt = refl
counter-zero total_vm = refl

-- What becomes of the row of a process.
unfoldable pub joined : ℕ → TaskRow → TaskRow → TaskRow
joined g r a = add_task r (keep_comm g r (identify g r a))

unfoldable pub sum_with : ℕ → TaskRow → List (ℕ × TaskRow) → List (ℕ × TaskRow)
unfolding joined
sum_with p r agg = store p (joined p r (entry p agg)) agg

pub has-keys-sum_with :
    (k p : ℕ) (r : TaskRow) (agg : List (ℕ × TaskRow))
    → has k (keys (sum_with p r agg)) ≡ (has k (keys agg) || (p == k))
unfolding sum_with
has-keys-sum_with k p r agg = has-keys-store k p (joined p r (entry p agg)) agg

if_same : (b : Bool) (x y : TaskRow) → b ≡ true → (if b then x else y) ≡ x
if_same b x y e = rw e refl

if_other : (b : Bool) (x y : TaskRow) → b ≡ false → (if b then x else y) ≡ y
if_other b x y e = rw e refl

pub entry-sum_with :
    (p : ℕ) (r : TaskRow) (agg : List (ℕ × TaskRow))
    → entry p (sum_with p r agg) ≡ joined p r (entry p agg)
unfolding sum_with entry
entry-sum_with p r agg = find_or-store p p zero_row _ agg ∙ if_same (p == p) _ _ (ground arith)

pub entry_other :
    (p g : ℕ) (r : TaskRow) (agg : List (ℕ × TaskRow))
    → (p == g) ≡ false
    → entry g (sum_with p r agg) ≡ entry g agg
unfolding sum_with entry
entry_other p g r agg e = find_or-store g p zero_row _ agg ∙ if_other (p == g) _ _ e
