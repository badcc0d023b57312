-- ===== src/Prelude/Sorting.antt =====
-- `std::sort`, which the sources call and do not implement: an interface with what the standard
-- promises of it, and a sort that meets it.
use Prim.Native.Nat.{ℕ, ◌≤◌}
use mathlib.Core.List.{List, [], ◌∷◌, Perm}
use mathlib.Core.List.Perm
use mathlib.Core.Logic.{inl, inr}
use native.Mathlib.Omega.{arith}
use e_trace_diag.Prelude.Tests.{leb, if◌then◌else◌, Bool-cases}

-- The keys do not fall along the list.
abbrev pub Ascending {ℓ} : {A : Type ℓ} → (A → ℕ) → List A → Type 0
Ascending key [] = Unit {0}
Ascending key (x ∷ []) = Unit {0}
Ascending key (x ∷ y ∷ xs) = (key x ≤ key y) × Ascending key (y ∷ xs)

-- Sorting by a key: a rearrangement in which the keys do not fall. Equal keys come in any order.
pub record Sort (A : Type 0) (key : A → ℕ) : Type 0 where
  pub sort : List A → List A
  pub sort-perm : (xs : List A) → Perm (sort xs) xs
  pub sort-Ascending : (xs : List A) → Ascending key (sort xs)

module _ {A : Type 0} (key : A → ℕ) where
  pub insert_sorted : A → List A → List A
  insert_sorted a [] = a ∷ []
  insert_sorted a (x ∷ xs) = if leb (key a) (key x) then a ∷ x ∷ xs else x ∷ insert_sorted a xs

  pub insertion_sort : List A → List A
  unfolding insert_sorted
  insertion_sort [] = []
  insertion_sort (x ∷ xs) = insert_sorted x (insertion_sort xs)

  pub insert-perm : (a : A) (xs : List A) → Perm (insert_sorted a xs) (a ∷ xs)
  unfolding insert_sorted
  insert-perm a [] = Perm.refl _
  insert-perm a (x ∷ xs) = elim (Bool-cases (leb (key a) (key x))) [
    | inl e ↦ rw e (Perm.refl _)
    | inr e ↦ rw e (Perm.trans (Perm.cons x (insert-perm a xs)) (Perm.swap a x xs))
  ]

  pub insertion-perm : (xs : List A) → Perm (insertion_sort xs) xs
  unfolding insertion_sort
  insertion-perm [] = Perm.refl _
  insertion-perm (x ∷ xs) =
      Perm.trans (insert-perm x (insertion_sort xs)) (Perm.cons x (insertion-perm xs))

  pub insert-Ascending :
      (a : A) (xs : List A) → Ascending key xs → Ascending key (insert_sorted a xs)
  unfolding insert_sorted
  insert-Ascending a [] h = tt
  insert-Ascending a (x ∷ []) h = ground arith
  insert-Ascending a (x ∷ y ∷ xs) h = ground (arith, insert-Ascending a (y ∷ xs) h.1)

  pub insertion-Ascending : (xs : List A) → Ascending key (insertion_sort xs)
  unfolding insertion_sort
  insertion-Ascending [] = tt
  insertion-Ascending (x ∷ xs) = insert-Ascending x (insertion_sort xs) (insertion-Ascending xs)

  -- The interface can be met.
  unfoldable pub insertion : Sort A key
  unfolding insertion_sort
  insertion = record {
    sort = insertion_sort;
    sort-perm = insertion-perm;
    sort-Ascending = insertion-Ascending;
  }
