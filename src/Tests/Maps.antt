-- ===== src/Tests/Maps.antt =====
-- A map of one entry, and bytes that carry and do not (src/collect/map_reader.cpp).
use e_trace_diag.Prelude.{
  ℕ, suc, ◌+◌, ◌≡◌, ◌≢◌, ◌↔◌, refl, sym, subst, Bool, true, false, List, [], ◌∷◌, ◌++◌, Option,
  some, none, length, All, take, drop, map,
}
use e_trace_diag.MapReader.Slice.{
  KernelMap, open_slice, drain, for_each, max_iterations, sum_values,
}
use e_trace_diag.MapReader.Walks.{MapLaws, given, first_key, drain_lem, for_each_lem}
use e_trace_diag.MapReader.Sums.{little_endian, sum_of, NoCarries, sum_values_iff}

abbrev Only : Type 0
Only = Unit {0}

-- Whether the entry is there; the one key is the element of `Unit`.
abbrev next : Bool → Option Only → Option Only
next true none = some tt
next true (some k) = none
next false prev = none

abbrev value : List ℕ
value = 200 ∷ 0 ∷ 0 ∷ 0 ∷ 0 ∷ 0 ∷ 0 ∷ 0 ∷ 100 ∷ 1 ∷ 0 ∷ 0 ∷ 0 ∷ 0 ∷ 0 ∷ 0 ∷ []

abbrev look : Bool → Only → Option (List ℕ)
look true k = some value
look false k = none

abbrev one_entry : KernelMap
one_entry = record { Map = Bool; Key = Only; next_key = next; lookup = look; delete = λ m k. false }

abbrev entry : Bool → List (Only × List ℕ)
entry true = (tt, value) ∷ []
entry false = []

cons-empty : {A : Type 0} (x : A) (xs : List A) → x ∷ xs ≢ []
cons-empty x xs e = cc

-- The entry stands in the map in one way.
one_split :
    (m : Bool) (xs ys : List (Only × List ℕ)) (p : Only) (v : List ℕ)
    → entry m ≡ xs ++ (p, v) ∷ ys
    → (m ≡ true) × (v ≡ value) × (ys ≡ [])
one_split true [] ys p v e = (refl, cc, cc)
one_split false [] ys p v e = cc
one_split true (x ∷ []) ys p v e = cc
one_split true (x ∷ y ∷ xs) ys p v e = cc
one_split false (x ∷ xs) ys p v e = cc

one_entry-MapLaws : MapLaws one_entry
one_entry-MapLaws = record {
  entries = entry;
  next_none = next_first;
  next_absent = λ m p h. absent m p h;
  next_present = λ m xs ys p v e. present m ys p (one_split m xs ys p v e);
  lookup_entry = λ m xs ys p v e. looked m p v ys (one_split m xs ys p v e);
  delete_first = λ m ys p v e. sym (one_split m [] ys p v e).2;
  distinct = λ m ys p v e. subst (All (λ x. x.0 ≢ p)) (sym (one_split m [] ys p v e).2) tt;
}
  where
    next_first : (m : Bool) → next m none ≡ first_key (entry m)
    next_first true = refl
    next_first false = refl

    absent :
        (m : Bool) (p : Only) → All (λ x. x.0 ≢ p) (entry m) → next m (some p) ≡ first_key (entry m)
    absent true p h = absurd (h.0 refl)
    absent false p h = refl

    present :
        (m : Bool) (ys : List (Only × List ℕ)) (p : Only) {v : List ℕ}
        → (m ≡ true) × (v ≡ value) × (ys ≡ [])
        → next m (some p) ≡ first_key ys
    present m ys p (a, b, c) = rw (a, c) refl

    looked :
        (m : Bool) (p : Only) (v : List ℕ) (ys : List (Only × List ℕ))
        → (m ≡ true) × (v ≡ value) × (ys ≡ [])
        → look m p ≡ some v
    looked m p v ys (a, b, c) = rw (a, b) refl

drain_lem_example :
    ((drain one_entry (open_slice true 8 2) true).0
      ≡ map
          (given one_entry one_entry-MapLaws (open_slice true 8 2))
          (take (max_iterations one_entry (open_slice true 8 2)) (one_entry-MapLaws.entries true)))
    × (one_entry-MapLaws.entries (drain one_entry (open_slice true 8 2) true).1
        ≡ drop (max_iterations one_entry (open_slice true 8 2)) (one_entry-MapLaws.entries true))
drain_lem_example = drain_lem one_entry one_entry-MapLaws (open_slice true 8 2) true

for_each_lem_example :
    for_each one_entry (open_slice true 8 2) (suc (length (one_entry-MapLaws.entries true))) true
    ≡ some (
        map
          (given one_entry one_entry-MapLaws (open_slice true 8 2))
          (one_entry-MapLaws.entries true))
unfolding open_slice
for_each_lem_example = for_each_lem one_entry one_entry-MapLaws (open_slice true 8 2) true refl

-- 200 + 100 carries out of its byte: the sum of the processors is 44.
sum_values_iff_example :
    (little_endian (sum_values (0 ∷ 0 ∷ []) ((200 ∷ 0 ∷ []) ∷ (100 ∷ 0 ∷ []) ∷ []))
      ≡ 0 + sum_of ((200 ∷ 0 ∷ []) ∷ (100 ∷ 0 ∷ []) ∷ []))
    ↔ NoCarries (0 ∷ 0 ∷ []) ((200 ∷ 0 ∷ []) ∷ (100 ∷ 0 ∷ []) ∷ [])
sum_values_iff_example =
    sum_values_iff (0 ∷ 0 ∷ []) ((200 ∷ 0 ∷ []) ∷ (100 ∷ 0 ∷ []) ∷ []) (refl, (refl, tt))
