-- ===== src/Selector/Maps.antt =====
-- The containers of src/collect/target_selector.cpp. An `unordered_map` is the list of its entries
-- and an `unordered_set` the list of its elements, without repetition.
use e_trace_diag.Prelude.{
  ℕ, Bool, false, ◌||◌, List, [], ◌∷◌, ◌++◌, Option, some, none, ◌==◌, if◌then◌else◌,
}

module _ {V : Type 0} where
  unfoldable pub find : ℕ → List (ℕ × V) → Option V
  find k [] = none
  find k ((j, v) ∷ m) = if j == k then some v else find k m

  -- `m[k] = v`.
  unfoldable pub store : ℕ → V → List (ℕ × V) → List (ℕ × V)
  store k v [] = (k, v) ∷ []
  store k v ((j, w) ∷ m) = if j == k then (k, v) ∷ m else (j, w) ∷ store k v m

  -- A change of the entry that is there.
  unfoldable pub adjust : ℕ → (V → V) → List (ℕ × V) → List (ℕ × V)
  adjust k f [] = []
  adjust k f ((j, v) ∷ m) = if j == k then (j, f v) ∷ m else (j, v) ∷ adjust k f m

  -- The entry, or `v` where there is none.
  unfoldable pub find_or : V → ℕ → List (ℕ × V) → V
  unfolding find
  find_or v k m = elim (find k m) [ none ↦ v | some w ↦ w ]

  abbrev pub keys : List (ℕ × V) → List ℕ
  keys [] = []
  keys ((k, v) ∷ m) = k ∷ keys m

-- `s.count(k)`.
abbrev pub has : ℕ → List ℕ → Bool
has k [] = false
has k (j ∷ s) = j == k || has k s

-- `s.insert(k)`.
abbrev pub include : ℕ → List ℕ → List ℕ
include k s = if has k s then s else s ++ k ∷ []
