-- ===== src/Kernel/Programs/Tables.antt =====
-- The hash maps of bpf/etrace.bpf.c and the helpers that get a counter or create it (`h_u64` to
-- `h_iof`). A map is the list of its entries with its capacity; per-CPU maps are one for each CPU.
use e_trace_diag.Prelude.{
  ℕ, suc, ◌<◌, ◌≡◌, refl, true, false, List, [], ◌∷◌, Option, some, none, ◌==◌, ltb, if◌then◌else◌,
  arith, length, Bool-cases, inl, inr, ap, sym, ◌∙◌, if_cases,
}

module _ {V : Type 0} where
  abbrev pub lookup_in : List (ℕ × V) → ℕ → Option V
  lookup_in [] k = none
  lookup_in ((j, v) ∷ es) k = if j == k then some v else lookup_in es k

  -- Every entry of the key gets the value that `f` makes of it.
  abbrev pub change_in : List (ℕ × V) → ℕ → (V → V) → List (ℕ × V)
  change_in [] k f = []
  change_in ((j, v) ∷ es) k f = (if j == k then (j, f v) else (j, v)) ∷ change_in es k f

  abbrev pub delete_in : List (ℕ × V) → ℕ → List (ℕ × V)
  delete_in [] k = []
  delete_in ((j, v) ∷ es) k = if j == k then delete_in es k else (j, v) ∷ delete_in es k

off : (i k j : ℕ) → (i == k) ≡ true → (k == j) ≡ false → (i == j) ≡ false
off i k j e h = ground (arith, e, h)

same_key : (k : ℕ) → (k == k) ≡ true
same_key k = ground arith

lt→ltb : (a b : ℕ) → a < b → ltb a b ≡ true
lt→ltb a b h = ground arith

pub record Table (V : Type 0) : Type 0 where
  pub entries : List (ℕ × V)
  pub max_entries : ℕ

module _ {V : Type 0} where
  -- `bpf_map_lookup_elem`.
  unfoldable pub lookup : Table V → ℕ → Option V
  lookup t k = lookup_in t.entries k

  -- Given what a lookup of the key finds: an old value stays, and a full map stays as it is.
  unfoldable insert_new : Option V → Table V → ℕ → V → Table V
  insert_new (some w) t k v = t
  insert_new none t k v =
      if ltb (length t.entries) t.max_entries then record t { entries = (k, v) ∷ t.entries } else t

  -- `bpf_map_update_elem` with BPF_NOEXIST.
  unfoldable pub update_noexist : Table V → ℕ → V → Table V
  unfolding lookup insert_new
  update_noexist t k v = insert_new (lookup t k) t k v

  -- A write through the pointer that a lookup gave.
  unfoldable pub modify : Table V → ℕ → (V → V) → Table V
  modify t k f = record t { entries = change_in t.entries k f }

  -- `bpf_map_update_elem` with BPF_ANY.
  unfoldable pub update_any : Table V → ℕ → V → Table V
  unfolding modify update_noexist
  update_any t k v = update_noexist (modify t k (λ w. v)) k v

  -- `bpf_map_delete_elem`.
  unfoldable pub delete : Table V → ℕ → Table V
  delete t k = record t { entries = delete_in t.entries k }

  -- `h_u64` and its kin with the write that follows: `z` is what the new entry starts with.
  unfoldable pub count_at : Table V → ℕ → V → (V → V) → Table V
  unfolding update_noexist modify
  count_at t k z f = modify (update_noexist t k z) k f

  abbrev pub option_map : (V → V) → Option V → Option V
  option_map f none = none
  option_map f (some v) = some (f v)

  abbrev pub value_or : V → Option V → V
  value_or z none = z
  value_or z (some v) = v

  -- The map has the key, or room for it.
  abbrev pub HasRoom : Table V → ℕ → Type 0
  HasRoom t k = lookup_in t.entries k ≡ none → length t.entries < t.max_entries

  lookup_in-change :
      (es : List (ℕ × V)) (k : ℕ) (f : V → V)
      → lookup_in (change_in es k f) k ≡ option_map f (lookup_in es k)
  lookup_in-change [] k f = refl
  lookup_in-change ((j, v) ∷ es) k f = elim (Bool-cases (j == k)) [
    | inl e ↦ rw (e, e) refl
    | inr e ↦ rw (e, e) (lookup_in-change es k f)
  ]

  lookup_in-change_other :
      (es : List (ℕ × V)) (k j : ℕ) (f : V → V)
      → (k == j) ≡ false
      → lookup_in (change_in es k f) j ≡ lookup_in es j
  lookup_in-change_other [] k j f h = refl
  lookup_in-change_other ((i, v) ∷ es) k j f h = elim (Bool-cases (i == k)) [
    | inl e ↦ rw (e, off i k j e h) (lookup_in-change_other es k j f h)
    | inr e ↦ rw (e, lookup_in-change_other es k j f h) refl
  ]

  lookup_in-delete : (es : List (ℕ × V)) (k : ℕ) → lookup_in (delete_in es k) k ≡ none
  lookup_in-delete [] k = refl
  lookup_in-delete ((j, v) ∷ es) k = elim (Bool-cases (j == k)) [
    | inl e ↦ rw e (lookup_in-delete es k)
    | inr e ↦ rw (e, e) (lookup_in-delete es k)
  ]

  lookup_in-delete_other :
      (es : List (ℕ × V)) (k j : ℕ)
      → (k == j) ≡ false
      → lookup_in (delete_in es k) j ≡ lookup_in es j
  lookup_in-delete_other [] k j h = refl
  lookup_in-delete_other ((i, v) ∷ es) k j h = elim (Bool-cases (i == k)) [
    | inl e ↦ rw (e, off i k j e h) (lookup_in-delete_other es k j h)
    | inr e ↦ rw (e, lookup_in-delete_other es k j h) refl
  ]

  pub lookup-delete : (t : Table V) (k : ℕ) → lookup (delete t k) k ≡ none
  unfolding lookup delete
  lookup-delete t k = lookup_in-delete t.entries k

  pub lookup-delete_other :
      (t : Table V) (k j : ℕ) → (k == j) ≡ false → lookup (delete t k) j ≡ lookup t j
  unfolding lookup delete
  lookup-delete_other t k j h = lookup_in-delete_other t.entries k j h

  pub lookup-modify :
      (t : Table V) (k : ℕ) (f : V → V) → lookup (modify t k f) k ≡ option_map f (lookup t k)
  unfolding lookup modify
  lookup-modify t k f = lookup_in-change t.entries k f

  lookup-modify_other :
      (t : Table V) (k j : ℕ) (f : V → V) → (k == j) ≡ false → lookup (modify t k f) j ≡ lookup t j
  unfolding lookup modify
  lookup-modify_other t k j f h = lookup_in-change_other t.entries k j f h

  lookup-insert_new :
      (o : Option V) (t : Table V) (k : ℕ) (v : V)
      → HasRoom t k
      → lookup_in t.entries k ≡ o
      → lookup (insert_new o t k v) k ≡ some (value_or v o)
  unfolding lookup insert_new
  lookup-insert_new (some w) t k v room e = e
  lookup-insert_new none t k v room e =
      rw (lt→ltb (length t.entries) t.max_entries (room e), same_key k) refl

  pub lookup-update_noexist :
      (t : Table V) (k : ℕ) (v : V)
      → HasRoom t k
      → lookup (update_noexist t k v) k ≡ some (value_or v (lookup t k))
  unfolding lookup update_noexist
  lookup-update_noexist t k v room = lookup-insert_new (lookup_in t.entries k) t k v room refl

  lookup-insert_other :
      (o : Option V) (t : Table V) (k j : ℕ) (v : V)
      → (k == j) ≡ false
      → lookup (insert_new o t k v) j ≡ lookup t j
  unfolding lookup insert_new
  lookup-insert_other (some w) t k j v h = refl
  lookup-insert_other none t k j v h =
      if_cases (λ (u : Table V). lookup_in u.entries j ≡ lookup_in t.entries j)
        (ltb (length t.entries) t.max_entries) (λ f. rw h refl) (λ f. refl)

  pub lookup-update_noexist_other :
      (t : Table V) (k j : ℕ) (v : V)
      → (k == j) ≡ false
      → lookup (update_noexist t k v) j ≡ lookup t j
  unfolding update_noexist
  lookup-update_noexist_other t k j v h = lookup-insert_other (lookup t k) t k j v h

  pub lookup-count_at :
      (t : Table V) (k : ℕ) (z : V) (f : V → V)
      → HasRoom t k
      → lookup (count_at t k z f) k ≡ some (f (value_or z (lookup t k)))
  unfolding count_at
  lookup-count_at t k z f room =
      lookup-modify (update_noexist t k z) k f
      ∙ ap (option_map f) (lookup-update_noexist t k z room)

  pub lookup-count_at_other :
      (t : Table V) (k j : ℕ) (z : V) (f : V → V)
      → (k == j) ≡ false
      → lookup (count_at t k z f) j ≡ lookup t j
  unfolding count_at
  lookup-count_at_other t k j z f h =
      lookup-modify_other (update_noexist t k z) k j f h ∙ lookup-update_noexist_other t k j z h

  length-change : (es : List (ℕ × V)) (k : ℕ) (f : V → V) → length (change_in es k f) ≡ length es
  length-change [] k f = refl
  length-change ((j, v) ∷ es) k f = ap suc (length-change es k f)

  map-none : (f : V → V) (o : Option V) → option_map f o ≡ none → o ≡ none
  map-none f none e = refl
  map-none f (some v) e = absurd (ground (arith, e))

  modify-HasRoom : (t : Table V) (k : ℕ) (f : V → V) → HasRoom t k → HasRoom (modify t k f) k
  unfolding modify lookup
  modify-HasRoom t k f room = λ e.
      rw (length-change t.entries k f)
        (room (map-none f (lookup_in t.entries k) (sym (lookup_in-change t.entries k f) ∙ e)))

  value_or-const : (v : V) (o : Option V) → value_or v (option_map (λ w. v) o) ≡ v
  value_or-const v none = refl
  value_or-const v (some w) = refl

  pub lookup-update_any :
      (t : Table V) (k : ℕ) (v : V) → HasRoom t k → lookup (update_any t k v) k ≡ some v
  unfolding update_any
  lookup-update_any t k v room =
      lookup-update_noexist (modify t k (λ w. v)) k v (modify-HasRoom t k (λ w. v) room)
      ∙ ap (λ o. some (value_or v o)) (lookup-modify t k (λ w. v))
      ∙ ap some (value_or-const v (lookup t k))
