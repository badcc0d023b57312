-- ===== src/MapReader/Walks.antt =====
-- What `ForEach`, `Drain` and `Wipe` (src/collect/map_reader.cpp) visit and leave of a map.
use e_trace_diag.Prelude.{
  ℕ, zero, suc, ◌≡◌, ◌≢◌, refl, sym, ap, ◌∙◌, subst, true, List, [], ◌∷◌, ◌++◌, Option, some, none,
  map, All, length, take, drop, append_assoc,
}
use e_trace_diag.MapReader.Slice.{
  KernelMap, MapSlice, entry_value, visit_from, for_each, drain_from, drain, wipe_from, wipe,
  max_iterations, cons_all,
}

abbrev pub first_key : {K V : Type 0} → List (K × V) → Option K
first_key [] = none
first_key (e ∷ es) = some e.0

-- What bpf(2) documents of a hash map that only this process writes: its entries have distinct keys, the
-- next key of none or of a key that is not there is the first one, a lookup finds the value of an
-- entry, and a delete removes the entry.
pub record MapLaws (k : KernelMap) : Type 0 where
  pub entries : k.Map → List (k.Key × List ℕ)
  pub next_none : (m : k.Map) → k.next_key m none ≡ first_key (entries m)
  pub next_absent :
      (m : k.Map) (p : k.Key)
      → All (λ e. e.0 ≢ p) (entries m)
      → k.next_key m (some p) ≡ first_key (entries m)
  pub next_present :
      (m : k.Map) (xs ys : List (k.Key × List ℕ)) (p : k.Key) (v : List ℕ)
      → entries m ≡ xs ++ (p, v) ∷ ys
      → k.next_key m (some p) ≡ first_key ys
  pub lookup_entry :
      (m : k.Map) (xs ys : List (k.Key × List ℕ)) (p : k.Key) (v : List ℕ)
      → entries m ≡ xs ++ (p, v) ∷ ys
      → k.lookup m p ≡ some v
  pub delete_first :
      (m : k.Map) (ys : List (k.Key × List ℕ)) (p : k.Key) (v : List ℕ)
      → entries m ≡ (p, v) ∷ ys
      → entries (k.delete m p) ≡ ys
  pub distinct :
      (m : k.Map) (ys : List (k.Key × List ℕ)) (p : k.Key) (v : List ℕ)
      → entries m ≡ (p, v) ∷ ys
      → All (λ e. e.0 ≢ p) ys

module _ (k : KernelMap) (laws : MapLaws k) (s : MapSlice) where
  -- What the callback is given of an entry.
  abbrev pub given : k.Key × List ℕ → k.Key × List ℕ
  given e = (e.0, entry_value s e.1)

  -- The next key of the key that was deleted last is the first one that is left.
  next-delete :
      (m : k.Map) (ys : List (k.Key × List ℕ)) (p : k.Key) (v : List ℕ)
      → laws.entries m ≡ (p, v) ∷ ys
      → k.next_key (k.delete m p) (some p) ≡ first_key ys
  next-delete m ys p v e =
      let left = laws.delete_first m ys p v e in
      laws.next_absent (k.delete m p) p
        (subst (λ es. All (λ x. x.0 ≢ p) es) (sym left) (laws.distinct m ys p v e))
      ∙ ap first_key left

  drain_from_lem :
      (n : ℕ) (m : k.Map) (prev : Option k.Key) (es : List (k.Key × List ℕ))
      → laws.entries m ≡ es
      → k.next_key m prev ≡ first_key es
      → ((drain_from k s n m prev).0 ≡ map given (take n es))
        × (laws.entries (drain_from k s n m prev).1 ≡ drop n es)
  unfolding drain_from
  drain_from_lem zero m prev es e f = (refl, e)
  drain_from_lem (suc n) m prev [] e f = rw (drain_from, f) (refl, e)
  drain_from_lem (suc n) m prev ((p, v) ∷ es) e f =
      let here = laws.lookup_entry m [] es p v e in
      let (a, b) =
        drain_from_lem n (k.delete m p) (some p) es (laws.delete_first m es p v e)
          (next-delete m es p v e) in
      rw (drain_from, f, here) (ap (◌∷◌ (given (p, v))) a, b)

  visit_from_lem :
      (m : k.Map) (xs ys : List (k.Key × List ℕ)) (prev : Option k.Key)
      → laws.entries m ≡ xs ++ ys
      → k.next_key m prev ≡ first_key ys
      → visit_from k s (suc (length ys)) m prev ≡ some (map given ys)
  unfolding visit_from
  visit_from_lem m xs [] prev e f = rw (visit_from, f) refl
  visit_from_lem m xs ((p, v) ∷ ys) prev e f =
      let here = laws.lookup_entry m xs ys p v e in
      let rest =
        visit_from_lem m (xs ++ (p, v) ∷ []) ys (some p)
          (e ∙ sym (append_assoc xs ((p, v) ∷ []) ys)) (laws.next_present m xs ys p v e) in
      rw (visit_from, f, here) (ap (cons_all (given (p, v))) rest)

  wipe_from_lem :
      (n : ℕ) (m : k.Map) (prev : Option k.Key) (es : List (k.Key × List ℕ))
      → laws.entries m ≡ es
      → k.next_key m prev ≡ first_key es
      → laws.entries (wipe_from k s n m prev) ≡ drop n es
  unfolding wipe_from
  wipe_from_lem zero m prev es e f = e
  wipe_from_lem (suc n) m prev [] e f = rw (wipe_from, f) e
  wipe_from_lem (suc n) m prev ((p, v) ∷ es) e f =
      rw (wipe_from, f)
        (wipe_from_lem n (k.delete m p) (some p) es (laws.delete_first m es p v e)
          (next-delete m es p v e))

  -- One call of `Drain` hands the first 8192 entries to the callback, each once and in the order of
  -- the map, and leaves the rest in the map.
  pub drain_lem :
      (m : k.Map)
      → ((drain k s m).0 ≡ map given (take (max_iterations k s) (laws.entries m)))
        × (laws.entries (drain k s m).1 ≡ drop (max_iterations k s) (laws.entries m))
  unfolding drain
  drain_lem m = drain_from_lem (max_iterations k s) m none (laws.entries m) refl (laws.next_none m)

  -- One call of `Wipe` deletes the first 8192 entries and leaves the rest.
  pub wipe_lem :
      (m : k.Map) → laws.entries (wipe k s m) ≡ drop (max_iterations k s) (laws.entries m)
  unfolding wipe
  wipe_lem m = wipe_from_lem (max_iterations k s) m none (laws.entries m) refl (laws.next_none m)

  -- `ForEach` ends after one round more than the map has entries, and hands every entry to the
  -- callback, once and in the order of the map.
  pub for_each_lem :
      (m : k.Map)
      → s.valid ≡ true
      → for_each k s (suc (length (laws.entries m))) m ≡ some (map given (laws.entries m))
  unfolding for_each
  for_each_lem m h = rw h (visit_from_lem m [] (laws.entries m) none refl (laws.next_none m))
