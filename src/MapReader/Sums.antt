-- ===== src/MapReader/Sums.antt =====
-- When the sum over the processors of `LookupPercpuSum`, `ForEach` and `Drain`
-- (src/collect/map_reader.cpp), which adds byte by byte, is the sum of the values.
use e_trace_diag.Prelude.{
  ℕ, suc, ◌+◌, ◌*◌, ◌≤◌, ◌<◌, ◌≡◌, ◌↔◌, refl, sym, ap, subst, List, [], ◌∷◌, arith, length, All,
}
use e_trace_diag.MapReader.Slice.{add_bytes, sum_values}

-- The number that a little-endian machine reads in the bytes.
abbrev pub little_endian : List ℕ → ℕ
little_endian [] = 0
little_endian (b ∷ bs) = b + 256 * little_endian bs

-- No byte of the sum carries.
abbrev pub NoCarry : List ℕ → List ℕ → Type 0
NoCarry [] ys = Unit {0}
NoCarry (x ∷ xs) [] = Unit {0}
NoCarry (x ∷ xs) (y ∷ ys) = (x + y < 256) × NoCarry xs ys

add_bytes_le :
    (xs ys : List ℕ) → little_endian (add_bytes xs ys) ≤ little_endian xs + little_endian ys
unfolding add_bytes
add_bytes_le [] ys = omega arith
add_bytes_le (x ∷ xs) [] = omega arith
add_bytes_le (x ∷ xs) (y ∷ ys) = omega (arith, add_bytes_le xs ys)

add_bytes_iff :
    (xs ys : List ℕ)
    → length xs ≡ length ys
    → (little_endian (add_bytes xs ys) ≡ little_endian xs + little_endian ys) ↔ NoCarry xs ys
unfolding add_bytes
add_bytes_iff [] [] h = (λ e. tt, λ e. refl)
add_bytes_iff [] (y ∷ ys) h = absurd (omega (arith, h))
add_bytes_iff (x ∷ xs) [] h = absurd (omega (arith, h))
add_bytes_iff (x ∷ xs) (y ∷ ys) h =
    let (f, g) = add_bytes_iff xs ys (omega (arith, h)) in
    (
      λ e. (omega (arith, e, add_bytes_le xs ys), f (omega (arith, e, add_bytes_le xs ys))),
      λ (a, b). omega (arith, a, g b),
    )

add_bytes-length : (xs ys : List ℕ) → length (add_bytes xs ys) ≡ length xs
unfolding add_bytes
add_bytes-length [] ys = refl
add_bytes-length (x ∷ xs) [] = refl
add_bytes-length (x ∷ xs) (y ∷ ys) = ap suc (add_bytes-length xs ys)

-- The sum of the numbers.
abbrev pub sum_of : List (List ℕ) → ℕ
sum_of [] = 0
sum_of (v ∷ vs) = little_endian v + sum_of vs

-- No byte of the running sum carries.
abbrev pub NoCarries : List ℕ → List (List ℕ) → Type 0
NoCarries dst [] = Unit {0}
NoCarries dst (v ∷ vs) = NoCarry dst v × NoCarries (add_bytes dst v) vs

sum_values_le :
    (dst : List ℕ) (vs : List (List ℕ))
    → little_endian (sum_values dst vs) ≤ little_endian dst + sum_of vs
unfolding sum_values
sum_values_le dst [] = omega arith
sum_values_le dst (v ∷ vs) = omega (arith, sum_values_le (add_bytes dst v) vs, add_bytes_le dst v)

-- The sum over processors, of values as long as the buffer, is the sum of the numbers that the
-- values stand for exactly when no byte of the running sum carries: a carry is lost.
pub sum_values_iff :
    (dst : List ℕ) (vs : List (List ℕ))
    → All (λ v. length v ≡ length dst) vs
    → (little_endian (sum_values dst vs) ≡ little_endian dst + sum_of vs) ↔ NoCarries dst vs
unfolding sum_values
sum_values_iff dst [] h = (λ e. tt, λ e. omega arith)
sum_values_iff dst (v ∷ vs) (l, h) =
    let (f, g) = add_bytes_iff dst v (sym l) in
    let (f2, g2) =
      sum_values_iff (add_bytes dst v) vs
        (subst (λ n. All (λ w. length w ≡ n) vs) (sym (add_bytes-length dst v)) h) in
    let bound = sum_values_le (add_bytes dst v) vs in
    let bound2 = add_bytes_le dst v in
    (
      λ e. (f (omega (arith, e, bound, bound2)), f2 (omega (arith, e, bound, bound2))),
      λ (a, b). omega (arith, g a, g2 b),
    )
