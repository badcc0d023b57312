-- ===== src/Ws/Reader.antt =====
-- `ReadExact` of src/model/ws_client.cpp over a socket, and what it means for a reader to read
-- bytes however the network has cut them into pieces.
use e_trace_diag.Prelude.{
  ℕ, ◌-◌, ◌≤◌, ◌<◌, List, [], ◌∷◌, ◌++◌, append_assoc, Option, some, none, ◌≡◌, refl, ap, sym, ◌∙◌,
  subst, arith, leb, if◌then◌else◌, take, drop, length, Bool-cases, inl, inr, leb→le, length-append,
  take-append, drop-append,
}

-- What the socket has to give: the pieces in which the bytes arrive. Past the last piece a wait times
-- out; an empty piece is an orderly shutdown, `recv` returning 0.
abbrev pub Pieces : Type 0
Pieces = List (List ℕ)

abbrev pub Read : Type 0 → Type 0
Read A = Pieces → Option (A × Pieces)

infixl 5 ◌>>=◌
abbrev pub ◌>>=◌ : {A B : Type 0} → Read A → (A → Read B) → Read B
◌>>=◌ m f s = elim (m s) [ none ↦ none | some (a, s') ↦ f a s' ]

abbrev pub return : {A : Type 0} → A → Read A
return a s = some (a, s)

abbrev pub fail : {A : Type 0} → Read A
fail s = none

-- The bytes of a piece in front of what the rest of a loop reads.
abbrev pub prepend : List ℕ → Option (List ℕ × Pieces) → Option (List ℕ × Pieces)
prepend bs none = none
prepend bs (some (cs, s)) = some (bs ++ cs, s)

-- The loop `while (got < n)`: `n` is what is still to come. One `recv` takes what a piece holds, at
-- most the bytes asked for; the rest of the piece stays.
unfoldable pub read_exact : ℕ → Read (List ℕ)
read_exact n [] = if leb n 0 then some ([], []) else none
read_exact n ([] ∷ s) = if leb n 0 then some ([], [] ∷ s) else none
read_exact n ((b ∷ bs) ∷ s) =
    let more = prepend (b ∷ bs) (read_exact (n - length (b ∷ bs)) s) in
    if leb n 0
    then some ([], (b ∷ bs) ∷ s)
    else if leb (length (b ∷ bs)) n
    then more
    else some (take n (b ∷ bs), drop n (b ∷ bs) ∷ s)

-- The bytes of the pieces, in order.
abbrev pub joined : Pieces → List ℕ
joined [] = []
joined (bs ∷ s) = bs ++ joined s

-- No shutdown comes before the last byte.
abbrev pub IsOpen : Pieces → Type 0
IsOpen [] = Unit {0}
IsOpen ([] ∷ s) = ⊥
IsOpen ((b ∷ bs) ∷ s) = IsOpen s

-- The reader takes exactly these bytes off an open socket, with this result, whatever the pieces.
abbrev pub Reads : {A : Type 0} → Read A → List ℕ → A → Type 0
Reads m bs a =
    (s : Pieces) (rest : List ℕ)
    → IsOpen s
    → joined s ≡ bs ++ rest
    → (s' : Pieces) × (m s ≡ some (a, s')) × IsOpen s' × (joined s' ≡ rest)

pub Reads-return : {A : Type 0} (a : A) → Reads (return a) [] a
Reads-return a s rest o e = (s, refl, o, e)

pub Reads-bind :
    {A B : Type 0} (m : Read A) (f : A → Read B) (bs cs : List ℕ) (a : A) (b : B)
    → Reads m bs a
    → Reads (f a) cs b
    → Reads (m >>= f) (bs ++ cs) b
Reads-bind m f bs cs a b hm hf s rest o e =
    let (s', r, o', e') = hm s (cs ++ rest) o (e ∙ append_assoc bs cs rest) in
    let (s'', r', o'', e'') = hf s' rest o' e' in (s'', rw (r, ◌>>=◌) r', o'', e'')

-- Two ways to cut one list: the shorter front is a front of the longer.
cut_front :
    (xs ys bs rest : List ℕ)
    → length xs ≤ length bs
    → xs ++ ys ≡ bs ++ rest
    → (m : List ℕ) × (bs ≡ xs ++ m) × (ys ≡ m ++ rest)
cut_front [] ys bs rest h e = (bs, refl, e)
cut_front (x ∷ xs) ys [] rest h e = absurd (omega arith)
cut_front (x ∷ xs) ys (b ∷ bs) rest h e =
    let (m, p, q) = cut_front xs ys bs rest (omega arith) (cc) in (m, cc, q)

-- The rest of a piece of which only a front was read.
keep_rest : (m : List ℕ) (s : Pieces) → 0 < length m → IsOpen s → IsOpen (m ∷ s)
keep_rest [] s h o = absurd (omega arith)
keep_rest (b ∷ bs) s h o = o

read_front :
    (piece : List ℕ) (s : Pieces) (n : ℕ) (bs rest : List ℕ)
    → IsOpen s
    → length bs ≡ n
    → n < length piece
    → piece ++ joined s ≡ bs ++ rest
    → (take n piece ≡ bs) × IsOpen (drop n piece ∷ s) × (joined (drop n piece ∷ s) ≡ rest)
read_front piece s n bs rest o l h e =
    let (m, p, q) = cut_front bs rest piece (joined s) (omega arith) (sym e) in
    let t : take n piece ≡ bs =
      ap (λ k. take k piece) (sym l) ∙ ap (take (length bs)) p ∙ take-append bs m in
    let d : drop n piece ≡ m =
      ap (λ k. drop k piece) (sym l) ∙ ap (drop (length bs)) p ∙ drop-append bs m in
    (
      t,
      subst (λ y. IsOpen (y ∷ s)) (sym d)
          (keep_rest m s (omega (arith, ap length p, length-append bs m)) o),
      rw d (sym q),
    )

read_pieces :
    (s : Pieces) (n : ℕ) (bs rest : List ℕ)
    → length bs ≡ n
    → IsOpen s
    → joined s ≡ bs ++ rest
    → (s' : Pieces) × (read_exact n s ≡ some (bs, s')) × IsOpen s' × (joined s' ≡ rest)
unfolding read_exact
read_pieces [] n [] rest l o e = ([], ground arith, tt, e)
read_pieces [] n (b ∷ bs) rest l o e = cc
read_pieces ([] ∷ s) n bs rest l o e = absurd o
read_pieces ((x ∷ xs) ∷ s) n [] rest l o e = ((x ∷ xs) ∷ s, ground arith, o, e)
read_pieces ((x ∷ xs) ∷ s) n (b ∷ bs) rest l o e = elim (Bool-cases (leb (length (x ∷ xs)) n)) [
  | inl fits ↦
      let (m, p, q) =
        cut_front (x ∷ xs) (joined s) (b ∷ bs) rest (omega (arith, leb→le _ _ fits)) e in
      let (s', r, o', e') =
        read_pieces s (n - length (x ∷ xs)) m rest
          (omega (arith, ap length p, length-append (x ∷ xs) m)) o q in
      (s', ground (arith, r, p), o', e')
  | inr over ↦
      let (t, o', e') = read_front (x ∷ xs) s n (b ∷ bs) rest o l (ground arith) e in
      (drop n (x ∷ xs) ∷ s, ground (arith, t), o', e')
]

-- `ReadExact` reads any bytes of the length asked for.
pub read_exact-Reads : (n : ℕ) (bs : List ℕ) → length bs ≡ n → Reads (read_exact n) bs bs
read_exact-Reads n bs l s rest o e = read_pieces s n bs rest l o e
