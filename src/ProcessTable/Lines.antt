-- ===== src/ProcessTable/Lines.antt =====
-- The lines of the text that `ReadProcessTable` (src/collect/ebpf_manager.cpp) reads in pieces. A
-- character is a number.
use e_trace_diag.Prelude.{
  ℕ, false, List, [], ◌∷◌, ◌++◌, ◌==◌, if◌then◌else◌, ◌≡◌, refl, sym, ap, ◌∙◌, append_assoc,
  append-nil, All, Bool-cases, inl, inr,
}

abbrev pub newline : ℕ
newline = 10

-- The loop over the lines of `leftover`: the lines that end, the latest character of the current
-- line last.
unfoldable pub lines_from : List ℕ → List ℕ → List (List ℕ)
lines_from line [] = []
lines_from line (c ∷ cs) =
    let ended = line ∷ lines_from [] cs in
    let goes_on = lines_from (line ++ c ∷ []) cs in if c == newline then ended else goes_on

-- What is left after the last line that ends.
unfoldable pub left_from : List ℕ → List ℕ → List ℕ
left_from line [] = line
left_from line (c ∷ cs) =
    let ended = left_from [] cs in
    let goes_on = left_from (line ++ c ∷ []) cs in if c == newline then ended else goes_on

-- The lines of all that `read` delivers, in its pieces. A piece is the text up to its first byte 0,
-- as `leftover += buf` takes it.
unfoldable pub read_lines : List ℕ → List (List ℕ) → List (List ℕ)
unfolding lines_from left_from
read_lines leftover [] = []
read_lines leftover (buf ∷ bufs) =
    lines_from [] (leftover ++ buf) ++ read_lines (left_from [] (leftover ++ buf)) bufs

abbrev pub joined : List (List ℕ) → List ℕ
joined [] = []
joined (buf ∷ bufs) = buf ++ joined bufs

lines_from-append :
    (line xs ys : List ℕ)
    → lines_from line (xs ++ ys) ≡ lines_from line xs ++ lines_from (left_from line xs) ys
unfolding lines_from left_from
lines_from-append line [] ys = refl
lines_from-append line (c ∷ cs) ys = elim (Bool-cases (c == newline)) [
  | inl e ↦ rw e (ap (◌∷◌ line) (lines_from-append [] cs ys))
  | inr e ↦ rw e (lines_from-append (line ++ c ∷ []) cs ys)
]

-- A text without a line end only adds to the line.
abbrev pub IsLine : List ℕ → Type 0
IsLine l = All (λ c. (c == newline) ≡ false) l

lines_from-IsLine :
    (line l ys : List ℕ) → IsLine l → lines_from line (l ++ ys) ≡ lines_from (line ++ l) ys
unfolding lines_from
lines_from-IsLine line [] ys h = ap (λ k. lines_from k ys) (sym (append-nil line))
lines_from-IsLine line (c ∷ cs) ys (n, h) = rw n (
    lines_from-IsLine (line ++ c ∷ []) cs ys h
    ∙ ap (λ k. lines_from k ys) (append_assoc line (c ∷ []) cs))

All-snoc : (l : List ℕ) (c : ℕ) → IsLine l → (c == newline) ≡ false → IsLine (l ++ c ∷ [])
All-snoc [] c h e = (e, tt)
All-snoc (x ∷ xs) c (p, h) e = (p, All-snoc xs c h e)

left_from-IsLine : (line xs : List ℕ) → IsLine line → IsLine (left_from line xs)
unfolding left_from
left_from-IsLine line [] h = h
left_from-IsLine line (c ∷ cs) h = elim (Bool-cases (c == newline)) [
  | inl e ↦ rw e (left_from-IsLine [] cs tt)
  | inr e ↦ rw e (left_from-IsLine (line ++ c ∷ []) cs (All-snoc line c h e))
]

lines_from-empty : (line : List ℕ) → lines_from line [] ≡ []
unfolding lines_from
lines_from-empty line = refl

-- The pieces in which the text arrives make no difference.
pub read_lines-joined :
    (leftover : List ℕ) (bufs : List (List ℕ))
    → IsLine leftover
    → read_lines leftover bufs ≡ lines_from [] (leftover ++ joined bufs)
unfolding read_lines
read_lines-joined leftover [] h =
    sym (lines_from-IsLine [] leftover [] h ∙ lines_from-empty leftover)
read_lines-joined leftover (buf ∷ bufs) h =
    let text = leftover ++ buf in
    let left = left_from [] text in
    let kept = left_from-IsLine [] text tt in
    ap (λ ls. lines_from [] text ++ ls)
      (read_lines-joined left bufs kept ∙ lines_from-IsLine [] left (joined bufs) kept)
    ∙ sym (lines_from-append [] text (joined bufs))
    ∙ ap (lines_from []) (append_assoc leftover buf (joined bufs))

-- A line that ends comes first.
pub lines_from-ended :
    (l ys : List ℕ) → IsLine l → lines_from [] (l ++ newline ∷ ys) ≡ l ∷ lines_from [] ys
unfolding lines_from
lines_from-ended l ys h = lines_from-IsLine [] l (newline ∷ ys) h
