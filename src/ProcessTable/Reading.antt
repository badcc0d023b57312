-- ===== src/ProcessTable/Reading.antt =====
-- That `ReadProcessTable` (src/collect/ebpf_manager.cpp) reads what the iterator wrote.
use e_trace_diag.Prelude.{
  ℕ, List, [], ◌∷◌, ◌++◌, Option, some, ◌≡◌, refl, sym, ap, ◌∙◌, map, append_assoc, append-nil,
}
use e_trace_diag.ProcessTable.Lines.{
  newline, IsLine, joined, lines_from, read_lines-joined, lines_from-ended,
}
use e_trace_diag.ProcessTable.Rows.{
  LineA, LineB, LineC, TaskRow, row_of_a, set_b, set_c, Scanner, on_last, applied, apply_line,
  apply_lines, read_process_table,
}

-- The three lines of a thread, after their tags, and the values in them.
pub record Task : Type 0 where
  pub text_a : List ℕ
  pub text_b : List ℕ
  pub text_c : List ℕ
  pub a : LineA
  pub b : LineB
  pub c : LineC

-- What the iterator writes for a thread.
abbrev pub text_of : Task → List ℕ → List ℕ
text_of t rest =
    (65 ∷ t.text_a) ++ newline ∷ ((66 ∷ t.text_b) ++ newline ∷ ((67 ∷ t.text_c) ++ newline ∷ rest))

abbrev pub text_of_all : List Task → List ℕ
text_of_all [] = []
text_of_all (t ∷ ts) = text_of t (text_of_all ts)

abbrev pub row_of : Task → TaskRow
row_of t = set_c t.c (set_b t.b (row_of_a t.a))

pub on_last-snoc :
    (f : TaskRow → Option TaskRow) (rows : List TaskRow) (r q : TaskRow)
    → f r ≡ some q
    → on_last f (rows ++ r ∷ []) ≡ rows ++ q ∷ []
unfolding on_last
on_last-snoc f [] r q e = rw e refl
on_last-snoc f (x ∷ []) r q e = rw e refl
on_last-snoc f (x ∷ y ∷ rows) r q e = ap (◌∷◌ x) (on_last-snoc f (y ∷ rows) r q e)

pub lines_from-text :
    (t : Task) (rest : List ℕ)
    → IsLine t.text_a
    → IsLine t.text_b
    → IsLine t.text_c
    → lines_from [] (text_of t rest)
      ≡ (65 ∷ t.text_a) ∷ (66 ∷ t.text_b) ∷ (67 ∷ t.text_c) ∷ lines_from [] rest
lines_from-text t rest a b c =
    lines_from-ended (65 ∷ t.text_a)
      ((66 ∷ t.text_b) ++ newline ∷ ((67 ∷ t.text_c) ++ newline ∷ rest)) (refl, a)
    ∙ ap (◌∷◌ (65 ∷ t.text_a)) (
        lines_from-ended (66 ∷ t.text_b) ((67 ∷ t.text_c) ++ newline ∷ rest) (refl, b)
        ∙ ap (◌∷◌ (66 ∷ t.text_b)) (lines_from-ended (67 ∷ t.text_c) rest (refl, c)))

module _ (s : Scanner) where
  -- The lines are lines, and `sscanf` reads the values in them.
  pub record IsRead (t : Task) : Type 0 where
    pub line_a : IsLine t.text_a
    pub line_b : IsLine t.text_b
    pub line_c : IsLine t.text_c
    pub scans_a : s.scan_a (65 ∷ t.text_a) ≡ some t.a
    pub scans_b : s.scan_b (66 ∷ t.text_b) ≡ some t.b
    pub scans_c : s.scan_c (67 ∷ t.text_c) ≡ some t.c

  abbrev pub AreRead : List Task → Type 0
  AreRead [] = Unit {0}
  AreRead (t ∷ ts) = IsRead t × AreRead ts

  pub apply_line-task :
      (t : Task) (rows : List TaskRow)
      → IsRead t
      → apply_line s
          (67 ∷ t.text_c)
          (apply_line s (66 ∷ t.text_b) (apply_line s (65 ∷ t.text_a) rows))
        ≡ rows ++ row_of t ∷ []
  unfolding apply_line
  apply_line-task t rows h =
      rw (h.scans_a, h.scans_b, h.scans_c)
        (ap (on_last (applied set_c (some t.c))) (
            on_last-snoc (applied set_b (some t.b)) rows (row_of_a t.a) (set_b t.b (row_of_a t.a))
              refl)
          ∙ on_last-snoc (applied set_c (some t.c)) rows (set_b t.b (row_of_a t.a)) (row_of t) refl)

  pub lines_from-task :
      (t : Task) (rest : List ℕ)
      → IsRead t
      → lines_from [] (text_of t rest)
        ≡ (65 ∷ t.text_a) ∷ (66 ∷ t.text_b) ∷ (67 ∷ t.text_c) ∷ lines_from [] rest
  lines_from-task t rest h = lines_from-text t rest h.line_a h.line_b h.line_c

  pub apply_lines-tasks :
      (ts : List Task) (rows : List TaskRow)
      → AreRead ts
      → apply_lines s (lines_from [] (text_of_all ts)) rows ≡ rows ++ map row_of ts
  unfolding apply_lines lines_from
  apply_lines-tasks [] rows h = sym (append-nil rows)
  apply_lines-tasks (t ∷ ts) rows (h, hs) =
      ap (λ ls. apply_lines s ls rows) (lines_from-task t (text_of_all ts) h)
      ∙ ap (apply_lines s (lines_from [] (text_of_all ts))) (apply_line-task t rows h)
      ∙ apply_lines-tasks ts (rows ++ row_of t ∷ []) hs
      ∙ append_assoc rows (row_of t ∷ []) (map row_of ts)

  -- Let the iterator write three lines for every thread, without a line end inside a line, which
  -- `sscanf` reads in full. In whatever pieces the text arrives, the table has one row for each
  -- thread, in their order, with the values of its lines.
  pub read_process_table-tasks :
      (ts : List Task) (bufs : List (List ℕ))
      → AreRead ts
      → joined bufs ≡ text_of_all ts
      → read_process_table s bufs ≡ map row_of ts
  unfolding read_process_table
  read_process_table-tasks ts bufs h e =
      ap (λ ls. apply_lines s ls []) (read_lines-joined [] bufs tt ∙ ap (lines_from []) e)
      ∙ apply_lines-tasks ts [] h
