-- ===== src/ProcessTable/Unread.antt =====
-- What `ReadProcessTable` (src/collect/ebpf_manager.cpp) makes of a thread whose first line `sscanf`
-- does not read in full.
use e_trace_diag.Prelude.{
  ℕ, ◌+◌, ◌*◌, true, List, [], ◌∷◌, ◌++◌, some, none, ◌≡◌, refl, sym, ap, ◌∙◌, map, append_assoc,
  append-nil, ltb, u64,
}
use e_trace_diag.ProcessTable.Lines.{IsLine, joined, lines_from, read_lines-joined}
use e_trace_diag.ProcessTable.Rows.{
  TaskRow, row_of_a, set_b, set_c, Scanner, on_last, applied, apply_line, apply_lines,
  read_process_table,
}
use e_trace_diag.ProcessTable.Reading.{
  Task, text_of, text_of_all, row_of, on_last-snoc, lines_from-text, IsRead, AreRead,
  apply_line-task, lines_from-task, apply_lines-tasks,
}

-- The texts of threads in front of another text.
abbrev pub text_before : List Task → List ℕ → List ℕ
text_before [] rest = rest
text_before (t ∷ ts) rest = text_of t (text_before ts rest)

-- A row with the identity, the times, the switches and the faults of one thread, and the process
-- id, the memory, the I/O and the scheduler's times of another.
abbrev pub mixed : Task → Task → TaskRow
mixed r t =
    let pages = u64 (t.c.rss_anon_pages + t.c.rss_file_pages + t.c.rss_shmem_pages) in
    record {
      pid = t.c.pid;
      tgid = r.a.tgid;
      comm = r.a.comm;
      state = r.a.state;
      start_time = r.a.start_time;
      utime = r.a.utime;
      stime = r.a.stime;
      nvcsw = r.a.nvcsw;
      nivcsw = r.a.nivcsw;
      minflt = r.a.minflt;
      majflt = r.a.majflt;
      total_vm = t.b.total_vm;
      rchar = t.b.rchar;
      wchar = t.b.wchar;
      syscr = t.b.syscr;
      syscw = t.b.syscw;
      read_bytes = t.b.read_bytes;
      write_bytes = t.b.write_bytes;
      sum_exec_runtime_ns = t.b.sum_exec_runtime_ns;
      run_delay_ns = t.b.run_delay_ns;
      rss_anon_pages = t.c.rss_anon_pages;
      rss_file_pages = t.c.rss_file_pages;
      rss_shmem_pages = t.c.rss_shmem_pages;
      swap_ents = t.c.swap_ents;
      rss_kb = u64 (pages * 4);
      rss_valid = ltb 0 pages;
      ioac_valid = true;
      sched_valid = true;
    }

mixed-rows : (r t : Task) → set_c t.c (set_b t.b (row_of r)) ≡ mixed r t
unfolding row_of_a set_b set_c
mixed-rows r t = refl

module _ (s : Scanner) where
  -- The lines are lines, and `sscanf` reads the last two of them in full and the first not.
  pub record IsHalfRead (t : Task) : Type 0 where
    pub line_a : IsLine t.text_a
    pub line_b : IsLine t.text_b
    pub line_c : IsLine t.text_c
    pub scans_a : s.scan_a (65 ∷ t.text_a) ≡ none
    pub scans_b : s.scan_b (66 ∷ t.text_b) ≡ some t.b
    pub scans_c : s.scan_c (67 ∷ t.text_c) ≡ some t.c

  apply_lines-before :
      (ts : List Task) (rest : List ℕ) (rows : List TaskRow)
      → AreRead s ts
      → apply_lines s (lines_from [] (text_before ts rest)) rows
        ≡ apply_lines s (lines_from [] rest) (rows ++ map row_of ts)
  unfolding apply_lines
  apply_lines-before [] rest rows h =
      ap (apply_lines s (lines_from [] rest)) (sym (append-nil rows))
  apply_lines-before (t ∷ ts) rest rows (h, hs) =
      ap (λ ls. apply_lines s ls rows) (lines_from-task s t (text_before ts rest) h)
      ∙ ap (apply_lines s (lines_from [] (text_before ts rest))) (apply_line-task s t rows h)
      ∙ apply_lines-before ts rest (rows ++ row_of t ∷ []) hs
      ∙ ap (apply_lines s (lines_from [] rest)) (append_assoc rows (row_of t ∷ []) (map row_of ts))

  half_read-overwrites :
      (t : Task) (r : TaskRow) (rows : List TaskRow) (ls : List (List ℕ))
      → IsHalfRead t
      → apply_lines s ((65 ∷ t.text_a) ∷ (66 ∷ t.text_b) ∷ (67 ∷ t.text_c) ∷ ls) (rows ++ r ∷ [])
        ≡ apply_lines s ls (rows ++ set_c t.c (set_b t.b r) ∷ [])
  unfolding apply_lines apply_line
  half_read-overwrites t r rows ls h =
      rw (h.scans_a, h.scans_b, h.scans_c)
        (ap (apply_lines s ls) (
          ap (on_last (applied set_c (some t.c)))
            (on_last-snoc (applied set_b (some t.b)) rows r (set_b t.b r) refl)
          ∙ on_last-snoc (applied set_c (some t.c)) rows (set_b t.b r) (set_c t.c (set_b t.b r))
              refl))

  -- Let the iterator write three lines for every thread, and `sscanf` read them in full, but for the
  -- first line of one thread that is not the first of the table, as for a name with a space in it. In
  -- whatever pieces the text arrives, that thread has no row, and the row of the thread before it has
  -- its process id, memory, I/O and scheduler's times, beside its own group, name, state, CPU times,
  -- switches and faults. Every other row is as the lines say.
  pub unread_line-overwrites :
      (ts us : List Task) (r t : Task) (bufs : List (List ℕ))
      → AreRead s ts
      → IsRead s r
      → IsHalfRead t
      → AreRead s us
      → joined bufs ≡ text_before ts (text_of r (text_of t (text_of_all us)))
      → read_process_table s bufs ≡ map row_of ts ++ mixed r t ∷ map row_of us
  unfolding read_process_table apply_lines
  unread_line-overwrites ts us r t bufs hs h k ks e =
      ap (λ ls. apply_lines s ls []) (read_lines-joined [] bufs tt ∙ ap (lines_from []) e)
      ∙ apply_lines-before ts (text_of r (text_of t (text_of_all us))) [] hs
      ∙ ap (λ ls. apply_lines s ls rows) (lines_from-task s r (text_of t (text_of_all us)) h)
      ∙ ap (apply_lines s (lines_from [] (text_of t (text_of_all us)))) (apply_line-task s r rows h)
      ∙ ap (λ ls. apply_lines s ls (rows ++ row_of r ∷ []))
          (lines_from-text t (text_of_all us) k.line_a k.line_b k.line_c)
      ∙ half_read-overwrites t (row_of r) rows (lines_from [] (text_of_all us)) k
      ∙ ap (λ q. apply_lines s (lines_from [] (text_of_all us)) (rows ++ q ∷ [])) (mixed-rows r t)
      ∙ apply_lines-tasks s us (rows ++ mixed r t ∷ []) ks
      ∙ append_assoc rows (mixed r t ∷ []) (map row_of us)
    where
      rows : List TaskRow
      rows = map row_of ts
