-- ===== src/ProcessTable/Rows.antt =====
-- The rows that `ReadProcessTable` (src/collect/ebpf_manager.cpp) makes of the lines. What `sscanf`
-- reads in a line is a parameter: the values, if it reads all of them.
use e_trace_diag.Prelude.{
  ℕ, ◌+◌, ◌*◌, Bool, true, false, List, [], ◌∷◌, ◌++◌, Option, some, none, ◌==◌, ltb, if◌then◌else◌,
  u64,
}
use e_trace_diag.ProcessTable.Lines.{read_lines}

-- The values of the three lines of a thread, in their order.
pub record LineA : Type 0 where
  pub pid : ℕ
  pub tgid : ℕ
  pub comm : List ℕ
  pub state : ℕ
  pub start_time : ℕ
  pub utime : ℕ
  pub stime : ℕ
  pub nvcsw : ℕ
  pub nivcsw : ℕ
  pub minflt : ℕ
  pub majflt : ℕ

pub record LineB : Type 0 where
  pub pid : ℕ
  pub total_vm : ℕ
  pub rchar : ℕ
  pub wchar : ℕ
  pub syscr : ℕ
  pub syscw : ℕ
  pub read_bytes : ℕ
  pub write_bytes : ℕ
  pub sum_exec_runtime_ns : ℕ
  pub run_delay_ns : ℕ

pub record LineC : Type 0 where
  pub pid : ℕ
  pub rss_anon_pages : ℕ
  pub rss_file_pages : ℕ
  pub rss_shmem_pages : ℕ
  pub swap_ents : ℕ

-- `ProcessRow`: the values of the lines, of which `pid` is that of the last line read.
pub record TaskRow : Type 0 where
  pub pid : ℕ
  pub tgid : ℕ
  pub comm : List ℕ
  pub state : ℕ
  pub start_time : ℕ
  pub utime : ℕ
  pub stime : ℕ
  pub nvcsw : ℕ
  pub nivcsw : ℕ
  pub minflt : ℕ
  pub majflt : ℕ
  pub total_vm : ℕ
  pub rchar : ℕ
  pub wchar : ℕ
  pub syscr : ℕ
  pub syscw : ℕ
  pub read_bytes : ℕ
  pub write_bytes : ℕ
  pub sum_exec_runtime_ns : ℕ
  pub run_delay_ns : ℕ
  pub rss_anon_pages : ℕ
  pub rss_file_pages : ℕ
  pub rss_shmem_pages : ℕ
  pub swap_ents : ℕ
  pub rss_kb : ℕ
  pub rss_valid : Bool
  pub ioac_valid : Bool
  pub sched_valid : Bool

unfoldable pub row_of_a : LineA → TaskRow
row_of_a a = record {
  pid = a.pid;
  tgid = a.tgid;
  comm = a.comm;
  state = a.state;
  start_time = a.start_time;
  utime = a.utime;
  stime = a.stime;
  nvcsw = a.nvcsw;
  nivcsw = a.nivcsw;
  minflt = a.minflt;
  majflt = a.majflt;
  total_vm = 0;
  rchar = 0;
  wchar = 0;
  syscr = 0;
  syscw = 0;
  read_bytes = 0;
  write_bytes = 0;
  sum_exec_runtime_ns = 0;
  run_delay_ns = 0;
  rss_anon_pages = 0;
  rss_file_pages = 0;
  rss_shmem_pages = 0;
  swap_ents = 0;
  rss_kb = 0;
  rss_valid = false;
  ioac_valid = true;
  sched_valid = true;
}

unfoldable pub set_b : LineB → TaskRow → TaskRow
set_b b r = record r {
  pid = b.pid;
  total_vm = b.total_vm;
  rchar = b.rchar;
  wchar = b.wchar;
  syscr = b.syscr;
  syscw = b.syscw;
  read_bytes = b.read_bytes;
  write_bytes = b.write_bytes;
  sum_exec_runtime_ns = b.sum_exec_runtime_ns;
  run_delay_ns = b.run_delay_ns;
}

unfoldable pub set_c : LineC → TaskRow → TaskRow
set_c c r =
    let pages = u64 (c.rss_anon_pages + c.rss_file_pages + c.rss_shmem_pages) in
    record r {
      pid = c.pid;
      rss_anon_pages = c.rss_anon_pages;
      rss_file_pages = c.rss_file_pages;
      rss_shmem_pages = c.rss_shmem_pages;
      swap_ents = c.swap_ents;
      rss_kb = u64 (pages * 4);
      rss_valid = ltb 0 pages;
    }

-- `sscanf` with the formats of the three lines.
pub record Scanner : Type 0 where
  pub scan_a : List ℕ → Option LineA
  pub scan_b : List ℕ → Option LineB
  pub scan_c : List ℕ → Option LineC

-- A change of `out.back()`: the row goes where there is none.
unfoldable pub on_last : (TaskRow → Option TaskRow) → List TaskRow → List TaskRow
on_last f [] = []
on_last f (r ∷ []) = elim (f r) [ none ↦ [] | some q ↦ q ∷ [] ]
on_last f (r ∷ q ∷ rows) = r ∷ on_last f (q ∷ rows)

abbrev pub applied {ℓ} :
    {A : Type ℓ} → (A → TaskRow → TaskRow) → Option A → TaskRow → Option TaskRow
applied f none r = none
applied f (some a) r = some (f a r)

module _ (s : Scanner) where
  -- The tags are 'A', 'B' and 'C'.
  unfoldable pub apply_line : List ℕ → List TaskRow → List TaskRow
  unfolding row_of_a set_b set_c on_last
  apply_line [] rows = rows
  apply_line (tag ∷ cs) rows =
      let line = tag ∷ cs in
      if tag == 65
      then elim (s.scan_a line) [ none ↦ rows | some a ↦ rows ++ row_of_a a ∷ [] ]
      else if tag == 66
      then on_last (applied set_b (s.scan_b line)) rows
      else if tag == 67
      then on_last (applied set_c (s.scan_c line)) rows
      else rows

  unfoldable pub apply_lines : List (List ℕ) → List TaskRow → List TaskRow
  unfolding apply_line
  apply_lines [] rows = rows
  apply_lines (l ∷ ls) rows = apply_lines ls (apply_line l rows)

  -- The rows, of the pieces that `read` delivers from the iterator.
  unfoldable pub read_process_table : List (List ℕ) → List TaskRow
  unfolding apply_lines read_lines
  read_process_table bufs = apply_lines (read_lines [] bufs) []
