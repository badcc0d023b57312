-- ===== src/Tests/Tables.antt =====
-- A table of two threads whose lines arrive in pieces, a thread whose name is not read
-- (src/collect/ebpf_manager.cpp), and the rows of their process (src/app.cpp).
use mathlib.Core.List.{Mem}
use mathlib.Core.List.Perm
use e_trace_diag.Prelude.{ℕ, List, [], ◌∷◌, ◌++◌, Option, some, none, ◌≡◌, refl, map, u64}
use e_trace_diag.ProcessTable.Rows.{
  row_of_a, TaskRow, LineA, LineB, LineC, set_b, set_c, Scanner, read_process_table,
}
use e_trace_diag.ProcessTable.Reading.{Task, text_of, row_of, AreRead, read_process_table-tasks}
use e_trace_diag.ProcessTable.Unread.{mixed, IsHalfRead, unread_line-overwrites}
use e_trace_diag.App.TopTasks.{build_top_tasks}
use e_trace_diag.App.TopEntries.{Summed, counter, total}
use e_trace_diag.App.TopSums.{build_top_tasks-row}

abbrev line_a : ℕ → LineA
line_a n = record {
  pid = n;
  tgid = 1;
  comm = 97 ∷ [];
  state = 0;
  start_time = 5;
  utime = 6;
  stime = 7;
  nvcsw = 8;
  nivcsw = 9;
  minflt = 10;
  majflt = 11;
}

abbrev line_b : ℕ → LineB
line_b n = record {
  pid = n;
  total_vm = 100;
  rchar = 1;
  wchar = 2;
  syscr = 3;
  syscw = 4;
  read_bytes = 5;
  write_bytes = 6;
  sum_exec_runtime_ns = 7;
  run_delay_ns = 8;
}

abbrev line_c : ℕ → LineC
line_c n = record {
  pid = n;
  rss_anon_pages = 3;
  rss_file_pages = 2;
  rss_shmem_pages = 1;
  swap_ents = 0;
}

-- A line of a tag and one character, which is the process id; a longer first line is not read.
abbrev scans_a : List ℕ → Option LineA
scans_a (tag ∷ n ∷ []) = some (line_a n)
scans_a _ = none

abbrev scans_b : List ℕ → Option LineB
scans_b (tag ∷ n ∷ rest) = some (line_b n)
scans_b _ = none

abbrev scans_c : List ℕ → Option LineC
scans_c (tag ∷ n ∷ rest) = some (line_c n)
scans_c _ = none

abbrev scanner : Scanner
scanner = record { scan_a = scans_a; scan_b = scans_b; scan_c = scans_c }

abbrev task : ℕ → Task
task n = record {
  text_a = n ∷ [];
  text_b = n ∷ [];
  text_c = n ∷ [];
  a = line_a n;
  b = line_b n;
  c = line_c n;
}

abbrev tasks : List Task
tasks = task 50 ∷ task 51 ∷ []

abbrev pieces : List (List ℕ)
pieces =
    (65 ∷ 50 ∷ 10 ∷ 66 ∷ [])
    ∷ (50 ∷ 10 ∷ 67 ∷ 50 ∷ 10 ∷ 65 ∷ [])
    ∷ (51 ∷ 10 ∷ 66 ∷ 51 ∷ 10 ∷ 67 ∷ 51 ∷ 10 ∷ [])
    ∷ []

tasks-AreRead : AreRead scanner tasks
tasks-AreRead = (
  record {
    line_a = (refl, tt);
    line_b = (refl, tt);
    line_c = (refl, tt);
    scans_a = refl;
    scans_b = refl;
    scans_c = refl;
  },
  (
    record {
      line_a = (refl, tt);
      line_b = (refl, tt);
      line_c = (refl, tt);
      scans_a = refl;
      scans_b = refl;
      scans_c = refl;
    },
    tt,
  ),
)

read_process_table-tasks_example : read_process_table scanner pieces ≡ map row_of tasks
read_process_table-tasks_example = read_process_table-tasks scanner tasks pieces tasks-AreRead refl

-- Thread 51, whose first line has a second character.
abbrev spaced : Task
spaced = record (task 51) { text_a = 51 ∷ 32 ∷ [] }

spaced-IsHalfRead : IsHalfRead scanner spaced
spaced-IsHalfRead = record {
  line_a = (refl, (refl, tt));
  line_b = (refl, tt);
  line_c = (refl, tt);
  scans_a = refl;
  scans_b = refl;
  scans_c = refl;
}

unread_line-overwrites_example :
    read_process_table scanner (text_of (task 50) (text_of spaced []) ∷ [])
    ≡ [] ++ mixed (task 50) spaced ∷ []
unread_line-overwrites_example =
    unread_line-overwrites scanner [] [] (task 50) spaced
      (text_of (task 50) (text_of spaced []) ∷ []) tt tasks-AreRead.0 spaced-IsHalfRead tt refl

build_top_tasks-row_example :
    (a : TaskRow) × Mem a (build_top_tasks (λ xs. xs) (map row_of tasks) (1 ∷ []))
    × (a.tgid ≡ 1)
    × ((k : Summed) → counter k a ≡ u64 (total k 1 (map row_of tasks)))
unfolding set_c set_b row_of_a
build_top_tasks-row_example =
    build_top_tasks-row (λ xs. xs) (map row_of tasks) (1 ∷ []) 1 (λ xs. Perm.refl xs) refl refl
