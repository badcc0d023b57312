-- ===== src/App/TopTasks.antt =====
-- `BuildTopTasks` (src/app.cpp): one row for each selected process, from the rows of its threads.
-- The order in which the map is iterated and `std::sort` are one parameter.
use e_trace_diag.Prelude.{ℕ, ◌+◌, false, List, [], ◌∷◌, ◌==◌, if◌then◌else◌, take, u64}
use e_trace_diag.Selector.Maps.{find_or, store, has}
use e_trace_diag.ProcessTable.Rows.{TaskRow, row_of_a}

-- `ProcessRow` as it is constructed.
unfoldable pub zero_row : TaskRow
unfolding row_of_a
zero_row =
    record (row_of_a (record {
      pid = 0;
      tgid = 0;
      comm = [];
      state = 0;
      start_time = 0;
      utime = 0;
      stime = 0;
      nvcsw = 0;
      nivcsw = 0;
      minflt = 0;
      majflt = 0;
    })) { ioac_valid = false; sched_valid = false }

-- `r.tgid ? r.tgid : r.pid`.
abbrev pub process : TaskRow → ℕ
process r = if r.tgid == 0 then r.pid else r.tgid

-- The first thread of a process gives the row its values.
unfoldable pub identify : ℕ → TaskRow → TaskRow → TaskRow
identify g r a =
    if a.tgid == 0
    then record a {
      tgid = g;
      pid = g;
      state = r.state;
      start_time = r.start_time;
      rss_valid = r.rss_valid;
      rss_kb = r.rss_kb;
    }
    else a

-- The main thread gives it its name.
unfoldable pub keep_comm : ℕ → TaskRow → TaskRow → TaskRow
keep_comm g r a = if r.pid == g then record a { comm = take 15 r.comm } else a

unfoldable pub add_task : TaskRow → TaskRow → TaskRow
add_task r a = record a {
  utime = u64 (a.utime + r.utime);
  stime = u64 (a.stime + r.stime);
  nvcsw = u64 (a.nvcsw + r.nvcsw);
  nivcsw = u64 (a.nivcsw + r.nivcsw);
  minflt = u64 (a.minflt + r.minflt);
  majflt = u64 (a.majflt + r.majflt);
  total_vm = u64 (a.total_vm + r.total_vm);
}

module _ (procs : List ℕ) where
  unfoldable pub gather_one : TaskRow → List (ℕ × TaskRow) → List (ℕ × TaskRow)
  unfolding zero_row identify keep_comm add_task find_or store
  gather_one r agg =
      let g = process r in
      if has g procs
      then store g (add_task r (keep_comm g r (identify g r (find_or zero_row g agg)))) agg
      else agg

  unfoldable pub gather : List TaskRow → List (ℕ × TaskRow) → List (ℕ × TaskRow)
  unfolding gather_one
  gather [] agg = agg
  gather (r ∷ rows) agg = gather rows (gather_one r agg)

abbrev pub values : List (ℕ × TaskRow) → List TaskRow
values [] = []
values ((g, a) ∷ agg) = a ∷ values agg

-- The comparison's key is `utime + stime`.
unfoldable pub build_top_tasks :
    (List TaskRow → List TaskRow) → List TaskRow → List ℕ → List TaskRow
unfolding gather
build_top_tasks sort table procs = sort (values (gather procs table []))
