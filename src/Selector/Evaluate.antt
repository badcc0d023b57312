-- ===== src/Selector/Evaluate.antt =====
-- The state of `TargetSelector`, its step 3 and 10, and `Evaluate` (src/collect/target_selector.cpp).
use e_trace_diag.Prelude.{
  ℕ, suc, Bool, true, false, not, ◌&&◌, List, [], ◌∷◌, ◌++◌, ltb, if◌then◌else◌, length, sub64,
  seconds_ns,
}
use e_trace_diag.Prelude.Float.{Float}
use e_trace_diag.Config.{Config, TargetsTunables}
use e_trace_diag.Selector.Maps.{find_or, store, keys, has, include}
use e_trace_diag.Selector.Counters.{
  ProcessRow, Counters, KernelMaps, tid2tgid, tgid_of, read_all, thread_deltas, thread_scores,
  aggregate, process_scores, window_length,
}
use e_trace_diag.Selector.Hysteresis.{
  ProcState, ensure_states, note_ranks, leave_list, join_list, process_budget, leave_all,
  count_members, join_all,
}
use e_trace_diag.Selector.Desired.{threads_by_proc, pick_threads, fall_back}

pub record Snapshot : Type 0 where
  pub ts_ns : ℕ
  pub c : List (ℕ × Counters)

pub record TargetSelector : Type 0 where
  pub thread_budget : ℕ
  pub pstate : List (ℕ × ProcState)
  pub pinned : List ℕ
  pub members : List ℕ
  pub procs : List ℕ
  pub history : List Snapshot  -- the oldest first
  pub start_time : List (ℕ × ℕ)

-- What `Evaluate` tells the kernel's map `targets`, the writer and the log.
pub data TargetsEvent (Double : Type 0) : Type 0 where
  join_event : ℕ → ℕ → Double → ℕ → TargetsEvent Double
  leave_event : ℕ → ℕ → TargetsEvent Double

-- Step 3: the snapshots are dropped from the front while there are more than two and the first is
-- older than the window.
unfoldable pub slide : ℕ → ℕ → List Snapshot → List Snapshot
slide window_ns now_ns [] = []
slide window_ns now_ns (s ∷ ss) =
    let rest = slide window_ns now_ns ss in
    if ltb 2 (length (s ∷ ss)) && ltb window_ns (sub64 now_ns s.ts_ns) then rest else s ∷ ss

-- `rank`, from the sorted scores.
unfoldable pub ranks : {Double : Type 0} → ℕ → List (ℕ × Double) → List (ℕ × ℕ) → List (ℕ × ℕ)
unfolding store
ranks i [] m = m
ranks i ((tgid, score) ∷ scores) m = ranks (suc i) scores (store tgid i m)

unfoldable pub start_times : List ProcessRow → List (ℕ × ℕ) → List (ℕ × ℕ)
unfolding store
start_times [] m = m
start_times (r ∷ rows) m = start_times rows (store r.pid r.start_time m)

-- Step 10: a thread that is a member and not desired leaves, one that is desired and no member
-- joins.
unfoldable pub leave_events :
    {Double : Type 0} → List (ℕ × ℕ) → List (ℕ × ℕ) → List ℕ → List ℕ → List (TargetsEvent Double)
unfolding find_or tgid_of
leave_events tgids rank desired [] = []
leave_events tgids rank desired (tid ∷ members) =
    let rest = leave_events tgids rank desired members in
    if has tid desired then rest else leave_event tid (find_or 0 (tgid_of tgids tid) rank) ∷ rest

unfoldable pub join_events :
    {Double : Type 0}
    → Double
    → List (ℕ × ℕ)
    → List (ℕ × ℕ)
    → List (ℕ × Double)
    → List ℕ
    → List ℕ
    → List (TargetsEvent Double)
unfolding find_or tgid_of
join_events zero_score tgids rank scores members [] = []
join_events zero_score tgids rank scores members (tid ∷ desired) =
    let tgid = tgid_of tgids tid in
    let rest = join_events zero_score tgids rank scores members desired in
    if has tid members
    then rest
    else join_event tid tgid (find_or zero_score tid scores) (find_or 0 tgid rank) ∷ rest

-- `procs_`.
unfoldable pub processes_of : List (ℕ × ℕ) → List ℕ → List ℕ → List ℕ
unfolding tgid_of find_or
processes_of tgids [] s = s
processes_of tgids (tid ∷ tids) s = processes_of tgids tids (include (tgid_of tgids tid) s)

abbrev pub no_events : {E : Type 0} → List E → Bool
no_events [] = true
no_events (x ∷ xs) = false

-- What `Evaluate` calls: `std::sort` by falling scores and by rising ranks, the clock ticks per
-- second, and the order in which `pstate_` is iterated.
pub record Host (f : Float) : Type 0 where
  pub sort_scores : List (ℕ × f.Double) → List (ℕ × f.Double)
  pub sort_ranks : (ℕ → ℕ) → List ℕ → List ℕ
  pub ticks_per_s : f.Double
  pub order : List ℕ → List ℕ

module _ (f : Float) (host : Host f) where
  open f use {Double, of_nat}

  -- The new selector, the events in their order, and the result.
  pub record Evaluated : Type 0 where
    pub selector : TargetSelector
    pub events : List (TargetsEvent Double)
    pub changed : Bool

  -- Steps 5 to 8: `pstate_` when the desired set is about to be built.
  unfoldable pub select_processes :
      TargetsTunables Double
      → ℕ
      → ℕ
      → List (ℕ × ℕ)
      → List ℕ
      → List (ℕ × ProcState)
      → List (ℕ × ProcState)
  unfolding ensure_states note_ranks leave_list join_list process_budget leave_all count_members
      join_all find_or
  select_processes t budget now_ns rank observed pstate =
      let noted = note_ranks t rank (ensure_states observed pstate) in
      let stayed = leave_all (leave_list t now_ns noted) noted in
      join_all (process_budget t budget) now_ns (count_members stayed)
        (host.sort_ranks (λ tgid. find_or 0 tgid rank) (join_list t noted)) stayed

  -- Step 9: `pstate_` and the desired set.
  unfoldable pub desired_threads :
      TargetsTunables Double
      → TargetSelector
      → ℕ
      → List (ℕ × ℕ)
      → List (ℕ × Double)
      → List (ℕ × Double)
      → List (ℕ × ProcState)
      → List (ℕ × ProcState) × List ℕ
  unfolding threads_by_proc pick_threads fall_back
  desired_threads t sel now_ns tgids scores pscored pstate =
      let by_proc = threads_by_proc tgids scores [] in
      fall_back host.sort_scores sel.thread_budget t.per_proc_threads now_ns pscored by_proc pstate
        (pick_threads host.sort_scores sel.thread_budget t.per_proc_threads pstate by_proc
          (host.order (keys pstate)) sel.pinned)

  -- Step 10.
  unfoldable pub apply_desired :
      TargetSelector
      → List (ℕ × ℕ)
      → List (ℕ × ℕ)
      → List (ℕ × Double)
      → List (ℕ × ProcState) × List ℕ
      → Evaluated
  unfolding leave_events join_events processes_of
  apply_desired sel tgids rank scores (pstate, desired) =
      let events =
        leave_events tgids rank desired sel.members
        ++ join_events (of_nat 0) tgids rank scores sel.members desired in
      record {
        selector = record sel {
          pstate = pstate;
          members = desired;
          procs = processes_of tgids desired [];
        };
        events = events;
        changed = not (no_events events);
      }

  -- Steps 4 to 10, between the base snapshot and the current one.
  unfoldable pub evaluate_window :
      Config Double → List (ℕ × ℕ) → ℕ → Snapshot → Snapshot → TargetSelector → Evaluated
  unfolding thread_deltas thread_scores aggregate process_scores window_length ranks
      select_processes desired_threads apply_desired
  evaluate_window cfg tgids now_ns base cur sel =
      let window_s = window_length f cur.ts_ns base.ts_ns in
      let deltas = thread_deltas base.c cur.c in
      let scores = thread_scores f cfg host.ticks_per_s window_s deltas in
      let pacc = aggregate f host.ticks_per_s tgids deltas [] in
      let pscored = host.sort_scores (process_scores f cfg window_s pacc) in
      let rank = ranks 1 pscored [] in
      let pstate =
        select_processes cfg.targets sel.thread_budget now_ns rank (keys pacc) sel.pstate in
      apply_desired sel tgids rank scores
        (desired_threads cfg.targets sel now_ns tgids scores pscored pstate)

  -- The first evaluation only keeps its snapshot.
  unfoldable pub evaluate_history :
      Config Double → List (ℕ × ℕ) → ℕ → Snapshot → TargetSelector → List Snapshot → Evaluated
  unfolding evaluate_window
  evaluate_history cfg tgids now_ns cur sel [] = record {
    selector = sel;
    events = [];
    changed = false;
  }
  evaluate_history cfg tgids now_ns cur sel (base ∷ []) = record {
    selector = sel;
    events = [];
    changed = false;
  }
  evaluate_history cfg tgids now_ns cur sel (base ∷ next ∷ rest) =
      evaluate_window cfg tgids now_ns base cur sel

  unfoldable pub evaluate :
      KernelMaps → Config Double → List ProcessRow → ℕ → TargetSelector → Evaluated
  unfolding read_all tid2tgid slide start_times evaluate_history
  evaluate maps cfg process_table now_ns sel =
      let cur : Snapshot = record { ts_ns = now_ns; c = read_all maps process_table [] } in
      let window_ns = seconds_ns cfg.targets.window_seconds in
      let history = slide window_ns now_ns (sel.history ++ cur ∷ []) in
      evaluate_history cfg (tid2tgid process_table []) now_ns cur
        (record sel { history = history; start_time = start_times process_table [] }) history
