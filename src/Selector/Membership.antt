-- ===== src/Selector/Membership.antt =====
-- What `Evaluate` (src/collect/target_selector.cpp) makes of the set of traced threads, in the
-- selector and in the kernel's map `targets`.
use e_trace_diag.Prelude.{
  ℕ, ◌≤◌, ◌≡◌, true, false, List, [], ◌∷◌, ◌++◌, arith, refl, length, sym, ap, ◌∙◌, seconds_ns,
  subst,
}
use e_trace_diag.Prelude.Float.{Float}
use e_trace_diag.Config.{Config, TargetsTunables}
use e_trace_diag.Selector.Maps.{has, keys}
use e_trace_diag.Selector.Counters.{
  KernelMaps, ProcessRow, read_all, tid2tgid, thread_deltas, thread_scores, aggregate,
  process_scores, window_length,
}
use e_trace_diag.Selector.Hysteresis.{ProcState}
use e_trace_diag.Selector.Desired.{threads_by_proc}
use e_trace_diag.Selector.DesiredBounds.{
  pick_threads-length, fall_back-length, pick_threads_keeps, fall_back_keeps,
}
use e_trace_diag.Selector.Targets.{
  apply_events, apply_events-append, leave_events_lem, join_events_lem, apply_no_events,
}
use e_trace_diag.Selector.Evaluate.{
  TargetSelector, Snapshot, slide, Host, Evaluated, leave_events, join_events, apply_desired,
  desired_threads, evaluate_window, evaluate_history, evaluate, start_times, ranks,
  select_processes,
}

by_history :
    (f : Float) (host : Host f) (P : Evaluated f host → Type 0) (cfg : Config f.Double)
    (tgids : List (ℕ × ℕ)) (now_ns : ℕ) (cur : Snapshot) (sel : TargetSelector)
    (history : List Snapshot)
    → P (record { selector = sel; events = []; changed = false })
      × ((tgids : List (ℕ × ℕ)) (base cur : Snapshot)
          → P (evaluate_window f host cfg tgids now_ns base cur sel))
    → P (evaluate_history f host cfg tgids now_ns cur sel history)
unfolding evaluate_history
by_history f host P cfg tgids now_ns cur sel [] h = h.0
by_history f host P cfg tgids now_ns cur sel (base ∷ []) h = h.0
by_history f host P cfg tgids now_ns cur sel (base ∷ next ∷ rest) h = h.1 tgids base cur

-- What holds of both outcomes of `Evaluate`, the first evaluation and the later ones, holds of it.
evaluate_cases :
    (f : Float) (host : Host f) (P : Evaluated f host → Type 0) (maps : KernelMaps)
    (cfg : Config f.Double) (table : List ProcessRow) (now_ns : ℕ) (sel : TargetSelector)
    → ((sel1 : TargetSelector)
        → sel1.members ≡ sel.members
        → sel1.pinned ≡ sel.pinned
        → sel1.thread_budget ≡ sel.thread_budget
        → P (record { selector = sel1; events = []; changed = false })
          × ((tgids : List (ℕ × ℕ)) (base cur : Snapshot)
              → P (evaluate_window f host cfg tgids now_ns base cur sel1)))
    → P (evaluate f host maps cfg table now_ns sel)
unfolding evaluate
evaluate_cases f host P maps cfg table now_ns sel h =
    let cur : Snapshot = record { ts_ns = now_ns; c = read_all maps table [] } in
    let history = slide (seconds_ns cfg.targets.window_seconds) now_ns (sel.history ++ cur ∷ []) in
    let sel1 : TargetSelector = record sel {
      history = history;
      start_time = start_times table [];
    } in
    by_history f host P cfg (tid2tgid table []) now_ns cur sel1 history (h sel1 refl refl refl)

module _ (f : Float) (host : Host f) where
  apply_desired-targets :
      (sel : TargetSelector) (tgids rank : List (ℕ × ℕ)) (scores : List (ℕ × f.Double))
      (d : List (ℕ × ProcState) × List ℕ) (targets : List ℕ)
      → ((k : ℕ) → has k targets ≡ has k sel.members)
      → (k : ℕ)
      → has k (apply_events (apply_desired f host sel tgids rank scores d).events targets)
        ≡ has k (apply_desired f host sel tgids rank scores d).selector.members
  unfolding apply_desired
  apply_desired-targets sel tgids rank scores (pstate, desired) targets h k =
      let gone = leave_events tgids rank desired sel.members in
      let new = join_events (f.of_nat 0) tgids rank scores sel.members desired in
      ap (has k) (apply_events-append gone new targets)
      ∙ join_events_lem (f.of_nat 0) tgids rank scores sel.members desired
          (apply_events gone targets) k
      ∙ ground (arith, leave_events_lem f.Double tgids rank desired sel.members targets k, h k)

  -- What holds of the desired threads, however they were scored, holds after a window.
  window_cases :
      (P : Evaluated f host → Type 0) (cfg : Config f.Double) (tgids : List (ℕ × ℕ)) (now_ns : ℕ)
      (base cur : Snapshot) (sel : TargetSelector)
      → ((rank : List (ℕ × ℕ)) (scores pscored : List (ℕ × f.Double))
            (pstate : List (ℕ × ProcState))
          → P (
              apply_desired f host sel tgids rank scores
                (desired_threads f host cfg.targets sel now_ns tgids scores pscored pstate)))
      → P (evaluate_window f host cfg tgids now_ns base cur sel)
  unfolding evaluate_window
  window_cases P cfg tgids now_ns base cur sel h =
      let window_s = window_length f cur.ts_ns base.ts_ns in
      let deltas = thread_deltas base.c cur.c in
      let scores = thread_scores f cfg host.ticks_per_s window_s deltas in
      let pacc = aggregate f host.ticks_per_s tgids deltas [] in
      let pscored = host.sort_scores (process_scores f cfg window_s pacc) in
      let rank = ranks 1 pscored [] in
      h rank scores pscored
        (select_processes f host cfg.targets sel.thread_budget now_ns rank (keys pacc) sel.pstate)

  apply_desired-members :
      (P : List ℕ → Type 0) (sel : TargetSelector) (tgids rank : List (ℕ × ℕ))
      (scores : List (ℕ × f.Double)) (d : List (ℕ × ProcState) × List ℕ)
      → P d.1
      → P (apply_desired f host sel tgids rank scores d).selector.members
  unfolding apply_desired
  apply_desired-members P sel tgids rank scores (pstate, desired) h = h

  apply_desired-pinned :
      (sel : TargetSelector) (tgids rank : List (ℕ × ℕ)) (scores : List (ℕ × f.Double))
      (d : List (ℕ × ProcState) × List ℕ)
      → (apply_desired f host sel tgids rank scores d).selector.pinned ≡ sel.pinned
  unfolding apply_desired
  apply_desired-pinned sel tgids rank scores (pstate, desired) = refl

  desired_threads-length :
      (n : ℕ) (t : TargetsTunables f.Double) (sel : TargetSelector) (now_ns : ℕ)
      (tgids : List (ℕ × ℕ)) (scores pscored : List (ℕ × f.Double)) (pstate : List (ℕ × ProcState))
      → sel.thread_budget ≤ n
      → length sel.pinned ≤ n
      → length (desired_threads f host t sel now_ns tgids scores pscored pstate).1 ≤ n
  unfolding desired_threads
  desired_threads-length n t sel now_ns tgids scores pscored pstate a b =
      let by_proc = threads_by_proc tgids scores [] in
      fall_back-length host.sort_scores sel.thread_budget t.per_proc_threads pstate by_proc n now_ns
        pscored _ a
        (pick_threads-length host.sort_scores sel.thread_budget t.per_proc_threads pstate by_proc n
          (host.order (keys pstate)) sel.pinned a b)

  desired_threads_keeps :
      (k : ℕ) (t : TargetsTunables f.Double) (sel : TargetSelector) (now_ns : ℕ)
      (tgids : List (ℕ × ℕ)) (scores pscored : List (ℕ × f.Double)) (pstate : List (ℕ × ProcState))
      → has k sel.pinned ≡ true
      → has k (desired_threads f host t sel now_ns tgids scores pscored pstate).1 ≡ true
  unfolding desired_threads
  desired_threads_keeps k t sel now_ns tgids scores pscored pstate a =
      let by_proc = threads_by_proc tgids scores [] in
      fall_back_keeps host.sort_scores sel.thread_budget t.per_proc_threads pstate by_proc k now_ns
        pscored _
        (pick_threads_keeps host.sort_scores sel.thread_budget t.per_proc_threads pstate by_proc k
          (host.order (keys pstate)) sel.pinned a)

module _ (f : Float) (host : Host f) (maps : KernelMaps) (cfg : Config f.Double)
    (table : List ProcessRow) (now_ns : ℕ) (sel : TargetSelector) where
  -- The kernel's map `targets` follows the selector: if it holds the members before an evaluation,
  -- the events of the evaluation, applied in their order, make it hold the members after it.
  pub evaluate-targets :
      (targets : List ℕ)
      → ((k : ℕ) → has k targets ≡ has k sel.members)
      → (k : ℕ)
      → has k (apply_events (evaluate f host maps cfg table now_ns sel).events targets)
        ≡ has k (evaluate f host maps cfg table now_ns sel).selector.members
  evaluate-targets targets h k =
      evaluate_cases f host (λ e. has k (apply_events e.events targets) ≡ has k e.selector.members)
        maps cfg table now_ns sel
        (λ sel1 m p b. (
          ap (has k) (apply_no_events f.Double targets) ∙ h k ∙ ap (has k) (sym m),
          λ tgids base cur.
              window_cases f host
                (λ e. has k (apply_events e.events targets) ≡ has k e.selector.members) cfg tgids
                now_ns base cur sel1
                (λ rank scores pscored pstate.
                  apply_desired-targets f host sel1 tgids rank scores
                    (desired_threads f host cfg.targets sel1 now_ns tgids scores pscored pstate)
                    targets (λ i. h i ∙ ap (has i) (sym m)) k),
        ))

  -- An evaluation leaves at most as many threads as the budget, the pinned threads and the threads
  -- before it are: `n` bounds all three.
  pub evaluate-length :
      (n : ℕ)
      → sel.thread_budget ≤ n
      → length sel.pinned ≤ n
      → length sel.members ≤ n
      → length (evaluate f host maps cfg table now_ns sel).selector.members ≤ n
  evaluate-length n a b c =
      evaluate_cases f host (λ e. length e.selector.members ≤ n) maps cfg table now_ns sel
        (λ sel1 m p d. (
          subst (λ s. length s ≤ n) (sym m) c,
          λ tgids base cur.
              window_cases f host (λ e. length e.selector.members ≤ n) cfg tgids now_ns base cur
                sel1
                (λ rank scores pscored pstate.
                  apply_desired-members f host (λ s. length s ≤ n) sel1 tgids rank scores _
                    (desired_threads-length f host n cfg.targets sel1 now_ns tgids scores pscored
                      pstate (subst (λ s. s ≤ n) (sym d) a) (subst (λ s. length s ≤ n) (sym p) b))),
        ))

  -- A pinned thread that is traced stays traced.
  pub evaluate_keeps_pinned :
      (k : ℕ)
      → has k sel.pinned ≡ true
      → has k sel.members ≡ true
      → has k (evaluate f host maps cfg table now_ns sel).selector.members ≡ true
  evaluate_keeps_pinned k a b =
      evaluate_cases f host (λ e. has k e.selector.members ≡ true) maps cfg table now_ns sel
        (λ sel1 m p d. (
          subst (λ s. has k s ≡ true) (sym m) b,
          λ tgids base cur.
              window_cases f host (λ e. has k e.selector.members ≡ true) cfg tgids now_ns base cur
                sel1
                (λ rank scores pscored pstate.
                  apply_desired-members f host (λ s. has k s ≡ true) sel1 tgids rank scores _
                    (desired_threads_keeps f host k cfg.targets sel1 now_ns tgids scores pscored
                      pstate (subst (λ s. has k s ≡ true) (sym p) a))),
        ))

  -- An evaluation does not change which threads are pinned.
  pub evaluate-pinned : (evaluate f host maps cfg table now_ns sel).selector.pinned ≡ sel.pinned
  evaluate-pinned =
      evaluate_cases f host (λ e. e.selector.pinned ≡ sel.pinned) maps cfg table now_ns sel
        (λ sel1 m p d. (
          p,
          λ tgids base cur.
              window_cases f host (λ e. e.selector.pinned ≡ sel.pinned) cfg tgids now_ns base cur
                sel1
                (λ rank scores pscored pstate.
                  apply_desired-pinned f host sel1 tgids rank scores _ ∙ p),
        ))
