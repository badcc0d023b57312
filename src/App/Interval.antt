-- ===== src/App/Interval.antt =====
-- That the recorder's producer has the interval that the loop of `RunCollector` (src/app.cpp) keeps in
-- `cur_interval_ms`.
use e_trace_diag.Prelude.{ℕ, List, [], ◌∷◌, Option, some, none, ◌≡◌, ◌∙◌, ◌==◌, leb, if_cases}
use e_trace_diag.Config.{Config}
use e_trace_diag.Phase.Parts.{Parts}
use e_trace_diag.App.Loop.{
  Duties, Services, IntervalLaws, Turn, Loop, reload_step, host_step, overhead_step, hand_over_step,
  feature_step, topk_step, deep_step, request_step, want_ms, sync_step, iterate, ends, run_loop,
}

module _ {Double : Type 0} (p : Parts Double) (duties : Duties p) (services : Services p)
    (laws : IntervalLaws services) where
  abbrev State : Type 0
  State = Loop p duties services

  abbrev InStep : State → Type 0
  InStep l = services.interval_ms l.rest ≡ l.cur_interval_ms

  reload-InStep :
      (o : Option (Config Double)) (l : State)
      → InStep l
      → InStep (reload_step p duties services o l)
  unfolding reload_step
  reload-InStep none l h = h
  reload-InStep (some cfg) l h = laws.reload-interval l.cfg cfg l.rest ∙ h

  host-InStep : (now : ℕ) (l : State) → InStep l → InStep (host_step p duties services now l)
  unfolding host_step
  host-InStep now l h =
      if_cases InStep (leb l.next_host now) (λ e. laws.host_tick-interval l.cfg l.rest ∙ h) (λ e. h)

  overhead-InStep :
      (now : ℕ) (l : State) → InStep l → InStep (overhead_step p duties services now l)
  unfolding overhead_step
  overhead-InStep now l h =
      if_cases InStep (leb l.next_overhead now)
        (λ e. laws.overhead_tick-interval now l.last_overhead_ts l.rest ∙ h) (λ e. h)

  feature-InStep : (now : ℕ) (l : State) → InStep l → InStep (feature_step p duties services now l)
  unfolding feature_step
  feature-InStep now l h =
      if_cases InStep (leb l.next_feature now) (λ e. laws.features-interval l.cfg l.seq l.rest ∙ h)
        (λ e. h)

  topk-InStep : (now : ℕ) (l : State) → InStep l → InStep (topk_step p duties services now l)
  unfolding topk_step
  topk-InStep now l h =
      if_cases InStep (leb l.next_topk now)
        (λ e.
          if_cases (λ r. services.interval_ms r ≡ l.cur_interval_ms) (services.table_empty l.rest)
            (λ d. h) (λ d. laws.evaluate-interval l.cfg now l.rest ∙ h))
        (λ e. h)

  sync-InStep : (l : State) → InStep l → InStep (sync_step p duties services l)
  unfolding sync_step
  sync-InStep l h =
      if_cases InStep (want_ms p duties services l == l.cur_interval_ms) (λ e. h)
        (λ e. laws.set_interval-interval (want_ms p duties services l) l.rest)

  iterate-InStep :
      (turn : Turn Double) (l : State) → InStep l → InStep (iterate p duties services turn l)
  unfolding iterate hand_over_step deep_step request_step
  iterate-InStep turn l h =
      let a = reload_step p duties services turn.reload l in
      let b = host_step p duties services turn.now a in
      let c = overhead_step p duties services turn.now b in
      let d = hand_over_step p duties services c in
      let e = feature_step p duties services turn.now d in
      let f = topk_step p duties services turn.now e in
      let g = deep_step p duties services turn.now f in
      let hb = host-InStep turn.now a (reload-InStep turn.reload l h) in
      let he = feature-InStep turn.now d (overhead-InStep turn.now b hb) in
      sync-InStep (request_step p duties services turn g) (topk-InStep turn.now e he)

  pub run_loop-InStep :
      (run_seconds t0 : ℕ) (turns : List (Turn Double)) (l : State)
      → InStep l
      → InStep (run_loop p duties services run_seconds t0 turns l)
  unfolding run_loop
  run_loop-InStep run_seconds t0 [] l h = h
  run_loop-InStep run_seconds t0 (turn ∷ turns) l h =
      if_cases InStep (ends p duties services run_seconds t0 turn) (λ e. h)
        (λ e.
          run_loop-InStep run_seconds t0 turns (iterate p duties services turn l)
            (iterate-InStep turn l h))
