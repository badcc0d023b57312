-- ===== src/App/LoopInv.antt =====
-- What the loop of `RunCollector` (src/app.cpp) keeps, and how it ends.
use e_trace_diag.Prelude.{
  ℕ, false, List, [], ◌∷◌, Option, some, none, ◌≡◌, refl, sym, ap, ◌∙◌, ◌==◌, ==_iff, if_cases,
  if◌then◌else◌, leb,
}
use e_trace_diag.Config.{Config}
use e_trace_diag.Phase.Parts.{Parts, DeepLaws}
use e_trace_diag.Phase.Machine.{
  base, by_phase_cases, PhaseManager, ticks_anomaly, ticks_deep, shuts_down, requests_deep,
  requests_base, apply, shutdown, exit_deep,
}
use e_trace_diag.Phase.Invariant.{Inv, apply-Inv, is_deep}
use e_trace_diag.App.Loop.{
  Duties, DutyLaws, Services, Turn, Loop, reload_step, host_step, overhead_step, on_collector,
  hand_over_step, feature_step, topk_step, deep_step, request_step, want_ms, sync_step, iterate,
  ends, run_loop, run_collector,
}

module _ {Double : Type 0} (p : Parts Double) (duties : Duties p) (services : Services p) where
  -- Between two iterations the recorder's interval is that of the phase.
  pub record LoopInv (l : Loop p duties services) : Type 0 where
    pub managed : Inv p l.manager
    pub interval : l.cur_interval_ms ≡ want_ms p duties services l

  -- How `RunCollector` ends.
  pub record Closed (l : Loop p duties services) : Type 0 where
    pub in_base : l.manager.phase ≡ base
    pub inactive : p.active l.manager.deep_collector ≡ false
    pub once : Inv p l.manager

module _ {Double : Type 0} (p : Parts Double) (duties : Duties p) (services : Services p)
    (laws : DeepLaws p) (duty_laws : DutyLaws duties) where
  abbrev State : Type 0
  State = Loop p duties services

  abbrev Kept : State → Type 0
  Kept = LoopInv p duties services

  -- The manager's invariant, at any point of an iteration.
  abbrev Managed : State → Type 0
  Managed l = Inv p l.manager

  on_collector-Managed :
      (f : p.Deep → p.Deep) (l : State)
      → p.active (f l.manager.deep_collector) ≡ p.active l.manager.deep_collector
      → Managed l
      → Managed (on_collector p duties services f l)
  on_collector-Managed f l e v = record { agrees = e ∙ v.agrees; once = v.once; alike = v.alike }

  reload-Managed :
      (o : Option (Config Double)) (l : State)
      → Managed l
      → Managed (reload_step p duties services o l)
  unfolding reload_step
  reload-Managed none l v = v
  reload-Managed (some cfg) l v = v

  host-Managed : (now : ℕ) (l : State) → Managed l → Managed (host_step p duties services now l)
  unfolding host_step
  host-Managed now l v = if_cases Managed (leb l.next_host now) (λ e. v) (λ e. v)

  overhead-Managed :
      (now : ℕ) (l : State) → Managed l → Managed (overhead_step p duties services now l)
  unfolding overhead_step
  overhead-Managed now l v = if_cases Managed (leb l.next_overhead now) (λ e. v) (λ e. v)

  hand_over-Managed : (l : State) → Managed l → Managed (hand_over_step p duties services l)
  unfolding hand_over_step
  hand_over-Managed l v =
      on_collector-Managed (duties.hand_over (services.member_threads l.rest)) l
        (duty_laws.hand_over-active (services.member_threads l.rest) l.manager.deep_collector) v

  feature-Managed :
      (now : ℕ) (l : State) → Managed l → Managed (feature_step p duties services now l)
  unfolding feature_step apply
  feature-Managed now l v =
      let f = (services.features l.cfg l.seq l.rest).0 in
      if_cases Managed (leb l.next_feature now)
        (λ e. apply-Inv p laws (ticks_anomaly f) l.cfg (p.feature_ts_ns f) l.manager v) (λ e. v)

  topk-Managed : (now : ℕ) (l : State) → Managed l → Managed (topk_step p duties services now l)
  unfolding topk_step
  topk-Managed now l v = if_cases Managed (leb l.next_topk now) (λ e. v) (λ e. v)

  deep-Managed : (now : ℕ) (l : State) → Managed l → Managed (deep_step p duties services now l)
  unfolding deep_step apply
  deep-Managed now l v = apply-Inv p laws ticks_deep l.cfg now _ (
      on_collector-Managed (duties.tick now l.cfg) l
        (duty_laws.tick-active now l.cfg l.manager.deep_collector) v)

  request-Managed :
      (turn : Turn Double) (l : State) → Managed l → Managed (request_step p duties services turn l)
  unfolding request_step apply
  request-Managed turn l v =
      if_cases (Inv p) turn.base_request
        (λ e. apply-Inv p laws requests_base l.cfg turn.now _ asked) (λ e. asked)
    where
      asked :
          Inv p (
            if turn.deep_request then apply p requests_deep l.cfg turn.now l.manager else l.manager)
      asked =
          if_cases (Inv p) turn.deep_request
            (λ e. apply-Inv p laws requests_deep l.cfg turn.now l.manager v) (λ e. v)

  sync-LoopInv : (l : State) → Managed l → Kept (sync_step p duties services l)
  unfolding sync_step
  sync-LoopInv l v =
      if_cases Kept (want_ms p duties services l == l.cur_interval_ms)
        (λ e. record { managed = v; interval = sym ((==_iff _ l.cur_interval_ms).0 e) })
        (λ e. record { managed = v; interval = refl })

  iterate-LoopInv :
      (turn : Turn Double) (l : State) → Kept l → Kept (iterate p duties services turn l)
  unfolding iterate
  iterate-LoopInv turn l v =
      let a = reload_step p duties services turn.reload l in
      let b = host_step p duties services turn.now a in
      let c = overhead_step p duties services turn.now b in
      let d = hand_over_step p duties services c in
      let e = feature_step p duties services turn.now d in
      let f = topk_step p duties services turn.now e in
      let g = deep_step p duties services turn.now f in
      let va = reload-Managed turn.reload l v.managed in
      let vc = overhead-Managed turn.now b (host-Managed turn.now a va) in
      let ve = feature-Managed turn.now d (hand_over-Managed c vc) in
      let vg = deep-Managed turn.now f (topk-Managed turn.now e ve) in
      sync-LoopInv (request_step p duties services turn g) (request-Managed turn g vg)

  pub run_loop-LoopInv :
      (run_seconds t0 : ℕ) (turns : List (Turn Double)) (l : State)
      → Kept l
      → Kept (run_loop p duties services run_seconds t0 turns l)
  unfolding run_loop
  run_loop-LoopInv run_seconds t0 [] l v = v
  run_loop-LoopInv run_seconds t0 (turn ∷ turns) l v =
      if_cases Kept (ends p duties services run_seconds t0 turn) (λ e. v)
        (λ e.
          run_loop-LoopInv run_seconds t0 turns (iterate p duties services turn l)
            (iterate-LoopInv turn l v))

  shutdown-base :
      (cfg : Config Double) (now : ℕ) (pm : PhaseManager p) → (shutdown p cfg now pm).phase ≡ base
  unfolding shutdown exit_deep
  shutdown-base cfg now pm =
      by_phase_cases (λ (m : PhaseManager p). m.phase ≡ base) pm.phase (λ e. e) (λ e. refl)

  pub run_collector-Closed :
      (run_seconds t0 now : ℕ) (turns : List (Turn Double)) (l : State)
      → Kept l
      → Closed p duties services (run_collector p duties services run_seconds t0 now turns l)
  unfolding run_collector apply
  run_collector-Closed run_seconds t0 now turns l v =
      let last = run_loop p duties services run_seconds t0 turns l in
      let kept = (run_loop-LoopInv run_seconds t0 turns l v).managed in
      let closed = apply-Inv p laws shuts_down last.cfg now last.manager kept in
      let home = shutdown-base last.cfg now last.manager in
      record { in_base = home; inactive = closed.agrees ∙ ap is_deep home; once = closed }
