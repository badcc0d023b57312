-- ===== src/App/Collector.antt =====
-- The collector of src/collect/deep_collector.cpp in the place that the phase manager has for one,
-- and `RunCollector` (src/app.cpp) with it.
use e_trace_diag.Prelude.{ℕ, ◌+◌, Bool, false, List, Option, ◌≡◌, ◌∙◌, refl, if_cases, not}
use e_trace_diag.Config.{Config}
use e_trace_diag.Phase.Parts.{AnomalyResult, CausalContext, CausalReply, Parts, DeepLaws}
use e_trace_diag.Phase.Machine.{start, by_phase}
use e_trace_diag.Phase.Invariant.{Inv, start-Inv}
use e_trace_diag.Deep.Collector.{DeepCollector, System, enter, exit, finalize, tick}
use e_trace_diag.Deep.Entry.{enter_lem}
use e_trace_diag.App.Loop.{
  Loop, Duties, DutyLaws, Services, IntervalLaws, Turn, begin_loop, run_loop, run_collector,
}
use e_trace_diag.App.Interval.{run_loop-InStep}
use e_trace_diag.App.LoopInv.{LoopInv, Closed, run_loop-LoopInv, run_collector-Closed}

-- The collector, and what the system answers it: at each `Enter`, and on the clock at each
-- `Finalize`.
pub record Collector : Type 0 where
  pub members : DeepCollector
  pub entered : ℕ
  pub finalized : ℕ
  pub systems : ℕ → System
  pub clocks : ℕ → ℕ

-- What the phase manager works with beside the collector.
pub record Others (Double : Type 0) : Type 1 where
  pub Model : Type 0
  pub Features : Type 0
  pub Body : Type 0
  pub Extra : Type 0
  pub feature_seq : Features → ℕ
  pub feature_ts_ns : Features → ℕ
  pub zero_confidence : Double
  pub extra : DeepCollector → Extra
  pub build_evidence : DeepCollector → ℕ → Body
  pub diagnosis_opens : DeepCollector → Bool
  pub infer_anomaly : Model → Features → Option (AnomalyResult Double) × Model
  pub infer_causal : Model → CausalContext Double Body → CausalReply × Model

module _ {Double : Type 0} where
  unfoldable pub enter_with : ℕ → ℕ → Config Double → Collector → Bool × Collector
  unfolding enter
  enter_with ordinal now cfg c =
      let entered = enter (c.systems c.entered) ordinal now cfg c.members in
      (entered.0, record c { members = entered.1; entered = c.entered + 1 })

  unfoldable pub finalize_with : Config Double → Collector → Collector
  unfolding finalize
  finalize_with cfg c = record c {
    members = finalize (c.clocks c.finalized) cfg c.members;
    finalized = c.finalized + 1;
  }

  abbrev pub collector_parts : Others Double → Parts Double
  collector_parts o = record {
    Deep = Collector;
    Model = o.Model;
    Features = o.Features;
    Body = o.Body;
    Extra = o.Extra;
    feature_seq = o.feature_seq;
    feature_ts_ns = o.feature_ts_ns;
    zero = o.zero_confidence;
    active = λ c. c.members.active;
    enter = λ c ordinal now cfg. enter_with ordinal now cfg c;
    finalize = λ cfg c. (o.extra (finalize_with cfg c).members, finalize_with cfg c);
    exit = λ c. record c { members = exit c.members };
    build_evidence = λ c. o.build_evidence c.members;
    diagnosis_opens = λ c. o.diagnosis_opens c.members;
    infer_anomaly = o.infer_anomaly;
    infer_causal = o.infer_causal;
  }

  collector-DeepLaws : (o : Others Double) → DeepLaws (collector_parts o)
  unfolding enter_with finalize_with finalize exit
  collector-DeepLaws o = record {
    enter-active =
        λ c ordinal now cfg h. (enter_lem (c.systems c.entered) ordinal now cfg c.members h).1;
    finalize-active = λ cfg c. refl;
    exit-active = λ c. refl;
  }

  abbrev pub collector_duties : (o : Others Double) → Duties (collector_parts o)
  collector_duties o = record {
    hand_over = λ tids c. record c { members = record c.members { targets = tids } };
    tick = λ now cfg c. record c { members = tick now cfg c.members };
  }

  tick-active :
      (now : ℕ) (cfg : Config Double) (d : DeepCollector) → (tick now cfg d).active ≡ d.active
  unfolding tick
  tick-active now cfg d =
      if_cases (λ (x : DeepCollector). x.active ≡ d.active) (not d.active) (λ e. refl) (λ e. refl)

  collector-DutyLaws : (o : Others Double) → DutyLaws (collector_duties o)
  collector-DutyLaws o = record {
    hand_over-active = λ tids c. refl;
    tick-active = λ now cfg c. tick-active now cfg c.members;
  }

module _ {Double : Type 0} (o : Others Double) (services : Services (collector_parts o)) where
  abbrev pub parts : Parts Double
  parts = collector_parts o

  abbrev pub duties : Duties parts
  duties = collector_duties o

  -- What holds between two iterations.
  pub record InPhase (l : Loop parts duties services) : Type 0 where
    pub managed : Inv parts l.manager
    pub interval :
        services.interval_ms l.rest
        ≡ by_phase l.manager.phase l.cfg.sample.fine_interval_ms l.cfg.sample.deep_fine_interval_ms

  begin-LoopInv :
      (cfg : Config Double) (c : Collector) (m : o.Model) (rest : services.Rest)
      → c.members.active ≡ false
      → LoopInv parts duties services (begin_loop parts duties services cfg (start parts c m) rest)
  unfolding begin_loop start
  begin-LoopInv cfg c m rest h = record { managed = start-Inv parts c m h; interval = refl }

  -- After any iterations of the main loop with the collector as it is modelled, whatever the signals,
  -- the clock, the model and the system do: the manager is in DEEP exactly when the collector is
  -- active, no episode has two summaries, and the interval that the recorder's producer has is the
  -- one that the configuration gives for the phase. It is assumed that the producer starts with the
  -- interval of BASE, that `SetSnapshotInterval` succeeds, and that no other service changes it.
  pub run_loop-collector :
      (interval_laws : IntervalLaws services) (run_seconds t0 : ℕ) (turns : List (Turn Double))
      (cfg : Config Double) (c : Collector) (m : o.Model) (rest : services.Rest)
      → c.members.active ≡ false
      → services.interval_ms rest ≡ cfg.sample.fine_interval_ms
      → InPhase (
          run_loop parts duties services run_seconds t0 turns
            (begin_loop parts duties services cfg (start parts c m) rest))
  unfolding begin_loop
  run_loop-collector interval_laws run_seconds t0 turns cfg c m rest h e =
      let first = begin_loop parts duties services cfg (start parts c m) rest in
      let kept =
        run_loop-LoopInv parts duties services (collector-DeepLaws o) (collector-DutyLaws o)
          run_seconds t0 turns first (begin-LoopInv cfg c m rest h) in
      record {
        managed = kept.managed;
        interval =
            run_loop-InStep parts duties services interval_laws run_seconds t0 turns first e
            ∙ kept.interval;
      }

  -- When `RunCollector` comes to its end, after any iterations and also in the middle of an episode,
  -- the manager is in BASE, the collector is inactive, and no episode has two summaries.
  pub run_collector-collector :
      (run_seconds t0 now : ℕ) (turns : List (Turn Double)) (cfg : Config Double) (c : Collector)
      (m : o.Model) (rest : services.Rest)
      → c.members.active ≡ false
      → Closed parts duties services (
          run_collector parts duties services run_seconds t0 now turns
            (begin_loop parts duties services cfg (start parts c m) rest))
  run_collector-collector run_seconds t0 now turns cfg c m rest h =
      run_collector-Closed parts duties services (collector-DeepLaws o) (collector-DutyLaws o)
        run_seconds t0 now turns (begin_loop parts duties services cfg (start parts c m) rest)
        (begin-LoopInv cfg c m rest h)
