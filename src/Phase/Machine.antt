-- ===== src/Phase/Machine.antt =====
-- The members of `PhaseManager` and its operations. A method returns the new manager; `writer`
-- holds what was written, the latest first. Logging is left out.
use e_trace_diag.Prelude.{
  ℕ, ◌+◌, ◌-◌, Bool, false, not, ◌&&◌, List, [], ◌∷◌, ◌++◌, Option, some, none, ltb, leb, ◌==◌,
  if◌then◌else◌, str_eq, ◌≡◌, refl, u32, u64, seconds_ns,
}
use e_trace_diag.Config.{Config}
use e_trace_diag.Phase.Parts.{
  AnomalyResult, AnomalyIndicator, CausalContext, CausalReply, CausalSummary, Summary, Written,
  Parts, result, threw, replied, failed, diagnosis, meta, summary,
}

pub data Phase : Type 0 where
  base deep : Phase

-- The test of `phase_`.
abbrev pub by_phase {ℓ} : {A : Type ℓ} → Phase → A → A → A
by_phase base x y = x
by_phase deep x y = y

pub by_phase_cases {ℓ κ} :
    {A : Type ℓ} (P : A → Type κ) (ph : Phase) {x y : A}
    → (ph ≡ base → P x)
    → (ph ≡ deep → P y)
    → P (by_phase ph x y)
by_phase_cases P base f g = f refl
by_phase_cases P deep f g = g refl

module _ {Double : Type 0} (p : Parts Double) where
  open p use {Deep, Model, Features, Body, Extra}

  pub record PhaseManager : Type 0 where
    pub deep_collector : Deep  -- `deep_`
    pub model : Model
    pub writer : List (Written Double Extra)
    pub phase : Phase
    pub deep_ordinal : ℕ
    pub anomaly_start_ts : ℕ
    pub anomaly_end_ts : ℕ
    pub post_deadline_ns : ℕ
    pub first_false_ts : ℕ
    pub debounce : ℕ
    pub indicators : List (AnomalyIndicator Double)
    pub last_summary : Option (Summary Double Extra)

  -- A fresh manager around a collector and a model.
  unfoldable pub start : Deep → Model → PhaseManager
  start d m = record {
    deep_collector = d;
    model = m;
    writer = [];
    phase = base;
    deep_ordinal = 0;
    anomaly_start_ts = 0;
    anomaly_end_ts = 0;
    post_deadline_ns = 0;
    first_false_ts = 0;
    debounce = 0;
    indicators = [];
    last_summary = none;
  }

  unfoldable pub enter_deep : Config Double → ℕ → PhaseManager → PhaseManager
  enter_deep cfg now_ns pm =
      let ordinal = pm.deep_ordinal + 1 in
      let entered = p.enter pm.deep_collector ordinal now_ns cfg in
      record pm {
        deep_ordinal = ordinal;
        anomaly_start_ts = now_ns;
        anomaly_end_ts = 0;
        post_deadline_ns = u64 (now_ns + seconds_ns cfg.window.post_anomaly_seconds);
        first_false_ts = 0;
        debounce = 0;
        indicators = [];
        deep_collector = entered.1;
        phase = if entered.0 then deep else base;
      }

  -- `anomaly_end_ts_` as `FinalizeDeep` closes it.
  unfoldable pub closed_end : ℕ → PhaseManager → ℕ
  closed_end now_ns pm = if pm.anomaly_end_ts == 0 then now_ns else pm.anomaly_end_ts

  unfoldable pub causal_context :
      Config Double → ℕ → PhaseManager → Deep → CausalContext Double Body
  unfolding closed_end
  causal_context cfg now_ns pm d = record {
    seq = pm.deep_ordinal;
    window_start_ns =
        let pre_ns = seconds_ns cfg.window.pre_anomaly_seconds in
        if ltb pre_ns pm.anomaly_start_ts then pm.anomaly_start_ts - pre_ns else 0;
    window_end_ns = now_ns;
    body = record {
      rows = p.build_evidence d pm.deep_ordinal;
      anomaly_start_ts = pm.anomaly_start_ts;
      anomaly_end_ts = closed_end now_ns pm;
      deep_ordinal = pm.deep_ordinal;
      deep_indicators = pm.indicators;
      post_deadline_ts = pm.post_deadline_ns;
    };
  }

  unfoldable pub causal_summary : CausalReply → CausalSummary
  causal_summary (result ok raw) = replied ok raw
  causal_summary (threw what) = failed what

  -- `diagnosis.json` is written for a reply that is ok and not empty, if the file opens.
  unfoldable pub diagnosis_written : Bool → CausalReply → List (Written Double Extra)
  diagnosis_written opens (result ok raw) =
      if ok && not (str_eq raw "") && opens then diagnosis raw ∷ [] else []
  diagnosis_written opens (threw what) = []

  unfoldable pub finalize_deep : Config Double → ℕ → PhaseManager → PhaseManager
  unfolding closed_end causal_context causal_summary diagnosis_written
  finalize_deep cfg now_ns pm =
      let collected = p.finalize cfg pm.deep_collector in
      let asked = p.infer_causal pm.model (causal_context cfg now_ns pm collected.1) in
      let s : Summary Double Extra = record {
        v = 2;
        anomaly_start_ts = pm.anomaly_start_ts;
        anomaly_end_ts = closed_end now_ns pm;
        post_deadline_ts = pm.post_deadline_ns;
        deep_ordinal = pm.deep_ordinal;
        deep_indicators = pm.indicators;
        collector = collected.0;
        causal = causal_summary asked.0;
      } in
      record pm {
        anomaly_end_ts = closed_end now_ns pm;
        deep_collector = collected.1;
        model = asked.1;
        last_summary = some s;
        writer =
            summary s
            ∷ meta s
            ∷ (diagnosis_written (p.diagnosis_opens collected.1) asked.0 ++ pm.writer);
      }

  unfoldable pub exit_deep : PhaseManager → PhaseManager
  exit_deep pm = record pm { deep_collector = p.exit pm.deep_collector; phase = base }

  -- The part of `TickAnomaly` after the model has answered, in BASE and in DEEP.
  unfoldable pub note_base : Config Double → AnomalyResult Double → ℕ → PhaseManager → PhaseManager
  unfolding enter_deep
  note_base cfg r now_ns pm = if r.is_anomaly then enter_deep cfg now_ns pm else pm

  unfoldable pub note_deep : Config Double → AnomalyResult Double → ℕ → PhaseManager → PhaseManager
  note_deep cfg r now_ns pm =
      let first_false = if pm.debounce == 0 then now_ns else pm.first_false_ts in
      let seen = u32 (pm.debounce + 1) in
      if r.is_anomaly
      then record pm {
        indicators = pm.indicators ++ record { kind = r.kind; confidence = r.confidence } ∷ [];
        debounce = 0;
        first_false_ts = 0;
      }
      else record pm {
        first_false_ts = first_false;
        debounce = seen;
        anomaly_end_ts =
            if leb cfg.window.end_debounce_samples seen && pm.anomaly_end_ts == 0
            then first_false
            else pm.anomaly_end_ts;
      }

  unfoldable pub note_result :
      Config Double → AnomalyResult Double → ℕ → PhaseManager → PhaseManager
  unfolding note_base note_deep
  note_result cfg r now_ns pm =
      by_phase pm.phase (note_base cfg r now_ns pm) (note_deep cfg r now_ns pm)

  -- The answer that stands for an exception of the model: no anomaly.
  unfoldable pub answer : Features → Option (AnomalyResult Double) → AnomalyResult Double
  answer f (some r) = r
  answer f none = record {
    seq = p.feature_seq f;
    ts_ns = p.feature_ts_ns f;
    is_anomaly = false;
    kind = "";
    confidence = p.zero;
    indicators = [];
  }

  unfoldable pub tick_anomaly : Config Double → Features → ℕ → PhaseManager → PhaseManager
  unfolding note_result answer
  tick_anomaly cfg f now_ns pm =
      let asked = p.infer_anomaly pm.model f in
      note_result cfg (answer f asked.0) now_ns (record pm { model = asked.1 })

  unfoldable pub tick_deep : Config Double → ℕ → PhaseManager → PhaseManager
  unfolding finalize_deep exit_deep
  tick_deep cfg now_ns pm =
      by_phase pm.phase pm
        (if leb pm.post_deadline_ns now_ns then exit_deep (finalize_deep cfg now_ns pm) else pm)

  unfoldable pub shutdown : Config Double → ℕ → PhaseManager → PhaseManager
  unfolding finalize_deep exit_deep
  shutdown cfg now_ns pm = by_phase pm.phase pm (exit_deep (finalize_deep cfg now_ns pm))

  unfoldable pub request_deep : Config Double → ℕ → PhaseManager → PhaseManager
  unfolding enter_deep
  request_deep cfg now_ns pm = by_phase pm.phase (enter_deep cfg now_ns pm) pm

  unfoldable pub request_base : Config Double → ℕ → PhaseManager → PhaseManager
  unfolding finalize_deep exit_deep
  request_base cfg now_ns pm = by_phase pm.phase pm (exit_deep (finalize_deep cfg now_ns pm))

  -- The calls that the main loop makes, each with the configuration and the time of that call.
  pub data Operation : Type 0 where
    ticks_anomaly : Features → Operation
    ticks_deep shuts_down requests_deep requests_base : Operation

  pub record Call : Type 0 where
    pub cfg : Config Double
    pub now_ns : ℕ
    pub operation : Operation

  unfoldable pub apply : Operation → Config Double → ℕ → PhaseManager → PhaseManager
  unfolding tick_anomaly tick_deep shutdown request_deep request_base
  apply (ticks_anomaly f) cfg now_ns pm = tick_anomaly cfg f now_ns pm
  apply ticks_deep cfg now_ns pm = tick_deep cfg now_ns pm
  apply shuts_down cfg now_ns pm = shutdown cfg now_ns pm
  apply requests_deep cfg now_ns pm = request_deep cfg now_ns pm
  apply requests_base cfg now_ns pm = request_base cfg now_ns pm

  unfoldable pub run : PhaseManager → List Call → PhaseManager
  unfolding apply
  run pm [] = pm
  run pm (c ∷ cs) = run (apply c.operation c.cfg c.now_ns pm) cs
