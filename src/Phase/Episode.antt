-- ===== src/Phase/Episode.antt =====
-- How long a DEEP episode lasts, and how it ends (`TickDeep` of src/phase_manager.cpp).
use e_trace_diag.Prelude.{
  ℕ, ◌≤◌, ◌<◌, List, [], ◌∷◌, ◌++◌, some, none, Option, String, Bool, not, ◌&&◌, str_eq, if_cases,
  ap, ◌≡◌, refl, sym, subst, ◌∙◌, arith, All,
}
use e_trace_diag.Config.{Config}
use e_trace_diag.Phase.Parts.{
  AnomalyResult, CausalReply, Summary, Written, Parts, meta, summary, diagnosis, result, threw,
}
use e_trace_diag.Phase.Machine.{
  base, deep, PhaseManager, causal_summary, closed_end, causal_context, diagnosis_written,
  finalize_deep, exit_deep, note_result, answer, tick_deep, Operation, ticks_anomaly, ticks_deep,
  shuts_down, requests_deep, requests_base, Call, apply, run,
}
use e_trace_diag.Phase.Debounce.{note_result_keeps}

module _ {Double : Type 0} (p : Parts Double) where
  -- A call that comes before the deadline and does not ask for the end.
  abbrev pub StaysInside : ℕ → Operation p → ℕ → Type 0
  StaysInside deadline (ticks_anomaly f) now = Unit {0}
  StaysInside deadline ticks_deep now = now < deadline
  StaysInside deadline shuts_down now = ⊥
  StaysInside deadline requests_deep now = Unit {0}
  StaysInside deadline requests_base now = ⊥

  abbrev pub IsInside : ℕ → Call p → Type 0
  IsInside deadline c = StaysInside deadline c.operation c.now_ns

  -- The same episode goes on: nothing but its indicators, its debounce and its end may differ.
  pub record SameEpisode (pm q : PhaseManager p) : Type 0 where
    pub phase : q.phase ≡ deep
    pub deep_ordinal : q.deep_ordinal ≡ pm.deep_ordinal
    pub anomaly_start_ts : q.anomaly_start_ts ≡ pm.anomaly_start_ts
    pub post_deadline_ns : q.post_deadline_ns ≡ pm.post_deadline_ns
    pub deep_collector : q.deep_collector ≡ pm.deep_collector
    pub writer : q.writer ≡ pm.writer

  SameEpisode-trans : {a b c : PhaseManager p} → SameEpisode a b → SameEpisode b c → SameEpisode a c
  SameEpisode-trans h k = record {
    phase = k.phase;
    deep_ordinal = k.deep_ordinal ∙ h.deep_ordinal;
    anomaly_start_ts = k.anomaly_start_ts ∙ h.anomaly_start_ts;
    post_deadline_ns = k.post_deadline_ns ∙ h.post_deadline_ns;
    deep_collector = k.deep_collector ∙ h.deep_collector;
    writer = k.writer ∙ h.writer;
  }

  note_result-SameEpisode :
      (cfg : Config Double) (r : AnomalyResult Double) (now : ℕ) (pm : PhaseManager p)
      → pm.phase ≡ deep
      → SameEpisode pm (note_result p cfg r now pm)
  note_result-SameEpisode cfg r now pm e =
      let h = note_result_keeps p cfg r now pm e in
      record {
        phase = h.0;
        deep_ordinal = h.1;
        anomaly_start_ts = h.2;
        post_deadline_ns = h.3;
        deep_collector = h.4;
        writer = h.5;
      }

  apply-SameEpisode :
      (o : Operation p) (cfg : Config Double) (now : ℕ) (pm : PhaseManager p)
      → pm.phase ≡ deep
      → StaysInside pm.post_deadline_ns o now
      → SameEpisode pm (apply p o cfg now pm)
  unfolding apply
  apply-SameEpisode (ticks_anomaly f) cfg now pm e h =
      let q =
        note_result-SameEpisode cfg (answer p f (p.infer_anomaly pm.model f).0) now
          (record pm { model = (p.infer_anomaly pm.model f).1 }) e in
      record {
        phase = q.phase;
        deep_ordinal = q.deep_ordinal;
        anomaly_start_ts = q.anomaly_start_ts;
        post_deadline_ns = q.post_deadline_ns;
        deep_collector = q.deep_collector;
        writer = q.writer;
      }
  apply-SameEpisode ticks_deep cfg now pm e h = ground arith
  apply-SameEpisode shuts_down cfg now pm e h = absurd h
  apply-SameEpisode requests_deep cfg now pm e h = ground arith
  apply-SameEpisode requests_base cfg now pm e h = absurd h

  run-SameEpisode :
      (pm : PhaseManager p) (cs : List (Call p))
      → pm.phase ≡ deep
      → All (IsInside pm.post_deadline_ns) cs
      → SameEpisode pm (run p pm cs)
  unfolding run
  run-SameEpisode pm [] e h = record {
    phase = e;
    deep_ordinal = refl;
    anomaly_start_ts = refl;
    post_deadline_ns = refl;
    deep_collector = refl;
    writer = refl;
  }
  run-SameEpisode pm (c ∷ cs) e h =
      let q = apply p c.operation c.cfg c.now_ns pm in
      let s = apply-SameEpisode c.operation c.cfg c.now_ns pm e h.0 in
      SameEpisode-trans s (
        run-SameEpisode q cs s.phase
          (subst (λ d. All (IsInside d) cs) (sym s.post_deadline_ns) h.1))

  -- The causal model's answer, if one is written.
  abbrev pub diagnosis_of : Option String → List (Written Double p.Extra)
  diagnosis_of none = []
  diagnosis_of (some raw) = diagnosis raw ∷ []

  -- The manager has closed the episode of `pm`: it is back in BASE, the collector was finalized and
  -- left, and on top of what was written stand at most one diagnosis and one report of that episode,
  -- once as meta data and once as summary, and nothing else.
  pub record IsOver (cfg : Config Double) (pm q : PhaseManager p) : Type 0 where
    pub phase : q.phase ≡ base
    pub collector : q.deep_collector ≡ p.exit (p.finalize cfg pm.deep_collector).1
    pub report : Summary Double p.Extra
    pub reported : q.last_summary ≡ some report
    pub ordinal : report.deep_ordinal ≡ pm.deep_ordinal
    pub started : report.anomaly_start_ts ≡ pm.anomaly_start_ts
    pub deadline : report.post_deadline_ts ≡ pm.post_deadline_ns
    pub answered : Option String
    pub written : q.writer ≡ summary report ∷ meta report ∷ (diagnosis_of answered ++ pm.writer)

  -- At most one diagnosis is written for a reply.
  diagnosis_written-of :
      (opens : Bool) (r : CausalReply)
      → (a : Option String) × (diagnosis_written p opens r ≡ diagnosis_of a)
  unfolding diagnosis_written
  diagnosis_written-of opens (result ok raw) =
      if_cases (λ (ws : List (Written Double p.Extra)). (a : Option String) × (ws ≡ diagnosis_of a))
        (ok && not (str_eq raw "") && opens) (λ e. (some raw, refl)) (λ e. (none, refl))
  diagnosis_written-of opens (threw what) = (none, refl)

  close-IsOver :
      (cfg : Config Double) (now : ℕ) (pm : PhaseManager p)
      → IsOver cfg pm (exit_deep p (finalize_deep p cfg now pm))
  unfolding finalize_deep exit_deep
  close-IsOver cfg now pm =
      let collected = (p.finalize cfg pm.deep_collector).1 in
      let reply = (p.infer_causal pm.model (causal_context p cfg now pm collected)).0 in
      let one = diagnosis_written-of (p.diagnosis_opens collected) reply in
      let s : Summary Double p.Extra = record {
        v = 2;
        anomaly_start_ts = pm.anomaly_start_ts;
        anomaly_end_ts = closed_end p now pm;
        post_deadline_ts = pm.post_deadline_ns;
        deep_ordinal = pm.deep_ordinal;
        deep_indicators = pm.indicators;
        collector = (p.finalize cfg pm.deep_collector).0;
        causal = causal_summary p reply;
      } in
      record {
        phase = refl;
        collector = refl;
        report = s;
        reported = refl;
        ordinal = refl;
        started = refl;
        deadline = refl;
        answered = one.0;
        written = ap (λ ws. summary s ∷ meta s ∷ (ws ++ pm.writer)) one.1;
      }

  tick_deep-closes :
      (cfg : Config Double) (now : ℕ) (pm : PhaseManager p)
      → pm.phase ≡ deep
      → pm.post_deadline_ns ≤ now
      → tick_deep p cfg now pm ≡ exit_deep p (finalize_deep p cfg now pm)
  unfolding tick_deep
  tick_deep-closes cfg now pm e h = ground arith

  -- In DEEP, after any calls that neither shut the manager down, nor ask for BASE, nor tick the
  -- collector's deadline at or after the deadline: the episode is the same, with its start, its
  -- deadline, its number, the collector and the writes as they were; and the first deadline tick
  -- that then comes at or after the deadline closes it: the manager is back in BASE, and what is
  -- written is one report of that episode, as meta data and as summary, and at most one diagnosis.
  pub episode_ends :
      (pm : PhaseManager p) (cs : List (Call p)) (cfg : Config Double) (now : ℕ)
      → pm.phase ≡ deep
      → All (IsInside pm.post_deadline_ns) cs
      → pm.post_deadline_ns ≤ now
      → SameEpisode pm (run p pm cs) × IsOver cfg (run p pm cs) (tick_deep p cfg now (run p pm cs))
  episode_ends pm cs cfg now e h late =
      let s = run-SameEpisode pm cs e h in
      (
        s,
        subst (IsOver cfg (run p pm cs))
            (sym
              (tick_deep-closes cfg now (run p pm cs) s.phase (omega (arith, s.post_deadline_ns))))
            (close-IsOver cfg now (run p pm cs)),
      )
