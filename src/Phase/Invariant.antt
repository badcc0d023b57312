-- ===== src/Phase/Invariant.antt =====
-- What holds of `PhaseManager` (src/phase_manager.cpp) between two calls of the main loop.
use e_trace_diag.Prelude.{
  ℕ, suc, ◌+◌, ◌≤◌, ◌<◌, Bool, true, false, List, [], ◌∷◌, ◌++◌, ◌≡◌, refl, sym, ap, ◌∙◌, subst,
  arith, leb, if_cases,
}
use e_trace_diag.Config.{Config}
use e_trace_diag.Phase.Parts.{
  AnomalyResult, CausalReply, Written, Parts, DeepLaws, result, threw, diagnosis, meta, summary,
}
use e_trace_diag.Phase.Machine.{
  Phase, base, deep, PhaseManager, start, enter_deep, causal_context, diagnosis_written,
  finalize_deep, exit_deep, note_result, answer, by_phase_cases, Operation, ticks_anomaly,
  ticks_deep, shuts_down, requests_deep, requests_base, Call, apply, run,
}

-- `deep_active`.
abbrev pub is_deep : Phase → Bool
is_deep base = false
is_deep deep = true

-- Strictly falling from below the bound.
abbrev pub Falling : ℕ → List ℕ → Type 0
Falling n [] = Unit {0}
Falling n (k ∷ ks) = (k < n) × Falling k ks

Falling-mono : {m n : ℕ} (ks : List ℕ) → m ≤ n → Falling m ks → Falling n ks
Falling-mono [] h f = tt
Falling-mono (k ∷ ks) h f = (omega arith, f.1)

module _ {Double : Type 0} (p : Parts Double) where
  -- The ordinals of the summaries written, the latest first, and those of the meta data written.
  abbrev pub summarised : List (Written Double p.Extra) → List ℕ
  summarised [] = []
  summarised (diagnosis raw ∷ ws) = summarised ws
  summarised (meta s ∷ ws) = summarised ws
  summarised (summary s ∷ ws) = s.deep_ordinal ∷ summarised ws

  abbrev pub noted : List (Written Double p.Extra) → List ℕ
  noted [] = []
  noted (diagnosis raw ∷ ws) = noted ws
  noted (meta s ∷ ws) = s.deep_ordinal ∷ noted ws
  noted (summary s ∷ ws) = noted ws

  summarised-diagnosis :
      (opens : Bool) (r : CausalReply) (ws : List (Written Double p.Extra))
      → summarised (diagnosis_written p opens r ++ ws) ≡ summarised ws
  unfolding diagnosis_written
  summarised-diagnosis opens (result ok raw) ws = ground arith
  summarised-diagnosis opens (threw what) ws = refl

  noted-diagnosis :
      (opens : Bool) (r : CausalReply) (ws : List (Written Double p.Extra))
      → noted (diagnosis_written p opens r ++ ws) ≡ noted ws
  unfolding diagnosis_written
  noted-diagnosis opens (result ok raw) ws = ground arith
  noted-diagnosis opens (threw what) ws = refl

  -- In DEEP the current episode has no summary yet.
  abbrev pub next_ordinal : Phase → ℕ → ℕ
  next_ordinal base n = suc n
  next_ordinal deep n = n

  pub record Inv (pm : PhaseManager p) : Type 0 where
    pub agrees : p.active pm.deep_collector ≡ is_deep pm.phase
    pub once : Falling (next_ordinal pm.phase pm.deep_ordinal) (summarised pm.writer)
    pub alike : noted pm.writer ≡ summarised pm.writer

  pub start-Inv : (d : p.Deep) (m : p.Model) → p.active d ≡ false → Inv (start p d m)
  unfolding start
  start-Inv d m h = record { agrees = h; once = tt; alike = refl }

  module _ (laws : DeepLaws p) where
    enter_deep-Inv :
        (cfg : Config Double) (now : ℕ) (pm : PhaseManager p)
        → pm.phase ≡ base
        → Inv pm
        → Inv (enter_deep p cfg now pm)
    unfolding enter_deep
    enter_deep-Inv cfg now pm e v = ground (
      arith,
      laws.enter-active pm.deep_collector (pm.deep_ordinal + 1) now cfg,
      Falling-mono {m = suc pm.deep_ordinal} {n = suc (pm.deep_ordinal + 1)} (summarised pm.writer),
      Falling-mono {m = suc pm.deep_ordinal} {n = pm.deep_ordinal + 1} (summarised pm.writer),
    )

    close-Inv :
        (cfg : Config Double) (now : ℕ) (pm : PhaseManager p)
        → pm.phase ≡ deep
        → Inv pm
        → Inv (exit_deep p (finalize_deep p cfg now pm))
    unfolding finalize_deep exit_deep
    close-Inv cfg now pm e v = record {
      agrees = laws.exit-active _;
      once = (
        omega arith,
        subst (Falling pm.deep_ordinal) (sym (summarised-diagnosis opens reply pm.writer)) (
            subst (λ ph. Falling (next_ordinal ph pm.deep_ordinal) (summarised pm.writer)) e
              v.once),
      );
      alike =
          ap (λ ks. pm.deep_ordinal ∷ ks)
            (noted-diagnosis opens reply pm.writer
              ∙ v.alike
              ∙ sym (summarised-diagnosis opens reply pm.writer));
    }
      where
        collected : p.Deep
        collected = (p.finalize cfg pm.deep_collector).1

        opens : Bool
        opens = p.diagnosis_opens collected

        reply : CausalReply
        reply = (p.infer_causal pm.model (causal_context p cfg now pm collected)).0

    note_result-Inv :
        (cfg : Config Double) (r : AnomalyResult Double) (now : ℕ) (pm : PhaseManager p)
        → Inv pm
        → Inv (note_result p cfg r now pm)
    unfolding note_result
    note_result-Inv cfg r now pm v =
        by_phase_cases Inv pm.phase
          (λ e. if_cases Inv r.is_anomaly (λ _. enter_deep-Inv cfg now pm e v) (λ _. v))
          (λ e.
            if_cases Inv r.is_anomaly
              (λ _. record { agrees = v.agrees; once = v.once; alike = v.alike })
              (λ _. record { agrees = v.agrees; once = v.once; alike = v.alike }))

    -- Every call of the main loop, at any time and with any configuration, keeps the invariant.
    pub apply-Inv :
        (o : Operation p) (cfg : Config Double) (now : ℕ) (pm : PhaseManager p)
        → Inv pm
        → Inv (apply p o cfg now pm)
    unfolding apply
    apply-Inv (ticks_anomaly f) cfg now pm v =
        note_result-Inv cfg (answer p f (p.infer_anomaly pm.model f).0) now _
          (record { agrees = v.agrees; once = v.once; alike = v.alike })
    apply-Inv ticks_deep cfg now pm v =
        by_phase_cases Inv pm.phase (λ _. v)
          (λ e. if_cases Inv (leb pm.post_deadline_ns now) (λ _. close-Inv cfg now pm e v) (λ _. v))
    apply-Inv shuts_down cfg now pm v =
        by_phase_cases Inv pm.phase (λ _. v) (λ e. close-Inv cfg now pm e v)
    apply-Inv requests_deep cfg now pm v =
        by_phase_cases Inv pm.phase (λ e. enter_deep-Inv cfg now pm e v) (λ _. v)
    apply-Inv requests_base cfg now pm v =
        by_phase_cases Inv pm.phase (λ _. v) (λ e. close-Inv cfg now pm e v)

    run-Inv : (pm : PhaseManager p) (cs : List (Call p)) → Inv pm → Inv (run p pm cs)
    unfolding run
    run-Inv pm [] v = v
    run-Inv pm (c ∷ cs) v =
        run-Inv (apply p c.operation c.cfg c.now_ns pm) cs
          (apply-Inv c.operation c.cfg c.now_ns pm v)

    -- From a fresh manager around an inactive collector, after any calls: the manager is in DEEP
    -- exactly when the collector is active, the ordinals of the summaries written fall strictly
    -- from the latest to the first, in DEEP the current episode has none yet, and the meta data
    -- written have the same ordinals as the summaries, in the same order.
    pub run-start-Inv :
        (d : p.Deep) (m : p.Model) (cs : List (Call p))
        → p.active d ≡ false
        → Inv (run p (start p d m) cs)
    run-start-Inv d m cs h = run-Inv _ cs (start-Inv d m h)
