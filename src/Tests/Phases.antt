-- ===== src/Tests/Phases.antt =====
-- An anomaly, quiet results, the deadline and a manual request, through `PhaseManager`
-- (src/phase_manager.cpp).
use e_trace_diag.Prelude.{
  ℕ, ◌≡◌, refl, Bool, true, false, List, [], ◌∷◌, some, arith, leb, if◌then◌else◌,
}
use e_trace_diag.Config.{default_config}
use e_trace_diag.Phase.Parts.{AnomalyResult, Parts, DeepLaws, result}
use e_trace_diag.Phase.Machine.{
  PhaseManager, start, run, Call, ticks_anomaly, ticks_deep, tick_deep, enter_deep,
}
use e_trace_diag.Phase.Invariant.{Inv, run-start-Inv}
use e_trace_diag.Phase.Debounce.{note_results, quiet_end}
use e_trace_diag.Phase.Episode.{SameEpisode, IsOver, episode_ends}
use e_trace_diag.Tests.Floats.{defaults}

abbrev finding : Bool → AnomalyResult ℕ
finding b = record {
  seq = 1;
  ts_ns = 0;
  is_anomaly = b;
  kind = "cpu";
  confidence = 900;
  indicators = [];
}

-- The collector's state is whether it is active; a feature is whether it shows an anomaly.
abbrev parts : Parts ℕ
parts = record {
  Deep = Bool;
  Model = Unit;
  Features = Bool;
  Body = ℕ;
  Extra = ℕ;
  feature_seq = λ f. 1;
  feature_ts_ns = λ f. 0;
  zero = 0;
  active = λ d. d;
  enter = λ d n now cfg. (true, true);
  finalize = λ cfg d. (0, d);
  exit = λ d. false;
  build_evidence = λ d n. n;
  diagnosis_opens = λ d. true;
  infer_anomaly = λ m f. (some (finding f), m);
  infer_causal = λ m c. (result true "cause", m);
}

abbrev laws : DeepLaws parts
laws = record {
  enter-active = λ d n now cfg h. refl;
  finalize-active = λ cfg d. refl;
  exit-active = λ d. refl;
}

abbrev idle : PhaseManager parts
idle = start parts false tt

abbrev in_deep : PhaseManager parts
in_deep = enter_deep parts defaults 5 idle

abbrev anomaly_at : ℕ → Call parts
anomaly_at t = record { cfg = defaults; now_ns = t; operation = ticks_anomaly true }

abbrev quiet_at : ℕ → Call parts
quiet_at t = record { cfg = defaults; now_ns = t; operation = ticks_anomaly false }

abbrev deadline_at : ℕ → Call parts
deadline_at t = record { cfg = defaults; now_ns = t; operation = ticks_deep }

abbrev calls : List (Call parts)
calls =
    anomaly_at 5 ∷ quiet_at 6 ∷ quiet_at 7 ∷ deadline_at 200000000000 ∷ anomaly_at 300000000000 ∷ []

run-start-Inv_example : Inv parts (run parts (start parts false tt) calls)
run-start-Inv_example = run-start-Inv parts laws false tt calls refl

episode_ends_example :
    SameEpisode parts in_deep (run parts in_deep (quiet_at 6 ∷ deadline_at 9 ∷ []))
    × IsOver parts defaults (run parts in_deep (quiet_at 6 ∷ deadline_at 9 ∷ [])) (
        tick_deep parts defaults 180000000005 (run parts in_deep (quiet_at 6 ∷ deadline_at 9 ∷ [])))
unfolding enter_deep default_config
episode_ends_example =
    episode_ends parts in_deep (quiet_at 6 ∷ deadline_at 9 ∷ []) defaults 180000000005 refl
      (omega arith) (omega arith)

quiet_end_example :
    (note_results parts defaults in_deep
      ((finding false, 6) ∷ (finding false, 7) ∷ [])).anomaly_end_ts
    ≡ (if leb defaults.window.end_debounce_samples 2 then 6 else 0)
unfolding enter_deep
quiet_end_example =
    quiet_end parts defaults in_deep (finding false) 6 ((finding false, 7) ∷ []) refl refl refl
      (omega arith) (refl, (refl, tt)) (omega arith)
