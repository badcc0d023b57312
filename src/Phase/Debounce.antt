-- ===== src/Phase/Debounce.antt =====
-- How the anomaly results of a DEEP episode move its end (`TickAnomaly` of src/phase_manager.cpp).
use e_trace_diag.Prelude.{
  ℕ, suc, ◌+◌, ◌<◌, ◌^◌, false, List, [], ◌∷◌, ◌≡◌, arith, leb, ◌==◌, if◌then◌else◌, length, All,
}
use e_trace_diag.Config.{Config}
use e_trace_diag.Phase.Parts.{AnomalyResult, Parts}
use e_trace_diag.Phase.Machine.{deep, PhaseManager, note_result}

module _ {Double : Type 0} (p : Parts Double) where
  -- The results of an episode, each with its time, handed to the manager in turn.
  pub note_results :
      Config Double → PhaseManager p → List (AnomalyResult Double × ℕ) → PhaseManager p
  unfolding note_result
  note_results cfg pm [] = pm
  note_results cfg pm ((r, now) ∷ rs) = note_results cfg (note_result p cfg r now pm) rs

  -- In DEEP a result never re-times the episode: the phase, its number, its start, its deadline, the
  -- collector and what was written stay, and an end once set stays.
  pub note_result_keeps :
      (cfg : Config Double) (r : AnomalyResult Double) (now : ℕ) (pm : PhaseManager p)
      → pm.phase ≡ deep
      → let q = note_result p cfg r now pm in
        (q.phase ≡ deep)
        × (q.deep_ordinal ≡ pm.deep_ordinal)
        × (q.anomaly_start_ts ≡ pm.anomaly_start_ts)
        × (q.post_deadline_ns ≡ pm.post_deadline_ns)
        × (q.deep_collector ≡ pm.deep_collector)
        × (q.writer ≡ pm.writer)
        × (q.anomaly_end_ts
            ≡ (if pm.anomaly_end_ts == 0 then q.anomaly_end_ts else pm.anomaly_end_ts))
  unfolding note_result
  note_result_keeps cfg r now pm e = ground arith

  abbrev pub IsQuiet : AnomalyResult Double × ℕ → Type 0
  IsQuiet (r, now) = r.is_anomaly ≡ false

  note_quiet :
      (cfg : Config Double) (r : AnomalyResult Double) (now : ℕ) (pm : PhaseManager p)
      → pm.phase ≡ deep
      → r.is_anomaly ≡ false
      → pm.debounce + 1 < 2 ^ 32
      → let q = note_result p cfg r now pm in
        (q.phase ≡ deep)
        × (q.debounce ≡ pm.debounce + 1)
        × (q.first_false_ts ≡ (if pm.debounce == 0 then now else pm.first_false_ts))
        × (q.anomaly_end_ts ≡ (
            if pm.anomaly_end_ts == 0
            then if leb cfg.window.end_debounce_samples (pm.debounce + 1)
              then if pm.debounce == 0 then now else pm.first_false_ts
              else 0
            else pm.anomaly_end_ts))
  unfolding note_result
  note_quiet cfg r now pm e q h = ground arith

  quiet_run :
      (cfg : Config Double) (pm : PhaseManager p) (rs : List (AnomalyResult Double × ℕ))
      → pm.phase ≡ deep
      → All IsQuiet rs
      → 0 < pm.debounce
      → pm.debounce + length rs < 2 ^ 32
      → 0 < pm.first_false_ts
      → pm.anomaly_end_ts
        ≡ (if leb cfg.window.end_debounce_samples pm.debounce then pm.first_false_ts else 0)
      → (note_results cfg pm rs).anomaly_end_ts ≡ (
          if leb cfg.window.end_debounce_samples (pm.debounce + length rs)
          then pm.first_false_ts
          else 0)
  unfolding note_results
  quiet_run cfg pm [] e q d h f a = ground arith
  quiet_run cfg pm ((r, now) ∷ rs) e q d h f a =
      let k = note_quiet cfg r now pm e q.0 (omega arith) in
      ground (arith, quiet_run cfg (note_result p cfg r now pm) rs k.0 q.1)

  -- The debounce: from an episode with no end and no quiet result counted, a row of results without
  -- an anomaly (at most 2 ^ 32 - 1 of them, the first at a time that is not 0) sets the end to the
  -- time of the first of them exactly when it has at least `end_debounce_samples` results.
  pub quiet_end :
      (cfg : Config Double) (pm : PhaseManager p) (r : AnomalyResult Double) (now : ℕ)
      (rs : List (AnomalyResult Double × ℕ))
      → pm.phase ≡ deep
      → pm.debounce ≡ 0
      → pm.anomaly_end_ts ≡ 0
      → 0 < now
      → All IsQuiet ((r, now) ∷ rs)
      → suc (length rs) < 2 ^ 32
      → (note_results cfg pm ((r, now) ∷ rs)).anomaly_end_ts
        ≡ (if leb cfg.window.end_debounce_samples (suc (length rs)) then now else 0)
  unfolding note_results
  quiet_end cfg pm r now rs e d a t q h =
      let k = note_quiet cfg r now pm e q.0 (omega arith) in
      ground (arith, quiet_run cfg (note_result p cfg r now pm) rs k.0 q.1)
