-- ===== src/Phase/Window.antt =====
-- The anomaly window that `FinalizeDeep` of src/phase_manager.cpp reports, where the times of the
-- calls do not go back.
use e_trace_diag.Prelude.{ℕ, ◌≤◌, ◌<◌, List, [], ◌∷◌, ◌≡◌, ◌⊎◌}
use e_trace_diag.Config.{Config}
use e_trace_diag.Phase.Parts.{Summary, Written, Parts, diagnosis, meta, summary}
use e_trace_diag.Phase.Machine.{PhaseManager, Call}

module _ {Double : Type 0} (p : Parts Double) where
  -- The end is known and does not lie before the start.
  abbrev pub IsClosed : Summary Double p.Extra → Type 0
  IsClosed s = (s.anomaly_start_ts ≤ s.anomaly_end_ts) × (0 < s.anomaly_end_ts)

  -- Every summary written has a closed window.
  abbrev pub AllClosed : List (Written Double p.Extra) → Type 0
  AllClosed [] = Unit {0}
  AllClosed (diagnosis raw ∷ ws) = AllClosed ws
  AllClosed (meta s ∷ ws) = IsClosed s × AllClosed ws
  AllClosed (summary s ∷ ws) = IsClosed s × AllClosed ws

  -- The times of the calls, from `t` on, are positive and do not go back.
  abbrev pub Ordered : ℕ → List (Call p) → Type 0
  Ordered t [] = Unit {0}
  Ordered t (c ∷ cs) = (t ≤ c.now_ns) × (0 < c.now_ns) × Ordered c.now_ns cs

  -- What holds at time `t`.
  record Timed (t : ℕ) (pm : PhaseManager p) : Type 0 where
    started : pm.anomaly_start_ts ≤ t
    ended : (pm.anomaly_end_ts ≡ 0) ⊎ (pm.anomaly_start_ts ≤ pm.anomaly_end_ts)
    first :
        (pm.debounce ≡ 0) ⊎ ((pm.anomaly_start_ts ≤ pm.first_false_ts) × (0 < pm.first_false_ts))
    written : AllClosed pm.writer
