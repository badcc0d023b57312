-- ===== src/Phase/Parts.antt =====
-- What the phase manager works with: the DEEP collector, the model client and the session writer,
-- as one interface with the laws of the collector, and the messages between them
-- (src/model/features.h, include/etrace_diag/model_client.h).
use e_trace_diag.Prelude.{ℕ, String, Bool, false, List, Option, ◌≡◌}
use e_trace_diag.Config.{Config}

-- `AnomalyIndicator` and `AnomalyResult`.
pub record AnomalyIndicator (Double : Type 0) : Type 0 where
  pub kind : String  -- `type`
  pub confidence : Double

pub record AnomalyResult (Double : Type 0) : Type 0 where
  pub seq : ℕ
  pub ts_ns : ℕ
  pub is_anomaly : Bool
  pub kind : String  -- `type`
  pub confidence : Double
  pub indicators : List (AnomalyIndicator Double)

-- The evidence of an episode: what the writer built and the fields that the manager adds.
pub record Evidence (Double Body : Type 0) : Type 0 where
  pub rows : Body
  pub anomaly_start_ts : ℕ
  pub anomaly_end_ts : ℕ
  pub deep_ordinal : ℕ
  pub deep_indicators : List (AnomalyIndicator Double)
  pub post_deadline_ts : ℕ

pub record CausalContext (Double Body : Type 0) : Type 0 where
  pub seq : ℕ
  pub window_start_ns : ℕ
  pub window_end_ns : ℕ
  pub body : Evidence Double Body

-- What a call of `InferCausal` comes back with: a result, or an exception and its `what()`.
pub data CausalReply : Type 0 where
  result : Bool → String → CausalReply
  threw : String → CausalReply

-- The field `causal` of a summary.
pub data CausalSummary : Type 0 where
  replied : Bool → String → CausalSummary
  failed : String → CausalSummary

pub record Summary (Double Extra : Type 0) : Type 0 where
  pub v : ℕ
  pub anomaly_start_ts : ℕ
  pub anomaly_end_ts : ℕ
  pub post_deadline_ts : ℕ
  pub deep_ordinal : ℕ
  pub deep_indicators : List (AnomalyIndicator Double)
  pub collector : Extra  -- what `DeepCollector::Finalize` adds
  pub causal : CausalSummary

-- What the manager writes to the session: `diagnosis.json`, `WriteMeta` and `WriteSummary`.
pub data Written (Double Extra : Type 0) : Type 0 where
  diagnosis : String → Written Double Extra
  meta : Summary Double Extra → Written Double Extra
  summary : Summary Double Extra → Written Double Extra

-- The collector, the model and the writer, as the manager calls them. `Deep` is the collector's
-- state with the rows that it has written, from which `BuildEvidence` reads.
pub record Parts (Double : Type 0) : Type 1 where
  pub Deep : Type 0
  pub Model : Type 0
  pub Features : Type 0
  pub Body : Type 0
  pub Extra : Type 0
  pub feature_seq : Features → ℕ
  pub feature_ts_ns : Features → ℕ
  pub zero : Double  -- the default confidence
  pub active : Deep → Bool
  pub enter : Deep → ℕ → ℕ → Config Double → Bool × Deep
  pub finalize : Config Double → Deep → Extra × Deep
  pub exit : Deep → Deep
  pub build_evidence : Deep → ℕ → Body
  pub diagnosis_opens : Deep → Bool  -- whether `fopen` of diagnosis.json succeeds
  -- `none` is an exception.
  pub infer_anomaly : Model → Features → Option (AnomalyResult Double) × Model
  pub infer_causal : Model → CausalContext Double Body → CausalReply × Model

-- What the manager relies on of the collector.
pub record DeepLaws {Double : Type 0} (p : Parts Double) : Type 0 where
  pub enter-active :
      (d : p.Deep) (ordinal now : ℕ) (cfg : Config Double)
      → p.active d ≡ false
      → p.active (p.enter d ordinal now cfg).1 ≡ (p.enter d ordinal now cfg).0
  pub finalize-active :
      (cfg : Config Double) (d : p.Deep) → p.active (p.finalize cfg d).1 ≡ p.active d
  pub exit-active : (d : p.Deep) → p.active (p.exit d) ≡ false
