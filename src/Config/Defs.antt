-- ===== src/Config/Defs.antt =====
-- The structs of include/etrace_diag/config.h and `DefaultConfig` of src/config.cpp.
use e_trace_diag.Prelude.{ℕ, String, Bool, true, List, [], ◌∷◌}
use e_trace_diag.Prelude.Float.{Float}

pub record SampleTunables : Type 0 where
  pub base_host_interval_ms : ℕ
  pub base_feature_interval_ms : ℕ
  pub fine_interval_ms : ℕ
  pub deep_fine_interval_ms : ℕ
  pub deep_dump_interval_ms : ℕ
  pub profile_freq_hz : ℕ
  pub offcpu_sample_rate : ℕ
  pub iofile_sample_rate : ℕ
  pub overhead_interval_ms : ℕ

pub record WindowTunables : Type 0 where
  pub pre_anomaly_seconds : ℕ
  pub post_anomaly_seconds : ℕ
  pub ring_backlog_seconds : ℕ
  pub end_debounce_samples : ℕ
  pub end_grace_seconds : ℕ

pub record TargetWeights (Double : Type 0) : Type 0 where
  pub cpu : Double
  pub swch : Double
  pub io : Double
  pub fault : Double
  pub lock : Double

pub record TargetsTunables (Double : Type 0) : Type 0 where
  pub max_targets : ℕ
  pub auto_scale : Bool
  pub min_targets : ℕ
  pub per_proc_threads : ℕ
  pub concurrency_factor : Double
  pub eval_interval_ms : ℕ
  pub window_seconds : ℕ
  pub enter_rank : ℕ
  pub leave_rank : ℕ
  pub hold_periods : ℕ
  pub min_residency_seconds : ℕ
  pub pinned : List ℕ
  pub weights : TargetWeights Double

pub record DeviceTunables : Type 0 where
  pub network_enabled : Bool
  pub deep_network_enabled : Bool
  pub gpu_source : String
  pub deep_gpu_enabled : Bool
  pub deep_gpu_interval_ms : ℕ
  pub net_event_sample_rate : ℕ

pub record ModelTunables : Type 0 where
  pub anomaly_url : String
  pub anomaly_timeout_ms : ℕ
  pub causal_url : String
  pub causal_timeout_ms : ℕ
  pub adapter : String

pub record OutputTunables : Type 0 where
  pub output_dir : String  -- `dir`
  pub metrics_format : String
  pub profile_format : String

pub record MiscTunables : Type 0 where
  pub log_level : String
  pub categories : List String
  pub pid_filter : ℕ
  pub enable_bpf_stats : Bool

pub record Config (Double : Type 0) : Type 0 where
  pub sample : SampleTunables
  pub window : WindowTunables
  pub targets : TargetsTunables Double
  pub model : ModelTunables
  pub output : OutputTunables
  pub misc : MiscTunables
  pub devices : DeviceTunables

module _ (f : Float) where
  open f use {Double, milli}

  unfoldable pub default_weights : TargetWeights Double
  default_weights = record {
    cpu = milli 350;
    swch = milli 150;
    io = milli 200;
    fault = milli 150;
    lock = milli 150;
  }

  unfoldable pub default_config : Config Double
  unfolding default_weights
  default_config = record {
    sample = record {
      base_host_interval_ms = 1000;
      base_feature_interval_ms = 1000;
      fine_interval_ms = 100;
      deep_fine_interval_ms = 20;
      deep_dump_interval_ms = 1000;
      profile_freq_hz = 99;
      offcpu_sample_rate = 16;
      iofile_sample_rate = 4;
      overhead_interval_ms = 1000;
    };
    window = record {
      pre_anomaly_seconds = 60;
      post_anomaly_seconds = 180;
      ring_backlog_seconds = 90;
      end_debounce_samples = 3;
      end_grace_seconds = 5;
    };
    targets = record {
      max_targets = 64;
      auto_scale = true;
      min_targets = 4;
      per_proc_threads = 4;
      concurrency_factor = milli 2000;
      eval_interval_ms = 5000;
      window_seconds = 30;
      enter_rank = 12;
      leave_rank = 20;
      hold_periods = 3;
      min_residency_seconds = 10;
      pinned = [];
      weights = default_weights;
    };
    model = record {
      anomaly_url = "ws://127.0.0.1:9001/anomaly";
      anomaly_timeout_ms = 5000;
      causal_url = "ws://127.0.0.1:9002/causal";
      causal_timeout_ms = 30000;
      adapter = "ws";
    };
    output = record { output_dir = "out"; metrics_format = "jsonl"; profile_format = "folded" };
    misc = record {
      log_level = "info";
      categories = "cpu" ∷ "io" ∷ "memory" ∷ "lock" ∷ "syscall" ∷ [];
      pid_filter = 0;
      enable_bpf_stats = true;
    };
    devices = record {
      network_enabled = true;
      deep_network_enabled = true;
      gpu_source = "auto";
      deep_gpu_enabled = true;
      deep_gpu_interval_ms = 100;
      net_event_sample_rate = 16;
    };
  }
