-- ===== src/Config/Sanitize.antt =====
-- The clamp helpers and `Sanitize` of src/config.cpp, one function for each group of fields.
use e_trace_diag.Prelude.{ℕ, not, ◌&&◌, ltb, if◌then◌else◌, str_eq}
use e_trace_diag.Prelude.Float.{Float}
use e_trace_diag.Config.Defs.{
  SampleTunables, WindowTunables, TargetWeights, TargetsTunables, DeviceTunables, ModelTunables,
  OutputTunables, Config,
}

-- `ClampU64` and `ClampU32`.
unfoldable pub clamp : ℕ → ℕ → ℕ → ℕ
clamp v lo hi = if ltb v lo then lo else if ltb hi v then hi else v

unfoldable pub sanitize_sample : SampleTunables → SampleTunables
sanitize_sample s = record {
  base_host_interval_ms = clamp s.base_host_interval_ms 100 60000;
  base_feature_interval_ms = clamp s.base_feature_interval_ms 100 60000;
  fine_interval_ms = clamp s.fine_interval_ms 10 5000;
  deep_fine_interval_ms = clamp s.deep_fine_interval_ms 5 1000;
  deep_dump_interval_ms = clamp s.deep_dump_interval_ms 100 60000;
  profile_freq_hz = clamp s.profile_freq_hz 1 10000;
  offcpu_sample_rate = clamp s.offcpu_sample_rate 1 100000;
  iofile_sample_rate = clamp s.iofile_sample_rate 1 1000000;
  overhead_interval_ms = clamp s.overhead_interval_ms 100 60000;
}

unfoldable pub sanitize_window : WindowTunables → WindowTunables
sanitize_window w = record {
  pre_anomaly_seconds = clamp w.pre_anomaly_seconds 1 3600;
  post_anomaly_seconds = clamp w.post_anomaly_seconds 1 3600;
  ring_backlog_seconds = clamp w.ring_backlog_seconds 1 3600;
  end_debounce_samples = clamp w.end_debounce_samples 1 1000;
  end_grace_seconds = clamp w.end_grace_seconds 0 3600;
}

unfoldable pub sanitize_devices : DeviceTunables → DeviceTunables
sanitize_devices d = record d {
  deep_gpu_interval_ms = clamp d.deep_gpu_interval_ms 10 5000;
  net_event_sample_rate = clamp d.net_event_sample_rate 1 100000;
  gpu_source =
      if not (str_eq d.gpu_source "auto")
        && not (str_eq d.gpu_source "off")
        && not (str_eq d.gpu_source "nvml")
        && not (str_eq d.gpu_source "drm")
      then "auto"
      else d.gpu_source;
}

unfoldable pub sanitize_model : ModelTunables → ModelTunables
sanitize_model m = record m {
  adapter =
      if not (str_eq m.adapter "ws") && not (str_eq m.adapter "onnx") then "ws" else m.adapter;
}

unfoldable pub sanitize_output : OutputTunables → OutputTunables
sanitize_output o = record o { output_dir = if str_eq o.output_dir "" then "out" else o.output_dir }

module _ (f : Float) where
  open f use {Double, lt, milli}

  -- `ClampD`.
  unfoldable pub clamp_double : Double → Double → Double → Double
  clamp_double v lo hi = if lt v lo then lo else if lt hi v then hi else v

  unfoldable pub sanitize_weights : TargetWeights Double → TargetWeights Double
  sanitize_weights w = record {
    cpu = clamp_double w.cpu (milli 0) (milli 1000);
    swch = clamp_double w.swch (milli 0) (milli 1000);
    io = clamp_double w.io (milli 0) (milli 1000);
    fault = clamp_double w.fault (milli 0) (milli 1000);
    lock = clamp_double w.lock (milli 0) (milli 1000);
  }

  -- `min_targets` is clamped by the `max_targets` that is already clamped, and `leave_rank` by the
  -- `enter_rank`.
  unfoldable pub sanitize_targets : TargetsTunables Double → TargetsTunables Double
  sanitize_targets t =
      let max_targets = clamp t.max_targets 1 1024 in
      let enter_rank = clamp t.enter_rank 1 1024 in
      record t {
        weights = sanitize_weights t.weights;
        max_targets = max_targets;
        min_targets = clamp t.min_targets 1 max_targets;
        per_proc_threads = clamp t.per_proc_threads 1 256;
        eval_interval_ms = clamp t.eval_interval_ms 1000 3600000;
        window_seconds = clamp t.window_seconds 1 3600;
        concurrency_factor = clamp_double t.concurrency_factor (milli 500) (milli 64000);
        enter_rank = enter_rank;
        leave_rank = clamp t.leave_rank enter_rank 4096;
        hold_periods = clamp t.hold_periods 1 1000;
        min_residency_seconds = clamp t.min_residency_seconds 0 36000;
      }

  unfoldable pub sanitize : Config Double → Config Double
  unfolding sanitize_sample sanitize_window sanitize_targets sanitize_devices sanitize_model
      sanitize_output
  sanitize c = record c {
    sample = sanitize_sample c.sample;
    window = sanitize_window c.window;
    targets = sanitize_targets c.targets;
    devices = sanitize_devices c.devices;
    model = sanitize_model c.model;
    output = sanitize_output c.output;
  }
