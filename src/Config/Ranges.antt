-- ===== src/Config/Ranges.antt =====
-- The ranges of the numbers and names that `Sanitize` of src/config.cpp clamps, group by group.
use e_trace_diag.Prelude.{
  ℕ, String, Bool, true, false, not, ◌&&◌, ◌||◌, ◌≤◌, ◌≡◌, refl, inl, inr, arith, str_eq,
  Bool-cases,
}
use e_trace_diag.Config.Defs.{
  SampleTunables, WindowTunables, DeviceTunables, ModelTunables, OutputTunables,
}
use e_trace_diag.Config.Sanitize.{
  clamp, sanitize_sample, sanitize_window, sanitize_devices, sanitize_model, sanitize_output,
}

abbrev pub Within : ℕ → ℕ → ℕ → Type 0
Within lo hi x = (lo ≤ x) × (x ≤ hi)

pub clamp-Within : (v lo hi : ℕ) → lo ≤ hi → Within lo hi (clamp v lo hi)
unfolding clamp
clamp-Within v lo hi h = ground arith

pub clamp_id : (v lo hi : ℕ) → Within lo hi v → clamp v lo hi ≡ v
unfolding clamp
clamp_id v lo hi h = ground arith

pub record IsSaneSample (s : SampleTunables) : Type 0 where
  pub base_host_interval_ms : Within 100 60000 s.base_host_interval_ms
  pub base_feature_interval_ms : Within 100 60000 s.base_feature_interval_ms
  pub fine_interval_ms : Within 10 5000 s.fine_interval_ms
  pub deep_fine_interval_ms : Within 5 1000 s.deep_fine_interval_ms
  pub deep_dump_interval_ms : Within 100 60000 s.deep_dump_interval_ms
  pub profile_freq_hz : Within 1 10000 s.profile_freq_hz
  pub offcpu_sample_rate : Within 1 100000 s.offcpu_sample_rate
  pub iofile_sample_rate : Within 1 1000000 s.iofile_sample_rate
  pub overhead_interval_ms : Within 100 60000 s.overhead_interval_ms

pub sanitize_sample-IsSane : (s : SampleTunables) → IsSaneSample (sanitize_sample s)
unfolding sanitize_sample
sanitize_sample-IsSane s = record {
  base_host_interval_ms = clamp-Within s.base_host_interval_ms 100 60000 (omega arith);
  base_feature_interval_ms = clamp-Within s.base_feature_interval_ms 100 60000 (omega arith);
  fine_interval_ms = clamp-Within s.fine_interval_ms 10 5000 (omega arith);
  deep_fine_interval_ms = clamp-Within s.deep_fine_interval_ms 5 1000 (omega arith);
  deep_dump_interval_ms = clamp-Within s.deep_dump_interval_ms 100 60000 (omega arith);
  profile_freq_hz = clamp-Within s.profile_freq_hz 1 10000 (omega arith);
  offcpu_sample_rate = clamp-Within s.offcpu_sample_rate 1 100000 (omega arith);
  iofile_sample_rate = clamp-Within s.iofile_sample_rate 1 1000000 (omega arith);
  overhead_interval_ms = clamp-Within s.overhead_interval_ms 100 60000 (omega arith);
}

pub sane_sample_fixed : (s : SampleTunables) → IsSaneSample s → sanitize_sample s ≡ s
unfolding sanitize_sample
sane_sample_fixed s h = λ i. record {
  base_host_interval_ms = clamp_id s.base_host_interval_ms 100 60000 h.base_host_interval_ms i;
  base_feature_interval_ms =
      clamp_id s.base_feature_interval_ms 100 60000 h.base_feature_interval_ms i;
  fine_interval_ms = clamp_id s.fine_interval_ms 10 5000 h.fine_interval_ms i;
  deep_fine_interval_ms = clamp_id s.deep_fine_interval_ms 5 1000 h.deep_fine_interval_ms i;
  deep_dump_interval_ms = clamp_id s.deep_dump_interval_ms 100 60000 h.deep_dump_interval_ms i;
  profile_freq_hz = clamp_id s.profile_freq_hz 1 10000 h.profile_freq_hz i;
  offcpu_sample_rate = clamp_id s.offcpu_sample_rate 1 100000 h.offcpu_sample_rate i;
  iofile_sample_rate = clamp_id s.iofile_sample_rate 1 1000000 h.iofile_sample_rate i;
  overhead_interval_ms = clamp_id s.overhead_interval_ms 100 60000 h.overhead_interval_ms i;
}

pub record IsSaneWindow (w : WindowTunables) : Type 0 where
  pub pre_anomaly_seconds : Within 1 3600 w.pre_anomaly_seconds
  pub post_anomaly_seconds : Within 1 3600 w.post_anomaly_seconds
  pub ring_backlog_seconds : Within 1 3600 w.ring_backlog_seconds
  pub end_debounce_samples : Within 1 1000 w.end_debounce_samples
  pub end_grace_seconds : Within 0 3600 w.end_grace_seconds

pub sanitize_window-IsSane : (w : WindowTunables) → IsSaneWindow (sanitize_window w)
unfolding sanitize_window clamp
sanitize_window-IsSane w = ground arith

pub sane_window_fixed : (w : WindowTunables) → IsSaneWindow w → sanitize_window w ≡ w
unfolding sanitize_window clamp
sane_window_fixed w h = ground arith

abbrev pub IsGpuSource : String → Type 0
IsGpuSource s = (str_eq s "auto" || str_eq s "off" || str_eq s "nvml" || str_eq s "drm") ≡ true

abbrev pub IsAdapter : String → Type 0
IsAdapter s = (str_eq s "ws" || str_eq s "onnx") ≡ true

pub record IsSaneDevices (d : DeviceTunables) : Type 0 where
  pub deep_gpu_interval_ms : Within 10 5000 d.deep_gpu_interval_ms
  pub net_event_sample_rate : Within 1 100000 d.net_event_sample_rate
  pub gpu_source : IsGpuSource d.gpu_source

-- Where the test of a name fails the fallback stands, which passes it.
not_listed :
    (a b c d : Bool) → (not a && not b && not c && not d) ≡ false → (a || b || c || d) ≡ true
not_listed a b c d e = ground arith

pub sanitize_devices-IsSane : (d : DeviceTunables) → IsSaneDevices (sanitize_devices d)
unfolding sanitize_devices clamp
sanitize_devices-IsSane d = record {
  deep_gpu_interval_ms = ground arith;
  net_event_sample_rate = ground arith;
  gpu_source =
      elim (Bool-cases (
        not (str_eq d.gpu_source "auto")
        && not (str_eq d.gpu_source "off")
        && not (str_eq d.gpu_source "nvml")
        && not (str_eq d.gpu_source "drm"))) [
          | inl e ↦ rw e refl
          | inr e ↦ rw e (not_listed _ _ _ _ e)
        ];
}

pub sane_devices_fixed : (d : DeviceTunables) → IsSaneDevices d → sanitize_devices d ≡ d
unfolding sanitize_devices clamp
sane_devices_fixed d h = ground arith

pub sanitize_model-IsAdapter : (m : ModelTunables) → IsAdapter (sanitize_model m).adapter
unfolding sanitize_model
sanitize_model-IsAdapter m =
    elim (Bool-cases (not (str_eq m.adapter "ws") && not (str_eq m.adapter "onnx"))) [
      | inl e ↦ rw e refl
      | inr e ↦ rw e (ground arith)
    ]

pub sane_model_fixed : (m : ModelTunables) → IsAdapter m.adapter → sanitize_model m ≡ m
unfolding sanitize_model
sane_model_fixed m h = ground arith

abbrev pub IsOutputDir : String → Type 0
IsOutputDir s = str_eq s "" ≡ false

pub sanitize_output-IsOutputDir : (o : OutputTunables) → IsOutputDir (sanitize_output o).output_dir
unfolding sanitize_output
sanitize_output-IsOutputDir o = elim (Bool-cases (str_eq o.output_dir "")) [
  | inl e ↦ rw e refl
  | inr e ↦ rw e e
]

pub sane_output_fixed : (o : OutputTunables) → IsOutputDir o.output_dir → sanitize_output o ≡ o
unfolding sanitize_output
sane_output_fixed o h = ground arith
