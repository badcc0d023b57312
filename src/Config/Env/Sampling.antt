-- ===== src/Config/Env/Sampling.antt =====
-- The rows for the sampling and the windows of `ApplyEnvOverrides` (src/config.cpp).
use e_trace_diag.Prelude.{List, [], ◌∷◌, u32}
use e_trace_diag.Config.Texts.{Numerals, parse_u64 as parse_number}
use e_trace_diag.Config.Env.Rows.{Entry}

module _ {Double : Type 0} (lib : Numerals Double) where
  unfoldable pub sample_entries : List (Entry Double)
  sample_entries =
      (
        "ETRACE_DIAG_SAMPLE_BASE_HOST_INTERVAL_MS",
        λ v c. record c {
          sample = record c.sample {
            base_host_interval_ms = parse_number lib v c.sample.base_host_interval_ms;
          };
        },
      )
      ∷ (
        "ETRACE_DIAG_SAMPLE_BASE_FEATURE_INTERVAL_MS",
        λ v c. record c {
          sample = record c.sample {
            base_feature_interval_ms = parse_number lib v c.sample.base_feature_interval_ms;
          };
        },
      )
      ∷ (
        "ETRACE_DIAG_SAMPLE_FINE_INTERVAL_MS",
        λ v c. record c {
          sample = record c.sample {
            fine_interval_ms = parse_number lib v c.sample.fine_interval_ms;
          };
        },
      )
      ∷ (
        "ETRACE_DIAG_SAMPLE_DEEP_FINE_INTERVAL_MS",
        λ v c. record c {
          sample = record c.sample {
            deep_fine_interval_ms = parse_number lib v c.sample.deep_fine_interval_ms;
          };
        },
      )
      ∷ (
        "ETRACE_DIAG_SAMPLE_DEEP_DUMP_INTERVAL_MS",
        λ v c. record c {
          sample = record c.sample {
            deep_dump_interval_ms = parse_number lib v c.sample.deep_dump_interval_ms;
          };
        },
      )
      ∷ (
        "ETRACE_DIAG_SAMPLE_PROFILE_FREQ_HZ",
        λ v c. record c {
          sample = record c.sample {
            profile_freq_hz = parse_number lib v c.sample.profile_freq_hz;
          };
        },
      )
      ∷ (
        "ETRACE_DIAG_SAMPLE_OFFCPU_SAMPLE_RATE",
        λ v c. record c {
          sample = record c.sample {
            offcpu_sample_rate = u32 (parse_number lib v c.sample.offcpu_sample_rate);
          };
        },
      )
      ∷ (
        "ETRACE_DIAG_SAMPLE_IOFILE_SAMPLE_RATE",
        λ v c. record c {
          sample = record c.sample {
            iofile_sample_rate = u32 (parse_number lib v c.sample.iofile_sample_rate);
          };
        },
      )
      ∷ (
        "ETRACE_DIAG_SAMPLE_OVERHEAD_INTERVAL_MS",
        λ v c. record c {
          sample = record c.sample {
            overhead_interval_ms = parse_number lib v c.sample.overhead_interval_ms;
          };
        },
      )
      ∷ []

  unfoldable pub window_entries : List (Entry Double)
  window_entries =
      (
        "ETRACE_DIAG_WINDOW_PRE_ANOMALY_SECONDS",
        λ v c. record c {
          window = record c.window {
            pre_anomaly_seconds = parse_number lib v c.window.pre_anomaly_seconds;
          };
        },
      )
      ∷ (
        "ETRACE_DIAG_WINDOW_POST_ANOMALY_SECONDS",
        λ v c. record c {
          window = record c.window {
            post_anomaly_seconds = parse_number lib v c.window.post_anomaly_seconds;
          };
        },
      )
      ∷ (
        "ETRACE_DIAG_WINDOW_RING_BACKLOG_SECONDS",
        λ v c. record c {
          window = record c.window {
            ring_backlog_seconds = parse_number lib v c.window.ring_backlog_seconds;
          };
        },
      )
      ∷ (
        "ETRACE_DIAG_WINDOW_END_DEBOUNCE_SAMPLES",
        λ v c. record c {
          window = record c.window {
            end_debounce_samples = u32 (parse_number lib v c.window.end_debounce_samples);
          };
        },
      )
      ∷ (
        "ETRACE_DIAG_WINDOW_END_GRACE_SECONDS",
        λ v c. record c {
          window = record c.window {
            end_grace_seconds = parse_number lib v c.window.end_grace_seconds;
          };
        },
      )
      ∷ []
