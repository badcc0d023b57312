-- ===== src/Config/Env/Outer.antt =====
-- The rows for the devices, the model, the output and the rest of `ApplyEnvOverrides` (src/config.cpp).
use e_trace_diag.Prelude.{List, [], ◌∷◌, u32}
use e_trace_diag.Config.Texts.{Numerals, parse_u64 as parse_number, parse_bool}
use e_trace_diag.Config.Env.Rows.{Entry}

module _ {Double : Type 0} (lib : Numerals Double) where
  unfoldable pub devices_entries : List (Entry Double)
  devices_entries =
      (
        "ETRACE_DIAG_DEVICES_NETWORK_ENABLED",
        λ v c. record c {
          devices = record c.devices { network_enabled = parse_bool v c.devices.network_enabled };
        },
      )
      ∷ (
        "ETRACE_DIAG_DEVICES_DEEP_NETWORK_ENABLED",
        λ v c. record c {
          devices = record c.devices {
            deep_network_enabled = parse_bool v c.devices.deep_network_enabled;
          };
        },
      )
      ∷ (
        "ETRACE_DIAG_DEVICES_GPU_SOURCE",
        λ v c. record c { devices = record c.devices { gpu_source = v } },
      )
      ∷ (
        "ETRACE_DIAG_DEVICES_DEEP_GPU_ENABLED",
        λ v c. record c {
          devices = record c.devices { deep_gpu_enabled = parse_bool v c.devices.deep_gpu_enabled };
        },
      )
      ∷ (
        "ETRACE_DIAG_DEVICES_DEEP_GPU_INTERVAL_MS",
        λ v c. record c {
          devices = record c.devices {
            deep_gpu_interval_ms = parse_number lib v c.devices.deep_gpu_interval_ms;
          };
        },
      )
      ∷ (
        "ETRACE_DIAG_DEVICES_NET_EVENT_SAMPLE_RATE",
        λ v c. record c {
          devices = record c.devices {
            net_event_sample_rate = u32 (parse_number lib v c.devices.net_event_sample_rate);
          };
        },
      )
      ∷ []

  unfoldable pub model_entries : List (Entry Double)
  model_entries =
      (
        "ETRACE_DIAG_MODEL_ANOMALY_URL",
        λ v c. record c { model = record c.model { anomaly_url = v } },
      )
      ∷ (
        "ETRACE_DIAG_MODEL_ANOMALY_TIMEOUT_MS",
        λ v c. record c {
          model = record c.model {
            anomaly_timeout_ms = parse_number lib v c.model.anomaly_timeout_ms;
          };
        },
      )
      ∷ (
        "ETRACE_DIAG_MODEL_CAUSAL_URL",
        λ v c. record c { model = record c.model { causal_url = v } },
      )
      ∷ (
        "ETRACE_DIAG_MODEL_CAUSAL_TIMEOUT_MS",
        λ v c. record c {
          model = record c.model {
            causal_timeout_ms = parse_number lib v c.model.causal_timeout_ms;
          };
        },
      )
      ∷ ("ETRACE_DIAG_MODEL_ADAPTER", λ v c. record c { model = record c.model { adapter = v } })
      ∷ []

  unfoldable pub output_entries : List (Entry Double)
  output_entries =
      ("ETRACE_DIAG_OUTPUT_DIR", λ v c. record c { output = record c.output { output_dir = v } })
      ∷ (
        "ETRACE_DIAG_OUTPUT_METRICS_FORMAT",
        λ v c. record c { output = record c.output { metrics_format = v } },
      )
      ∷ (
        "ETRACE_DIAG_OUTPUT_PROFILE_FORMAT",
        λ v c. record c { output = record c.output { profile_format = v } },
      )
      ∷ []

  unfoldable pub misc_entries : List (Entry Double)
  misc_entries =
      ("ETRACE_DIAG_MISC_LOG_LEVEL", λ v c. record c { misc = record c.misc { log_level = v } })
      ∷ (
        "ETRACE_DIAG_MISC_PID_FILTER",
        λ v c. record c {
          misc = record c.misc { pid_filter = parse_number lib v c.misc.pid_filter };
        },
      )
      ∷ (
        "ETRACE_DIAG_MISC_ENABLE_BPF_STATS",
        λ v c. record c {
          misc = record c.misc { enable_bpf_stats = parse_bool v c.misc.enable_bpf_stats };
        },
      )
      ∷ []
