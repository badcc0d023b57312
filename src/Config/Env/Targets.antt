-- ===== src/Config/Env/Targets.antt =====
-- The rows for the target selector of `ApplyEnvOverrides` (src/config.cpp).
use e_trace_diag.Prelude.{List, [], ◌∷◌, u32}
use e_trace_diag.Config.Texts.{
  Numerals, parse_u64 as parse_number, parse_d as parse_double, parse_bool,
}
use e_trace_diag.Config.Env.Rows.{Entry}

module _ {Double : Type 0} (lib : Numerals Double) where
  unfoldable pub targets_entries : List (Entry Double)
  targets_entries =
      (
        "ETRACE_DIAG_TARGETS_MAX_TARGETS",
        λ v c. record c {
          targets = record c.targets {
            max_targets = u32 (parse_number lib v c.targets.max_targets);
          };
        },
      )
      ∷ (
        "ETRACE_DIAG_TARGETS_ENTER_RANK",
        λ v c. record c {
          targets = record c.targets { enter_rank = u32 (parse_number lib v c.targets.enter_rank) };
        },
      )
      ∷ (
        "ETRACE_DIAG_TARGETS_LEAVE_RANK",
        λ v c. record c {
          targets = record c.targets { leave_rank = u32 (parse_number lib v c.targets.leave_rank) };
        },
      )
      ∷ (
        "ETRACE_DIAG_TARGETS_HOLD_PERIODS",
        λ v c. record c {
          targets = record c.targets {
            hold_periods = u32 (parse_number lib v c.targets.hold_periods);
          };
        },
      )
      ∷ (
        "ETRACE_DIAG_TARGETS_MIN_RESIDENCY_SECONDS",
        λ v c. record c {
          targets = record c.targets {
            min_residency_seconds = parse_number lib v c.targets.min_residency_seconds;
          };
        },
      )
      ∷ (
        "ETRACE_DIAG_TARGETS_AUTO_SCALE",
        λ v c. record c {
          targets = record c.targets { auto_scale = parse_bool v c.targets.auto_scale };
        },
      )
      ∷ (
        "ETRACE_DIAG_TARGETS_MIN_TARGETS",
        λ v c. record c {
          targets = record c.targets {
            min_targets = u32 (parse_number lib v c.targets.min_targets);
          };
        },
      )
      ∷ (
        "ETRACE_DIAG_TARGETS_PER_PROC_THREADS",
        λ v c. record c {
          targets = record c.targets {
            per_proc_threads = u32 (parse_number lib v c.targets.per_proc_threads);
          };
        },
      )
      ∷ (
        "ETRACE_DIAG_TARGETS_CONCURRENCY_FACTOR",
        λ v c. record c {
          targets = record c.targets {
            concurrency_factor = parse_double lib v c.targets.concurrency_factor;
          };
        },
      )
      ∷ (
        "ETRACE_DIAG_TARGETS_EVAL_INTERVAL_MS",
        λ v c. record c {
          targets = record c.targets {
            eval_interval_ms = parse_number lib v c.targets.eval_interval_ms;
          };
        },
      )
      ∷ (
        "ETRACE_DIAG_TARGETS_WINDOW_SECONDS",
        λ v c. record c {
          targets = record c.targets {
            window_seconds = parse_number lib v c.targets.window_seconds;
          };
        },
      )
      ∷ (
        "ETRACE_DIAG_TARGETS_WEIGHT_CPU",
        λ v c. record c {
          targets = record c.targets {
            weights = record c.targets.weights { cpu = parse_double lib v c.targets.weights.cpu };
          };
        },
      )
      ∷ (
        "ETRACE_DIAG_TARGETS_WEIGHT_SWITCH",
        λ v c. record c {
          targets = record c.targets {
            weights = record c.targets.weights { swch = parse_double lib v c.targets.weights.swch };
          };
        },
      )
      ∷ (
        "ETRACE_DIAG_TARGETS_WEIGHT_IO",
        λ v c. record c {
          targets = record c.targets {
            weights = record c.targets.weights { io = parse_double lib v c.targets.weights.io };
          };
        },
      )
      ∷ (
        "ETRACE_DIAG_TARGETS_WEIGHT_FAULT",
        λ v c. record c {
          targets = record c.targets {
            weights = record c.targets.weights {
              fault = parse_double lib v c.targets.weights.fault;
            };
          };
        },
      )
      ∷ (
        "ETRACE_DIAG_TARGETS_WEIGHT_LOCK",
        λ v c. record c {
          targets = record c.targets {
            weights = record c.targets.weights { lock = parse_double lib v c.targets.weights.lock };
          };
        },
      )
      ∷ []
