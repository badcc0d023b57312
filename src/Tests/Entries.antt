-- ===== src/Tests/Entries.antt =====
-- Entries to DEEP with all programs, and with one that is refused (src/collect/deep_collector.cpp).
use e_trace_diag.Prelude.{
  true, false, ◌&&◌, ◌||◌, [], ◌∷◌, ◌++◌, some, none, ◌≡◌, refl, str_eq, if◌then◌else◌,
}
use e_trace_diag.Deep.Links.{Programs, refused, attached, syscall_primary, syscall_fallback}
use e_trace_diag.Deep.Collector.{DeepCollector, System, enter}
use e_trace_diag.Deep.Entry.{attaches, attached_before, enter_lem, enter_leaves_link}
use e_trace_diag.Tests.Floats.{defaults}

abbrev pub all_programs : Programs
all_programs = λ n. attached

abbrev first_only : Programs
first_only = λ n. if str_eq n "fentry_sys" then attached else refused "Invalid argument"

abbrev pub system_of : Programs → System
system_of p = record {
  programs = p;
  perf_events = some 4 ∷ none ∷ [];
  opens_deep = true;
  ring_head = some 12;
}

abbrev pub idle : DeepCollector
idle = record {
  ordinal = 0;
  active = false;
  anomaly_start_ns = 0;
  prev_head = 0;
  pre_interval_ms = 100;
  post_interval_ms = 20;
  next_dump_ns = 0;
  next_gpu_ns = 0;
  hooks = record { links = []; caps = [] };
  perf_fds = [];
  targets = [];
  effects = [];
}

enter_lem_example :
    ((enter (system_of all_programs) 1 5 defaults idle).0
      ≡ ((attaches all_programs syscall_primary || attaches all_programs syscall_fallback) && true))
    × ((enter (system_of all_programs) 1 5 defaults idle).1.active
        ≡ (enter (system_of all_programs) 1 5 defaults idle).0)
enter_lem_example = enter_lem (system_of all_programs) 1 5 defaults idle refl

enter_leaves_link_example :
    ((enter (system_of first_only) 1 5 defaults idle).0 ≡ false)
    × ((enter (system_of first_only) 1 5 defaults idle).1.active ≡ false)
    × ((enter (system_of first_only) 1 5 defaults idle).1.hooks.links
        ≡ []
          ++ (attached_before first_only syscall_primary
              ++ attached_before first_only syscall_fallback))
enter_leaves_link_example = enter_leaves_link (system_of first_only) 1 5 defaults idle refl refl
