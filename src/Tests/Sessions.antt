-- ===== src/Tests/Sessions.antt =====
-- A session of three iterations of the main loop (src/app.cpp): an anomaly that starts an episode, a
-- reload in the middle of it, and the end of the session.
use e_trace_diag.Prelude.{ℕ, true, false, List, [], ◌∷◌, ◌++◌, some, none, ◌≡◌, refl}
use e_trace_diag.Phase.Parts.{result}
use e_trace_diag.Phase.Machine.{start}
use e_trace_diag.Config.{default_config}
use e_trace_diag.App.Loop.{Services, IntervalLaws, Turn, begin_loop, run_loop, run_collector}
use e_trace_diag.App.LoopInv.{Closed}
use e_trace_diag.App.Collector.{
  Collector, Others, InPhase, collector_parts, collector_duties, run_loop-collector,
  run_collector-collector,
}
use e_trace_diag.Tests.Floats.{defaults}
use e_trace_diag.Tests.Entries.{all_programs, system_of, idle}

abbrev collector : Collector
collector = record {
  members = idle;
  entered = 0;
  finalized = 0;
  systems = λ n. system_of all_programs;
  clocks = λ n. n;
}

-- Every feature shows an anomaly.
abbrev others : Others ℕ
others = record {
  Model = Unit;
  Features = ℕ;
  Body = ℕ;
  Extra = ℕ;
  feature_seq = λ f. f;
  feature_ts_ns = λ f. f;
  zero_confidence = 0;
  extra = λ d. d.ordinal;
  build_evidence = λ d n. n;
  diagnosis_opens = λ d. true;
  infer_anomaly = λ m f. (
    some (record {
      seq = f;
      ts_ns = f;
      is_anomaly = true;
      kind = "cpu";
      confidence = 900;
      indicators = [];
    }),
    m,
  );
  infer_causal = λ m c. (result true "cause", m);
}

-- The last of a list.
abbrev latest : ℕ → List ℕ → ℕ
latest d [] = d
latest d (x ∷ xs) = latest x xs

-- The rest is the list of the intervals that were set, after the first.
abbrev services : Services (collector_parts others)
services = record {
  Rest = List ℕ;
  reload = λ old new r. r;
  host_tick = λ cfg r. r;
  overhead_tick = λ now last r. r;
  member_threads = λ r. 7 ∷ [];
  features = λ cfg seq r. (seq, r);
  table_empty = λ r. false;
  evaluate = λ cfg now r. r;
  set_interval = λ ms r. r ++ ms ∷ [];
  interval_ms = λ r. latest 100 r;
  close = λ r. r;
}

abbrev turn : Turn ℕ
turn = record {
  stop = false;
  clock = 5;
  reload = none;
  now = 5;
  deep_request = false;
  base_request = false;
}

abbrev turns : List (Turn ℕ)
turns = turn ∷ record turn { reload = some defaults } ∷ record turn { now = 9 } ∷ []

latest-append : (d ms : ℕ) (r : List ℕ) → latest d (r ++ ms ∷ []) ≡ ms
latest-append d ms [] = refl
latest-append d ms (x ∷ r) = latest-append x ms r

services-IntervalLaws : IntervalLaws services
services-IntervalLaws = record {
  set_interval-interval = λ ms r. latest-append 100 ms r;
  reload-interval = λ old new r. refl;
  host_tick-interval = λ cfg r. refl;
  overhead_tick-interval = λ now last r. refl;
  features-interval = λ cfg seq r. refl;
  evaluate-interval = λ cfg now r. refl;
}

run_loop-collector_example : InPhase others services (
    run_loop (collector_parts others) (collector_duties others) services 0 5 turns (
      begin_loop
        (collector_parts others)
        (collector_duties others)
        services
        defaults
        (start (collector_parts others) collector tt)
        []))
unfolding default_config
run_loop-collector_example =
    run_loop-collector others services services-IntervalLaws 0 5 turns defaults collector tt [] refl
      refl

run_collector-collector_example :
    Closed (collector_parts others) (collector_duties others) services (
      run_collector (collector_parts others) (collector_duties others) services 0 5 20 turns (
        begin_loop
          (collector_parts others)
          (collector_duties others)
          services
          defaults
          (start (collector_parts others) collector tt)
          []))
run_collector-collector_example =
    run_collector-collector others services 0 5 20 turns defaults collector tt [] refl
