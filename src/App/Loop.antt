-- ===== src/App/Loop.antt =====
-- `RunCollector` of src/app.cpp from its loop on: one iteration, the loop and the shutdown. The phase
-- manager is modelled, with the collector inside it; the other parts are the interface `Services`.
use e_trace_diag.Prelude.{
  ℕ, ◌+◌, Bool, not, ◌&&◌, ◌||◌, List, [], ◌∷◌, Option, some, none, leb, ◌==◌, if◌then◌else◌, u64,
  sub64, millis_ns, seconds_ns, ◌≡◌,
}
use e_trace_diag.Config.{Config}
use e_trace_diag.Phase.Parts.{Parts}
use e_trace_diag.Phase.Machine.{
  by_phase, PhaseManager, tick_anomaly, tick_deep, shutdown, request_deep, request_base,
}

-- What the loop itself does with the collector: `SetTargetProcesses` and `Tick`.
pub record Duties {Double : Type 0} (p : Parts Double) : Type 0 where
  pub hand_over : List ℕ → p.Deep → p.Deep
  pub tick : ℕ → Config Double → p.Deep → p.Deep

-- Neither opens nor closes an episode.
pub record DutyLaws {Double : Type 0} {p : Parts Double} (duties : Duties p) : Type 0 where
  pub hand_over-active :
      (tids : List ℕ) (d : p.Deep) → p.active (duties.hand_over tids d) ≡ p.active d
  pub tick-active :
      (now : ℕ) (cfg : Config Double) (d : p.Deep) → p.active (duties.tick now cfg d) ≡ p.active d

-- The manager of the maps, the readers, the writer and the selector, with what the last host tick
-- read, as one state.
pub record Services {Double : Type 0} (p : Parts Double) : Type 1 where
  pub Rest : Type 0
  pub reload : Config Double → Config Double → Rest → Rest  -- the old and the new configuration
  pub host_tick : Config Double → Rest → Rest
  pub overhead_tick : ℕ → ℕ → Rest → Rest  -- the time, and that of the last tick
  pub member_threads : Rest → List ℕ
  pub features : Config Double → ℕ → Rest → p.Features × Rest
  pub table_empty : Rest → Bool
  pub evaluate : Config Double → ℕ → Rest → Rest
  pub set_interval : ℕ → Rest → Rest
  pub interval_ms : Rest → ℕ  -- the interval that the recorder's producer has
  pub close : Rest → Rest

-- `SetSnapshotInterval` succeeds, and nothing else that the loop calls changes the interval.
pub record IntervalLaws {Double : Type 0} {p : Parts Double} (services : Services p) : Type 0 where
  pub set_interval-interval :
      (ms : ℕ) (r : services.Rest) → services.interval_ms (services.set_interval ms r) ≡ ms
  pub reload-interval :
      (old new : Config Double) (r : services.Rest)
      → services.interval_ms (services.reload old new r) ≡ services.interval_ms r
  pub host_tick-interval :
      (cfg : Config Double) (r : services.Rest)
      → services.interval_ms (services.host_tick cfg r) ≡ services.interval_ms r
  pub overhead_tick-interval :
      (now last : ℕ) (r : services.Rest)
      → services.interval_ms (services.overhead_tick now last r) ≡ services.interval_ms r
  pub features-interval :
      (cfg : Config Double) (seq : ℕ) (r : services.Rest)
      → services.interval_ms (services.features cfg seq r).1 ≡ services.interval_ms r
  pub evaluate-interval :
      (cfg : Config Double) (now : ℕ) (r : services.Rest)
      → services.interval_ms (services.evaluate cfg now r) ≡ services.interval_ms r

-- What an iteration finds: the clock at its test, the signals with the configuration that
-- `ReloadConfig` gives, and the clock once that is done.
pub record Turn (Double : Type 0) : Type 0 where
  pub stop : Bool
  pub clock : ℕ
  pub reload : Option (Config Double)
  pub now : ℕ
  pub deep_request : Bool
  pub base_request : Bool

module _ {Double : Type 0} (p : Parts Double) (duties : Duties p) (services : Services p) where
  open services use {Rest}

  pub record Loop : Type 0 where
    pub cfg : Config Double
    pub manager : PhaseManager p
    pub rest : Rest
    pub next_host : ℕ
    pub next_overhead : ℕ
    pub next_feature : ℕ
    pub next_topk : ℕ
    pub seq : ℕ
    pub last_overhead_ts : ℕ
    pub cur_interval_ms : ℕ

  unfoldable pub begin_loop : Config Double → PhaseManager p → Rest → Loop
  begin_loop cfg manager rest = record {
    cfg = cfg;
    manager = manager;
    rest = rest;
    next_host = 0;
    next_overhead = 0;
    next_feature = 0;
    next_topk = 0;
    seq = 0;
    last_overhead_ts = 0;
    cur_interval_ms = cfg.sample.fine_interval_ms;
  }

  -- `SIGHUP`.
  unfoldable pub reload_step : Option (Config Double) → Loop → Loop
  reload_step none l = l
  reload_step (some cfg) l = record l { cfg = cfg; rest = services.reload l.cfg cfg l.rest }

  unfoldable pub host_step : ℕ → Loop → Loop
  host_step now l =
      if leb l.next_host now
      then record l {
        rest = services.host_tick l.cfg l.rest;
        next_host = u64 (now + millis_ns l.cfg.sample.base_host_interval_ms);
      }
      else l

  unfoldable pub overhead_step : ℕ → Loop → Loop
  overhead_step now l =
      if leb l.next_overhead now
      then record l {
        rest = services.overhead_tick now l.last_overhead_ts l.rest;
        last_overhead_ts = now;
        next_overhead = u64 (now + millis_ns l.cfg.sample.overhead_interval_ms);
      }
      else l

  -- A call of the collector by the loop.
  abbrev pub on_collector : (p.Deep → p.Deep) → Loop → Loop
  on_collector f l = record l {
    manager = record l.manager { deep_collector = f l.manager.deep_collector };
  }

  unfoldable pub hand_over_step : Loop → Loop
  hand_over_step l = on_collector (duties.hand_over (services.member_threads l.rest)) l

  unfoldable pub feature_step : ℕ → Loop → Loop
  unfolding tick_anomaly
  feature_step now l =
      let built = services.features l.cfg l.seq l.rest in
      if leb l.next_feature now
      then record l {
        rest = built.1;
        seq = u64 (l.seq + 1);
        manager = tick_anomaly p l.cfg built.0 (p.feature_ts_ns built.0) l.manager;
        next_feature = u64 (now + millis_ns l.cfg.sample.base_feature_interval_ms);
      }
      else l

  unfoldable pub topk_step : ℕ → Loop → Loop
  topk_step now l =
      if leb l.next_topk now
      then record l {
        rest = if services.table_empty l.rest then l.rest else services.evaluate l.cfg now l.rest;
        next_topk = u64 (now + millis_ns l.cfg.targets.eval_interval_ms);
      }
      else l

  unfoldable pub deep_step : ℕ → Loop → Loop
  unfolding tick_deep
  deep_step now l =
      let ticked = on_collector (duties.tick now l.cfg) l in
      record ticked { manager = tick_deep p l.cfg now ticked.manager }

  -- `SIGUSR1` and `SIGUSR2`.
  unfoldable pub request_step : Turn Double → Loop → Loop
  unfolding request_deep request_base
  request_step turn l =
      let m1 = if turn.deep_request then request_deep p l.cfg turn.now l.manager else l.manager in
      record l { manager = if turn.base_request then request_base p l.cfg turn.now m1 else m1 }

  -- `want_ms`.
  abbrev pub want_ms : Loop → ℕ
  want_ms l =
      by_phase l.manager.phase l.cfg.sample.fine_interval_ms l.cfg.sample.deep_fine_interval_ms

  unfoldable pub sync_step : Loop → Loop
  sync_step l =
      if want_ms l == l.cur_interval_ms
      then l
      else record l { rest = services.set_interval (want_ms l) l.rest; cur_interval_ms = want_ms l }

  unfoldable pub iterate : Turn Double → Loop → Loop
  unfolding reload_step host_step overhead_step hand_over_step feature_step topk_step deep_step
      request_step sync_step
  iterate turn l =
      let ticked = overhead_step turn.now (host_step turn.now (reload_step turn.reload l)) in
      let evaluated = topk_step turn.now (feature_step turn.now (hand_over_step ticked)) in
      sync_step (request_step turn (deep_step turn.now evaluated))

  -- Whether the loop ends before the iteration; it began at `t0`, and `run_seconds` is 0 for ever.
  unfoldable pub ends : ℕ → ℕ → Turn Double → Bool
  ends run_seconds t0 turn =
      turn.stop || (not (run_seconds == 0) && leb (seconds_ns run_seconds) (sub64 turn.clock t0))

  -- The iterations, of which `turns` holds as many as there are before the loop ends.
  unfoldable pub run_loop : ℕ → ℕ → List (Turn Double) → Loop → Loop
  unfolding iterate ends
  run_loop run_seconds t0 [] l = l
  run_loop run_seconds t0 (turn ∷ turns) l =
      let rest = run_loop run_seconds t0 turns (iterate turn l) in
      if ends run_seconds t0 turn then l else rest

  -- `RunCollector` from the loop on; `now` is the clock at the end.
  unfoldable pub run_collector : ℕ → ℕ → ℕ → List (Turn Double) → Loop → Loop
  unfolding run_loop shutdown
  run_collector run_seconds t0 now turns l =
      let last = run_loop run_seconds t0 turns l in
      record last {
        manager = shutdown p last.cfg now last.manager;
        rest = services.close last.rest;
      }
