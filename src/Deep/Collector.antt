-- ===== src/Deep/Collector.antt =====
-- The members of `DeepCollector` that its life cycle uses, and `Enter`, `Tick`, `Finalize` and `Exit`
-- (src/collect/deep_collector.cpp). What they tell the kernel, the writer and the GPU reader is the
-- list of effects, in their order.
use e_trace_diag.Prelude.{
  ℕ, ◌+◌, Bool, true, false, not, ◌&&◌, List, [], ◌∷◌, ◌++◌, Option, some, none, leb, ◌==◌,
  if◌then◌else◌, u64, millis_ns,
}
use e_trace_diag.Config.{Config}
use e_trace_diag.Deep.Links.{
  Programs, missing, refused, attached, Capability, Hooks, attach_syscalls, attach_others,
}

pub data Effect : Type 0 where
  set_deep : Bool → Effect
  write_sample_rates : ℕ → ℕ → ℕ → Effect
  write_offcpu_fallback : ℕ → Effect
  open_deep : ℕ → Effect
  close_deep reset_episode_maps save_lock_hot_baseline begin_deep drain_post : Effect
  extract_pre : ℕ → Effect
  drain_processes drain_gpu : ℕ → Effect
  dump_deep_maps : Effect

pub record DeepCollector : Type 0 where
  pub ordinal : ℕ
  pub active : Bool
  pub anomaly_start_ns : ℕ
  pub prev_head : ℕ
  pub pre_interval_ms : ℕ
  pub post_interval_ms : ℕ
  pub next_dump_ns : ℕ
  pub next_gpu_ns : ℕ
  pub hooks : Hooks  -- `deep_links_` and `capabilities_`
  pub perf_fds : List ℕ
  pub targets : List ℕ
  pub effects : List Effect

-- What the system answers: the programs, `perf_event_open` for each processor, `OpenDeep`, and the
-- value of `ring_head`, if the lookup succeeds.
pub record System : Type 0 where
  pub programs : Programs
  pub perf_events : List (Option ℕ)
  pub opens_deep : Bool
  pub ring_head : Option ℕ

abbrev pub emit : List Effect → DeepCollector → DeepCollector
emit es d = record d { effects = d.effects ++ es }

-- The loop of `OpenProfiler`: a processor that fails closes what was opened.
unfoldable pub open_events : List (Option ℕ) → List ℕ → Bool × List ℕ
open_events [] fds = (true, fds)
open_events (none ∷ es) fds = (false, [])
open_events (some fd ∷ es) fds = open_events es (fds ++ fd ∷ [])

unfoldable pub open_profiler : System → ℕ → List ℕ → Bool × List ℕ
unfolding open_events
open_profiler s freq_hz fds = if freq_hz == 0 then (false, fds) else elim (s.programs "oncpu") [
  | missing ↦ (false, fds)
  | refused e ↦ open_events s.perf_events fds
  | attached ↦ open_events s.perf_events fds
]

-- `Exit`.
unfoldable pub exit : DeepCollector → DeepCollector
exit d = emit (set_deep false ∷ (if d.active then close_deep ∷ [] else [])) (record d {
  perf_fds = [];
  hooks = record d.hooks { links = [] };
  active = false;
  targets = [];
})

abbrev pub keep_or : Option ℕ → ℕ → ℕ
keep_or none old = old
keep_or (some head) old = head

abbrev pub no_profiler : Capability
no_profiler = record { name = "oncpu"; available = false; error = "perf_event_open failed" }

-- `Enter` from `OpenDeep` on.
unfoldable pub begin : System → ℕ → ℕ → DeepCollector → Bool × DeepCollector
unfolding exit
begin s ordinal start_ns d =
    let opened = emit (open_deep ordinal ∷ []) d in
    if s.opens_deep
    then (
      true,
      emit (reset_episode_maps ∷ save_lock_hot_baseline ∷ begin_deep ∷ extract_pre start_ns ∷ [])
          (record opened { active = true; prev_head = keep_or s.ring_head opened.prev_head }),
    )
    else (false, exit opened)

module _ {Double : Type 0} (s : System) where
  -- `Enter` before the links are attached.
  unfoldable pub prepare : ℕ → ℕ → Config Double → DeepCollector → DeepCollector
  prepare ordinal start_ns cfg d =
      emit
        (set_deep true
          ∷ write_sample_rates cfg.sample.offcpu_sample_rate cfg.sample.iofile_sample_rate
              cfg.devices.net_event_sample_rate
          ∷ [])
        (record d {
          ordinal = ordinal;
          anomaly_start_ns = start_ns;
          pre_interval_ms = cfg.sample.fine_interval_ms;
          post_interval_ms = cfg.sample.deep_fine_interval_ms;
          next_dump_ns = 0;
          next_gpu_ns = 0;
          hooks = record d.hooks { caps = [] };
        })

  -- `Enter` once the links are attached: the profiler, which may fail.
  unfoldable pub with_profiler : Config Double → DeepCollector → DeepCollector
  unfolding open_profiler
  with_profiler cfg d =
      let opened = open_profiler s cfg.sample.profile_freq_hz d.perf_fds in
      record d {
        perf_fds = opened.1;
        hooks =
            if opened.0
            then d.hooks
            else record d.hooks { caps = d.hooks.caps ++ no_profiler ∷ [] };
      }

  unfoldable pub enter : ℕ → ℕ → Config Double → DeepCollector → Bool × DeepCollector
  unfolding prepare with_profiler begin attach_syscalls attach_others
  enter ordinal start_ns cfg d =
      let d1 = prepare ordinal start_ns cfg d in
      let pair = attach_syscalls s.programs d1.hooks in
      let others = attach_others s.programs pair.1 in
      if pair.0
      then begin s ordinal start_ns (
          with_profiler cfg
            (emit (write_offcpu_fallback others.1 ∷ []) (record d1 { hooks = others.0 })))
      else (false, emit (set_deep false ∷ []) (record d1 { hooks = pair.1 }))

-- `Tick`, of which the drains are effects.
unfoldable pub tick : {Double : Type 0} → ℕ → Config Double → DeepCollector → DeepCollector
tick now_ns cfg d =
    let dump = leb d.next_dump_ns now_ns in
    let gpu = cfg.devices.deep_gpu_enabled && leb d.next_gpu_ns now_ns in
    if not d.active
    then d
    else emit
        (drain_post
          ∷ ((if dump then drain_processes now_ns ∷ [] else [])
              ++ (if gpu then drain_gpu now_ns ∷ [] else [])))
        (record d {
          next_dump_ns =
              if dump
              then u64 (now_ns + millis_ns cfg.sample.deep_dump_interval_ms)
              else d.next_dump_ns;
          next_gpu_ns =
              if gpu
              then u64 (now_ns + millis_ns cfg.devices.deep_gpu_interval_ms)
              else d.next_gpu_ns;
        })

-- `Finalize`, at the time `now` of its clock.
unfoldable pub finalize : {Double : Type 0} → ℕ → Config Double → DeepCollector → DeepCollector
finalize now cfg d =
    emit
      (drain_post
        ∷ drain_processes now
        ∷ ((if cfg.devices.deep_gpu_enabled then drain_gpu now ∷ [] else [])
            ++ dump_deep_maps ∷ []))
      d
