-- ===== src/Config/Bounds.antt =====
-- What `Sanitize` of src/config.cpp guarantees of every configuration, and of the defaults.
use e_trace_diag.Prelude.{
  ℕ, true, false, ◌⊎◌, inl, inr, Bool-cases, if_cases, ◌≤◌, ◌≡◌, ◌↔◌, refl, subst, arith,
}
use e_trace_diag.Prelude.Float.{Float, FloatOrder}
use e_trace_diag.Config.Defs.{TargetWeights, TargetsTunables, Config, default_config}
use e_trace_diag.Config.Sanitize.{clamp, clamp_double, sanitize_weights, sanitize_targets, sanitize}
use e_trace_diag.Config.Ranges.{
  Within, clamp-Within, clamp_id, IsSaneSample, IsSaneWindow, IsSaneDevices, IsAdapter, IsOutputDir,
  sanitize_sample-IsSane, sane_sample_fixed, sanitize_window-IsSane, sane_window_fixed,
  sanitize_devices-IsSane, sane_devices_fixed, sanitize_model-IsAdapter, sane_model_fixed,
  sanitize_output-IsOutputDir, sane_output_fixed,
}

module _ (f : Float) where
  open f use {Double, lt, le, milli}

  -- In the range, or not a number, as which `ClampD` hands it on.
  abbrev pub WithinDouble : ℕ → ℕ → Double → Type 0
  WithinDouble lo hi x = ((le (milli lo) x ≡ true) × (le x (milli hi) ≡ true)) ⊎ (le x x ≡ false)

  milli-le : (order : FloatOrder f) (a b : ℕ) → a ≤ b → le (milli a) (milli b) ≡ true
  milli-le order a b h =
      order.not_lt (milli b) (milli a) (order.milli_number b) (order.milli_number a)
        (order.milli_mono a b h)

  clamp_double-Within :
      (order : FloatOrder f) (v : Double) (lo hi : ℕ)
      → lo ≤ hi
      → WithinDouble lo hi (clamp_double f v (milli lo) (milli hi))
  unfolding clamp_double
  clamp_double-Within order v lo hi h =
      if_cases (WithinDouble lo hi) (lt v (milli lo))
        (λ a. inl (order.milli_number lo, milli-le order lo hi h))
        (λ a.
          if_cases (WithinDouble lo hi) (lt (milli hi) v)
            (λ b. inl (milli-le order lo hi h, order.milli_number hi))
            (λ b. elim (Bool-cases (le v v)) [
              | inl n ↦ inl (
                order.not_lt v (milli lo) n (order.milli_number lo) a,
                order.not_lt (milli hi) v (order.milli_number hi) n b,
              )
              | inr n ↦ inr n
            ]))

  clamp_double_id :
      (order : FloatOrder f) (v : Double) (lo hi : ℕ)
      → WithinDouble lo hi v
      → clamp_double f v (milli lo) (milli hi) ≡ v
  unfolding clamp_double
  clamp_double_id order v lo hi (inl (a, b)) =
      rw (order.le_not_lt (milli lo) v a, order.le_not_lt v (milli hi) b) refl
  clamp_double_id order v lo hi (inr n) =
      rw (order.lt_nan v (milli lo) n, order.nan_lt v (milli hi) n) refl

  pub record IsSaneWeights (w : TargetWeights Double) : Type 0 where
    pub cpu : WithinDouble 0 1000 w.cpu
    pub swch : WithinDouble 0 1000 w.swch
    pub io : WithinDouble 0 1000 w.io
    pub fault : WithinDouble 0 1000 w.fault
    pub lock : WithinDouble 0 1000 w.lock

  pub record IsSaneTargets (t : TargetsTunables Double) : Type 0 where
    pub max_targets : Within 1 1024 t.max_targets
    pub min_targets : Within 1 t.max_targets t.min_targets
    pub per_proc_threads : Within 1 256 t.per_proc_threads
    pub concurrency_factor : WithinDouble 500 64000 t.concurrency_factor
    pub eval_interval_ms : Within 1000 3600000 t.eval_interval_ms
    pub window_seconds : Within 1 3600 t.window_seconds
    pub enter_rank : Within 1 1024 t.enter_rank
    pub leave_rank : Within t.enter_rank 4096 t.leave_rank
    pub hold_periods : Within 1 1000 t.hold_periods
    pub min_residency_seconds : Within 0 36000 t.min_residency_seconds
    pub weights : IsSaneWeights t.weights

  -- Every field is in the range that `Sanitize` clamps it to.
  pub record IsSane (c : Config Double) : Type 0 where
    pub sample : IsSaneSample c.sample
    pub window : IsSaneWindow c.window
    pub targets : IsSaneTargets c.targets
    pub devices : IsSaneDevices c.devices
    pub adapter : IsAdapter c.model.adapter
    pub output_dir : IsOutputDir c.output.output_dir

  sanitize_weights-IsSane :
      (order : FloatOrder f) (w : TargetWeights Double) → IsSaneWeights (sanitize_weights f w)
  unfolding sanitize_weights
  sanitize_weights-IsSane order w = record {
    cpu = clamp_double-Within order w.cpu 0 1000 (omega arith);
    swch = clamp_double-Within order w.swch 0 1000 (omega arith);
    io = clamp_double-Within order w.io 0 1000 (omega arith);
    fault = clamp_double-Within order w.fault 0 1000 (omega arith);
    lock = clamp_double-Within order w.lock 0 1000 (omega arith);
  }

  sanitize_targets-IsSane :
      (order : FloatOrder f) (t : TargetsTunables Double) → IsSaneTargets (sanitize_targets f t)
  unfolding sanitize_targets
  sanitize_targets-IsSane order t = record {
    max_targets = clamp-Within t.max_targets 1 1024 (omega arith);
    min_targets =
        clamp-Within t.min_targets 1 (clamp t.max_targets 1 1024)
          (clamp-Within t.max_targets 1 1024 (omega arith)).0;
    per_proc_threads = clamp-Within t.per_proc_threads 1 256 (omega arith);
    concurrency_factor = clamp_double-Within order t.concurrency_factor 500 64000 (omega arith);
    eval_interval_ms = clamp-Within t.eval_interval_ms 1000 3600000 (omega arith);
    window_seconds = clamp-Within t.window_seconds 1 3600 (omega arith);
    enter_rank = clamp-Within t.enter_rank 1 1024 (omega arith);
    leave_rank =
        clamp-Within t.leave_rank (clamp t.enter_rank 1 1024) 4096
          (omega (arith, clamp-Within t.enter_rank 1 1024 (omega arith)));
    hold_periods = clamp-Within t.hold_periods 1 1000 (omega arith);
    min_residency_seconds = clamp-Within t.min_residency_seconds 0 36000 (omega arith);
    weights = sanitize_weights-IsSane order t.weights;
  }

  sane_weights_fixed :
      (order : FloatOrder f) (w : TargetWeights Double) → IsSaneWeights w → sanitize_weights f w ≡ w
  unfolding sanitize_weights
  sane_weights_fixed order w h = λ i. record {
    cpu = clamp_double_id order w.cpu 0 1000 h.cpu i;
    swch = clamp_double_id order w.swch 0 1000 h.swch i;
    io = clamp_double_id order w.io 0 1000 h.io i;
    fault = clamp_double_id order w.fault 0 1000 h.fault i;
    lock = clamp_double_id order w.lock 0 1000 h.lock i;
  }

  sane_targets_fixed :
      (order : FloatOrder f) (t : TargetsTunables Double)
      → IsSaneTargets t
      → sanitize_targets f t ≡ t
  unfolding sanitize_targets
  sane_targets_fixed order t h = rw (
    clamp_id t.max_targets 1 1024 h.max_targets,
    clamp_id t.enter_rank 1 1024 h.enter_rank,
    clamp_id t.min_targets 1 t.max_targets h.min_targets,
    clamp_id t.leave_rank t.enter_rank 4096 h.leave_rank,
    clamp_id t.per_proc_threads 1 256 h.per_proc_threads,
    clamp_id t.eval_interval_ms 1000 3600000 h.eval_interval_ms,
    clamp_id t.window_seconds 1 3600 h.window_seconds,
    clamp_id t.hold_periods 1 1000 h.hold_periods,
    clamp_id t.min_residency_seconds 0 36000 h.min_residency_seconds,
    clamp_double_id order t.concurrency_factor 500 64000 h.concurrency_factor,
    sane_weights_fixed order t.weights h.weights,
  )

  -- After `Sanitize` every integer and every text is in its range, and every `double` is in its range
  -- or is not a number, whatever the configuration was.
  pub sanitize-IsSane : (order : FloatOrder f) (c : Config Double) → IsSane (sanitize f c)
  unfolding sanitize
  sanitize-IsSane order c = record {
    sample = sanitize_sample-IsSane c.sample;
    window = sanitize_window-IsSane c.window;
    targets = sanitize_targets-IsSane order c.targets;
    devices = sanitize_devices-IsSane c.devices;
    adapter = sanitize_model-IsAdapter c.model;
    output_dir = sanitize_output-IsOutputDir c.output;
  }

  sane_fixed : (order : FloatOrder f) (c : Config Double) → IsSane c → sanitize f c ≡ c
  unfolding sanitize
  sane_fixed order c h = λ i. record {
    sample = sane_sample_fixed c.sample h.sample i;
    window = sane_window_fixed c.window h.window i;
    targets = sane_targets_fixed order c.targets h.targets i;
    model = sane_model_fixed c.model h.adapter i;
    output = sane_output_fixed c.output h.output_dir i;
    misc = c.misc;
    devices = sane_devices_fixed c.devices h.devices i;
  }

  -- `Sanitize` leaves a configuration alone exactly when every field is in its range, where a `double`
  -- may also be not a number.
  pub sanitize-fixed_iff :
      (order : FloatOrder f) (c : Config Double) → (sanitize f c ≡ c) ↔ IsSane c
  sanitize-fixed_iff order c = (λ e. subst IsSane e (sanitize-IsSane order c), sane_fixed order c)

  -- The built-in defaults are in range.
  pub default_config-IsSane : (order : FloatOrder f) → IsSane (default_config f)
  unfolding default_config
  default_config-IsSane order = record {
    sample = omega arith;
    window = omega arith;
    targets = record {
      max_targets = omega arith;
      min_targets = omega arith;
      per_proc_threads = omega arith;
      concurrency_factor = inl (mono 500 2000 (omega arith), mono 2000 64000 (omega arith));
      eval_interval_ms = omega arith;
      window_seconds = omega arith;
      enter_rank = omega arith;
      leave_rank = omega arith;
      hold_periods = omega arith;
      min_residency_seconds = omega arith;
      weights = record {
        cpu = unit 350 (omega arith);
        swch = unit 150 (omega arith);
        io = unit 200 (omega arith);
        fault = unit 150 (omega arith);
        lock = unit 150 (omega arith);
      };
    };
    devices = record {
      deep_gpu_interval_ms = omega arith;
      net_event_sample_rate = omega arith;
      gpu_source = refl;
    };
    adapter = refl;
    output_dir = refl;
  }
    where
      mono : (a b : ℕ) → a ≤ b → le (milli a) (milli b) ≡ true
      mono = milli-le order

      unit : (n : ℕ) → n ≤ 1000 → WithinDouble 0 1000 (milli n)
      unit n h = inl (mono 0 n (omega arith), mono n 1000 h)
