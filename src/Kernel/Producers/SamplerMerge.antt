-- ===== src/Kernel/Producers/SamplerMerge.antt =====
-- The two producers of bpf/etrace.bpf.c give the same sums: the records of the sampler, merged by
-- `AddSnap` (src/collect/deep_collector.cpp), and the record of the timer.
use e_trace_diag.Prelude.{
  ℕ, zero, suc, ◌^◌, ◌<◌, ◌≡◌, refl, sym, ap₂, ◌∙◌, arith, List, [], ◌∷◌, Option, some, none,
  replicate, length, All, u32,
}
use e_trace_diag.Recorder.Snapshot.{KernelSnapshotRec, add_hist, add_snap}
use e_trace_diag.Kernel.Producers.Snapshot.{
  Slice, field, sum64, sum32, sum_hist, snap_sum_cpu, snap_sum, get, copy_slice, zeroed,
}
use e_trace_diag.Kernel.Producers.SampleWords.{
  Below, BelowHist, sum64_lem, sum32_lem, sum_hist_lem, Fits, snap_sum_cpu-Fits,
}

-- The counters of a record alone.
abbrev pub sums : KernelSnapshotRec → KernelSnapshotRec
sums r = record r { seq = 0; ts_ns = 0; tgid = 0; tid = 0; comm = []; flags = 0 }

-- Adding what the sampler copies on a processor is adding that processor's counters.
add_snap-copied :
    (c : Slice) (r : KernelSnapshotRec)
    → Fits r
    → sums (add_snap r (copy_slice c zeroed)) ≡ sums (snap_sum_cpu c r)
unfolding add_snap copy_slice snap_sum_cpu
add_snap-copied c r h = λ i. record {
  seq = 0;
  ts_ns = 0;
  tgid = 0;
  tid = 0;
  comm = [];
  flags = 0;
  on_cpu_ns = sum64_lem r.on_cpu_ns c.on_cpu h.on_cpu_ns i;
  nr_sw_vol = sum32_lem r.nr_sw_vol (field (λ v. v.vol) c.switch) h.nr_sw_vol i;
  nr_sw_invol = sum32_lem r.nr_sw_invol (field (λ v. v.invol) c.switch) h.nr_sw_invol i;
  io_ops = sum64_lem r.io_ops (field (λ v. v.ops) c.blk) h.io_ops i;
  io_bytes = sum64_lem r.io_bytes (field (λ v. v.bytes) c.blk) h.io_bytes i;
  io_hist = sum_hist_lem r.io_hist (field (λ v. v.hist) c.blk) h.io_hist i;
  pf_minor = sum32_lem r.pf_minor (field (λ v. v.minor) c.fault) h.pf_minor i;
  pf_major = sum32_lem r.pf_major (field (λ v. v.major) c.fault) h.pf_major i;
  lock_waits = sum64_lem r.lock_waits (field (λ v. v.count) c.lock) h.lock_waits i;
  lock_lat_ns = sum64_lem r.lock_lat_ns (field (λ v. v.lat_sum) c.lock) h.lock_lat_ns i;
  lock_hist = sum_hist_lem r.lock_hist (field (λ v. v.hist) c.lock) h.lock_hist i;
  syscall_count = sum64_lem r.syscall_count (field (λ v. v.count) c.sys) h.syscall_count i;
  syscall_lat_ns = sum64_lem r.syscall_lat_ns (field (λ v. v.lat_sum) c.sys) h.syscall_lat_ns i;
  syscall_hist = sum_hist_lem r.syscall_hist (field (λ v. v.hist) c.sys) h.syscall_hist i;
  futex_waits = sum64_lem r.futex_waits (field (λ v. v.count) c.futex) h.futex_waits i;
  futex_lat_ns = sum64_lem r.futex_lat_ns (field (λ v. v.lat_sum) c.futex) h.futex_lat_ns i;
  futex_hist = sum_hist_lem r.futex_hist (field (λ v. v.hist) c.futex) h.futex_hist i;
  runq_wait_ns = sum64_lem r.runq_wait_ns (field (λ v. v.lat_sum) c.runq) h.runq_wait_ns i;
  runq_wait_count =
      sum32_lem r.runq_wait_count (field (λ v. u32 v.count) c.runq) h.runq_wait_count i;
  runq_hist = sum_hist_lem r.runq_hist (field (λ v. v.hist) c.runq) h.runq_hist i;
}

-- A record that the sampler made of a processor's counters, with any number, time and name.
abbrev pub IsSample : Slice → KernelSnapshotRec → Type 0
IsSample c s = sums s ≡ sums (copy_slice c zeroed)

add_snap-sums : (r s : KernelSnapshotRec) → sums (add_snap r s) ≡ sums (add_snap (sums r) (sums s))
unfolding add_snap
add_snap-sums r s = refl

add_snap-IsSample :
    (c : Slice) (r q s : KernelSnapshotRec)
    → Fits q
    → sums r ≡ sums q
    → IsSample c s
    → sums (add_snap r s) ≡ sums (snap_sum_cpu c q)
add_snap-IsSample c r q s h same e =
    add_snap-sums r s
    ∙ ap₂ (λ a b. sums (add_snap a b)) same e
    ∙ sym (add_snap-sums q (copy_slice c zeroed))
    ∙ add_snap-copied c q h

-- `AddSnap` of every further record to the first.
abbrev pub merge_all : KernelSnapshotRec → List KernelSnapshotRec → KernelSnapshotRec
merge_all r [] = r
merge_all r (s ∷ ss) = merge_all (add_snap r s) ss

-- The records are those of the sampler on the processors.
abbrev pub AreSamples : List Slice → List KernelSnapshotRec → Type 0
AreSamples [] [] = Unit {0}
AreSamples [] (s ∷ ss) = ⊥
AreSamples (c ∷ cs) [] = ⊥
AreSamples (c ∷ cs) (s ∷ ss) = IsSample c s × AreSamples cs ss

merge_all-sums :
    (cs : List Slice) (ss : List KernelSnapshotRec) (r q : KernelSnapshotRec)
    → Fits q
    → sums r ≡ sums q
    → AreSamples cs ss
    → sums (merge_all r ss) ≡ sums (snap_sum cs q)
unfolding snap_sum
merge_all-sums [] [] r q h same e = same
merge_all-sums [] (s ∷ ss) r q h same e = absurd e
merge_all-sums (c ∷ cs) [] r q h same e = absurd e
merge_all-sums (c ∷ cs) (s ∷ ss) r q h same (e, es) =
    merge_all-sums cs ss (add_snap r s) (snap_sum_cpu c q) (snap_sum_cpu-Fits c q h)
      (add_snap-IsSample c r q s h same e) es

-- The counters that a lookup finds fit into their words.
pub record IsSlice (c : Slice) : Type 0 where
  pub on_cpu_ns : Below (2 ^ 64) c.on_cpu
  pub nr_sw_vol : Below (2 ^ 32) (field (λ v. v.vol) c.switch)
  pub nr_sw_invol : Below (2 ^ 32) (field (λ v. v.invol) c.switch)
  pub io_ops : Below (2 ^ 64) (field (λ v. v.ops) c.blk)
  pub io_bytes : Below (2 ^ 64) (field (λ v. v.bytes) c.blk)
  pub io_hist : BelowHist (field (λ v. v.hist) c.blk)
  pub pf_minor : Below (2 ^ 32) (field (λ v. v.minor) c.fault)
  pub pf_major : Below (2 ^ 32) (field (λ v. v.major) c.fault)
  pub lock_waits : Below (2 ^ 64) (field (λ v. v.count) c.lock)
  pub lock_lat_ns : Below (2 ^ 64) (field (λ v. v.lat_sum) c.lock)
  pub lock_hist : BelowHist (field (λ v. v.hist) c.lock)
  pub syscall_count : Below (2 ^ 64) (field (λ v. v.count) c.sys)
  pub syscall_lat_ns : Below (2 ^ 64) (field (λ v. v.lat_sum) c.sys)
  pub syscall_hist : BelowHist (field (λ v. v.hist) c.sys)
  pub futex_waits : Below (2 ^ 64) (field (λ v. v.count) c.futex)
  pub futex_lat_ns : Below (2 ^ 64) (field (λ v. v.lat_sum) c.futex)
  pub futex_hist : BelowHist (field (λ v. v.hist) c.futex)
  pub runq_wait_ns : Below (2 ^ 64) (field (λ v. v.lat_sum) c.runq)
  pub runq_wait_count : Below (2 ^ 32) (field (λ v. u32 v.count) c.runq)
  pub runq_hist : BelowHist (field (λ v. v.hist) c.runq)

get-sum64 : (o : Option ℕ) → Below (2 ^ 64) o → get 0 o ≡ sum64 0 o
get-sum64 none h = refl
get-sum64 (some v) h = omega (arith, h)

get-sum32 : (o : Option ℕ) → Below (2 ^ 32) o → get 0 o ≡ sum32 0 o
get-sum32 none h = refl
get-sum32 (some v) h = omega (arith, h)

zeros-add_hist :
    (n : ℕ) (h : List ℕ) → length h ≡ n → All (λ k. k < 2 ^ 32) h → h ≡ add_hist (replicate n 0) h
unfolding add_hist
zeros-add_hist zero [] l b = refl
zeros-add_hist zero (x ∷ xs) l b = absurd (omega (arith, l))
zeros-add_hist (suc n) [] l b = absurd (omega (arith, l))
zeros-add_hist (suc n) (x ∷ xs) l (p, b) =
    ap₂ ◌∷◌ (omega (arith, p)) (zeros-add_hist n xs (omega (arith, l)) b)

get-sum_hist :
    (o : Option (List ℕ)) → BelowHist o → get (replicate 13 0) o ≡ sum_hist (replicate 13 0) o
unfolding sum_hist
get-sum_hist none h = refl
get-sum_hist (some g) (l, b) = zeros-add_hist 13 g l b

-- On one processor the two producers agree.
copy_slice-first :
    (c : Slice) → IsSlice c → sums (copy_slice c zeroed) ≡ sums (snap_sum_cpu c zeroed)
unfolding copy_slice snap_sum_cpu
copy_slice-first c h = λ i. record {
  seq = 0;
  ts_ns = 0;
  tgid = 0;
  tid = 0;
  comm = [];
  flags = 0;
  on_cpu_ns = get-sum64 c.on_cpu h.on_cpu_ns i;
  nr_sw_vol = get-sum32 (field (λ v. v.vol) c.switch) h.nr_sw_vol i;
  nr_sw_invol = get-sum32 (field (λ v. v.invol) c.switch) h.nr_sw_invol i;
  io_ops = get-sum64 (field (λ v. v.ops) c.blk) h.io_ops i;
  io_bytes = get-sum64 (field (λ v. v.bytes) c.blk) h.io_bytes i;
  io_hist = get-sum_hist (field (λ v. v.hist) c.blk) h.io_hist i;
  pf_minor = get-sum32 (field (λ v. v.minor) c.fault) h.pf_minor i;
  pf_major = get-sum32 (field (λ v. v.major) c.fault) h.pf_major i;
  lock_waits = get-sum64 (field (λ v. v.count) c.lock) h.lock_waits i;
  lock_lat_ns = get-sum64 (field (λ v. v.lat_sum) c.lock) h.lock_lat_ns i;
  lock_hist = get-sum_hist (field (λ v. v.hist) c.lock) h.lock_hist i;
  syscall_count = get-sum64 (field (λ v. v.count) c.sys) h.syscall_count i;
  syscall_lat_ns = get-sum64 (field (λ v. v.lat_sum) c.sys) h.syscall_lat_ns i;
  syscall_hist = get-sum_hist (field (λ v. v.hist) c.sys) h.syscall_hist i;
  futex_waits = get-sum64 (field (λ v. v.count) c.futex) h.futex_waits i;
  futex_lat_ns = get-sum64 (field (λ v. v.lat_sum) c.futex) h.futex_lat_ns i;
  futex_hist = get-sum_hist (field (λ v. v.hist) c.futex) h.futex_hist i;
  runq_wait_ns = get-sum64 (field (λ v. v.lat_sum) c.runq) h.runq_wait_ns i;
  runq_wait_count = get-sum32 (field (λ v. u32 v.count) c.runq) h.runq_wait_count i;
  runq_hist = get-sum_hist (field (λ v. v.hist) c.runq) h.runq_hist i;
}

zeros : (n : ℕ) → All (λ k. k < 2 ^ 32) (replicate n 0)
zeros zero = tt
zeros (suc n) = (omega arith, zeros n)

zeroed-Fits : Fits zeroed
zeroed-Fits = record {
  on_cpu_ns = omega arith;
  nr_sw_vol = omega arith;
  nr_sw_invol = omega arith;
  io_ops = omega arith;
  io_bytes = omega arith;
  io_hist = zeros 13;
  pf_minor = omega arith;
  pf_major = omega arith;
  lock_waits = omega arith;
  lock_lat_ns = omega arith;
  lock_hist = zeros 13;
  syscall_count = omega arith;
  syscall_lat_ns = omega arith;
  syscall_hist = zeros 13;
  futex_waits = omega arith;
  futex_lat_ns = omega arith;
  futex_hist = zeros 13;
  runq_wait_ns = omega arith;
  runq_wait_count = omega arith;
  runq_hist = zeros 13;
}

-- Let the sampler make one record of a thread on each processor, of counters that fit into their
-- words, at any times. Merged by `AddSnap` into the first, they have the same counters as the record
-- that the timer makes by adding up the processors.
pub merge_all-snap_sum :
    (c : Slice) (cs : List Slice) (s : KernelSnapshotRec) (ss : List KernelSnapshotRec)
    → IsSlice c
    → IsSample c s
    → AreSamples cs ss
    → sums (merge_all s ss) ≡ sums (snap_sum (c ∷ cs) zeroed)
unfolding snap_sum
merge_all-snap_sum c cs s ss h e es =
    merge_all-sums cs ss s (snap_sum_cpu c zeroed) (snap_sum_cpu-Fits c zeroed zeroed-Fits)
      (e ∙ copy_slice-first c h) es
