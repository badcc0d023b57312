-- ===== src/Kernel/Producers/SampleWords.antt =====
-- The words of the flight recorder's counters (bpf/etrace.bpf.c), and that the sums over the
-- processors fit into them.
use e_trace_diag.Prelude.{
  ℕ, zero, suc, ◌+◌, ◌^◌, ◌<◌, ◌≡◌, refl, ap₂, arith, List, [], ◌∷◌, Option, some, none, replicate,
  length, All, u32, u64,
}
use e_trace_diag.Recorder.Snapshot.{KernelSnapshotRec, add_hist}
use e_trace_diag.Kernel.Producers.Snapshot.{Slice, field, sum64, sum32, sum_hist, snap_sum_cpu, get}

-- 13 bins of 32 bits.
abbrev pub IsHist : List ℕ → Type 0
IsHist h = (length h ≡ 13) × All (λ n. n < 2 ^ 32) h

-- What a lookup may find in a word of `w` bits.
abbrev pub Below : ℕ → Option ℕ → Type 0
Below b none = Unit {0}
Below b (some v) = v < b

abbrev pub BelowHist : Option (List ℕ) → Type 0
BelowHist none = Unit {0}
BelowHist (some h) = IsHist h

pub sum64_lem : (x : ℕ) (o : Option ℕ) → x < 2 ^ 64 → u64 (x + get 0 o) ≡ sum64 x o
sum64_lem x none h = omega (arith, h)
sum64_lem x (some v) h = refl

pub sum32_lem : (x : ℕ) (o : Option ℕ) → x < 2 ^ 32 → u32 (x + get 0 o) ≡ sum32 x o
sum32_lem x none h = omega (arith, h)
sum32_lem x (some v) h = refl

add_hist-zeros : (n : ℕ) (h : List ℕ) → All (λ k. k < 2 ^ 32) h → add_hist h (replicate n 0) ≡ h
unfolding add_hist
add_hist-zeros zero [] b = refl
add_hist-zeros zero (x ∷ xs) b = refl
add_hist-zeros (suc n) [] b = refl
add_hist-zeros (suc n) (x ∷ xs) (p, b) = ap₂ ◌∷◌ (omega (arith, p)) (add_hist-zeros n xs b)

pub sum_hist_lem :
    (h : List ℕ) (o : Option (List ℕ))
    → All (λ k. k < 2 ^ 32) h
    → add_hist h (get (replicate 13 0) o) ≡ sum_hist h o
unfolding sum_hist
sum_hist_lem h none b = add_hist-zeros 13 h b
sum_hist_lem h (some g) b = refl

-- The counters of a record fit into their words.
pub record Fits (r : KernelSnapshotRec) : Type 0 where
  pub on_cpu_ns : r.on_cpu_ns < 2 ^ 64
  pub nr_sw_vol : r.nr_sw_vol < 2 ^ 32
  pub nr_sw_invol : r.nr_sw_invol < 2 ^ 32
  pub io_ops : r.io_ops < 2 ^ 64
  pub io_bytes : r.io_bytes < 2 ^ 64
  pub io_hist : All (λ k. k < 2 ^ 32) r.io_hist
  pub pf_minor : r.pf_minor < 2 ^ 32
  pub pf_major : r.pf_major < 2 ^ 32
  pub lock_waits : r.lock_waits < 2 ^ 64
  pub lock_lat_ns : r.lock_lat_ns < 2 ^ 64
  pub lock_hist : All (λ k. k < 2 ^ 32) r.lock_hist
  pub syscall_count : r.syscall_count < 2 ^ 64
  pub syscall_lat_ns : r.syscall_lat_ns < 2 ^ 64
  pub syscall_hist : All (λ k. k < 2 ^ 32) r.syscall_hist
  pub futex_waits : r.futex_waits < 2 ^ 64
  pub futex_lat_ns : r.futex_lat_ns < 2 ^ 64
  pub futex_hist : All (λ k. k < 2 ^ 32) r.futex_hist
  pub runq_wait_ns : r.runq_wait_ns < 2 ^ 64
  pub runq_wait_count : r.runq_wait_count < 2 ^ 32
  pub runq_hist : All (λ k. k < 2 ^ 32) r.runq_hist

u64_lt : (x : ℕ) (o : Option ℕ) → x < 2 ^ 64 → sum64 x o < 2 ^ 64
u64_lt x none h = h
u64_lt x (some v) h = omega arith

u32_lt : (x : ℕ) (o : Option ℕ) → x < 2 ^ 32 → sum32 x o < 2 ^ 32
u32_lt x none h = h
u32_lt x (some v) h = omega arith

add_hist-All : (h g : List ℕ) → All (λ k. k < 2 ^ 32) h → All (λ k. k < 2 ^ 32) (add_hist h g)
unfolding add_hist
add_hist-All [] g b = tt
add_hist-All (x ∷ xs) [] b = b
add_hist-All (x ∷ xs) (y ∷ ys) (p, b) = (omega arith, add_hist-All xs ys b)

sum_hist-All :
    (h : List ℕ) (o : Option (List ℕ))
    → All (λ k. k < 2 ^ 32) h
    → All (λ k. k < 2 ^ 32) (sum_hist h o)
unfolding sum_hist
sum_hist-All h none b = b
sum_hist-All h (some g) b = add_hist-All h g b

pub snap_sum_cpu-Fits : (c : Slice) (r : KernelSnapshotRec) → Fits r → Fits (snap_sum_cpu c r)
unfolding snap_sum_cpu
snap_sum_cpu-Fits c r h = record {
  on_cpu_ns = u64_lt r.on_cpu_ns c.on_cpu h.on_cpu_ns;
  nr_sw_vol = u32_lt r.nr_sw_vol (field (λ v. v.vol) c.switch) h.nr_sw_vol;
  nr_sw_invol = u32_lt r.nr_sw_invol (field (λ v. v.invol) c.switch) h.nr_sw_invol;
  io_ops = u64_lt r.io_ops (field (λ v. v.ops) c.blk) h.io_ops;
  io_bytes = u64_lt r.io_bytes (field (λ v. v.bytes) c.blk) h.io_bytes;
  io_hist = sum_hist-All r.io_hist (field (λ v. v.hist) c.blk) h.io_hist;
  pf_minor = u32_lt r.pf_minor (field (λ v. v.minor) c.fault) h.pf_minor;
  pf_major = u32_lt r.pf_major (field (λ v. v.major) c.fault) h.pf_major;
  lock_waits = u64_lt r.lock_waits (field (λ v. v.count) c.lock) h.lock_waits;
  lock_lat_ns = u64_lt r.lock_lat_ns (field (λ v. v.lat_sum) c.lock) h.lock_lat_ns;
  lock_hist = sum_hist-All r.lock_hist (field (λ v. v.hist) c.lock) h.lock_hist;
  syscall_count = u64_lt r.syscall_count (field (λ v. v.count) c.sys) h.syscall_count;
  syscall_lat_ns = u64_lt r.syscall_lat_ns (field (λ v. v.lat_sum) c.sys) h.syscall_lat_ns;
  syscall_hist = sum_hist-All r.syscall_hist (field (λ v. v.hist) c.sys) h.syscall_hist;
  futex_waits = u64_lt r.futex_waits (field (λ v. v.count) c.futex) h.futex_waits;
  futex_lat_ns = u64_lt r.futex_lat_ns (field (λ v. v.lat_sum) c.futex) h.futex_lat_ns;
  futex_hist = sum_hist-All r.futex_hist (field (λ v. v.hist) c.futex) h.futex_hist;
  runq_wait_ns = u64_lt r.runq_wait_ns (field (λ v. v.lat_sum) c.runq) h.runq_wait_ns;
  runq_wait_count = u32_lt r.runq_wait_count (field (λ v. u32 v.count) c.runq) h.runq_wait_count;
  runq_hist = sum_hist-All r.runq_hist (field (λ v. v.hist) c.runq) h.runq_hist;
}
