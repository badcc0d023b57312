-- ===== src/MapReader/Slice.antt =====
-- `MapSlice` (src/collect/map_reader.cpp). The calls of libbpf are a parameter; a buffer is the
-- list of its bytes.
use e_trace_diag.Prelude.{
  ℕ, zero, suc, ◌+◌, ◌*◌, ◌/◌, Bool, true, not, List, [], ◌∷◌, Option, some, none, if◌then◌else◌,
  take, drop, replicate, u8,
}

-- `bpf_map_get_next_key`, `bpf_map_lookup_elem`, which fills the whole buffer, and
-- `bpf_map_delete_elem`.
pub record KernelMap : Type 1 where
  pub Map : Type 0
  pub Key : Type 0
  pub next_key : Map → Option Key → Option Key
  pub lookup : Map → Key → Option (List ℕ)
  pub delete : Map → Key → Map

pub record MapSlice : Type 0 where
  pub valid : Bool  -- `fd_ >= 0`
  pub percpu : Bool
  pub value_size : ℕ
  pub ncpus : ℕ
  pub aligned : ℕ

unfoldable pub round_up8 : ℕ → ℕ
round_up8 v = (v + 7) / 8 * 8

-- The constructor, of a map that is there.
unfoldable pub open_slice : Bool → ℕ → ℕ → MapSlice
unfolding round_up8
open_slice percpu value_size ncpus = record {
  valid = true;
  percpu = percpu;
  value_size = value_size;
  ncpus = ncpus;
  aligned = round_up8 value_size;
}

-- `dst[i] += src[i]`, on bytes.
unfoldable pub add_bytes : List ℕ → List ℕ → List ℕ
add_bytes [] ys = []
add_bytes (x ∷ xs) [] = x ∷ xs
add_bytes (x ∷ xs) (y ∷ ys) = u8 (x + y) ∷ add_bytes xs ys

-- The values of the processors, in a buffer of one stride per processor.
unfoldable pub cpu_values : ℕ → ℕ → ℕ → List ℕ → List (List ℕ)
cpu_values zero size aligned buf = []
cpu_values (suc cpus) size aligned buf =
    take size buf ∷ cpu_values cpus size aligned (drop aligned buf)

-- The loop over the processors.
unfoldable pub sum_values : List ℕ → List (List ℕ) → List ℕ
unfolding add_bytes
sum_values dst [] = dst
sum_values dst (v ∷ vs) = sum_values (add_bytes dst v) vs

unfoldable pub percpu_sum : MapSlice → List ℕ → List ℕ
unfolding sum_values cpu_values
percpu_sum s buf =
    sum_values (replicate s.value_size 0) (cpu_values s.ncpus s.value_size s.aligned buf)

-- What the callbacks are given of a buffer.
unfoldable pub entry_value : MapSlice → List ℕ → List ℕ
unfolding percpu_sum
entry_value s buf = if s.percpu then percpu_sum s buf else buf

abbrev pub cons_all : {A : Type 0} → A → Option (List A) → Option (List A)
cons_all a none = none
cons_all a (some xs) = some (a ∷ xs)

module _ (k : KernelMap) (s : MapSlice) where
  open k use {Map, Key}

  unfoldable pub lookup : Map → Key → Option (List ℕ)
  lookup m key = if s.valid then k.lookup m key else none

  -- `false` is `none`.
  unfoldable pub lookup_percpu_sum : Map → Key → Option (List ℕ)
  unfolding lookup percpu_sum
  lookup_percpu_sum m key =
      if not s.valid
      then none
      else if not s.percpu
      then lookup m key
      else elim (k.lookup m key) [ none ↦ none | some buf ↦ some (percpu_sum s buf) ]

  -- The loop of `ForEach`, on fuel, in a map that is not written meanwhile: what the callback is
  -- called with. Without fuel: `none`.
  unfoldable pub visit_from : ℕ → Map → Option Key → Option (List (Key × List ℕ))
  unfolding entry_value
  visit_from zero m prev = none
  visit_from (suc fuel) m prev = elim (k.next_key m prev) [
    | none ↦ some []
    | some next ↦ elim (k.lookup m next) [
      | none ↦ some []
      | some buf ↦
          let rest = visit_from fuel m (some next) in cons_all (next, entry_value s buf) rest
    ]
  ]

  unfoldable pub for_each : ℕ → Map → Option (List (Key × List ℕ))
  unfolding visit_from
  for_each fuel m = if s.valid then visit_from fuel m none else some []

  -- The loop of `Drain`, with the iterations that are left: the calls of the callback and the map.
  unfoldable pub drain_from : ℕ → Map → Option Key → List (Key × List ℕ) × Map
  unfolding entry_value
  drain_from zero m prev = ([], m)
  drain_from (suc n) m prev = elim (k.next_key m prev) [
    | none ↦ ([], m)
    | some cur ↦ elim (k.lookup m cur) [
      | none ↦ ([], m)
      | some buf ↦
          let rest = drain_from n (k.delete m cur) (some cur) in
          ((cur, entry_value s buf) ∷ rest.0, rest.1)
    ]
  ]

  -- `kMaxDrainIterations` and `kMaxWipeIterations`.
  abbrev pub max_iterations : ℕ
  max_iterations = 8192

  unfoldable pub drain : Map → List (Key × List ℕ) × Map
  unfolding drain_from
  drain m = drain_from max_iterations m none

  unfoldable pub wipe_from : ℕ → Map → Option Key → Map
  wipe_from zero m prev = m
  wipe_from (suc n) m prev = elim (k.next_key m prev) [
    | none ↦ m
    | some cur ↦ wipe_from n (k.delete m cur) (some cur)
  ]

  unfoldable pub wipe : Map → Map
  unfolding wipe_from
  wipe m = wipe_from max_iterations m none
