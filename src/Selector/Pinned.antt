-- ===== src/Selector/Pinned.antt =====
-- `ApplyPinned` (src/collect/target_selector.cpp) and the evaluations after it, as RunCollector
-- calls them. /proc/<tid>/status and `strtoul` are parameters. An update of the map `targets`
-- succeeds.
use e_trace_diag.Prelude.{
  ℕ, true, ◌||◌, List, [], ◌∷◌, Option, some, none, ◌==◌, if◌then◌else◌, u32,
}
use e_trace_diag.Prelude.Float.{Float}
use e_trace_diag.Config.{Config}
use e_trace_diag.Selector.Maps.{find_or, store, has, include}
use e_trace_diag.Selector.Counters.{KernelMaps, ProcessRow}
use e_trace_diag.Selector.Hysteresis.{ProcState, fresh}
use e_trace_diag.Selector.Evaluate.{TargetSelector, Host, evaluate}
use e_trace_diag.Selector.Targets.{apply_events}

-- What the system gives of a thread: the lines of its status, none where the file is not there,
-- the number that a text starts with, and the time at which the thread is pinned.
pub record Proc : Type 0 where
  pub status : ℕ → List (List ℕ)
  pub strtoul : List ℕ → ℕ
  pub pinned_at : ℕ → ℕ

-- "Tgid:".
abbrev tgid_label : List ℕ
tgid_label = 84 ∷ 103 ∷ 105 ∷ 100 ∷ 58 ∷ []

-- The rest of a line that starts with the label.
unfoldable after_label : List ℕ → List ℕ → Option (List ℕ)
after_label [] cs = some cs
after_label (b ∷ bs) [] = none
after_label (b ∷ bs) (c ∷ cs) = if b == c then after_label bs cs else none

unfoldable read_tgid : Proc → List (List ℕ) → ℕ
unfolding after_label
read_tgid p [] = 0
read_tgid p (line ∷ lines) = elim (after_label tgid_label line) [
  | none ↦ read_tgid p lines
  | some cs ↦ u32 (p.strtoul cs)
]

-- `if (!tgid) tgid = tid;`.
unfoldable process_of : Proc → ℕ → ℕ
unfolding read_tgid
process_of p tid = let tgid = read_tgid p (p.status tid) in if tgid == 0 then tid else tgid

-- The selector with the kernel's map `targets`.
pub record Tracing : Type 0 where
  pub selector : TargetSelector
  pub targets : List ℕ

abbrev pin_state : ℕ → ℕ → ProcState → ProcState
pin_state tgid now_ns st = record st {
  tgid = tgid;
  member = true;
  pinned_proc = true;
  joined_ns = now_ns;
}

unfoldable pub pin : Proc → ℕ → Tracing → Tracing
unfolding process_of find_or store
pin p tid t =
    let sel = t.selector in
    let tgid = process_of p tid in
    record {
      selector = record sel {
        pinned = include tid sel.pinned;
        members = include tid sel.members;
        procs = include tgid sel.procs;
        pstate =
            store tgid (pin_state tgid (p.pinned_at tid) (find_or (fresh 0) tgid sel.pstate))
              sel.pstate;
      };
      targets = include tid t.targets;
    }

unfoldable pub apply_pinned : Proc → List ℕ → Tracing → Tracing
unfolding pin
apply_pinned p [] t = t
apply_pinned p (tid ∷ tids) t =
    apply_pinned p tids (if tid == 0 || has tid t.selector.pinned then t else pin p tid t)

-- The constructor.
abbrev pub new_tracing : Tracing
new_tracing = record {
  selector = record {
    thread_budget = 16;
    pstate = [];
    pinned = [];
    members = [];
    procs = [];
    history = [];
    start_time = [];
  };
  targets = [];
}

module _ (f : Float) (host : Host f) where
  -- A call of `Evaluate`, with the budget that the last `Probe` has set.
  pub record Evaluation : Type 0 where
    pub maps : KernelMaps
    pub cfg : Config f.Double
    pub table : List ProcessRow
    pub now_ns : ℕ
    pub budget : ℕ

  unfoldable pub follow : Evaluation → Tracing → Tracing
  unfolding evaluate apply_events
  follow e t =
      let done =
        evaluate f host e.maps e.cfg e.table e.now_ns
          (record t.selector { thread_budget = e.budget }) in
      record { selector = done.selector; targets = apply_events done.events t.targets }

  unfoldable pub follow_all : List Evaluation → Tracing → Tracing
  unfolding follow
  follow_all [] t = t
  follow_all (e ∷ es) t = follow_all es (follow e t)
