-- ===== src/Deep/Entry.antt =====
-- When `Enter` of src/collect/deep_collector.cpp succeeds, and what it and `Exit` leave.
use e_trace_diag.Prelude.{
  ℕ, String, Bool, true, false, ◌&&◌, ◌||◌, List, [], ◌∷◌, ◌++◌, ◌≡◌, refl, sym, ap, ◌∙◌,
  append_assoc, append-nil, arith, if_cases,
}
use e_trace_diag.Config.{Config}
use e_trace_diag.Deep.Links.{
  Programs, missing, refused, attached, Hooks, attach_primary, attach_required, add_link, add_cap,
  attach_others, attach_syscalls, syscall_primary, syscall_fallback, add_caps,
}
use e_trace_diag.Deep.Collector.{
  DeepCollector, System, emit, write_offcpu_fallback, enter, begin, with_profiler, prepare, exit,
}

-- Every program of the list attaches.
abbrev pub attaches : Programs → List String → Bool
attaches progs [] = true
attaches progs (n ∷ ns) = elim (progs n) [
  | missing ↦ false
  | refused e ↦ false
  | attached ↦ attaches progs ns
]

attach_primary_lem :
    (progs : Programs) (ns : List String) (h : Hooks)
    → (attach_primary progs ns h).0 ≡ attaches progs ns
unfolding attach_primary
attach_primary_lem progs [] h = refl
attach_primary_lem progs (n ∷ ns) h = ground (arith, attach_primary_lem progs ns (add_link n h))

attach_required_lem :
    (progs : Programs) (ns : List String) (h : Hooks)
    → (attach_required progs ns h).0 ≡ attaches progs ns
unfolding attach_required
attach_required_lem progs [] h = refl
attach_required_lem progs (n ∷ ns) h =
    ground (arith, attach_required_lem progs ns (add_cap n true "fallback" (add_link n h)))

attach_syscalls_lem :
    (progs : Programs) (h : Hooks)
    → (attach_syscalls progs h).0
      ≡ (attaches progs syscall_primary || attaches progs syscall_fallback)
unfolding attach_syscalls
attach_syscalls_lem progs h =
    let h1 = (attach_primary progs syscall_primary h).1 in
    ground (
      arith,
      attach_primary_lem progs syscall_primary h,
      attach_required_lem progs syscall_fallback
          (add_caps false "fallback raw_syscalls tp" syscall_primary h1),
    )

-- The programs of the list that are attached before the first that is missing or refused.
abbrev pub attached_before : Programs → List String → List String
attached_before progs [] = []
attached_before progs (n ∷ ns) = elim (progs n) [
  | missing ↦ []
  | refused e ↦ []
  | attached ↦ n ∷ attached_before progs ns
]

attach_primary-links :
    (progs : Programs) (ns : List String) (h : Hooks)
    → (attach_primary progs ns h).1.links ≡ h.links ++ attached_before progs ns
unfolding attach_primary
attach_primary-links progs [] h = sym (append-nil h.links)
attach_primary-links progs (n ∷ ns) h = ground (
  arith,
  attach_primary-links progs ns (add_link n h),
  append_assoc h.links (n ∷ []) (attached_before progs ns),
  append-nil h.links,
)

attach_required-links :
    (progs : Programs) (ns : List String) (h : Hooks)
    → (attach_required progs ns h).1.links ≡ h.links ++ attached_before progs ns
unfolding attach_required
attach_required-links progs [] h = sym (append-nil h.links)
attach_required-links progs (n ∷ ns) h = ground (
  arith,
  attach_required-links progs ns (add_cap n true "fallback" (add_link n h)),
  append_assoc h.links (n ∷ []) (attached_before progs ns),
  append-nil h.links,
)

add_caps-links :
    (available : Bool) (error : String) (ns : List String) (h : Hooks)
    → (add_caps available error ns h).links ≡ h.links
add_caps-links available error [] h = refl
add_caps-links available error (n ∷ ns) h =
    add_caps-links available error ns (add_cap n available error h)

-- Where neither pair attaches, the links of both loops stay.
attach_syscalls-links :
    (progs : Programs) (h : Hooks)
    → attaches progs syscall_primary ≡ false
    → (attach_syscalls progs h).1.links
      ≡ h.links ++ (attached_before progs syscall_primary ++ attached_before progs syscall_fallback)
unfolding attach_syscalls
attach_syscalls-links progs h e =
    let primary = attach_primary progs syscall_primary h in
    let noted = add_caps false "fallback raw_syscalls tp" syscall_primary primary.1 in
    rw (attach_primary_lem progs syscall_primary h ∙ e) (
      attach_required-links progs syscall_fallback noted
      ∙ ap (λ ls. ls ++ attached_before progs syscall_fallback)
          (add_caps-links false "fallback raw_syscalls tp" syscall_primary primary.1
            ∙ attach_primary-links progs syscall_primary h)
      ∙ append_assoc h.links (attached_before progs syscall_primary)
          (attached_before progs syscall_fallback))

begin_lem :
    (s : System) (ordinal start_ns : ℕ) (d : DeepCollector)
    → ((begin s ordinal start_ns d).0 ≡ s.opens_deep)
      × ((begin s ordinal start_ns d).1.active ≡ (begin s ordinal start_ns d).0)
unfolding begin exit
begin_lem s ordinal start_ns d = ground arith

module _ {Double : Type 0} (s : System) where
  -- `Enter` succeeds exactly when one of the two syscall pairs attaches and the session opens, and
  -- the collector that was not active is active exactly then: no other hook, nor the profiler,
  -- makes it fail.
  pub enter_lem :
      (ordinal start_ns : ℕ) (cfg : Config Double) (d : DeepCollector)
      → d.active ≡ false
      → ((enter s ordinal start_ns cfg d).0 ≡ (
          (attaches s.programs syscall_primary || attaches s.programs syscall_fallback)
          && s.opens_deep))
        × ((enter s ordinal start_ns cfg d).1.active ≡ (enter s ordinal start_ns cfg d).0)
  unfolding enter prepare
  enter_lem ordinal start_ns cfg d h =
      let d1 = prepare s ordinal start_ns cfg d in
      let pair = attach_syscalls s.programs d1.hooks in
      let others = attach_others s.programs pair.1 in
      let d2 =
        with_profiler s cfg
          (emit (write_offcpu_fallback others.1 ∷ []) (record d1 { hooks = others.0 })) in
      let (f, g) = begin_lem s ordinal start_ns d2 in
      let e = attach_syscalls_lem s.programs d1.hooks in
      if_cases
        (λ (r : Bool × DeepCollector).
          (r.0 ≡ (
            (attaches s.programs syscall_primary || attaches s.programs syscall_fallback)
            && s.opens_deep))
          × (r.1.active ≡ r.0))
        pair.0 (λ q. (ground (arith, e, q, f), g)) (λ q. (ground (arith, e, q), h))

  -- Where neither syscall pair attaches, each because a program of it is missing or is refused,
  -- `Enter` fails and the collector is as inactive as before, but the links of the programs that came
  -- before the failing ones, of both pairs, stay open behind those that were there.
  pub enter_leaves_link :
      (ordinal start_ns : ℕ) (cfg : Config Double) (d : DeepCollector)
      → attaches s.programs syscall_primary ≡ false
      → attaches s.programs syscall_fallback ≡ false
      → ((enter s ordinal start_ns cfg d).0 ≡ false)
        × ((enter s ordinal start_ns cfg d).1.active ≡ d.active)
        × ((enter s ordinal start_ns cfg d).1.hooks.links
            ≡ d.hooks.links
              ++ (attached_before s.programs syscall_primary
                  ++ attached_before s.programs syscall_fallback))
  unfolding enter prepare
  enter_leaves_link ordinal start_ns cfg d a b =
      let h = (prepare s ordinal start_ns cfg d).hooks in
      let none_attached : (attach_syscalls s.programs h).0 ≡ false =
        ground (arith, attach_syscalls_lem s.programs h, a, b) in
      rw none_attached (refl, refl, attach_syscalls-links s.programs h a)
