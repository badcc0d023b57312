-- ===== src/Deep/Links.antt =====
-- `AttachDeepLinks` of src/collect/deep_collector.cpp. What `Prog` and `bpf_program__attach` do is a
-- parameter; a link is known by the name of its program.
use e_trace_diag.Prelude.{
  ℕ, String, Bool, true, false, ◌&&◌, ◌||◌, List, [], ◌∷◌, ◌++◌, if◌then◌else◌, str_eq,
}

-- There is no such program, it does not attach (with the text of `errno`), or it does.
pub data Attach : Type 0 where
  missing attached : Attach
  refused : String → Attach

abbrev pub Programs : Type 0
Programs = String → Attach

pub record Capability : Type 0 where
  pub name : String
  pub available : Bool
  pub error : String

-- `deep_links_` and `capabilities_`.
pub record Hooks : Type 0 where
  pub links : List String
  pub caps : List Capability

abbrev pub add_link : String → Hooks → Hooks
add_link n h = record h { links = h.links ++ n ∷ [] }

abbrev pub add_cap : String → Bool → String → Hooks → Hooks
add_cap n available error h = record h {
  caps = h.caps ++ record { name = n; available = available; error = error } ∷ [];
}

-- The loop over a list of primary programs: it stops at the first that does not attach, and the links
-- before it stay.
unfoldable pub attach_primary : Programs → List String → Hooks → Bool × Hooks
attach_primary progs [] h = (true, h)
attach_primary progs (n ∷ ns) h =
    let rest = attach_primary progs ns (add_link n h) in
    elim (progs n) [ missing ↦ (false, h) | refused e ↦ (false, h) | attached ↦ rest ]

-- The loop over programs that must all attach: `false` is `return false`.
unfoldable pub attach_required : Programs → List String → Hooks → Bool × Hooks
attach_required progs [] h = (true, h)
attach_required progs (n ∷ ns) h =
    let rest = attach_required progs ns (add_cap n true "fallback" (add_link n h)) in
    elim (progs n) [
      | missing ↦ (false, add_cap n false "missing program" h)
      | refused e ↦ (false, add_cap n false e h)
      | attached ↦ rest
    ]

-- One program that may fail, and the text of its capability where it does not.
unfoldable pub attach_optional : Programs → String → List String → Hooks → Hooks
attach_optional progs note [] h = h
attach_optional progs note (n ∷ ns) h = attach_optional progs note ns (elim (progs n) [
  | missing ↦ add_cap n false "missing program" h
  | refused e ↦ add_cap n false e h
  | attached ↦ add_cap n true note (add_link n h)
])

abbrev pub add_caps : Bool → String → List String → Hooks → Hooks
add_caps available error [] h = h
add_caps available error (n ∷ ns) h = add_caps available error ns (add_cap n available error h)

abbrev pub syscall_primary : List String
syscall_primary = "fentry_sys" ∷ "fexit_sys" ∷ []

abbrev pub syscall_fallback : List String
syscall_fallback = "on_sys_enter" ∷ "on_sys_exit" ∷ []

-- The syscall pair, which is required.
unfoldable pub attach_syscalls : Programs → Hooks → Bool × Hooks
unfolding attach_primary attach_required
attach_syscalls progs h =
    let primary = attach_primary progs syscall_primary h in
    if primary.0
    then (true, add_caps true "" syscall_primary primary.1)
    else attach_required progs syscall_fallback
        (add_caps false "fallback raw_syscalls tp" syscall_primary primary.1)

abbrev pub file_primary : List String
file_primary = "fentry_vfs_read" ∷ "fexit_vfs_read" ∷ "fentry_vfs_write" ∷ "fexit_vfs_write" ∷ []

abbrev pub file_fallback : List String
file_fallback =
    "kprobe_vfs_read" ∷ "kretprobe_vfs_read" ∷ "kprobe_vfs_write" ∷ "kretprobe_vfs_write" ∷ []

unfoldable pub attach_files : Programs → Hooks → Hooks
unfolding attach_primary attach_optional
attach_files progs h =
    let primary = attach_primary progs file_primary h in
    if primary.0
    then add_caps true "" file_primary primary.1
    else attach_optional progs "fallback" file_fallback
        (add_caps false "5.15 verifier (fallback used)" file_primary primary.1)

-- `offcpu_ok`.
unfoldable pub offcpu_available : List Capability → Bool
offcpu_available [] = false
offcpu_available (c ∷ cs) = (str_eq c.name "offcpu_schedule" && c.available) || offcpu_available cs

abbrev pub net_programs : List String
net_programs =
    "net_sock_state" ∷ "net_tcp_retransmit" ∷ "net_kfree_skb" ∷ "net_tcp_send_reset"
    ∷ "net_softirq_entry" ∷ "net_softirq_exit" ∷ "kprobe_tcp_v4_connect"
    ∷ "kretprobe_tcp_v4_connect" ∷ "kprobe_tcp_v6_connect" ∷ "kretprobe_tcp_v6_connect"
    ∷ "kretprobe_inet_csk_accept" ∷ "kprobe_tcp_rcv_established" ∷ []

-- The hooks after the syscall pair, and the flag `offcpu_fallback`.
unfoldable pub attach_others : Programs → Hooks → Hooks × ℕ
unfolding attach_optional attach_files offcpu_available
attach_others progs h =
    let off = attach_optional progs "" ("offcpu_schedule" ∷ "on_process_exit" ∷ []) h in
    (
      attach_optional progs "" net_programs (attach_files progs off),
      if offcpu_available off.caps then 0 else 1,
    )
