-- ===== src/Syscall/Table/Middle.antt =====
-- Calls of `addSyscall` in `ActionAddeBPFSyscall::apply` of yagi/src/yagiaction.cc, in its order.
use yagi.Common.{false, List, [], ◌∷◌}
use yagi.Syscall.Calls.{Syscall, syscall, int, ptr, str, u32, u64, s32}

abbrev pub syscalls_from_3c : List Syscall
syscalls_from_3c =
    syscall "bpf_msg_redirect_map" 60 int
      (("msg", ptr) ∷ ("map", ptr) ∷ ("key", u32) ∷ ("flags", u64) ∷ []) false
    ∷ syscall "bpf_msg_apply_bytes" 61 int (("msg", ptr) ∷ ("bytes", u32) ∷ []) false
    ∷ syscall "bpf_msg_cork_bytes" 62 int (("msg", ptr) ∷ ("bytes", u32) ∷ []) false
    ∷ syscall "bpf_msg_pull_data" 63 int
        (("msg", ptr) ∷ ("start", u32) ∷ ("end", u32) ∷ ("flags", u64) ∷ []) false
    ∷ syscall "bpf_bind" 64 int (("ctx", ptr) ∷ ("addr", u32) ∷ ("addr_len", int) ∷ []) false
    ∷ syscall "bpf_xdp_adjust_tail" 65 int (("xdp_md", ptr) ∷ ("delta", int) ∷ []) false
    ∷ syscall "bpf_skb_get_xfrm_state" 66 int
        (("skb", ptr) ∷ ("index", int) ∷ ("xfrm_state", int) ∷ ("size", u32) ∷ ("flags", u64) ∷ [])
        false
    ∷ syscall "bpf_get_stack" 67 int
        (("ctx", ptr) ∷ ("buf", ptr) ∷ ("size", u32) ∷ ("flags", u64) ∷ []) false
    ∷ syscall "bpf_skb_load_bytes_relative" 68 int
        (("skb", ptr) ∷ ("offset", u32) ∷ ("to", ptr) ∷ ("len", u32) ∷ ("start_header", u32) ∷ [])
        false
    ∷ syscall "bpf_fib_lookup" 69 int
        (("ctx", ptr) ∷ ("params", ptr) ∷ ("plen", int) ∷ ("flags", u32) ∷ []) false
    ∷ syscall "bpf_sock_hash_update" 70 int
        (("skops", ptr) ∷ ("map", ptr) ∷ ("key", ptr) ∷ ("flags", u64) ∷ []) false
    ∷ syscall "bpf_msg_redirect_hash" 71 int
        (("msg", ptr) ∷ ("map", ptr) ∷ ("key", ptr) ∷ ("flags", u64) ∷ []) false
    ∷ syscall "bpf_sk_redirect_hash" 72 int
        (("skb", ptr) ∷ ("map", ptr) ∷ ("key", ptr) ∷ ("flags", u64) ∷ []) false
    ∷ syscall "bpf_lwt_push_encap" 73 int
        (("skb", ptr) ∷ ("type", u32) ∷ ("hdr", ptr) ∷ ("len", u32) ∷ []) false
    ∷ syscall "bpf_lwt_seg6_store_bytes" 74 int
        (("skb", ptr) ∷ ("offset", u32) ∷ ("from", ptr) ∷ ("len", u32) ∷ []) false
    ∷ syscall "bpf_lwt_seg6_adjust_srh" 75 int
        (("skb", ptr) ∷ ("offset", u32) ∷ ("delta", s32) ∷ []) false
    ∷ syscall "bpf_lwt_seg6_action" 76 int
        (("skb", ptr) ∷ ("action", u32) ∷ ("param", ptr) ∷ ("param_len", u32) ∷ []) false
    ∷ []

abbrev pub syscalls_from_4d : List Syscall
syscalls_from_4d =
    syscall "bpf_rc_repeat" 77 int (("ctx", ptr) ∷ []) false
    ∷ syscall "bpf_rc_repeat" 78 int
        (("ctx", ptr) ∷ ("protocol", u32) ∷ ("scancode", u64) ∷ ("toggle", u32) ∷ []) false
    ∷ syscall "bpf_skb_cgroup_id" 79 u64 (("skb", ptr) ∷ []) false
    ∷ syscall "bpf_get_current_cgroup_id" 80 u64 [] false
    ∷ syscall "bpf_get_local_storage" 81 ptr (("map", ptr) ∷ ("flags", u64) ∷ []) false
    ∷ syscall "bpf_sk_select_reuseport" 82 int
        (("reuse", ptr) ∷ ("map", ptr) ∷ ("key", ptr) ∷ ("flags", u64) ∷ []) false
    ∷ syscall "bpf_skb_ancestor_cgroup_id" 83 u64 (("skb", ptr) ∷ ("ancestor_level", int) ∷ [])
        false
    ∷ syscall "bpf_sk_lookup_tcp" 84 ptr
        (("ctx", ptr) ∷ ("tuple", ptr) ∷ ("tuple_size", u32) ∷ ("netns", u64) ∷ ("flags", u64) ∷ [])
        false
    ∷ syscall "bpf_sk_lookup_udp" 85 ptr
        (("ctx", ptr) ∷ ("tuple", ptr) ∷ ("tuple_size", u32) ∷ ("netns", u64) ∷ ("flags", u64) ∷ [])
        false
    ∷ syscall "bpf_sk_release" 86 int (("sock", ptr) ∷ []) false
    ∷ syscall "bpf_map_push_elem" 87 int (("map", ptr) ∷ ("value", ptr) ∷ ("flags", u64) ∷ []) false
    ∷ syscall "bpf_map_pop_elem" 88 int (("map", ptr) ∷ ("value", ptr) ∷ []) false
    ∷ syscall "bpf_map_peek_elem" 89 int (("map", ptr) ∷ ("value", ptr) ∷ []) false
    ∷ syscall "bpf_msg_push_data" 90 int
        (("msg", ptr) ∷ ("start", u32) ∷ ("len", u32) ∷ ("flags", u64) ∷ []) false
    ∷ syscall "bpf_msg_pop_data" 91 int
        (("msg", ptr) ∷ ("start", u32) ∷ ("len", u32) ∷ ("flags", u64) ∷ []) false
    ∷ syscall "bpf_rc_pointer_rel" 92 int (("ctx", ptr) ∷ ("rel_x", s32) ∷ ("rel_y", s32) ∷ [])
        false
    ∷ syscall "bpf_spin_lock" 93 int (("lock", ptr) ∷ []) false
    ∷ syscall "bpf_spin_unlock" 94 int (("lock", ptr) ∷ []) false
    ∷ syscall "bpf_sk_fullsock" 95 ptr (("sk", ptr) ∷ []) false
    ∷ syscall "bpf_tcp_sock" 96 ptr (("sk", ptr) ∷ []) false
    ∷ []

abbrev pub syscalls_from_61 : List Syscall
syscalls_from_61 =
    syscall "bpf_skb_ecn_set_ce" 97 int (("skb", ptr) ∷ []) false
    ∷ syscall "bpf_get_listener_sock" 98 ptr (("sk", ptr) ∷ []) false
    ∷ syscall "bpf_skc_lookup_tcp" 99 ptr
        (("ctx", ptr) ∷ ("tuple", ptr) ∷ ("tuple_size", ptr) ∷ ("netns", u64) ∷ ("flags", u64) ∷ [])
        false
    ∷ syscall "bpf_tcp_check_syncookie" 100 int
        (("sk", ptr) ∷ ("iph", ptr) ∷ ("iph_len", u32) ∷ ("th", ptr) ∷ ("th_len", u32) ∷ []) false
    ∷ syscall "bpf_sysctl_get_name" 101 int
        (("ctx", ptr) ∷ ("buf", str) ∷ ("buf_len", u64) ∷ ("flags", u64) ∷ []) false
    ∷ syscall "bpf_sysctl_get_current_value" 102 int
        (("ctx", ptr) ∷ ("buf", str) ∷ ("buf_len", u64) ∷ []) false
    ∷ syscall "bpf_sysctl_get_new_value" 103 int
        (("ctx", ptr) ∷ ("buf", str) ∷ ("buf_len", u64) ∷ []) false
    ∷ syscall "bpf_sysctl_set_new_value" 104 int
        (("ctx", ptr) ∷ ("buf", str) ∷ ("buf_len", u64) ∷ []) false
    ∷ syscall "bpf_strtol" 105 int
        (("buf", str) ∷ ("buf_len", u64) ∷ ("flags", u64) ∷ ("res", ptr) ∷ []) false
    ∷ syscall "bpf_strtoul" 106 int
        (("buf", str) ∷ ("buf_len", u64) ∷ ("flags", u64) ∷ ("res", ptr) ∷ []) false
    ∷ syscall "bpf_sk_storage_get" 107 ptr
        (("map", ptr) ∷ ("sk", ptr) ∷ ("value", ptr) ∷ ("flags", u64) ∷ []) false
    ∷ syscall "bpf_sk_storage_delete" 108 int (("map", ptr) ∷ ("sk", ptr) ∷ []) false
    ∷ syscall "bpf_send_signal" 109 int (("sig", u32) ∷ []) false
    ∷ syscall "bpf_tcp_gen_syncookie" 110 int
        (("sk", ptr) ∷ ("iph", ptr) ∷ ("iph_len", u32) ∷ ("th", ptr) ∷ ("th_len", u32) ∷ []) false
    ∷ syscall "bpf_skb_output" 111 int
        (("ctx", ptr) ∷ ("map", ptr) ∷ ("flags", u64) ∷ ("data", ptr) ∷ ("size", u64) ∷ []) false
    ∷ syscall "bpf_probe_read_user" 112 int
        (("dst", ptr) ∷ ("size", u32) ∷ ("unsafe_ptr", ptr) ∷ []) false
    ∷ syscall "bpf_probe_read_kernel" 113 int
        (("dst", ptr) ∷ ("size", u32) ∷ ("unsafe_ptr", ptr) ∷ []) false
    ∷ syscall "bpf_probe_read_user_str" 114 int
        (("dst", str) ∷ ("size", u32) ∷ ("unsafe_ptr", ptr) ∷ []) false
    ∷ []
