-- ===== src/Syscall/Table/Low.antt =====
-- Calls of `addSyscall` in `ActionAddeBPFSyscall::apply` of yagi/src/yagiaction.cc, in its order.
use yagi.Common.{true, false, List, [], ◌∷◌}
use yagi.Syscall.Calls.{Syscall, syscall, int, ptr, str, u16, u32, u64, s32, s64, void}

abbrev pub syscalls_from_00 : List Syscall
syscalls_from_00 =
    syscall "bpf_unspec" 0 void [] false
    ∷ syscall "bpf_map_lookup_elem" 1 ptr (("map", ptr) ∷ ("key", ptr) ∷ []) false
    ∷ syscall "bpf_map_update_elem" 3 int
        (("map", ptr) ∷ ("key", ptr) ∷ ("value", ptr) ∷ ("flags", u64) ∷ []) false
    ∷ syscall "bpf_probe_read" 4 int (("dst", ptr) ∷ ("size", u32) ∷ ("src", ptr) ∷ []) false
    ∷ syscall "bpf_ktime_get_ns" 5 u64 [] false
    ∷ syscall "bpf_trace_printk" 6 int (("fmt", ptr) ∷ ("fmt_size", u32) ∷ []) true
    ∷ syscall "bpf_get_prandom_u32" 7 u32 [] false
    ∷ syscall "bpf_get_smp_processor_id" 8 u32 [] false
    ∷ syscall "bpf_skb_store_bytes" 9 int
        (("skb", ptr) ∷ ("offset", u32) ∷ ("from", ptr) ∷ ("len", u32) ∷ ("flags", u64) ∷ []) false
    ∷ syscall "bpf_l3_csum_replace" 10 int
        (("skb", ptr) ∷ ("offset", u32) ∷ ("from", u64) ∷ ("to", u64) ∷ ("size", u64) ∷ []) false
    ∷ syscall "bpf_l4_csum_replace" 11 int
        (("skb", ptr) ∷ ("offset", u32) ∷ ("from", u64) ∷ ("to", u64) ∷ ("flags", u64) ∷ []) false
    ∷ syscall "bpf_tail_call" 12 int (("ctx", ptr) ∷ ("prog_array_map", ptr) ∷ ("index", u32) ∷ [])
        false
    ∷ syscall "bpf_clone_redirect" 13 int (("skb", ptr) ∷ ("ifindex", u32) ∷ ("flags", u64) ∷ [])
        false
    ∷ syscall "bpf_get_current_pid_tgid" 14 u64 [] false
    ∷ syscall "bpf_get_current_uid_gid" 15 u64 [] false
    ∷ syscall "bpf_get_current_comm" 16 int (("buf", str) ∷ ("size_of_buf", u32) ∷ []) false
    ∷ syscall "bpf_get_cgroup_classid" 17 u32 (("skb", ptr) ∷ []) false
    ∷ syscall "bpf_skb_vlan_push" 18 int
        (("skb", ptr) ∷ ("vlan_proto", u16) ∷ ("vlan_tci", u16) ∷ []) false
    ∷ syscall "bpf_skb_vlan_pop" 19 int (("skb", str) ∷ []) false
    ∷ syscall "bpf_skb_get_tunnel_key" 20 int
        (("skb", ptr) ∷ ("key", ptr) ∷ ("size", u32) ∷ ("flags", u64) ∷ []) false
    ∷ syscall "bpf_skb_set_tunnel_key" 21 int
        (("skb", ptr) ∷ ("key", ptr) ∷ ("size", u32) ∷ ("flags", u64) ∷ []) false
    ∷ syscall "bpf_perf_event_read" 22 u64 (("map", ptr) ∷ ("flags", u64) ∷ []) false
    ∷ []

abbrev pub syscalls_from_17 : List Syscall
syscalls_from_17 =
    syscall "bpf_redirect" 23 int (("ifindex", u32) ∷ ("flags", u64) ∷ []) false
    ∷ syscall "bpf_get_route_realm" 24 int (("skb", ptr) ∷ []) false
    ∷ syscall "bpf_perf_event_output" 25 int
        (("ctx", ptr) ∷ ("map", ptr) ∷ ("flags", u64) ∷ ("data", ptr) ∷ ("size", u64) ∷ []) false
    ∷ syscall "bpf_perf_event_output" 26 int
        (("ctx", ptr) ∷ ("map", ptr) ∷ ("flags", u64) ∷ ("data", ptr) ∷ ("size", u64) ∷ []) false
    ∷ syscall "bpf_get_stackid" 27 int (("ctx", ptr) ∷ ("map", ptr) ∷ ("flags", u64) ∷ []) false
    ∷ syscall "bpf_csum_diff" 28 s64
        (("from", ptr) ∷ ("from_size", u32) ∷ ("to", ptr) ∷ ("to_size", u32) ∷ ("seed", u32) ∷ [])
        false
    ∷ syscall "bpf_skb_get_tunnel_opt" 29 int (("skb", ptr) ∷ ("opt", ptr) ∷ ("size", u32) ∷ [])
        false
    ∷ syscall "bpf_skb_set_tunnel_opt" 30 int (("skb", ptr) ∷ ("opt", ptr) ∷ ("size", u32) ∷ [])
        false
    ∷ syscall "bpf_skb_change_proto" 31 int (("skb", ptr) ∷ ("proto", u16) ∷ ("flags", u64) ∷ [])
        false
    ∷ syscall "bpf_skb_change_type" 32 int (("skb", ptr) ∷ ("type", u32) ∷ []) false
    ∷ syscall "bpf_skb_under_cgroup" 33 int (("skb", ptr) ∷ ("map", ptr) ∷ ("index", u32) ∷ [])
        false
    ∷ syscall "bpf_get_hash_recalc" 34 u32 (("skb", ptr) ∷ []) false
    ∷ syscall "bpf_get_current_task" 35 u64 [] false
    ∷ syscall "bpf_probe_write_user" 36 int (("dst", ptr) ∷ ("src", ptr) ∷ ("len", u32) ∷ []) false
    ∷ syscall "bpf_current_task_under_cgroup" 37 int (("map", ptr) ∷ ("index", u32) ∷ []) false
    ∷ syscall "bpf_skb_change_tail" 38 int (("skb", ptr) ∷ ("len", u32) ∷ ("flags", u64) ∷ []) false
    ∷ syscall "bpf_skb_pull_data" 39 int (("skb", ptr) ∷ ("len", u32) ∷ []) false
    ∷ syscall "bpf_csum_update" 40 s64 (("skb", ptr) ∷ ("csum", u32) ∷ []) false
    ∷ syscall "bpf_set_hash_invalid" 41 void (("skb", ptr) ∷ []) false
    ∷ syscall "bpf_get_numa_node_id" 42 int [] false
    ∷ []

abbrev pub syscalls_from_2b : List Syscall
syscalls_from_2b =
    syscall "bpf_skb_change_head" 43 int (("skb", ptr) ∷ ("len", u32) ∷ ("flags", u64) ∷ []) false
    ∷ syscall "bpf_xdp_adjust_head" 44 int (("xdp_md", ptr) ∷ ("delta", int) ∷ []) false
    ∷ syscall "bpf_probe_read_str" 44 int (("dst", ptr) ∷ ("size", u32) ∷ ("unsafe_ptr", ptr) ∷ [])
        false
    ∷ syscall "bpf_get_socket_cookie" 45 u64 (("skb", ptr) ∷ []) false
    ∷ syscall "bpf_get_socket_cookie" 46 u64 (("ctx", ptr) ∷ []) false
    ∷ syscall "bpf_get_socket_cookie" 47 u64 (("ctx", ptr) ∷ []) false
    ∷ syscall "bpf_get_socket_uid" 47 u32 (("skb", ptr) ∷ []) false
    ∷ syscall "bpf_set_hash" 48 u32 (("skb", ptr) ∷ ("hash", u32) ∷ []) false
    ∷ syscall "bpf_setsockopt" 49 int
        (("bpf_socket", ptr)
          ∷ ("level", int)
          ∷ ("optname", int)
          ∷ ("optval", ptr)
          ∷ ("optlen", int)
          ∷ [])
        false
    ∷ syscall "bpf_skb_adjust_room" 50 int
        (("skb", ptr) ∷ ("len_diff", s32) ∷ ("mode", u32) ∷ ("flags", u64) ∷ []) false
    ∷ syscall "bpf_redirect_map" 51 int (("map", ptr) ∷ ("key", u32) ∷ ("flags", u64) ∷ []) false
    ∷ syscall "bpf_sk_redirect_map" 52 int
        (("skb", ptr) ∷ ("map", ptr) ∷ ("key", u32) ∷ ("flags", u64) ∷ []) false
    ∷ syscall "bpf_sock_map_update" 53 int
        (("skops", ptr) ∷ ("map", ptr) ∷ ("key", ptr) ∷ ("flags", u64) ∷ []) false
    ∷ syscall "bpf_xdp_adjust_meta" 54 int (("xdp_md", ptr) ∷ ("delta", int) ∷ []) false
    ∷ syscall "bpf_perf_event_read_value" 55 int
        (("map", ptr) ∷ ("flags", u64) ∷ ("buf", ptr) ∷ ("buf_size", u32) ∷ []) false
    ∷ syscall "bpf_perf_prog_read_value" 56 int
        (("ctx", ptr) ∷ ("buf", ptr) ∷ ("buf_size", u32) ∷ []) false
    ∷ syscall "bpf_getsockopt" 57 int
        (("bpf_socket", ptr)
          ∷ ("level", int)
          ∷ ("optname", int)
          ∷ ("optval", ptr)
          ∷ ("optlen", int)
          ∷ [])
        false
    ∷ syscall "bpf_override_return" 58 int (("regs", ptr) ∷ ("rc", u64) ∷ []) false
    ∷ syscall "bpf_sock_ops_cb_flags_set" 59 int (("bpf_sock", ptr) ∷ ("argval", int) ∷ []) false
    ∷ []
