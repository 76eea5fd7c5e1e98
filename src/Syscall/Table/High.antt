-- ===== src/Syscall/Table/High.antt =====
-- Calls of `addSyscall` in `ActionAddeBPFSyscall::apply` of yagi/src/yagiaction.cc, in its order.
use yagi.Common.{false, List, [], ◌∷◌}
use yagi.Syscall.Calls.{Syscall, syscall, int, ptr, str, u32, u64, s32, void}

abbrev pub syscalls_from_73 : List Syscall
syscalls_from_73 =
    syscall "bpf_probe_read_kernel_str" 115 int
      (("dst", str) ∷ ("size", u32) ∷ ("unsafe_ptr", ptr) ∷ []) false
    ∷ syscall "bpf_tcp_send_ack" 116 int (("tp", str) ∷ ("rcv_nxt", u32) ∷ []) false
    ∷ syscall "bpf_send_signal_thread" 117 int (("sig", u32) ∷ []) false
    ∷ syscall "bpf_jiffies64" 118 u64 [] false
    ∷ syscall "bpf_read_branch_records" 119 int
        (("ctx", ptr) ∷ ("buf", ptr) ∷ ("size", u32) ∷ ("flags", u64) ∷ []) false
    ∷ syscall "bpf_get_ns_current_pid_tgid" 120 int
        (("dev", u64) ∷ ("ino", u64) ∷ ("nsdata", ptr) ∷ ("size", u32) ∷ []) false
    ∷ syscall "bpf_xdp_output" 121 int
        (("ctx", ptr) ∷ ("map", ptr) ∷ ("flags", u64) ∷ ("data", ptr) ∷ ("size", u64) ∷ []) false
    ∷ syscall "bpf_get_netns_cookie" 122 int (("ctx", ptr) ∷ []) false
    ∷ syscall "bpf_get_current_ancestor_cgroup_id" 123 u64 (("ancestor_level", int) ∷ []) false
    ∷ syscall "bpf_sk_assign" 124 int (("ctx", ptr) ∷ ("sk", ptr) ∷ ("flags", u64) ∷ []) false
    ∷ syscall "bpf_ktime_get_boot_ns" 125 u64 [] false
    ∷ syscall "bpf_seq_printf" 126 int
        (("m", ptr) ∷ ("fmt", str) ∷ ("fmt_size", u32) ∷ ("data", ptr) ∷ ("data_len", u32) ∷ [])
        false
    ∷ syscall "bpf_seq_write" 127 int (("m", ptr) ∷ ("data", ptr) ∷ ("len", u32) ∷ []) false
    ∷ syscall "bpf_sk_cgroup_id" 128 u64 (("sk", ptr) ∷ []) false
    ∷ syscall "bpf_sk_ancestor_cgroup_id" 129 u64 (("sk", ptr) ∷ ("ancestor_level", int) ∷ []) false
    ∷ syscall "bpf_ringbuf_output" 130 u64
        (("ringbuf", ptr) ∷ ("data", ptr) ∷ ("size", u64) ∷ ("flags", u64) ∷ []) false
    ∷ syscall "bpf_ringbuf_reserve" 131 ptr (("ringbuf", ptr) ∷ ("data", ptr) ∷ ("flags", u64) ∷ [])
        false
    ∷ syscall "bpf_ringbuf_submit" 132 void (("ringbuf", ptr) ∷ ("flags", u64) ∷ []) false
    ∷ syscall "bpf_ringbuf_discard" 133 void (("data", ptr) ∷ ("flags", u64) ∷ []) false
    ∷ syscall "bpf_ringbuf_query" 134 u64 (("ringbuf", ptr) ∷ ("flags", u64) ∷ []) false
    ∷ []

abbrev pub syscalls_from_87 : List Syscall
syscalls_from_87 =
    syscall "bpf_csum_level" 135 int (("skb", ptr) ∷ ("level", u64) ∷ []) false
    ∷ syscall "bpf_skc_to_tcp6_sock" 136 ptr (("sk", ptr) ∷ []) false
    ∷ syscall "bpf_skc_to_tcp_sock" 137 ptr (("sk", ptr) ∷ []) false
    ∷ syscall "bpf_skc_to_tcp_timewait_sock" 138 ptr (("sk", ptr) ∷ []) false
    ∷ syscall "bpf_skc_to_tcp_request_sock" 139 ptr (("sk", ptr) ∷ []) false
    ∷ syscall "bpf_skc_to_udp6_sock" 140 ptr (("sk", ptr) ∷ []) false
    ∷ syscall "bpf_get_task_stack" 141 int
        (("task", ptr) ∷ ("buf", ptr) ∷ ("size", u32) ∷ ("flags", u64) ∷ []) false
    ∷ syscall "bpf_load_hdr_opt" 142 int
        (("skops", ptr) ∷ ("searchby_res", ptr) ∷ ("len", u32) ∷ ("flags", u64) ∷ []) false
    ∷ syscall "bpf_store_hdr_opt" 143 int
        (("skops", ptr) ∷ ("searchby_res", ptr) ∷ ("len", u32) ∷ ("flags", u64) ∷ []) false
    ∷ syscall "bpf_reserve_hdr_opt" 144 int (("skops", ptr) ∷ ("len", u32) ∷ ("flags", u64) ∷ [])
        false
    ∷ syscall "bpf_inode_storage_get" 145 ptr
        (("map", ptr) ∷ ("inode", ptr) ∷ ("value", ptr) ∷ ("flags", u64) ∷ []) false
    ∷ syscall "bpf_inode_storage_delete" 146 int (("map", ptr) ∷ ("inode", ptr) ∷ []) false
    ∷ syscall "bpf_d_path" 147 int (("path", ptr) ∷ ("buf", ptr) ∷ ("sz", u32) ∷ []) false
    ∷ syscall "bpf_copy_from_user" 148 int (("dst", ptr) ∷ ("size", u32) ∷ ("user_ptr", ptr) ∷ [])
        false
    ∷ syscall "bpf_snprintf_btf" 149 int
        (("str", ptr) ∷ ("str_size", u32) ∷ ("ptr", ptr) ∷ ("ptr_size", u32) ∷ ("flags", u64) ∷ [])
        false
    ∷ syscall "bpf_seq_printf_btf" 150 int
        (("m", ptr) ∷ ("ptr", u32) ∷ ("ptr_size", u32) ∷ ("flags", u64) ∷ []) false
    ∷ syscall "bpf_skb_cgroup_classid" 151 int (("skb", ptr) ∷ []) false
    ∷ syscall "bpf_redirect_neigh" 152 int
        (("ifindex", u32) ∷ ("params", ptr) ∷ ("plen", int) ∷ ("flags", u64) ∷ []) false
    ∷ syscall "bpf_per_cpu_ptr" 153 ptr (("percpu_ptr", ptr) ∷ ("cpu", u32) ∷ []) false
    ∷ []

abbrev pub syscalls_from_9a : List Syscall
syscalls_from_9a =
    syscall "bpf_this_cpu_ptr" 154 ptr (("percpu_ptr", ptr) ∷ []) false
    ∷ syscall "bpf_redirect_peer" 155 int (("ifindex", u32) ∷ ("flags", u64) ∷ []) false
    ∷ syscall "bpf_task_storage_get" 156 ptr
        (("map", ptr) ∷ ("task", ptr) ∷ ("value", ptr) ∷ ("flags", u64) ∷ []) false
    ∷ syscall "bpf_task_storage_delete" 157 int (("map", ptr) ∷ ("task", ptr) ∷ []) false
    ∷ syscall "bpf_get_current_task_btf" 158 ptr [] false
    ∷ syscall "bpf_bprm_opts_set" 159 int (("bprm", ptr) ∷ ("flags", u64) ∷ []) false
    ∷ syscall "bpf_ktime_get_coarse_ns" 160 u64 [] false
    ∷ syscall "bpf_ima_inode_hash" 161 int (("inode", ptr) ∷ ("dst", ptr) ∷ ("size", u32) ∷ [])
        false
    ∷ syscall "bpf_sock_from_file" 162 ptr (("file", ptr) ∷ []) false
    ∷ syscall "bpf_check_mtu" 163 int
        (("ctx", ptr)
          ∷ ("ifindex", u32)
          ∷ ("mtu_len", ptr)
          ∷ ("len_diff", s32)
          ∷ ("flags", u64)
          ∷ [])
        false
    ∷ syscall "bpf_for_each_map_elem" 164 int
        (("map", ptr) ∷ ("callback_fn", ptr) ∷ ("callback_ctx", ptr) ∷ ("flags", u64) ∷ []) false
    ∷ syscall "bpf_snprintf" 165 int
        (("str", str) ∷ ("str_size", u32) ∷ ("fmt", str) ∷ ("data", ptr) ∷ ("data_len", u32) ∷ [])
        false
    ∷ []
