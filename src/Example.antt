-- ===== src/Example.antt =====
-- A small kernel and CPU on which the theorems are run.
use rex_with_driver.Base.{
  ℕ, ◌+◌, ◌%◌, ◌^◌, some, none, [], ◌∷◌, ◌++◌, Bool, true, false, codes, replicate, length, take,
  ltb,
}
use rex_with_driver.Kernel.{Call, Memory, Uapi, Env, Cpu, unlock_spinlock}
use rex_with_driver.Packet.{Layout}
use rex_with_driver.Program.{Host}
use rex_with_driver.Panic.{default_entry, new_entry}

-- The values of the kernel's headers.
abbrev pub uapi_values : Uapi
uapi_values = record {
  einval = 22;
  e2_big = 7;
  bpf_any = 0;
  bpf_noexist = 1;
  bpf_exist = 2;
  bpf_rb_avail_data = 0;
  bpf_rb_ring_size = 1;
  bpf_rb_cons_pos = 2;
  bpf_rb_prod_pos = 3;
  bpf_f_current_cpu = 4294967295;
  bpf_f_index_mask = 4294967295;
}

-- It finds a task at the address 4096 for every pid, and has nothing else to say.
abbrev return_value : Call → ℕ
return_value (Call.task_from_pid pid) = 4096
return_value _ = 0

-- A socket buffer of 100 bytes, 40 of them outside its linear part, and an XDP buffer of 64.
abbrev pub memory_values : Memory
memory_values = record {
  cpu_number = 3;
  jiffies = 1000;
  numa_node = 0;
  current_task = 4096;
  task = λ address. record {
    pid = 7;
    tgid = 7;
    utime = 5;
    comm = codes "init" ++ (0 ∷ 0 ∷ []);
    stack = 65536;
  };
  skb = λ address. record { data_ptr = 8192; len = 100; data_len = 40 };
  xdp = λ address. record { data_ptr = 8192; data_end = 8256 };
}

-- A kernel whose timer fires during every call, or during none.
abbrev pub kernel_with : Bool → Env
kernel_with fires = record {
  kernel = λ cs c. record { rax = return_value c; out = []; timeout = fires };
  memory = λ cs. memory_values;
  panic_info = λ message. codes "panic: " ∷ message ∷ [];
  uapi = uapi_values;
}

abbrev pub quiet : Env
quiet = kernel_with false

abbrev pub late : Env
late = kernel_with true

-- A CPU with a table of two free slots and a log of 32 bytes.
abbrev pub idle : Cpu
idle = record {
  cleanup_entries = default_entry ∷ default_entry ∷ [];
  termination_state = 0;
  log_buf = replicate 32 7;
  calls = [];
}

-- The same with a table of one slot, which a lock at 16 has taken.
abbrev pub crowded : Cpu
crowded = record {
  cleanup_entries = new_entry unlock_spinlock 16 ∷ [];
  termination_state = 0;
  log_buf = replicate 32 7;
  calls = Call.spin_lock 16 ∷ [];
}

-- The headers of a packet as they stand on the wire.
abbrev pub linux_layout : Layout
linux_layout = record {
  ethhdr = 14;
  iphdr = 20;
  udphdr = 8;
  tcphdr = 20;
  eth_dest = 0;
  eth_source = 6;
  ip_tot_len = 2;
  ip_protocol = 9;
  ip_check = 5;
  ip_saddr = 12;
  ip_daddr = 16;
  udp_source = 0;
  udp_dest = 2;
  udp_len = 4;
  udp_check = 6;
  tcp_dest = 2;
}

-- A kernel for the sample programs: every call succeeds, and a ring buffer has room for one entry.
abbrev pub host : Host
host = record {
  layout = linux_layout;
  aligned = λ offset. false;
  xdp_drop = 1;
  xdp_pass = 2;
  xdp_tx = 3;
  tc_act_ok = 0;
  tc_act_shot = 2;
  ipproto_tcp = 6;
  ipproto_udp = 17;
  adjust_tail = λ packet offset. some (take ((length packet + offset) % 2 ^ 32) packet);
  clone_redirect = λ packet. some packet;
  has_room = λ entries. ltb (length entries) 1;
  printk = none;
}
