-- ===== src/Lib.antt =====
-- Rex runs kernel extensions written in safe Rust. A program is compiled against the runtime crate
-- (rex/src), which wraps the kernel's helper functions, releases kernel resources when a value is
-- dropped or when the program panics, and lets a watchdog timer end a program that runs too long.
-- This library models that crate, three of its sample programs, Electrode, which answers the messages
-- of a replication protocol, BMC, a cache before memcached, and syscount, and the benchmark that BMC
-- is measured with.
--
-- The parts and their files:
--   Kernel        rex/src/ffi.rs: the calls of the kernel as the data type Call, and the per-CPU
--                 variables of the crate as the record Cpu. The kernel is a parameter, Env, that
--                 answers a call from the history of the calls before it; it also says during which
--                 calls the timer fires, and what kernel memory holds after them (it is taken
--                 not to change between two calls). Code is a function from Cpu to an Outcome:
--                 it returns, ends in the landing pad, or panics inside the panic handler.
--   Text, Log     rex/src/log.rs: LogBuf and its fmt::Write (Log.Write: what a write leaves).
--   Printk        rex/src/log.rs: rex_trace_printk.
--   Panic         rex/src/panic.rs: CleanupEntry, CleanupEntries and the panic handler
--                 (Panic.Table, Panic.Cleanup and Panic.Handler prove their properties).
--   Termination   rex/src/base_helper.rs, termination_check!, around every call of the kernel.
--   Spinlock      rex/src/spinlock.rs: rex_spinlock_guard, its constructor and drop.
--   TaskStruct    rex/src/task_struct.rs: OwnedTaskStruct, from_pid and drop.
--   CurrentTask   rex/src/task_struct.rs: TaskStruct, its fields, name and registers.
--   Ownership     programs over the two, as sequences of steps that own guards: which resources are
--                 held, by the history of the calls, against the cleanup table (Program: the steps
--                 and endings; Invariant, Tied, Tally, Count: the balance; Operations, Steps: every
--                 operation keeps it; Endings: every ending settles it; Leak: the exception; Plain:
--                 the other calls; Progress: no operation panics inside the panic handler).
--   Utils         rex/src/utils.rs: Result, to_result! and PerfEventMaskedCPU.
--   BaseHelper, ProgramHelpers
--                 rex/src/base_helper.rs: the helpers of every program type, and base_helper_defs!.
--   PerfEvent     rex/src/perf_event/perf_event_impl.rs, rex/src/tracepoint/tp_impl.rs: the helpers
--                 of perf event and tracepoint programs.
--   Xdp, SchedCls rex/src/xdp/xdp_impl.rs, rex/src/sched_cls/sched_cls_impl.rs: the contexts and the
--                 slices over the packet.
--   Map           rex/src/map.rs: hash, array, stack and queue maps (Contents: a hash map as its clients
--                 see it, and the kernel that keeps one).
--   RingBuf       rex/src/map.rs: RexRingBuf and RexRingBufEntry.
--   Packet        rex/src/utils.rs, Aligned, AlignedMut and read_field!, with the header accessors
--                 of rex/src/xdp/xdp_impl.rs and rex/src/sched_cls/sched_cls_impl.rs.
--   Checksum      rex/src/xdp/xdp_impl.rs, compute_ip_checksum.
--   RexMacros     rex-macros/src: the entry functions that the attribute macros generate.
--   Words         machine words as bytes, and their bits.
--   Program       what the sample programs share: the packet and the maps as a state, code that
--                 yields, returns from its function or panics, and the kernel's answers as a
--                 parameter. Updates and Headers: the headers of a packet that has room for them.
--   Electrode     samples/electrode/src: the constants and maps; Messages (compute_message_type),
--                 Receive (fast_paxos_main and its dispatch), Prepare (handle_prepare, write_buffer,
--                 prepare_fast_reply), Quorum (handle_prepare_ok), Broadcast
--                 (fast_broad_cast_main; Message, Pass, Turns and Address: its stages, Relay: a packet
--                 and its clones). Their children prove the properties.
--   Bmc           samples/bmc/src/main.rs: Get (xdp_rx_filter, hash_key), Reply (write_pkt_reply),
--                 Invalidate (bmc_invalidate_cache), Update (xdp_tx_filter, bmc_update_cache). The
--                 answer to a request whose value is cached: Reply.Answer, Get.Served, Get.Hit and
--                 Get.Request.
--   MemcachedBenchmark
--                 tools/memcached_benchmark/src: get_values.rs (requests, replies and the tasks of a
--                 channel), Entries (dict.rs), Threads (main.rs, run_bench, and
--                 get_command_benchmark); Requests puts it together with Bmc.
--   MapTest       samples/map_test_2/src/main.rs, over a kernel that keeps a hash map.
--   Kprobe        rex/src/pt_regs.rs, rex/src/kprobe/kprobe_impl.rs, and over them and a hash map
--                 samples/error_injector/src/main.rs.
--   Syscount      samples/syscount/src/main.rs, over hash maps that are given by their laws.
--   Base          lists, tests and numbers that the others share.
--   Example       a kernel and CPUs on which the modules called Tests run the theorems.
--
-- How they interact: a constructor registers a cleanup in the table and a drop deregisters it, both
-- inside a termination check; a panic, from a full table, a bad index, the timer or the program,
-- runs the cleanups that are registered, logs the message through LogBuf and leaves through the
-- landing pad.
--
-- Machine words are native numbers with their wrap-around written out (usize and u64 modulo 2 ^ 64,
-- u32 modulo 2 ^ 32). The kernel's table has 64 entries and its log buffer 1024 bytes; the theorems
-- hold for a table of any length and ask of the log buffer only that it holds the fallback message,
-- 19 bytes with its NUL. A loop is a recursion on the list that it walks; of the code only the loop over
-- the keys of a request in Bmc.Get has fuel, since it need not end. Electrode.Broadcast.Relay bounds the
-- passes of a packet's clones through the program, of which three are enough. The sample programs are taken as built for
-- release, where a shift takes its count and a sum its value modulo the width; their trace messages,
-- whose results they ignore but at one place, and the locks of the cache are left out of their state.
--
-- Not modelled: the kernel and its generated bindings (parameters), inline assembly (per_cpu.rs, the
-- stack check), one CPU interrupting another, the timer between two instructions outside a call, the
-- parsing of attributes in the macros, the other samples, and of the tools all but the benchmark, of
-- which the sockets, files, command line and server are left out.
pub mod Base
pub mod Kernel
pub mod Text
pub mod Log
pub mod Example
pub mod Panic
pub mod Termination
pub mod Syscount
pub mod Spinlock
pub mod TaskStruct
pub mod Ownership
pub mod Utils
pub mod BaseHelper
pub mod Map
pub mod MapTest
pub mod MemcachedBenchmark
pub mod RingBuf
pub mod Packet
pub mod Checksum
pub mod Words
pub mod Program
pub mod Electrode
pub mod Bmc
pub mod Xdp
pub mod SchedCls
pub mod PerfEvent
pub mod ProgramHelpers
pub mod RexMacros
pub mod Printk
pub mod CurrentTask
pub mod Kprobe
