-- ===== src/Lib.antt =====
-- SpiritFoxOS: a small message-passing kernel (kernel/) with its services (services/), and parts of an
-- earlier generation (recovered/).
--
-- The kernel keeps a table of 12 tasks. The timer and each system call of the running task change the
-- tables, and the scheduler then chooses the next task. Tasks talk through endpoints, which they name
-- by handles: a handle is a slot of the task's capability table and the generation of that slot. The
-- services are processes; init starts them, a supervisor decides when a failed one is started again,
-- and the record of an application's two slots decides which one is started.
--
-- Prelude holds the shared helpers: Boolean tests, lists as the arrays of C, error codes, bits.
-- Kernel models kernel/:
--   Kernel.Pid is kernel/pid.c (sf_pid_take); the counter is a value that is passed on.
--   Kernel.Sched is kernel/sched_policy.c (sf_sched_pick); the loop is a recursion on the rounds that
--     are left, `count` of them. Kernel.Sched.Fairness says what the choice promises.
--   Kernel.State is the data of kernel/kernel.h and include/sf.h. A pointer into a table is an index;
--     `current` is the index of the running task. The memory of the tasks is the interface
--     `UserMemory`: the checks and copies of kernel/memory.c, with the two laws the IPC relies on.
--   Kernel.Ipc is kernel/ipc.c up to `ipc_deadlines`, and Kernel.Ipc.Calls is `ipc_syscall`, a
--     function per call. A call returns the kernel after it and the value of `rax`; the panic of
--     SYS_SEND is `none`. The loops run over tables of fixed size or over the messages of one ring.
--     Ring says what the ring of an endpoint stands for, Invariant and Mapped what holds of the
--     tables, Safety that each call keeps it, Stale and Forever that handles only grow old.
--   Kernel.Pages is the page pool of kernel/memory.c (page_owner, page_alloc, pages_free).
-- Services models libraries of services/:
--   Services.Supervisor is services/supervisor.c, and Restarts runs its operations as events.
--   Services.Update is services/update.c; Valid, Trial and Codec are about its calls in sequence and
--     its 160 bytes on disk. A C array is a list; the theorems name its size where they need it.
--   Services.Version is the order of versions and the upgrade rule of services/version.c; a version is
--     a record of its three parts.
--   Services.Manager is services/manager.c without its search for cycles: the table of loadable
--     modules. Leases is about its loops over the providers of a module, Ledger, Turns and Safety
--     about the lease counts. The clients that hold leases, such as the applications of
--     services/init.c, are a function that counts them.
--   Services.Txn is services/txn.c, the snapshots of up to five files in two banks of a device. Paths
--     is path_ok, Bank the bytes of a bank (decode, and the buffer that sf_txn_commit builds), Mount
--     sf_txn_mount and sf_txn_get, Commit sf_txn_commit and sf_txn_resize. The device is a record of
--     the three callbacks with the laws of a disk (Device): writes reach it in any order until a
--     flush; one that fails, or that no flush follows, may be done, not done, or have torn its
--     sector, so that a failure at the n-th call stands for losing power there. That the seal tells a
--     torn record from a whole one is the named hypothesis DetectsTears on the hash and on what tears
--     leave; Tears is about sectors torn at any byte, as in tests/host/test_txn.c, and a hash that is
--     never 32 zeros. Table and Decoding are about the entries of a bank, Slots about what
--     sf_txn_mount makes of the two records, Writing about what the writes leave, Recovery, Crash and Runs about mounting after them, Files about the map from paths to contents.
--   Services.Namespace is services/namespace.c: Paths its checks of paths, Table the nodes, the open
--     descriptions and the handles, Open the calls that open, close and remove, Data reading, writing
--     and seeking, Info the other calls on a handle. A call on data works on the node and the
--     description of its handle and stores them back. Stale is about the generations of the handles, Rights about what opening relative to
--     a directory grants, Content about the bytes of a file.
-- Recovered models parts of recovered/. A packet goes from net_rx_ipv4 to TCP or UDP and from there to a
-- socket, from which the calls of the processes take its bytes; the timer tick sends segments again:
--   Recovered.Memory is the block functions and strncpy of recovered/libc/src/string.c, over a memory
--     that is a function from addresses to bytes; its addresses do not end. Blocks and Strings say what
--     they do to each byte.
--   Recovered.Net is recovered/net/src/ip.c, arp.c, tcp.c, udp.c and the calls of socket.c for
--     AF_INET. A pointer to a socket is its index in the table, whose sockets are all of AF_INET;
--     the table of descriptors that net_get_socket looks into is a function, since the file system
--     code fills it. A segment that opens a connection looks its new slot up there (tcp.c:236); Runs
--     asks that no socket is found under that number, since otherwise the slot keeps no timeout. Rings
--     is the receive ring (Buffer, Queue), Socket the table with its searches and ports (Ports),
--     Segments the bytes of a segment; Tcp is sending, Acks, Receive and Deliver net_tcp_rx, Tick
--     net_tcp_tick; Calls, Stream and Udp the calls; Ip is net_rx_ipv4 and the IP
--     header, Arp the cache of arp.c and its packets. Each handler takes an Env: the time, the
--     random number and the results of kmalloc of that event, and the bytes behind the packet in
--     memory. What is sent is an output: the bytes of a segment with the addresses of its IP header;
--     where net_send_eth delivers it to the machine itself at once, the model has a later event. The
--     checksum loops have fuel 4 and net_send one more than there are bytes; Tcp.Checksum, Checksum
--     and Stream.Sending prove that this is enough. Invariant, Preserved, Received, Called,
--     Connected, Streamed and Runs are about the whole table, Tcp.Moves, Tcp.Kept,
--     Tcp.Established and Tcp.Timeouts about one connection.
--
-- Counters that C keeps in 64 bits are natural numbers; where they may wrap (the epoch of an endpoint,
-- `now_ns`) the model reduces them. A generation is at most 0x7fffff and so a handle is below 2 ^ 31.
-- Not modelled: page tables, boot, interrupts, devices and the IOMMU, which are hardware access; the
-- other services; the rest of recovered/ (of the network the frames, waiting for ARP, ICMP and the
-- sockets of AF_UNIX); and vendor/, a third-party library.
pub mod Prelude
pub mod Kernel
pub mod Recovered
pub mod Services
