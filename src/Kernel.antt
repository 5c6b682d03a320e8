-- ===== src/Kernel.antt =====
-- Core 0, the kernel: kernel/*.c.
pub mod Pid
pub mod State
pub mod Ipc
pub mod Pages
pub mod Sched
