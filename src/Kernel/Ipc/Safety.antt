-- ===== src/Kernel/Ipc/Safety.antt =====
-- Every call of `ipc_syscall` in kernel/ipc.c keeps the tables sound.
pub mod Caps
pub mod Messages
use spirit_fox_os.Kernel.Ipc.Ring.Cancel.{cancelled-survivors}
use spirit_fox_os.Kernel.Ipc.Ring.Queue.{messages-enqueued, messages-dequeued}
use spirit_fox_os.Prelude.{
  refl, ℕ, ◌+◌, ◌-◌, ◌%◌, ◌^◌, ◌<◌, ◌≡◌, ◌≢◌, ◌∙◌, true, leb, ◌==◌, not, ◌||◌, find_index?, some,
  arith, length-modify, All-modify, All-mono, get_or-modify_self, find_index?-get_or, Bool-cases,
  Option-cases, inl, inr, bit_and-le, none, ltb, false, get_or, ◌&&◌,
}
use spirit_fox_os.Kernel.Sched.{max_tasks}
use spirit_fox_os.Kernel.State.{
  Cap, Endpoint, UserMemory, Kernel, no_endpoint, endpoint_total, right_delegate, Message, no_task,
  right_send, right_recv, message_size, no_message, now_ns,
}
use spirit_fox_os.Kernel.Ipc.{
  cap, cap_at, cap_slot, install, ipc_grant, task_at, endpoint_at, has_rights, Task,
  modify_endpoint, modify_task, no_task, ltb, copied, get_or, now_ns,
}
use spirit_fox_os.Kernel.Ipc.Calls.{
  ep_create, cap_close, cap_derive, cap_revoke, opened, current_task, target, Outcome, deliver,
  cancelled, send_cancel, waits_on, enqueued, ipc_syscall, recv, send, take, Call, delivered,
  well_formed, dequeued, waiting,
}
use spirit_fox_os.Kernel.Ipc.Invariant.{
  CapOk, TaskOk, RingOk, IsSound, invalidate-IsSound, cap-IsLive, cap-IsHandle, install-IsSound,
  close_cap-IsSound, IsLive-modify_ne, modify_endpoint-IsSound, modify_task-IsSound,
}
use spirit_fox_os.Kernel.Ipc.Mapped.{
  AreMapped, invalidate-AreMapped, close_cap-AreMapped, install-AreMapped, Wakes,
  modify_task-AreMapped, store-AreMapped, modify_task-AreMapped_wait,
}
use spirit_fox_os.Kernel.Ipc.Safety.Caps.{
  IsSafe, ep_create-IsSafe, cap_close-IsSafe, cap_derive-IsSafe, cap_revoke-IsSafe,
}
use spirit_fox_os.Kernel.Ipc.Safety.Messages.{
  Returns, send_cancel-IsSafe, send-Returns, recv-IsSafe,
}

module _ {U : UserMemory} where
  -- With sound tables in which each waiting task's buffer can be written, and a current task of the
  -- table that has an identifier, no IPC call of that task panics the kernel, and the kernel after
  -- the call again has such tables.
  pub ipc_syscall-Returns :
      (k : Kernel U) (call : Call) (a b c : ℕ)
      → k.current < max_tasks
      → (current_task k).pid ≢ 0
      → IsSafe k
      → Returns (ipc_syscall k call a b c)
  unfolding ipc_syscall
  ipc_syscall-Returns k Call.ep_create_call a b c lt owner safe = ep_create-IsSafe k owner safe
  ipc_syscall-Returns k Call.cap_close_call a b c lt owner safe = cap_close-IsSafe k a safe
  ipc_syscall-Returns k Call.cap_derive_call a b c lt owner safe = cap_derive-IsSafe k a b lt safe
  ipc_syscall-Returns k Call.cap_revoke_call a b c lt owner safe = cap_revoke-IsSafe k a safe
  ipc_syscall-Returns k Call.send_cancel_call a b c lt owner safe = send_cancel-IsSafe k a b c safe
  ipc_syscall-Returns k Call.send_call a b c lt owner safe = send-Returns k a b safe
  ipc_syscall-Returns k Call.recv_call a b c lt owner safe = recv-IsSafe k a b c safe
  ipc_syscall-Returns k Call.other_call a b c lt owner safe = safe
