-- ===== src/Kernel/Ipc/Calls.antt =====
-- `ipc_syscall` of kernel/ipc.c, one function for each call of the current task. `none` stands for
-- the panic of SYS_SEND.
use spirit_fox_os.Prelude.{
  ℕ, zero, suc, ◌+◌, ◌-◌, ◌%◌, ◌^◌, Bool, true, false, ltb, leb, ◌==◌, not, ◌&&◌, ◌||◌,
  if◌then◌else◌, ℤ, pos, sf_ok, sf_invalid, sf_denied, sf_bad_format, sf_timeout, sf_stale_handle,
  sf_would_block, sf_no_space, List, get_or, modify, find_index?, set, Option, none, some,
}
use spirit_fox_os.Kernel.State.{
  Task, TaskState, is_blocked, Message, Endpoint, UserMemory, Kernel, no_message, queue_size,
  msg_bytes, message_size, header_size, right_send, right_recv, right_delegate, now_ns,
}
use spirit_fox_os.Kernel.Ipc.{
  copied, cap, cap_slot, cap_at, install, invalidate, close_cap, task_at, endpoint_at, has_rights,
  modify_task, modify_endpoint,
}

-- The loop of SYS_SEND_CANCEL over the ring: `kept` messages have been moved to the front.
unfoldable pub compact : ℕ → ℕ → ℕ → ℕ → ℕ → ℕ → List Message → List Message × ℕ
compact pid id head zero i kept queue = (queue, kept)
compact pid id head (suc rounds) i kept queue =
    let m = get_or queue ((head + i) % queue_size) no_message in
    let drop = m.h.flags == pid && (m.h.request_id == id) in
    compact pid id head rounds (i + 1) (if drop then kept else kept + 1)
      (if drop || (kept == i) then queue else set queue ((head + kept) % queue_size) m)

-- The slots behind the messages that were kept are cleared.
unfoldable pub clear_slots : ℕ → ℕ → ℕ → List Message → List Message
clear_slots head zero i queue = queue
clear_slots head (suc rounds) i queue =
    clear_slots head rounds (i + 1) (set queue ((head + i) % queue_size) no_message)

unfoldable pub cancelled : ℕ → ℕ → Endpoint → Endpoint × ℕ
cancelled pid id e =
    let (queue, kept) = compact pid id e.head e.count 0 0 e.queue in
    if kept == e.count then (e, 0) else (
      record e {
        queue = clear_slots e.head (e.count - kept) kept queue;
        count = kept;
        head = if kept == 0 then 0 else e.head;
      },
      e.count - kept,
    )

-- The header checks of SYS_SEND.
unfoldable pub well_formed : Message → Bool
well_formed m =
    m.h.size == header_size
    && (m.h.protocol_major == 1
        && (m.h.protocol_minor == 0
            && (leb m.h.payload_bytes (message_size - header_size)
                && (m.h.cap_count == 0 && leb m.length msg_bytes))))

abbrev pub stamped : ℕ → Message → Message
stamped pid m = record m { h = record (m.h) { flags = pid } }

abbrev pub waits_on : ℕ → Task → Bool
waits_on endpoint t = is_blocked t.state && (t.wait_endpoint == endpoint)

abbrev pub delivered : ℕ → ℕ → Task → Task
delivered pid ticks r = record r { rax = pos pid; state = TaskState.ready; ready_since = ticks }

abbrev pub enqueued : Message → Endpoint → Endpoint
enqueued m e = record e {
  queue = set e.queue ((e.head + e.count) % queue_size) m;
  count = e.count + 1;
}

abbrev pub dequeued : Endpoint → Endpoint
dequeued e = record e { head = (e.head + 1) % queue_size; count = e.count - 1 }

abbrev pub waiting : ℕ → ℕ → ℕ → Task → Task
waiting endpoint buffer deadline t = record t {
  state = TaskState.blocked;
  wait_endpoint = endpoint;
  recv_buffer = buffer;
  wait_deadline = deadline;
}

abbrev pub Outcome : UserMemory → Type 0
Outcome U = Option (Kernel U × ℤ)

module _ {U : UserMemory} where
  abbrev pub current_task : Kernel U → Task
  current_task k = task_at k k.current

  -- The endpoint, by its index plus one, that a slot of the current task refers to.
  abbrev pub target : Kernel U → ℕ → ℕ
  target k s = (cap_at (current_task k) s).endpoint

  unfoldable pub opened : ℕ → ℕ → Kernel U → Kernel U
  opened pid i k =
      modify_endpoint i
        (λ e. record e { owner = pid; epoch = (e.epoch + 1) % 2 ^ 32; head = 0; count = 0 }) k

  unfoldable pub ep_create : Kernel U → Kernel U × ℤ
  ep_create k = elim (cap_slot (current_task k)) [
    | none ↦ (k, sf_no_space)
    | some _ ↦ elim (find_index? (λ e. e.owner == 0) k.endpoints) [
      | none ↦ (k, sf_no_space)
      | some i ↦ install (opened (current_task k).pid i k) k.current i 7
    ]
  ]

  unfoldable pub cap_close : Kernel U → ℕ → Kernel U × ℤ
  cap_close k a = elim (cap k (current_task k) a 0) [
    | none ↦ (k, sf_stale_handle)
    | some s ↦ (close_cap k.current s k, sf_ok)
  ]

  -- b & ~7 is not 0 exactly when b is 8 or more.
  unfoldable pub cap_derive : Kernel U → ℕ → ℕ → Kernel U × ℤ
  cap_derive k a b = elim (cap k (current_task k) a right_delegate) [
    | none ↦ (k, sf_denied)
    | some s ↦
        if leb 8 b || not (has_rights (cap_at (current_task k) s).rights b)
        then (k, sf_denied)
        else install k k.current (target k s - 1) b
  ]

  unfoldable pub cap_revoke : Kernel U → ℕ → Kernel U × ℤ
  cap_revoke k a = elim (cap k (current_task k) a right_delegate) [
    | none ↦ (k, sf_denied)
    | some s ↦
        if (endpoint_at k (target k s - 1)).owner == (current_task k).pid
        then (invalidate (target k s - 1) k, sf_ok)
        else (k, sf_denied)
  ]

  unfoldable pub send_cancel : Kernel U → ℕ → ℕ → ℕ → Kernel U × ℤ
  send_cancel k a b c = elim (cap k (current_task k) a right_send) [
    | none ↦ (k, sf_stale_handle)
    | some s ↦
        let i = target k s - 1 in
        let e = endpoint_at k i in
        if not (c == 0)
        then (k, sf_invalid)
        else (if leb 8 e.head || ltb 8 e.count
            then (k, sf_bad_format)
            else let (e', n) = cancelled (current_task k).pid b e in
              (modify_endpoint i (λ _. e') k, pos n))
  ]

  -- The message is handed to the first task that waits, or put into the ring.
  unfoldable pub deliver : Kernel U → ℕ → Message → Outcome U
  deliver k endpoint m = elim (find_index? (waits_on endpoint) k.tasks) [
    | some j ↦
        let r = task_at k j in
        if U.user_range k.memory j r.recv_buffer message_size true
        then some (
          record k {
            memory = U.store k.memory j r.recv_buffer m;
            receive_bytes = copied k.receive_bytes message_size;
            tasks = modify j (delivered (current_task k).pid k.ticks) k.tasks;
          },
          sf_ok,
        )
        else none
    | none ↦
        if (endpoint_at k (endpoint - 1)).count == 8
        then some (k, sf_would_block)
        else some (modify_endpoint (endpoint - 1) (enqueued m) k, sf_ok)
  ]

  unfoldable pub send : Kernel U → ℕ → ℕ → Outcome U
  send k a b = elim (cap k (current_task k) a right_send) [
    | none ↦ some (k, sf_stale_handle)
    | some s ↦
        if not (U.user_range k.memory k.current b message_size false)
        then some (k, sf_denied)
        else (let m = U.load k.memory k.current b in
            let k' = record k { send_bytes = copied k.send_bytes message_size } in
            if not (well_formed m)
            then some (k', sf_invalid)
            else (if not (m.h.deadline_ns == 0) && leb m.h.deadline_ns (now_ns k.ticks)
                then some (k', sf_timeout)
                else deliver k' (target k s) (stamped (current_task k).pid m)))
  ]

  -- The first message of the ring, or else the task goes to sleep.
  unfoldable pub take : Kernel U → ℕ → ℕ → ℕ → Kernel U × ℤ
  take k endpoint b c =
      let e = endpoint_at k (endpoint - 1) in
      let m = get_or e.queue e.head no_message in
      if not (e.count == 0)
      then (if U.user_range k.memory k.current b message_size true
          then (
            record k {
              memory = U.store k.memory k.current b m;
              receive_bytes = copied k.receive_bytes message_size;
              endpoints = modify (endpoint - 1) dequeued k.endpoints;
            },
            pos m.h.flags,
          )
          else (k, sf_denied))
      else (if not (c == 0) && leb c (now_ns k.ticks)
          then (k, sf_timeout)
          else (modify_task k.current (waiting endpoint b c) k, sf_ok))

  unfoldable pub recv : Kernel U → ℕ → ℕ → ℕ → Kernel U × ℤ
  recv k a b c = elim (cap k (current_task k) a right_recv) [
    | none ↦ (k, sf_stale_handle)
    | some s ↦
        if not (U.user_range k.memory k.current b message_size true)
        then (k, sf_denied)
        else take k (target k s) b c
  ]

pub data Call : Type 0 where
  ep_create_call cap_close_call cap_derive_call cap_revoke_call : Call
  send_cancel_call send_call recv_call other_call : Call

module _ {U : UserMemory} where
  unfoldable pub ipc_syscall : Kernel U → Call → ℕ → ℕ → ℕ → Outcome U
  ipc_syscall k ep_create_call a b c = some (ep_create k)
  ipc_syscall k cap_close_call a b c = some (cap_close k a)
  ipc_syscall k cap_derive_call a b c = some (cap_derive k a b)
  ipc_syscall k cap_revoke_call a b c = some (cap_revoke k a)
  ipc_syscall k send_cancel_call a b c = some (send_cancel k a b c)
  ipc_syscall k send_call a b c = send k a b
  ipc_syscall k recv_call a b c = some (recv k a b c)
  ipc_syscall k other_call a b c = some (k, sf_invalid)
