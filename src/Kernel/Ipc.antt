-- ===== src/Kernel/Ipc.antt =====
-- kernel/ipc.c: endpoints, capabilities and messages. Each call returns the kernel after it and the
-- value of `rax`; `send` may also stop the machine.
pub mod Calls
pub mod Invariant
pub mod Ring
pub mod Mapped
pub mod Safety
pub mod Stale
pub mod Forever
mod Tests
use spirit_fox_os.Prelude.{
  ℕ, zero, suc, ◌+◌, ◌-◌, ◌*◌, ◌/◌, ◌%◌, ◌^◌, Bool, ltb, leb, ◌==◌, not, ◌&&◌, ◌||◌, if◌then◌else◌,
  ℤ, pos, sf_denied, sf_timeout, sf_revoked, sf_no_space, List, get_or, modify, find_index?, any,
  map, Option, none, some, bit_and,
}
use spirit_fox_os.Kernel.State.{
  Cap, Task, TaskState, is_blocked, Endpoint, UserMemory, Kernel, no_task, no_cap, no_endpoint,
  cap_limit_max, endpoint_total, right_delegate, now_ns, caps_used,
}

-- `copied`: a counter that stops at UINT64_MAX.
unfoldable pub copied : ℕ → ℕ → ℕ
copied count bytes = if ltb (2 ^ 64 - 1 - count) bytes then 2 ^ 64 - 1 else count + bytes

-- A free slot whose generation is not used up.
unfoldable pub free_slot : Cap → Bool
free_slot c = c.endpoint == 0 && ltb c.generation 0x7fffff

unfoldable pub cap_slot : Task → Option ℕ
cap_slot t =
    if ltb cap_limit_max t.cap_limit || leb t.cap_limit (caps_used t)
    then none
    else find_index? free_slot t.caps

-- (generation << 8) | (slot + 1); a slot is below 255.
abbrev pub handle_of : ℕ → ℕ → ℕ
handle_of generation slot = generation * 256 + (slot + 1)

unfoldable pub has_rights : ℕ → ℕ → Bool
has_rights have want = bit_and have want == want

abbrev pub cap_at : Task → ℕ → Cap
cap_at t s = get_or t.caps s no_cap

abbrev pub set_caps : (List Cap → List Cap) → Task → Task
set_caps f t = record t { caps = f t.caps }

abbrev pub installed : ℕ → ℕ → ℕ → Cap → Cap
installed ep epoch rights c = record {
  endpoint = ep + 1;
  epoch = epoch;
  rights = rights;
  generation = c.generation + 1;
}

-- A receiver that waits on the endpoint is woken with an error.
unfoldable pub revoke_wait : ℕ → ℕ → Task → Task
revoke_wait ticks i t =
    if is_blocked t.state && (t.wait_endpoint == i + 1)
    then record t { rax = sf_revoked; state = TaskState.ready; ready_since = ticks }
    else t

unfoldable pub clear_cap : ℕ → Cap → Cap
clear_cap i c = if c.endpoint == i + 1 then record c { endpoint = 0 } else c

unfoldable pub invalidate_task : ℕ → ℕ → Task → Task
invalidate_task ticks i t = set_caps (map (clear_cap i)) (revoke_wait ticks i t)

unfoldable pub closed_endpoint : Endpoint → Endpoint
closed_endpoint e = record e { owner = 0; count = 0; epoch = (e.epoch + 1) % 2 ^ 32 }

abbrev pub references : ℕ → Task → Bool
references endpoint t = any (λ c. c.endpoint == endpoint) t.caps

unfoldable pub expire : ℕ → Task → Task
expire ticks t =
    if is_blocked t.state && (not (t.wait_deadline == 0) && leb t.wait_deadline (now_ns ticks))
    then record t { rax = sf_timeout; state = TaskState.ready; ready_since = ticks }
    else t

module _ {U : UserMemory} where
  abbrev pub task_at : Kernel U → ℕ → Task
  task_at k i = get_or k.tasks i no_task

  abbrev pub endpoint_at : Kernel U → ℕ → Endpoint
  endpoint_at k i = get_or k.endpoints i no_endpoint

  abbrev pub modify_task : ℕ → (Task → Task) → Kernel U → Kernel U
  modify_task i f k = record k { tasks = modify i f k.tasks }

  abbrev pub modify_endpoint : ℕ → (Endpoint → Endpoint) → Kernel U → Kernel U
  modify_endpoint i f k = record k { endpoints = modify i f k.endpoints }

  -- Whether the slot holds a handle of this generation to a live endpoint, with these rights.
  unfoldable pub valid_cap : Kernel U → Cap → ℕ → ℕ → Bool
  valid_cap k c generation rights =
      let e = endpoint_at k (c.endpoint - 1) in
      not (c.endpoint == 0)
      && (c.generation == generation)
      && has_rights c.rights rights
      && (not (e.owner == 0) && (c.epoch == e.epoch))

  -- `cap`: the slot that a handle of the task names.
  unfoldable pub cap : Kernel U → Task → ℕ → ℕ → Option ℕ
  cap k t h rights =
      if ltb (2 ^ 32 - 1) h || (h % 256 == 0 || ltb 32 (h % 256))
      then none
      else (if valid_cap k (cap_at t (h % 256 - 1)) (h / 256) rights
          then some (h % 256 - 1)
          else none)

  unfoldable pub install : Kernel U → ℕ → ℕ → ℕ → Kernel U × ℤ
  install k ti ep rights = elim (cap_slot (task_at k ti)) [
    | none ↦ (k, sf_no_space)
    | some slot ↦ (
      modify_task ti (set_caps (modify slot (installed ep (endpoint_at k ep).epoch rights))) k,
      pos (handle_of ((cap_at (task_at k ti) slot).generation + 1) slot),
    )
  ]

  -- `to` may be another task than `from`: a new task is granted handles by its parent.
  unfoldable pub ipc_grant : Kernel U → ℕ → ℕ → ℕ → ℕ → Kernel U × ℤ
  ipc_grant k from to handle rights = elim (cap k (task_at k from) handle right_delegate) [
    | none ↦ (k, sf_denied)
    | some s ↦
        let c = cap_at (task_at k from) s in
        if has_rights c.rights rights then install k to (c.endpoint - 1) rights else (k, sf_denied)
  ]

  unfoldable pub invalidate : ℕ → Kernel U → Kernel U
  invalidate i k = record k {
    endpoints = modify i closed_endpoint k.endpoints;
    tasks = map (invalidate_task k.ticks i) k.tasks;
  }

  -- The last reference takes the endpoint with it.
  unfoldable pub close_cap : ℕ → ℕ → Kernel U → Kernel U
  close_cap ti slot k =
      let ep = (cap_at (task_at k ti) slot).endpoint - 1 in
      let k' = modify_task ti (set_caps (modify slot (λ c. record c { endpoint = 0 }))) k in
      if any (references (ep + 1)) k'.tasks then k' else invalidate ep k'

  -- The two loops of `ipc_cleanup`, over the endpoints and over the slots that are left.
  unfoldable pub cleanup_endpoints : ℕ → ℕ → ℕ → Kernel U → Kernel U
  cleanup_endpoints pid zero i k = k
  cleanup_endpoints pid (suc rounds) i k =
      cleanup_endpoints pid rounds (i + 1)
        (if (endpoint_at k i).owner == pid then invalidate i k else k)

  unfoldable pub cleanup_caps : ℕ → ℕ → ℕ → Kernel U → Kernel U
  cleanup_caps ti zero i k = k
  cleanup_caps ti (suc rounds) i k =
      cleanup_caps ti rounds (i + 1)
        (if (cap_at (task_at k ti) i).endpoint == 0 then k else close_cap ti i k)

  unfoldable pub ipc_cleanup : ℕ → Kernel U → Kernel U
  ipc_cleanup ti k =
      cleanup_caps ti cap_limit_max 0 (cleanup_endpoints (task_at k ti).pid endpoint_total 0 k)

  unfoldable pub ipc_deadlines : Kernel U → Kernel U
  ipc_deadlines k = record k { tasks = map (expire k.ticks) k.tasks }
