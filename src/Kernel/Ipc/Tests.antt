-- ===== src/Kernel/Ipc/Tests.antt =====
-- Tests of kernel/ipc.c, on a small machine: task 0 owns endpoint 0, task 1 holds a handle to it that
-- may send, and task 2 waits on endpoint 1.
use spirit_fox_os.Kernel.Ipc.Ring.{messages}
use spirit_fox_os.Kernel.Ipc.Ring.Cancel.{cancelled-survivors, survivors}
use spirit_fox_os.Kernel.Ipc.Forever.{closed_forever, revoked_forever, Run, Step}
use spirit_fox_os.Kernel.Ipc.Calls.{
  cancelled, cap_revoke, ipc_syscall, Call, cap_close, current_task,
}
use spirit_fox_os.Kernel.Ipc.Safety.{ipc_syscall-Returns}
use spirit_fox_os.Kernel.Ipc.Safety.Caps.{IsSafe}
use spirit_fox_os.Kernel.Ipc.Safety.Messages.{Returns}
use spirit_fox_os.Kernel.Ipc.Mapped.{AreMapped}
use spirit_fox_os.Kernel.Ipc.Invariant.{CapOk, IsSound, RingOk, TaskOk}
use spirit_fox_os.Kernel.Ipc.{
  ipc_deadlines, ipc_grant, suc, task_at, none, valid_cap, has_rights, some, right_delegate,
}
use spirit_fox_os.Kernel.Ipc.{cap}
use spirit_fox_os.Prelude.{
  ℕ, ◌≡◌, refl, leb, ◌&&◌, ◌==◌, ◌∷◌, [], All-replicate, All-get_or, replicate, if◌then◌else◌, ◌<◌,
  ◌++◌, arith, true, suc, zero, none, ◌+◌, some,
}
use spirit_fox_os.Kernel.State.{
  UserMemory, Kernel, Message, Endpoint, Cap, Task, TaskState, no_message, no_endpoint, no_cap,
  no_task, is_blocked, right_delegate,
}

abbrev page_memory : UserMemory
page_memory = record {
  Memory = ℕ → ℕ → Message;
  user_range = λ m task v n write. leb 4096 v;
  load = λ m task address. m task address;
  store = λ m task address message other v.
      if other == task && (v == address) then message else m other v;
  user_range-store = λ m task address message other v n write ok. refl;
  load-store = λ m task address message ok. ground arith;
}

abbrev message : ℕ → ℕ → Message
message pid id = record no_message {
  h = record (no_message.h) {
    size = 40;
    protocol_major = 1;
    flags = pid;
    request_id = id;
    payload_bytes = 288;
  };
}

abbrev ring : Endpoint
ring = record {
  owner = 1;
  epoch = 1;
  head = 6;
  count = 3;
  queue = message 2 8 ∷ (replicate 5 no_message ++ message 2 7 ∷ message 2 9 ∷ []);
}

abbrev spare : Endpoint
spare = record no_endpoint { queue = replicate 8 no_message }

abbrev handle_slot : ℕ → ℕ → Cap
handle_slot endpoint rights = record {
  endpoint = endpoint;
  epoch = 1;
  rights = rights;
  generation = 1;
}

abbrev task : ℕ → TaskState → Cap → Task
task pid state c = record no_task {
  pid = pid;
  state = state;
  cap_limit = 32;
  page_limit = 64;
  recv_buffer = 8192;
  wait_endpoint = 2;
  caps = c ∷ replicate 31 no_cap;
}

abbrev machine : Kernel page_memory
machine = record {
  tasks =
      task 1 TaskState.ready (handle_slot 1 7)
      ∷ task 2 TaskState.ready (handle_slot 1 1)
      ∷ task 3 TaskState.blocked (handle_slot 2 2)
      ∷ replicate 9 (task 0 TaskState.dead no_cap);
  current = 0;
  ticks = 5;
  endpoints = ring ∷ record ring { owner = 3; count = 0 } ∷ replicate 62 spare;
  send_bytes = 0;
  receive_bytes = 0;
  memory = λ t v. message 0 1;
}

ring-RingOk : RingOk ring
ring-RingOk = (refl, omega arith, omega arith)

no_cap-CapOk : CapOk machine.endpoints no_cap
no_cap-CapOk used = absurd (used refl)

handle-CapOk :
    (e : ℕ) (rights : ℕ) → e < 2 → rights < 8 → CapOk machine.endpoints (handle_slot (suc e) rights)
handle-CapOk zero r lt few used = record {
  inside = omega arith;
  owned = λ q. absurd (omega arith);
  fresh = refl;
  few_rights = few;
}
handle-CapOk (suc zero) r lt few used = record {
  inside = omega arith;
  owned = λ q. absurd (omega arith);
  fresh = refl;
  few_rights = few;
}
handle-CapOk (suc (suc e)) r lt few used = absurd (omega arith)

task-TaskOk :
    (pid : ℕ) (s : TaskState) (c : Cap)
    → CapOk machine.endpoints c
    → TaskOk machine.endpoints (task pid s c)
task-TaskOk pid s c ok =
    ((ok, All-replicate (CapOk machine.endpoints) 31 no_cap no_cap-CapOk), refl)

machine-IsSound : IsSound machine
machine-IsSound = record {
  endpoint_count = refl;
  task_count = refl;
  rings = (
    ring-RingOk,
    (
      (refl, omega arith, omega arith),
      All-replicate RingOk 62 spare (refl, omega arith, omega arith),
    ),
  );
  live = (
    task-TaskOk 1 TaskState.ready (handle_slot 1 7) (handle-CapOk 0 7 (omega arith) (omega arith)),
    (
      task-TaskOk 2 TaskState.ready (handle_slot 1 1)
          (handle-CapOk 0 1 (omega arith) (omega arith)),
      (
        task-TaskOk 3 TaskState.blocked (handle_slot 2 2)
            (handle-CapOk 1 2 (omega arith) (omega arith)),
        All-replicate (TaskOk machine.endpoints) 9 (task 0 TaskState.dead no_cap)
            (task-TaskOk 0 TaskState.dead no_cap no_cap-CapOk),
      ),
    ),
  );
}

abbrev HasBuffer : Task → Type 0
HasBuffer t = is_blocked t.state ≡ true → leb 4096 t.recv_buffer ≡ true

machine-AreMapped : AreMapped machine
machine-AreMapped i =
    All-get_or HasBuffer machine.tasks i no_task
      (
        (λ b. refl),
        (
          (λ b. refl),
          ((λ b. refl), All-replicate HasBuffer 9 (task 0 TaskState.dead no_cap) (λ b. refl)),
        ),
      )
      (λ b. absurd (cc b))

machine-IsSafe : IsSafe machine
machine-IsSafe = record { sound = machine-IsSound; mapped = machine-AreMapped }

cancelled-survivors_example :
    (messages (cancelled 2 9 ring).0 ≡ survivors 2 9 (messages ring))
    × RingOk (cancelled 2 9 ring).0
    × ((cancelled 2 9 ring).0.count + (cancelled 2 9 ring).1 ≡ ring.count)
cancelled-survivors_example = cancelled-survivors 2 9 ring ring-RingOk

ipc_syscall-Returns_example : Returns (ipc_syscall machine Call.send_call 257 8192 0)
ipc_syscall-Returns_example =
    ipc_syscall-Returns machine Call.send_call 257 8192 0 (omega arith) (λ q. absurd (omega arith))
      machine-IsSafe

closing : cap machine (current_task machine) 257 0 ≡ some 0
unfolding cap valid_cap has_rights
closing = refl

revoking : cap machine (current_task machine) 257 right_delegate ≡ some 0
unfolding cap valid_cap has_rights
revoking = refl

sending : cap machine (task_at machine 1) 257 1 ≡ some 0
unfolding cap valid_cap has_rights
sending = refl

abbrev after_close : Kernel page_memory
after_close = ipc_deadlines (ipc_grant (cap_close machine 257).0 1 0 257 1).0

closed_forever_example : cap after_close (task_at after_close 0) 257 1 ≡ none
closed_forever_example =
    closed_forever machine after_close 257 0 machine-IsSound (omega arith) closing
      (Run.next (Run.next Run.here (Step.grant 1 0 257 1)) Step.timer) 1

abbrev after_revoke : Kernel page_memory
after_revoke = ipc_deadlines (cap_revoke machine 257).0

revoked_forever_example : cap after_revoke (task_at after_revoke 1) 257 1 ≡ none
revoked_forever_example =
    revoked_forever machine after_revoke 257 0 1 257 1 0 machine-IsSound (omega arith) revoking refl
      sending refl (Run.next Run.here Step.timer) 1
