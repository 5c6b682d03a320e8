-- ===== src/Kernel/State.antt =====
-- kernel/kernel.h, include/sf.h: the tables of Core 0 that the scheduler, the IPC and the page pool
-- share. A pointer into a table is an index; an index past the end reads the zero record.
use spirit_fox_os.Prelude.{
  ℕ, ◌*◌, ◌%◌, ◌^◌, Bool, true, false, ◌==◌, not, ℤ, pos, List, [], count_if, ◌≡◌,
}

abbrev pub cap_limit_max : ℕ
cap_limit_max = 32

abbrev pub page_limit_max : ℕ
page_limit_max = 4096

abbrev pub endpoint_total : ℕ
endpoint_total = 64

-- The ring of an endpoint.
abbrev pub queue_size : ℕ
queue_size = 8

abbrev pub msg_bytes : ℕ
msg_bytes = 256

-- sizeof(SfMessage) and sizeof(SfIpcHeader)
abbrev pub message_size : ℕ
message_size = 328

abbrev pub header_size : ℕ
header_size = 40

abbrev pub right_send : ℕ
right_send = 1

abbrev pub right_recv : ℕ
right_recv = 2

abbrev pub right_delegate : ℕ
right_delegate = 4

pub data TaskState : Type 0 where
  empty ready blocked dead : TaskState

abbrev pub is_ready : TaskState → Bool
is_ready TaskState.ready = true
is_ready _ = false

abbrev pub is_blocked : TaskState → Bool
is_blocked TaskState.blocked = true
is_blocked _ = false

abbrev pub is_dead : TaskState → Bool
is_dead TaskState.dead = true
is_dead _ = false

abbrev pub is_empty : TaskState → Bool
is_empty TaskState.empty = true
is_empty _ = false

pub record Cap : Type 0 where
  pub endpoint : ℕ
  pub epoch : ℕ
  pub rights : ℕ
  pub generation : ℕ

pub record Task : Type 0 where
  pub pid : ℕ
  pub state : TaskState
  pub wait_endpoint : ℕ
  pub exit_status : ℤ
  pub recv_buffer : ℕ
  pub wait_deadline : ℕ
  pub rax : ℤ
  pub priority : ℕ
  pub cap_limit : ℕ
  pub page_limit : ℕ
  pub page_count : ℕ
  pub ready_since : ℕ
  pub caps : List Cap

pub record Header : Type 0 where
  pub size : ℕ
  pub protocol_major : ℕ
  pub protocol_minor : ℕ
  pub opcode : ℕ
  pub flags : ℕ
  pub request_id : ℕ
  pub payload_bytes : ℕ
  pub cap_count : ℕ
  pub deadline_ns : ℕ

pub record Message : Type 0 where
  pub h : Header
  pub status : ℤ
  pub handle : ℕ
  pub offset : ℕ
  pub length : ℕ
  pub mode : ℕ
  pub bytes : List ℕ

pub record Endpoint : Type 0 where
  pub owner : ℕ
  pub epoch : ℕ
  pub head : ℕ
  pub count : ℕ
  pub queue : List Message

-- The memory of the tasks, as `user_range`, `copy_in` and `copy_out` of kernel/memory.c see it: a
-- task is named by its index, and a message is read and written whole.
pub record UserMemory : Type 1 where
  pub Memory : Type 0
  pub user_range : Memory → ℕ → ℕ → ℕ → Bool → Bool
  pub load : Memory → ℕ → ℕ → Message
  pub store : Memory → ℕ → ℕ → Message → Memory
  -- A copy into a task's data changes no page table.
  pub user_range-store :
      (m : Memory) (task address : ℕ) (message : Message) (other v n : ℕ) (write : Bool)
      → user_range m task address message_size true ≡ true
      → user_range (store m task address message) other v n write ≡ user_range m other v n write
  -- What was stored is read back.
  pub load-store :
      (m : Memory) (task address : ℕ) (message : Message)
      → user_range m task address message_size true ≡ true
      → load (store m task address message) task address ≡ message

abbrev pub no_cap : Cap
no_cap = record { endpoint = 0; epoch = 0; rights = 0; generation = 0 }

abbrev pub no_task : Task
no_task = record {
  pid = 0;
  state = TaskState.empty;
  wait_endpoint = 0;
  exit_status = pos 0;
  recv_buffer = 0;
  wait_deadline = 0;
  rax = pos 0;
  priority = 0;
  cap_limit = 0;
  page_limit = 0;
  page_count = 0;
  ready_since = 0;
  caps = [];
}

abbrev pub no_message : Message
no_message = record {
  h = record {
    size = 0;
    protocol_major = 0;
    protocol_minor = 0;
    opcode = 0;
    flags = 0;
    request_id = 0;
    payload_bytes = 0;
    cap_count = 0;
    deadline_ns = 0;
  };
  status = pos 0;
  handle = 0;
  offset = 0;
  length = 0;
  mode = 0;
  bytes = [];
}

abbrev pub no_endpoint : Endpoint
no_endpoint = record { owner = 0; epoch = 0; head = 0; count = 0; queue = [] }

pub record Kernel (U : UserMemory) : Type 0 where
  pub tasks : List Task
  pub current : ℕ
  pub ticks : ℕ
  pub endpoints : List Endpoint
  pub send_bytes : ℕ
  pub receive_bytes : ℕ
  pub memory : U.Memory

-- ticks*10000000ull
abbrev pub now_ns : ℕ → ℕ
now_ns ticks = ticks * 10000000 % 2 ^ 64

abbrev pub caps_used : Task → ℕ
caps_used t = count_if (λ c. not (c.endpoint == 0)) t.caps
