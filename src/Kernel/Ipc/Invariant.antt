-- ===== src/Kernel/Ipc/Invariant.antt =====
-- The tables of kernel/ipc.c: no capability dangles, and the rings stay in their bounds.
use spirit_fox_os.Prelude.{
  ℕ, zero, suc, ◌+◌, ◌-◌, ◌/◌, ◌%◌, ◌≤◌, ◌<◌, ◌≡◌, ◌≢◌, refl, ◌∙◌, true, ◌==◌, List, get_or, modify,
  any, map, some, arith, length, length-modify, length-map, All, All-get_or, All-get_or_lt,
  All-modify, All-map, All-mono, get_or-modify, get_or-modify_ne, Bool-cases, Option-cases, inl,
  inr,
}
use spirit_fox_os.Kernel.State.{
  Cap, Task, Endpoint, UserMemory, Kernel, no_task, no_cap, no_endpoint, cap_limit_max,
  endpoint_total, queue_size,
}
use spirit_fox_os.Kernel.Sched.{max_tasks}
use spirit_fox_os.Kernel.Ipc.{
  cap, cap_slot, valid_cap, cap_at, task_at, endpoint_at, install, installed, invalidate,
  invalidate_task, revoke_wait, clear_cap, closed_endpoint, close_cap, ipc_cleanup, cleanup_caps,
  cleanup_endpoints, ipc_deadlines, expire, set_caps, modify_task, modify_endpoint, has_rights,
  references,
}

-- A slot in use refers to an endpoint of the table that has an owner, in its present epoch.
pub record IsLive (es : List Endpoint) (c : Cap) : Type 0 where
  pub inside : c.endpoint ≤ endpoint_total
  pub owned : (get_or es (c.endpoint - 1) no_endpoint).owner ≢ 0
  pub fresh : (get_or es (c.endpoint - 1) no_endpoint).epoch ≡ c.epoch
  pub few_rights : c.rights < 8

abbrev pub CapOk : List Endpoint → Cap → Type 0
CapOk es c = c.endpoint ≢ 0 → IsLive es c

abbrev pub RingOk : Endpoint → Type 0
RingOk e = (length e.queue ≡ queue_size) × (e.head < queue_size) × (e.count ≤ queue_size)

abbrev pub TaskOk : List Endpoint → Task → Type 0
TaskOk es t = All (CapOk es) t.caps × (length t.caps ≡ cap_limit_max)

pub record IsSound {U : UserMemory} (k : Kernel U) : Type 0 where
  pub endpoint_count : length k.endpoints ≡ endpoint_total
  pub task_count : length k.tasks ≡ max_tasks
  pub rings : All RingOk k.endpoints
  pub live : All (TaskOk k.endpoints) k.tasks

-- An endpoint that changes, and keeps its owner and epoch, keeps the capabilities live.
IsLive-modify :
    (es : List Endpoint) (i : ℕ) (f : Endpoint → Endpoint) (c : Cap)
    → (f (get_or es i no_endpoint)).owner ≡ (get_or es i no_endpoint).owner
    → (f (get_or es i no_endpoint)).epoch ≡ (get_or es i no_endpoint).epoch
    → IsLive es c
    → IsLive (modify i f es) c
IsLive-modify es i f c ow ep l = elim (get_or-modify i (c.endpoint - 1) f es no_endpoint) [
  | inl e ↦ record {
    inside = l.inside;
    owned = λ q. l.owned (ground arith);
    fresh = ground arith;
    few_rights = l.few_rights;
  }
  | inr (same, e, lt) ↦ record {
    inside = l.inside;
    owned = λ q. l.owned (ground (arith, same));
    fresh = ground (arith, same);
    few_rights = l.few_rights;
  }
]

-- So does a change of an endpoint that the capability does not refer to.
pub IsLive-modify_ne :
    (es : List Endpoint) (i : ℕ) (f : Endpoint → Endpoint) (c : Cap)
    → i ≢ c.endpoint - 1
    → IsLive es c
    → IsLive (modify i f es) c
IsLive-modify_ne es i f c ne l =
    let e = get_or-modify_ne i (c.endpoint - 1) f es no_endpoint ne in
    record {
      inside = l.inside;
      owned = rw e l.owned;
      fresh = rw e l.fresh;
      few_rights = l.few_rights;
    }

clear_cap-CapOk :
    (es : List Endpoint) (i : ℕ) (c : Cap)
    → CapOk es c
    → CapOk (modify i closed_endpoint es) (clear_cap i c)
unfolding clear_cap
clear_cap-CapOk es i c l = elim (Bool-cases (c.endpoint == i + 1)) [
  | inl hit ↦ rw hit (λ used. absurd (used refl))
  | inr miss ↦ rw miss (λ used.
      IsLive-modify_ne es i closed_endpoint c (λ e. absurd (ground (arith, e, used))) (l used))
]

pub invalidate_task-caps :
    (ticks i : ℕ) (t : Task) → (invalidate_task ticks i t).caps ≡ map (clear_cap i) t.caps
unfolding invalidate_task revoke_wait
invalidate_task-caps ticks i t = ground arith

invalidate_task-TaskOk :
    (ticks i : ℕ) (es : List Endpoint) (t : Task)
    → TaskOk es t
    → TaskOk (modify i closed_endpoint es) (invalidate_task ticks i t)
invalidate_task-TaskOk ticks i es t ok = rw (invalidate_task-caps ticks i t) (
  All-map (CapOk es) (CapOk (modify i closed_endpoint es)) (clear_cap i) t.caps ok.0
      (clear_cap-CapOk es i),
  length-map (clear_cap i) t.caps ∙ ok.1,
)

closed_endpoint-RingOk : (e : Endpoint) → RingOk e → RingOk (closed_endpoint e)
unfolding closed_endpoint
closed_endpoint-RingOk e ok = (ok.0, ok.1, omega arith)

expire-caps : (ticks : ℕ) (t : Task) → (expire ticks t).caps ≡ t.caps
unfolding expire
expire-caps ticks t = ground arith

module _ {U : UserMemory} where
  -- A change of the clock, the counters or the memory leaves the tables as they are.
  pub invalidate-IsSound : (i : ℕ) (k : Kernel U) → IsSound k → IsSound (invalidate i k)
  unfolding invalidate
  invalidate-IsSound i k s = record {
    endpoint_count = length-modify i closed_endpoint k.endpoints ∙ s.endpoint_count;
    task_count = length-map (invalidate_task k.ticks i) k.tasks ∙ s.task_count;
    rings =
        All-modify RingOk closed_endpoint k.endpoints i no_endpoint s.rings
          (closed_endpoint-RingOk (endpoint_at k i));
    live =
        All-map (TaskOk k.endpoints) (TaskOk (modify i closed_endpoint k.endpoints))
          (invalidate_task k.ticks i) k.tasks s.live (invalidate_task-TaskOk k.ticks i k.endpoints);
  }

  pub modify_task-IsSound :
      (i : ℕ) (f : Task → Task) (k : Kernel U)
      → IsSound k
      → (TaskOk k.endpoints (task_at k i) → TaskOk k.endpoints (f (task_at k i)))
      → IsSound (modify_task i f k)
  modify_task-IsSound i f k s keep = record {
    endpoint_count = s.endpoint_count;
    task_count = length-modify i f k.tasks ∙ s.task_count;
    rings = s.rings;
    live = All-modify (TaskOk k.endpoints) f k.tasks i no_task s.live keep;
  }

  pub modify_endpoint-IsSound :
      (i : ℕ) (f : Endpoint → Endpoint) (k : Kernel U)
      → IsSound k
      → (f (endpoint_at k i)).owner ≡ (endpoint_at k i).owner
      → (f (endpoint_at k i)).epoch ≡ (endpoint_at k i).epoch
      → (RingOk (endpoint_at k i) → RingOk (f (endpoint_at k i)))
      → IsSound (modify_endpoint i f k)
  modify_endpoint-IsSound i f k s ow ep keep = record {
    endpoint_count = length-modify i f k.endpoints ∙ s.endpoint_count;
    task_count = s.task_count;
    rings = All-modify RingOk f k.endpoints i no_endpoint s.rings keep;
    live = All-mono (TaskOk k.endpoints) (TaskOk (modify i f k.endpoints)) k.tasks s.live (λ t ok. (
      All-mono (CapOk k.endpoints) (CapOk (modify i f k.endpoints)) t.caps ok.0
          (λ c l used. IsLive-modify k.endpoints i f c ow ep (l used)),
      ok.1,
    ));
  }

  -- What a handle that passes the checks says about its slot.
  pub record IsHandle (k : Kernel U) (t : Task) (h rights s : ℕ) : Type 0 where
    pub slot : s < cap_limit_max
    pub low : h % 256 ≡ s + 1
    pub in_use : (cap_at t s).endpoint ≢ 0
    pub generation : (cap_at t s).generation ≡ h / 256
    pub allowed : has_rights (cap_at t s).rights rights ≡ true

  pub cap-IsHandle :
      (k : Kernel U) (t : Task) (h rights s : ℕ)
      → cap k t h rights ≡ some s
      → IsHandle k t h rights s
  unfolding cap valid_cap
  cap-IsHandle k t h rights s e = record {
    slot = ground arith;
    low = ground arith;
    in_use = λ q. ground arith;
    generation = ground arith;
    allowed = ground arith;
  }

  pub task_at-TaskOk :
      (k : Kernel U) (i : ℕ) → IsSound k → i < max_tasks → TaskOk k.endpoints (task_at k i)
  task_at-TaskOk k i s lt =
      All-get_or_lt (TaskOk k.endpoints) k.tasks i no_task s.live (rw s.task_count lt)

  -- The capability that a valid handle names is live.
  pub cap-IsLive :
      (k : Kernel U) (i h rights s : ℕ)
      → IsSound k
      → i < max_tasks
      → cap k (task_at k i) h rights ≡ some s
      → IsLive k.endpoints (cap_at (task_at k i) s)
  cap-IsLive k i h rights s sound lt e =
      All-get_or (CapOk k.endpoints) (task_at k i).caps s no_cap (task_at-TaskOk k i sound lt).0
        (λ used. absurd (used refl)) (cap-IsHandle k (task_at k i) h rights s e).in_use

  pub install-IsSound :
      (k : Kernel U) (ti ep rights : ℕ)
      → IsSound k
      → ep < endpoint_total
      → (endpoint_at k ep).owner ≢ 0
      → rights < 8
      → IsSound (install k ti ep rights).0
  unfolding install
  install-IsSound k ti ep rights s lt ow few = elim (Option-cases (cap_slot (task_at k ti))) [
    | inl full ↦ rw (full, install) s
    | inr (slot, e) ↦
        rw (e, install)
          (modify_task-IsSound ti _ k s (λ ok. (
            All-modify (CapOk k.endpoints) (installed ep (endpoint_at k ep).epoch rights)
                (task_at k ti).caps slot no_cap ok.0
                (λ _ _. record {
                  inside = omega arith;
                  owned = let back : ep + 1 - 1 ≡ ep = omega arith in rw back ow;
                  fresh = let back : ep + 1 - 1 ≡ ep = omega arith in rw back;
                  few_rights = few;
                }),
            length-modify slot _ (task_at k ti).caps ∙ ok.1,
          )))
  ]

  pub close_cap-IsSound : (ti slot : ℕ) (k : Kernel U) → IsSound k → IsSound (close_cap ti slot k)
  unfolding close_cap
  close_cap-IsSound ti slot k s = elim (Bool-cases (any (references (ep + 1)) k'.tasks)) [
    | inl shared ↦ rw shared dropped
    | inr last ↦ rw last (invalidate-IsSound ep k' dropped)
  ]
    where
      ep : ℕ
      ep = (cap_at (task_at k ti) slot).endpoint - 1

      k' : Kernel U
      k' = modify_task ti (set_caps (modify slot (λ c. record c { endpoint = 0 }))) k

      dropped : IsSound k'
      dropped = modify_task-IsSound ti _ k s (λ ok. (
        All-modify (CapOk k.endpoints) _ (task_at k ti).caps slot no_cap ok.0
            (λ _ used. absurd (used refl)),
        length-modify slot _ (task_at k ti).caps ∙ ok.1,
      ))

  cleanup_endpoints-IsSound :
      (pid rounds i : ℕ) (k : Kernel U) → IsSound k → IsSound (cleanup_endpoints pid rounds i k)
  unfolding cleanup_endpoints
  cleanup_endpoints-IsSound pid zero i k s = s
  cleanup_endpoints-IsSound pid (suc rounds) i k s =
      cleanup_endpoints-IsSound pid rounds (i + 1) _
        (elim (Bool-cases ((endpoint_at k i).owner == pid)) [
          | inl own ↦ rw own (invalidate-IsSound i k s)
          | inr other ↦ rw other s
        ])

  cleanup_caps-IsSound :
      (ti rounds i : ℕ) (k : Kernel U) → IsSound k → IsSound (cleanup_caps ti rounds i k)
  unfolding cleanup_caps
  cleanup_caps-IsSound ti zero i k s = s
  cleanup_caps-IsSound ti (suc rounds) i k s =
      cleanup_caps-IsSound ti rounds (i + 1) _
        (elim (Bool-cases ((cap_at (task_at k ti) i).endpoint == 0)) [
          | inl unused ↦ rw unused s
          | inr used ↦ rw used (close_cap-IsSound ti i k s)
        ])

  -- The end of any task keeps the tables sound: `ipc_cleanup` leaves no capability that refers to an
  -- endpoint without an owner or of an earlier epoch, and all rings within their bounds.
  pub ipc_cleanup-IsSound : (ti : ℕ) (k : Kernel U) → IsSound k → IsSound (ipc_cleanup ti k)
  unfolding ipc_cleanup
  ipc_cleanup-IsSound ti k s =
      cleanup_caps-IsSound ti cap_limit_max 0 _
        (cleanup_endpoints-IsSound (task_at k ti).pid endpoint_total 0 k s)

  -- The expiry of waits by the timer keeps the tables sound.
  pub ipc_deadlines-IsSound : (k : Kernel U) → IsSound k → IsSound (ipc_deadlines k)
  unfolding ipc_deadlines
  ipc_deadlines-IsSound k s = record {
    endpoint_count = s.endpoint_count;
    task_count = length-map (expire k.ticks) k.tasks ∙ s.task_count;
    rings = s.rings;
    live =
        All-map (TaskOk k.endpoints) (TaskOk k.endpoints) (expire k.ticks) k.tasks s.live
          (λ t ok. rw (expire-caps k.ticks t) ok);
  }
