-- ===== src/Kernel/Ipc/Safety/Caps.antt =====
-- The calls of kernel/ipc.c on endpoints and capabilities, and `ipc_grant`, keep the tables sound.
use spirit_fox_os.Prelude.{
  ℕ, ◌+◌, ◌-◌, ◌%◌, ◌^◌, ◌<◌, ◌≡◌, ◌≢◌, ◌∙◌, true, leb, ◌==◌, not, ◌||◌, find_index?, some, arith,
  length-modify, All-modify, All-mono, get_or-modify_self, find_index?-get_or, Bool-cases,
  Option-cases, inl, inr, bit_and-le,
}
use spirit_fox_os.Kernel.Sched.{max_tasks}
use spirit_fox_os.Kernel.State.{
  Cap, Endpoint, UserMemory, Kernel, no_endpoint, endpoint_total, right_delegate,
}
use spirit_fox_os.Kernel.Ipc.{
  cap, cap_at, cap_slot, install, ipc_grant, task_at, endpoint_at, has_rights,
}
use spirit_fox_os.Kernel.Ipc.Calls.{
  ep_create, cap_close, cap_derive, cap_revoke, opened, current_task, target,
}
use spirit_fox_os.Kernel.Ipc.Invariant.{
  CapOk, TaskOk, RingOk, IsSound, invalidate-IsSound, cap-IsLive, cap-IsHandle, install-IsSound,
  close_cap-IsSound, IsLive-modify_ne,
}
use spirit_fox_os.Kernel.Ipc.Mapped.{
  AreMapped, invalidate-AreMapped, close_cap-AreMapped, install-AreMapped,
}

has_rights-lt : (have want : ℕ) → has_rights have want ≡ true → have < 8 → want < 8
unfolding has_rights
has_rights-lt have want h lt = ground (arith, bit_and-le have want)

module _ {U : UserMemory} where
  pub record IsSafe (k : Kernel U) : Type 0 where
    pub sound : IsSound k
    pub mapped : AreMapped k

  -- The endpoint that a valid handle of a task refers to.
  pub record IsTarget (k : Kernel U) (c : Cap) : Type 0 where
    pub inside : c.endpoint - 1 < endpoint_total
    pub owned : (endpoint_at k (c.endpoint - 1)).owner ≢ 0
    pub few : c.rights < 8

  pub cap-IsTarget :
      (k : Kernel U) (i h rights s : ℕ)
      → IsSound k
      → i < max_tasks
      → cap k (task_at k i) h rights ≡ some s
      → IsTarget k (cap_at (task_at k i) s)
  cap-IsTarget k i h rights s sound lt e =
      let l = cap-IsLive k i h rights s sound lt e in
      let u = (cap-IsHandle k (task_at k i) h rights s e).in_use in
      record { inside = omega (arith, l.inside, u); owned = l.owned; few = l.few_rights }

  opened-IsSound :
      (pid i : ℕ) (k : Kernel U)
      → IsSound k
      → (endpoint_at k i).owner ≡ 0
      → IsSound (opened pid i k)
  unfolding opened
  opened-IsSound pid i k s free = record {
    endpoint_count = length-modify i _ k.endpoints ∙ s.endpoint_count;
    task_count = s.task_count;
    rings =
        All-modify RingOk _ k.endpoints i no_endpoint s.rings
          (λ ok. (ok.0, omega arith, omega arith));
    live = All-mono (TaskOk k.endpoints) _ k.tasks s.live (λ t ok. (
      All-mono (CapOk k.endpoints) _ t.caps ok.0 (λ c l used.
          IsLive-modify_ne k.endpoints i _ c (λ same. (l used).owned (rw same at free)) (l used)),
      ok.1,
    ));
  }

  pub install-IsSafe :
      (k : Kernel U) (ti ep rights : ℕ)
      → IsSafe k
      → ep < endpoint_total
      → (endpoint_at k ep).owner ≢ 0
      → rights < 8
      → IsSafe (install k ti ep rights).0
  install-IsSafe k ti ep rights safe lt owned few = record {
    sound = install-IsSound k ti ep rights safe.sound lt owned few;
    mapped = install-AreMapped k ti ep rights safe.mapped;
  }

  opened-IsSafe :
      (k : Kernel U) (pid i : ℕ)
      → pid ≢ 0
      → IsSafe k
      → i < endpoint_total
      → (endpoint_at k i).owner ≡ 0
      → IsSafe (install (opened pid i k) k.current i 7).0
  unfolding opened
  opened-IsSafe k pid i owner safe lt free =
      install-IsSafe (opened pid i k) k.current i 7
        (record { sound = opened-IsSound pid i k safe.sound free; mapped = safe.mapped }) lt
        (rw
          (get_or-modify_self i
            (λ e. record e { owner = pid; epoch = (e.epoch + 1) % 2 ^ 32; head = 0; count = 0 })
            k.endpoints no_endpoint (rw safe.sound.endpoint_count lt))
          owner)
        (omega arith)

  pub ep_create-IsSafe :
      (k : Kernel U) → (current_task k).pid ≢ 0 → IsSafe k → IsSafe (ep_create k).0
  unfolding ep_create
  ep_create-IsSafe k owner safe = elim (Option-cases (cap_slot (current_task k))) [
    | inl full ↦ rw (full, ep_create) safe
    | inr (s, e) ↦ elim (Option-cases (find_index? (λ (e : Endpoint). e.owner == 0) k.endpoints)) [
      | inl none_free ↦ rw (e, ep_create, none_free) safe
      | inr (i, f) ↦
          let (lt, free) =
            find_index?-get_or (λ (e : Endpoint). e.owner == 0) i k.endpoints no_endpoint f in
          rw (e, ep_create, f)
            (opened-IsSafe k (current_task k).pid i owner safe (rw safe.sound.endpoint_count at lt)
              (ground (arith, free)))
    ]
  ]

  pub cap_close-IsSafe : (k : Kernel U) (a : ℕ) → IsSafe k → IsSafe (cap_close k a).0
  unfolding cap_close
  cap_close-IsSafe k a safe = elim (Option-cases (cap k (current_task k) a 0)) [
    | inl stale ↦ rw (stale, cap_close) safe
    | inr (s, e) ↦
        rw (e, cap_close)
          (record {
            sound = close_cap-IsSound k.current s k safe.sound;
            mapped = close_cap-AreMapped k.current s k safe.mapped;
          })
  ]

  pub cap_derive-IsSafe :
      (k : Kernel U) (a b : ℕ) → k.current < max_tasks → IsSafe k → IsSafe (cap_derive k a b).0
  unfolding cap_derive
  cap_derive-IsSafe k a b lt safe = elim (Option-cases (cap k (current_task k) a right_delegate)) [
    | inl stale ↦ rw (stale, cap_derive) safe
    | inr (s, e) ↦
        elim (Bool-cases (leb 8 b || not (has_rights (cap_at (current_task k) s).rights b))) [
          | inl refused ↦ rw (e, cap_derive, refused) safe
          | inr granted ↦
              let ok = cap-IsTarget k k.current a right_delegate s safe.sound lt e in
              rw (e, cap_derive, granted)
                (install-IsSafe k k.current (target k s - 1) b safe ok.inside ok.owned
                  (ground arith))
        ]
  ]

  pub cap_revoke-IsSafe : (k : Kernel U) (a : ℕ) → IsSafe k → IsSafe (cap_revoke k a).0
  unfolding cap_revoke
  cap_revoke-IsSafe k a safe = elim (Option-cases (cap k (current_task k) a right_delegate)) [
    | inl stale ↦ rw (stale, cap_revoke) safe
    | inr (s, e) ↦
        elim (Bool-cases ((endpoint_at k (target k s - 1)).owner == (current_task k).pid)) [
          | inl own ↦
              rw (e, cap_revoke, own)
                (record {
                  sound = invalidate-IsSound (target k s - 1) k safe.sound;
                  mapped = invalidate-AreMapped (target k s - 1) k safe.mapped;
                })
          | inr other ↦ rw (e, cap_revoke, other) safe
        ]
  ]

  -- A grant, or its refusal, from a task of the table to any task keeps the tables sound and each
  -- waiting task's buffer writable.
  pub ipc_grant-IsSafe :
      (k : Kernel U) (from to handle rights : ℕ)
      → from < max_tasks
      → IsSafe k
      → IsSafe (ipc_grant k from to handle rights).0
  unfolding ipc_grant
  ipc_grant-IsSafe k from to handle rights lt safe =
      elim (Option-cases (cap k (task_at k from) handle right_delegate)) [
        | inl stale ↦ rw (stale, ipc_grant) safe
        | inr (s, e) ↦ elim (Bool-cases (has_rights (cap_at (task_at k from) s).rights rights)) [
          | inl held ↦
              let ok = cap-IsTarget k from handle right_delegate s safe.sound lt e in
              rw (e, ipc_grant, held)
                (install-IsSafe k to ((cap_at (task_at k from) s).endpoint - 1) rights safe
                  ok.inside ok.owned (has_rights-lt _ _ held ok.few))
          | inr missing ↦ rw (e, ipc_grant, missing) safe
        ]
      ]
