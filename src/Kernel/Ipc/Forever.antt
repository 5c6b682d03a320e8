-- ===== src/Kernel/Ipc/Forever.antt =====
-- Once closed or revoked, a handle of kernel/ipc.c is refused for good, whatever happens later.
use spirit_fox_os.Prelude.{
  ℕ, zero, suc, ◌+◌, ◌-◌, ◌/◌, ◌%◌, ◌<◌, ◌≡◌, refl, map, none, some, arith, Bool-cases, inl, inr,
  ◌⊎◌, get_or-modify_self, ◌==◌, ℤ, subst, if◌then◌else◌, get_or-map_fix,
}
use spirit_fox_os.Kernel.Sched.{max_tasks}
use spirit_fox_os.Kernel.State.{
  Cap, Task, UserMemory, Kernel, no_cap, no_task, right_delegate, endpoint_total, cap_limit_max,
}
use spirit_fox_os.Kernel.Ipc.{
  cap, cap_at, valid_cap, ipc_grant, invalidate, invalidate_task, revoke_wait, clear_cap, close_cap,
  task_at, endpoint_at, modify_task, ipc_cleanup, cleanup_caps, cleanup_endpoints, ipc_deadlines,
  expire, endpoint_total, cap_limit_max,
}
use spirit_fox_os.Kernel.Ipc.Calls.{Call, ipc_syscall, cap_close, cap_revoke, current_task, target}
use spirit_fox_os.Kernel.Ipc.Invariant.{IsSound, cap-IsHandle, task_at-TaskOk, invalidate_task-caps}
use spirit_fox_os.Kernel.Ipc.Stale.{
  KernelAges, KernelAges-trans, KernelAges-refl, TaskAges-refl, map-TaskAges, expire-TaskAges,
  invalidate-KernelAges, close_cap-KernelAges, ipc_grant-KernelAges, ipc_syscall-AgesOutcome,
  AgesOutcome, modify_task-KernelAges, map-Ages, TaskAges, dropped, dropped-close_cap,
}

-- The slot of the handle has gone past the handle's generation, or is at it and free.
abbrev IsDead : ℕ → Task → Type 0
IsDead h t =
    (h / 256 < (cap_at t (h % 256 - 1)).generation)
    ⊎ (((cap_at t (h % 256 - 1)).generation ≡ h / 256) × ((cap_at t (h % 256 - 1)).endpoint ≡ 0))

IsDead-TaskAges : (h : ℕ) (t t' : Task) → TaskAges t t' → IsDead h t → IsDead h t'
IsDead-TaskAges h t t' a d = grind (arith, a (h % 256 - 1))

clear_cap-no_cap : (i : ℕ) → clear_cap i no_cap ≡ no_cap
unfolding clear_cap
clear_cap-no_cap i = ground arith

clear_cap-hit :
    (i : ℕ) (c : Cap) (generation : ℕ)
    → c.generation ≡ generation
    → c.endpoint ≡ i + 1
    → ((clear_cap i c).generation ≡ generation) × ((clear_cap i c).endpoint ≡ 0)
unfolding clear_cap
clear_cap-hit i c generation g hit = ground arith

cap_at-invalidate_task :
    (ticks i : ℕ) (t : Task) (s : ℕ)
    → cap_at (invalidate_task ticks i t) s ≡ clear_cap i (cap_at t s)
cap_at-invalidate_task ticks i t s =
    rw (invalidate_task-caps ticks i t)
      (get_or-map_fix (clear_cap i) t.caps s no_cap (clear_cap-no_cap i))

invalidate_task-no_task : (ticks i : ℕ) → invalidate_task ticks i no_task ≡ no_task
unfolding invalidate_task revoke_wait
invalidate_task-no_task ticks i = refl

module _ {U : UserMemory} where
  -- What can happen to the tables: a call of the current task, the work of the timer, a grant to a
  -- new task, the end of a task, a slot of the task table that is given to a new task (its
  -- capabilities are cleared and keep their generations), and anything else that leaves the
  -- capabilities alone.
  pub data Step (k : Kernel U) : Kernel U → Type 0 where
    call :
        {k' : Kernel U} (c : Call) (x y z : ℕ) (r : ℤ)
        → ipc_syscall k c x y z ≡ some (k', r)
        → Step k k'
    timer : Step k (ipc_deadlines k)
    grant : (from to handle rights : ℕ) → Step k (ipc_grant k from to handle rights).0
    end : (i : ℕ) → Step k (ipc_cleanup i k)
    reuse :
        (i : ℕ) (f : Task → Task)
        → ((t : Task) → (f t).caps ≡ map (λ (c : Cap). record c { endpoint = 0 }) t.caps)
        → Step k (modify_task i f k)
    elsewhere : {k' : Kernel U} → ((i : ℕ) → (task_at k' i).caps ≡ (task_at k i).caps) → Step k k'

  pub data Run (k : Kernel U) : Kernel U → Type 0 where
    here : Run k k
    next : {k' k'' : Kernel U} → Run k k' → Step k' k'' → Run k k''

  cleanup_endpoints-KernelAges :
      (pid rounds i : ℕ) (k : Kernel U) → KernelAges k (cleanup_endpoints pid rounds i k)
  unfolding cleanup_endpoints
  cleanup_endpoints-KernelAges pid zero i k = KernelAges-refl k
  cleanup_endpoints-KernelAges pid (suc rounds) i k =
      let k1 : Kernel U = if (endpoint_at k i).owner == pid then invalidate i k else k in
      KernelAges-trans k k1 (cleanup_endpoints pid rounds (i + 1) k1)
        (elim (Bool-cases ((endpoint_at k i).owner == pid)) [
          | inl own ↦ rw own (invalidate-KernelAges i k)
          | inr other ↦ rw other (KernelAges-refl k)
        ])
        (cleanup_endpoints-KernelAges pid rounds (i + 1) k1)

  cleanup_caps-KernelAges :
      (ti rounds i : ℕ) (k : Kernel U) → KernelAges k (cleanup_caps ti rounds i k)
  unfolding cleanup_caps
  cleanup_caps-KernelAges ti zero i k = KernelAges-refl k
  cleanup_caps-KernelAges ti (suc rounds) i k =
      let k1 : Kernel U = if (cap_at (task_at k ti) i).endpoint == 0 then k else close_cap ti i k in
      KernelAges-trans k k1 (cleanup_caps ti rounds (i + 1) k1)
        (elim (Bool-cases ((cap_at (task_at k ti) i).endpoint == 0)) [
          | inl unused ↦ rw unused (KernelAges-refl k)
          | inr used ↦ rw used (close_cap-KernelAges ti i k)
        ])
        (cleanup_caps-KernelAges ti rounds (i + 1) k1)

  ipc_cleanup-KernelAges : (ti : ℕ) (k : Kernel U) → KernelAges k (ipc_cleanup ti k)
  unfolding ipc_cleanup
  ipc_cleanup-KernelAges ti k =
      let k1 = cleanup_endpoints (task_at k ti).pid endpoint_total 0 k in
      KernelAges-trans k k1 (cleanup_caps ti cap_limit_max 0 k1)
        (cleanup_endpoints-KernelAges (task_at k ti).pid endpoint_total 0 k)
        (cleanup_caps-KernelAges ti cap_limit_max 0 k1)

  Step-KernelAges : {k k' : Kernel U} → Step k k' → KernelAges k k'
  unfolding ipc_deadlines
  Step-KernelAges {k} (call c x y z r e) =
      subst (AgesOutcome k) e (ipc_syscall-AgesOutcome k c x y z)
  Step-KernelAges {k} timer = map-TaskAges (expire k.ticks) (expire-TaskAges k.ticks) k.tasks
  Step-KernelAges {k} (grant from to handle rights) = ipc_grant-KernelAges k from to handle rights
  Step-KernelAges {k} (end i) = ipc_cleanup-KernelAges i k
  Step-KernelAges {k} (reuse i f h) =
      modify_task-KernelAges i f k
        (λ t s. rw (h t) (map-Ages _ (λ c. inr (refl, inl refl)) t.caps s))
  Step-KernelAges {k} (elsewhere same) = λ i s. rw (same i) (TaskAges-refl (task_at k i) s)

  Run-KernelAges : {k k' : Kernel U} → Run k k' → KernelAges k k'
  Run-KernelAges {k} here = KernelAges-refl k
  Run-KernelAges {k} (next {k'} {k''} r st) =
      KernelAges-trans k k' k'' (Run-KernelAges r) (Step-KernelAges st)

  cap-IsDead : (k : Kernel U) (t : Task) (h rights : ℕ) → IsDead h t → cap k t h rights ≡ none
  unfolding cap valid_cap
  cap-IsDead k t h rights d = ground arith

  -- A dead handle is refused after every run.
  pub IsDead-Run :
      (k k' : Kernel U) (i h rights : ℕ)
      → IsDead h (task_at k i)
      → Run k k'
      → cap k' (task_at k' i) h rights ≡ none
  IsDead-Run k k' i h rights d run =
      cap-IsDead k' (task_at k' i) h rights
        (IsDead-TaskAges h (task_at k i) (task_at k' i) (Run-KernelAges run i) d)

  IsDead-dropped :
      (k : Kernel U) (i h rights s : ℕ)
      → IsSound k
      → i < max_tasks
      → cap k (task_at k i) h rights ≡ some s
      → IsDead h (task_at (dropped i s k) i)
  IsDead-dropped k i h rights s sound lt e =
      let named = cap-IsHandle k (task_at k i) h rights s e in
      let place : h % 256 - 1 ≡ s = omega (arith, named.low) in
      rw
        (
          get_or-modify_self i _ k.tasks no_task (rw sound.task_count lt),
          place,
          get_or-modify_self s _ (task_at k i).caps no_cap
              (rw (task_at-TaskOk k i sound lt).1 named.slot),
        )
        (inr (named.generation, refl))

  -- With sound tables, a handle that SYS_CAP_CLOSE took back from the current task is refused to that
  -- task in every kernel that a run of steps from there reaches, whatever rights it asks for.
  pub closed_forever :
      (k k' : Kernel U) (a s : ℕ)
      → IsSound k
      → k.current < max_tasks
      → cap k (current_task k) a 0 ≡ some s
      → Run (cap_close k a).0 k'
      → (rights : ℕ) → cap k' (task_at k' k.current) a rights ≡ none
  unfolding cap_close
  closed_forever k k' a s sound lt e run rights =
      IsDead-Run (close_cap k.current s k) k' k.current a rights
        (IsDead-TaskAges a (task_at (dropped k.current s k) k.current)
          (task_at (close_cap k.current s k) k.current) (dropped-close_cap k.current s k k.current)
          (IsDead-dropped k k.current a 0 s sound lt e))
        (subst (λ x. Run x k') closes run)
    where
      closes : (cap_close k a).0 ≡ close_cap k.current s k
      closes = rw (e, cap_close)

  IsDead-invalidate :
      (k : Kernel U) (i h rights slot j : ℕ)
      → cap k (task_at k i) h rights ≡ some slot
      → (cap_at (task_at k i) slot).endpoint ≡ j + 1
      → IsDead h (task_at (invalidate j k) i)
  unfolding invalidate
  IsDead-invalidate k i h rights slot j held hit =
      let named = cap-IsHandle k (task_at k i) h rights slot held in
      let place : h % 256 - 1 ≡ slot = omega (arith, named.low) in
      rw
        (
          get_or-map_fix (invalidate_task k.ticks j) k.tasks i no_task
              (invalidate_task-no_task k.ticks j),
          place,
          cap_at-invalidate_task k.ticks j (task_at k i) slot,
        )
        (inr (clear_cap-hit j (cap_at (task_at k i) slot) (h / 256) named.generation hit))

  -- With sound tables, after SYS_CAP_REVOKE of an endpoint by its owner a handle of any task that was
  -- valid for that endpoint is refused to that task in every kernel that a run of steps reaches.
  pub revoked_forever :
      (k k' : Kernel U) (a s i h rights slot : ℕ)
      → IsSound k
      → i < max_tasks
      → cap k (current_task k) a right_delegate ≡ some s
      → (endpoint_at k (target k s - 1)).owner ≡ (current_task k).pid
      → cap k (task_at k i) h rights ≡ some slot
      → (cap_at (task_at k i) slot).endpoint ≡ target k s
      → Run (cap_revoke k a).0 k'
      → (rights' : ℕ) → cap k' (task_at k' i) h rights' ≡ none
  unfolding cap_revoke
  revoked_forever k k' a s i h rights slot sound lt e owns held same run rights' =
      IsDead-Run (invalidate (target k s - 1) k) k' i h rights'
        (IsDead-invalidate k i h rights slot (target k s - 1) held (
          let used = (cap-IsHandle k (task_at k i) h rights slot held).in_use in
          ground (arith, used, same)))
        (subst (λ x. Run x k') revokes run)
    where
      revokes : (cap_revoke k a).0 ≡ invalidate (target k s - 1) k
      revokes = rw (e, cap_revoke, owns) (ground arith)
