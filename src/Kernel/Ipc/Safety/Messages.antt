-- ===== src/Kernel/Ipc/Safety/Messages.antt =====
-- The calls of kernel/ipc.c that send and receive messages keep the tables sound and do not panic.
use spirit_fox_os.Kernel.Ipc.Ring.Cancel.{cancelled-survivors}
use spirit_fox_os.Kernel.Ipc.Ring.Queue.{messages-enqueued, messages-dequeued}
use spirit_fox_os.Prelude.{
  refl, ℕ, ◌-◌, ◌≡◌, true, leb, ◌==◌, not, ◌||◌, find_index?, some, arith, find_index?-get_or,
  Bool-cases, Option-cases, inl, inr, none, ltb, false, get_or, ◌&&◌,
}
use spirit_fox_os.Kernel.State.{
  Endpoint, UserMemory, Kernel, Message, no_task, right_send, right_recv, message_size, no_message,
  now_ns,
}
use spirit_fox_os.Kernel.Ipc.{
  cap, task_at, endpoint_at, Task, modify_endpoint, modify_task, no_task, ltb, copied, get_or,
  now_ns,
}
use spirit_fox_os.Kernel.Ipc.Calls.{
  current_task, target, Outcome, deliver, cancelled, send_cancel, waits_on, enqueued, recv, send,
  take, delivered, well_formed, dequeued, waiting,
}
use spirit_fox_os.Kernel.Ipc.Invariant.{RingOk, modify_endpoint-IsSound, modify_task-IsSound}
use spirit_fox_os.Kernel.Ipc.Mapped.{
  Wakes, modify_task-AreMapped, store-AreMapped, modify_task-AreMapped_wait,
}
use spirit_fox_os.Kernel.Ipc.Safety.Caps.{IsSafe}

cancelled-owner :
    (pid id : ℕ) (e : Endpoint)
    → ((cancelled pid id e).0.owner ≡ e.owner) × ((cancelled pid id e).0.epoch ≡ e.epoch)
unfolding cancelled
cancelled-owner pid id e = ground arith

module _ {U : UserMemory} where
  -- The call returns, and leaves the tables sound.
  abbrev pub Returns : Outcome U → Type 0
  Returns none = ⊥
  Returns (some (k', r)) = IsSafe k'

  modify_endpoint-IsSafe :
      (i : ℕ) (f : Endpoint → Endpoint) (k : Kernel U)
      → IsSafe k
      → (f (endpoint_at k i)).owner ≡ (endpoint_at k i).owner
      → (f (endpoint_at k i)).epoch ≡ (endpoint_at k i).epoch
      → (RingOk (endpoint_at k i) → RingOk (f (endpoint_at k i)))
      → IsSafe (modify_endpoint i f k)
  modify_endpoint-IsSafe i f k safe ow ep keep = record {
    sound = modify_endpoint-IsSound i f k safe.sound ow ep keep;
    mapped = safe.mapped;
  }

  modify_task-IsSafe :
      (i : ℕ) (f : Task → Task) (k : Kernel U)
      → IsSafe k
      → (f (task_at k i)).caps ≡ (task_at k i).caps
      → Wakes (task_at k i) (f (task_at k i))
      → IsSafe (modify_task i f k)
  modify_task-IsSafe i f k safe same w = record {
    sound = modify_task-IsSound i f k safe.sound (λ ok. rw same ok);
    mapped = modify_task-AreMapped i f k w safe.mapped;
  }

  pub send_cancel-IsSafe : (k : Kernel U) (a b c : ℕ) → IsSafe k → IsSafe (send_cancel k a b c).0
  unfolding send_cancel
  send_cancel-IsSafe k a b c safe = elim (Option-cases (cap k (current_task k) a right_send)) [
    | inl stale ↦ rw (stale, send_cancel) safe
    | inr (s, e) ↦ elim (Bool-cases (not (c == 0))) [
      | inl bad ↦ rw (e, send_cancel, bad) safe
      | inr good ↦
          let i = target k s - 1 in
          elim (Bool-cases (leb 8 (endpoint_at k i).head || ltb 8 (endpoint_at k i).count)) [
            | inl broken ↦ rw (e, send_cancel, good, broken) safe
            | inr fine ↦
                let kept = cancelled-owner (current_task k).pid b (endpoint_at k i) in
                rw (e, send_cancel, good, fine)
                  (modify_endpoint-IsSafe i _ k safe kept.0 kept.1
                    (λ ok. (cancelled-survivors (current_task k).pid b (endpoint_at k i) ok).1))
          ]
    ]
  ]

  counted-IsSafe :
      (k : Kernel U)
      → IsSafe k
      → IsSafe (record k { send_bytes = copied k.send_bytes message_size })
  counted-IsSafe k safe = record {
    sound = record {
      endpoint_count = safe.sound.endpoint_count;
      task_count = safe.sound.task_count;
      rings = safe.sound.rings;
      live = safe.sound.live;
    };
    mapped = safe.mapped;
  }

  -- The kernel after a message has been copied out.
  abbrev copied_out : Kernel U → ℕ → ℕ → Message → Kernel U
  copied_out k j address m = record k {
    memory = U.store k.memory j address m;
    receive_bytes = copied k.receive_bytes message_size;
  }

  copied_out-IsSafe :
      (k : Kernel U) (j address : ℕ) (m : Message)
      → U.user_range k.memory j address message_size true ≡ true
      → IsSafe k
      → IsSafe (copied_out k j address m)
  copied_out-IsSafe k j address m writable safe = record {
    sound = record {
      endpoint_count = safe.sound.endpoint_count;
      task_count = safe.sound.task_count;
      rings = safe.sound.rings;
      live = safe.sound.live;
    };
    mapped = store-AreMapped k j address m writable safe.mapped;
  }

  deliver-Returns :
      (k : Kernel U) (endpoint : ℕ) (m : Message) → IsSafe k → Returns (deliver k endpoint m)
  unfolding deliver
  deliver-Returns k endpoint m safe =
      elim (Option-cases (find_index? (waits_on endpoint) k.tasks)) [
        | inl nobody ↦ elim (Bool-cases ((endpoint_at k (endpoint - 1)).count == 8)) [
          | inl full ↦ rw (nobody, deliver, full) safe
          | inr room ↦
              rw (nobody, deliver, room)
                (modify_endpoint-IsSafe (endpoint - 1) (enqueued m) k safe refl refl (λ ok.
                  (messages-enqueued m (endpoint_at k (endpoint - 1)) ok (ground (arith, ok.2))).1))
        ]
        | inr (j, f) ↦
            let (lt, hit) = find_index?-get_or (waits_on endpoint) j k.tasks no_task f in
            let open_buffer = safe.mapped j (ground (arith, hit)) in
            let k1 = copied_out k j (task_at k j).recv_buffer m in
            let safe1 = copied_out-IsSafe k j (task_at k j).recv_buffer m open_buffer safe in
            rw (f, deliver, open_buffer)
              (modify_task-IsSafe j (delivered (current_task k).pid k.ticks) k1 safe1 refl
                (λ b. cc))
      ]

  pub send-Returns : (k : Kernel U) (a b : ℕ) → IsSafe k → Returns (send k a b)
  unfolding send
  send-Returns k a b safe = elim (Option-cases (cap k (current_task k) a right_send)) [
    | inl stale ↦ rw (stale, send) safe
    | inr (s, e) ↦ elim (Bool-cases (U.user_range k.memory k.current b message_size false)) [
      | inr unmapped ↦ rw (e, send, unmapped) safe
      | inl readable ↦ elim (Bool-cases (well_formed (U.load k.memory k.current b))) [
        | inr bad ↦ rw (e, send, readable, bad) (counted-IsSafe k safe)
        | inl good ↦
            elim (Bool-cases (
              not ((U.load k.memory k.current b).h.deadline_ns == 0)
              && leb (U.load k.memory k.current b).h.deadline_ns (now_ns k.ticks))) [
                | inl late ↦ rw (e, send, readable, good, late) (counted-IsSafe k safe)
                | inr timely ↦
                    rw (e, send, readable, good, timely)
                      (deliver-Returns _ _ _ (counted-IsSafe k safe))
              ]
      ]
    ]
  ]

  take-IsSafe :
      (k : Kernel U) (endpoint b c : ℕ)
      → U.user_range k.memory k.current b message_size true ≡ true
      → IsSafe k
      → IsSafe (take k endpoint b c).0
  unfolding take
  take-IsSafe k endpoint b c writable safe =
      elim (Bool-cases (not ((endpoint_at k (endpoint - 1)).count == 0))) [
        | inl some_message ↦
            let m =
              get_or (endpoint_at k (endpoint - 1)).queue (endpoint_at k (endpoint - 1)).head
                no_message in
            let k1 = copied_out k k.current b m in
            let safe1 = copied_out-IsSafe k k.current b m writable safe in
            rw (some_message, writable)
              (modify_endpoint-IsSafe (endpoint - 1) dequeued k1 safe1 refl refl
                (λ ok. (messages-dequeued (endpoint_at k (endpoint - 1)) ok (ground arith)).1))
        | inr empty ↦ elim (Bool-cases (not (c == 0) && leb c (now_ns k.ticks))) [
          | inl late ↦ rw (empty, late) safe
          | inr wait ↦
              rw (empty, wait)
                (record {
                  sound =
                      modify_task-IsSound k.current (waiting endpoint b c) k safe.sound (λ ok. ok);
                  mapped =
                      modify_task-AreMapped_wait k.current (waiting endpoint b c) k writable
                        safe.mapped;
                })
        ]
      ]

  pub recv-IsSafe : (k : Kernel U) (a b c : ℕ) → IsSafe k → IsSafe (recv k a b c).0
  unfolding recv
  recv-IsSafe k a b c safe = elim (Option-cases (cap k (current_task k) a right_recv)) [
    | inl stale ↦ rw (stale, recv) safe
    | inr (s, e) ↦ elim (Bool-cases (U.user_range k.memory k.current b message_size true)) [
      | inr unmapped ↦ rw (e, recv, unmapped) safe
      | inl writable ↦ rw (e, recv, writable) (take-IsSafe k (target k s) b c writable safe)
    ]
  ]
