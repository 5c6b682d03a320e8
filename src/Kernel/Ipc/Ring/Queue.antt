-- ===== src/Kernel/Ipc/Ring/Queue.antt =====
-- What SYS_SEND and SYS_RECV of kernel/ipc.c do to the queue.
use spirit_fox_os.Prelude.{
  ℕ, zero, suc, ◌+◌, ◌-◌, ◌%◌, ◌<◌, ◌≡◌, ◌≢◌, refl, ◌∙◌, List, [], ◌∷◌, ◌++◌, get_or, set, arith,
  length-set, get_or-set_self, inr,
}
use mathlib.Core.Path.{ap₂}
use spirit_fox_os.Kernel.State.{Message, Endpoint, no_message, queue_size}
use spirit_fox_os.Kernel.Ipc.Invariant.{RingOk}
use spirit_fox_os.Kernel.Ipc.Calls.{enqueued, dequeued}
use spirit_fox_os.Kernel.Ipc.Ring.{window, messages, window-set_out, window-snoc_zero}

window-shift :
    (q : List Message) (head i n : ℕ)
    → window q ((head + 1) % queue_size) i n ≡ window q head (i + 1) n
unfolding window
window-shift q head i zero = refl
window-shift q head i (suc n) =
    let e : ((head + 1) % queue_size + i) % queue_size ≡ (head + (i + 1)) % queue_size =
      omega arith in
    rw (e, window-shift q head (i + 1) n)

-- In a ring within its bounds and not full, SYS_SEND puts the message behind those that wait, and the
-- ring stays within its bounds.
pub messages-enqueued :
    (m : Message) (e : Endpoint)
    → RingOk e
    → e.count < queue_size
    → (messages (enqueued m e) ≡ messages e ++ m ∷ []) × RingOk (enqueued m e)
unfolding messages
messages-enqueued m e ok lt = (
  let one : e.count + 1 ≡ suc e.count = omega arith in
      rw one (
        window-snoc_zero (set e.queue ((e.head + e.count) % queue_size) m) e.head e.count
        ∙ ap₂ (λ (xs : List Message) (x : Message). xs ++ x ∷ [])
            (window-set_out e.queue e.head 0 e.count e.count m (omega arith) (omega arith)
              (inr (omega arith)))
            (get_or-set_self e.queue ((e.head + e.count) % queue_size) m no_message (omega arith))),
  (length-set e.queue _ m ∙ ok.0, ok.1, omega arith),
)

-- In a ring within its bounds and not empty, the slot at the head holds the oldest message, SYS_RECV
-- leaves exactly the others in their order, and the ring stays within its bounds.
pub messages-dequeued :
    (e : Endpoint)
    → RingOk e
    → e.count ≢ 0
    → (messages e ≡ get_or e.queue e.head no_message ∷ messages (dequeued e)) × RingOk (dequeued e)
unfolding messages window
messages-dequeued e ok ne = (front e.count refl, (ok.0, omega arith, omega arith))
  where
    front :
        (n : ℕ)
        → e.count ≡ n
        → window e.queue e.head 0 n
          ≡ get_or e.queue e.head no_message ∷ window e.queue ((e.head + 1) % queue_size) 0 (n - 1)
    front zero q = absurd (ne q)
    front (suc n) q =
        let one : suc n - 1 ≡ n = omega arith in
        let first : (e.head + 0) % queue_size ≡ e.head = omega arith in
        rw (one, window-shift e.queue e.head 0 n, first)
