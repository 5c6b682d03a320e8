-- ===== src/Kernel/Ipc/Ring.antt =====
-- The ring of an endpoint of kernel/ipc.c as the queue of messages that it stands for.
pub mod Cancel
pub mod Queue
use spirit_fox_os.Prelude.{
  ℕ, zero, suc, ◌+◌, ◌-◌, ◌%◌, ◌≤◌, ◌<◌, ◌≡◌, ◌≢◌, refl, sym, ap, ◌∙◌, Bool, true, false, ◌==◌, not,
  ◌&&◌, if◌then◌else◌, List, [], ◌∷◌, ◌++◌, get_or, set, arith, length, length-set, keep_if,
  get_or-set_ne, get_or-set_self, keep_if_full, Bool-cases, inl, inr, ◌⊎◌,
}
use mathlib.Core.Path.{ap₂}
use mathlib.Core.List.{append_assoc, append-nil}
use spirit_fox_os.Kernel.State.{Message, Endpoint, no_message, queue_size}
use spirit_fox_os.Kernel.Ipc.Invariant.{RingOk}
use spirit_fox_os.Kernel.Ipc.Calls.{compact, clear_slots, cancelled, enqueued, dequeued}

-- `n` messages of the ring, from the logical index `i` on.
unfoldable pub window : List Message → ℕ → ℕ → ℕ → List Message
window queue head i zero = []
window queue head i (suc n) =
    get_or queue ((head + i) % queue_size) no_message ∷ window queue head (i + 1) n

-- The messages that wait, oldest first.
unfoldable pub messages : Endpoint → List Message
messages e = window e.queue e.head 0 e.count

abbrev pub cancels : ℕ → ℕ → Message → Bool
cancels pid id m = m.h.flags == pid && (m.h.request_id == id)

pub length-window : (queue : List Message) (head i n : ℕ) → length (window queue head i n) ≡ n
unfolding window
length-window queue head i zero = refl
length-window queue head i (suc n) = ap suc (length-window queue head (i + 1) n)

-- Two logical indices within one lap are two slots.
pub slot_ne :
    (head i j : ℕ)
    → i < queue_size
    → j < queue_size
    → i ≢ j
    → (head + i) % queue_size ≢ (head + j) % queue_size
slot_ne head i j hi hj ne = omega arith

-- A write outside the window is not seen.
pub window-set_out :
    (queue : List Message) (head i n j : ℕ) (m : Message)
    → i + n ≤ queue_size
    → j < queue_size
    → (j < i) ⊎ (i + n ≤ j)
    → window (set queue ((head + j) % queue_size) m) head i n ≡ window queue head i n
unfolding window
window-set_out queue head i zero j m fit lt out = refl
window-set_out queue head i (suc n) j m fit lt out =
    ap₂ ◌∷◌ (get_or-set_ne queue _ _ m no_message (slot_ne head j i lt (omega arith) (omega arith)))
      (window-set_out queue head (i + 1) n j m (omega arith) lt (grind arith))

-- One message more at the end of the window.
pub window-snoc :
    (queue : List Message) (head i n : ℕ)
    → window queue head i (suc n)
      ≡ window queue head i n ++ get_or queue ((head + (i + n)) % queue_size) no_message ∷ []
unfolding window
window-snoc queue head i zero = let e : i + 0 ≡ i = omega arith in rw e
window-snoc queue head i (suc n) =
    let e : i + suc n ≡ i + 1 + n = omega arith in
    rw e (
      ap (◌∷◌ (get_or queue ((head + i) % queue_size) no_message))
        (window-snoc queue head (i + 1) n))

pub window-snoc_zero :
    (queue : List Message) (head n : ℕ)
    → window queue head 0 (suc n)
      ≡ window queue head 0 n ++ get_or queue ((head + n) % queue_size) no_message ∷ []
window-snoc_zero queue head n =
    let e : 0 + n ≡ n = omega arith in rw e at (window-snoc queue head 0 n)
