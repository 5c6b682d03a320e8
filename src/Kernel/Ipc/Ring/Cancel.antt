-- ===== src/Kernel/Ipc/Ring/Cancel.antt =====
-- What SYS_SEND_CANCEL of kernel/ipc.c does to the queue.
use spirit_fox_os.Prelude.{
  ℕ, zero, suc, ◌+◌, ◌-◌, ◌%◌, ◌≤◌, ◌≡◌, refl, sym, ap, ◌∙◌, Bool, true, false, ◌==◌, not,
  if◌then◌else◌, List, [], ◌∷◌, ◌++◌, get_or, set, arith, length, length-set, keep_if,
  get_or-set_self, keep_if_full, Bool-cases, inl, inr,
}
use mathlib.Core.Path.{ap₂}
use mathlib.Core.List.{append_assoc, append-nil}
use spirit_fox_os.Kernel.State.{Message, Endpoint, no_message, queue_size}
use spirit_fox_os.Kernel.Ipc.Invariant.{RingOk}
use spirit_fox_os.Kernel.Ipc.Calls.{compact, clear_slots, cancelled}
use spirit_fox_os.Kernel.Ipc.Ring.{
  window, messages, cancels, length-window, window-set_out, window-snoc_zero,
}

-- The messages of the window that a cancellation leaves.
abbrev pub survivors : ℕ → ℕ → List Message → List Message
survivors pid id ms = keep_if (λ m. not (cancels pid id m)) ms

survivors-zero : (pid id head i : ℕ) (q : List Message) → survivors pid id (window q head i 0) ≡ []
unfolding window
survivors-zero pid id head i q = refl

survivors-keep :
    (pid id head i n : ℕ) (q : List Message)
    → cancels pid id (get_or q ((head + i) % queue_size) no_message) ≡ false
    → survivors pid id (window q head i (suc n))
      ≡ get_or q ((head + i) % queue_size) no_message ∷ survivors pid id (window q head (i + 1) n)
unfolding window
survivors-keep pid id head i n q keep = rw keep

survivors-drop :
    (pid id head i n : ℕ) (q : List Message)
    → cancels pid id (get_or q ((head + i) % queue_size) no_message) ≡ true
    → survivors pid id (window q head i (suc n)) ≡ survivors pid id (window q head (i + 1) n)
unfolding window
survivors-drop pid id head i n q drop = rw drop

record Compacts (pid id head kept rounds i : ℕ) (q : List Message) (r : List Message × ℕ)
    : Type 0 where
  size : length (r.0) ≡ queue_size
  bound : r.1 ≤ kept + rounds
  content :
      window (r.0) head 0 (r.1)
      ≡ window q head 0 kept ++ keep_if (λ m. not (cancels pid id m)) (window q head i rounds)

-- A round that keeps its message: the rest of the loop runs on a ring whose front has grown by it.
Compacts-keep :
    (pid id head kept rounds i : ℕ) (q q2 : List Message) (r : List Message × ℕ)
    → cancels pid id (get_or q ((head + i) % queue_size) no_message) ≡ false
    → window q2 head 0 (suc kept)
      ≡ window q head 0 kept ++ get_or q ((head + i) % queue_size) no_message ∷ []
    → window q2 head (i + 1) rounds ≡ window q head (i + 1) rounds
    → Compacts pid id head (kept + 1) rounds (i + 1) q2 r
    → Compacts pid id head kept (suc rounds) i q r
Compacts-keep pid id head kept rounds i q q2 r keep front back rest = record {
  size = rest.size;
  bound = omega (arith, rest.bound);
  content =
      let one : kept + 1 ≡ suc kept = omega arith in
      rest.content
      ∙ rw (one, front, back, survivors-keep pid id head i rounds q keep)
          (append_assoc (window q head 0 kept) (get_or q ((head + i) % queue_size) no_message ∷ [])
            (survivors pid id (window q head (i + 1) rounds)));
}

compact-Compacts :
    (pid id head rounds i kept : ℕ) (q : List Message)
    → length q ≡ queue_size
    → kept ≤ i
    → i + rounds ≤ queue_size
    → Compacts pid id head kept rounds i q (compact pid id head rounds i kept q)
unfolding compact window
compact-Compacts pid id head zero i kept q len le fit = record {
  size = len;
  bound = omega arith;
  content = sym (append-nil _);
}
compact-Compacts pid id head (suc rounds) i kept q len le fit =
    let m = get_or q ((head + i) % queue_size) no_message in
    let q2 = set q ((head + kept) % queue_size) m in
    elim (Bool-cases (cancels pid id m)) [
      | inl drop ↦
          let r =
            compact-Compacts pid id head rounds (i + 1) kept q len (omega arith) (omega arith) in
          rw drop (record {
            size = r.size;
            bound = omega (arith, r.bound);
            content =
                r.content
                ∙ ap (◌++◌ (window q head 0 kept))
                    (sym (survivors-drop pid id head i rounds q drop));
          })
      | inr keep ↦ elim (Bool-cases (kept == i)) [
        | inl same ↦
            rw (keep, same)
              (Compacts-keep pid id head kept rounds i q q _ keep
                (let e : kept ≡ i = ground arith in rw e (window-snoc_zero q head i)) refl
                (compact-Compacts pid id head rounds (i + 1) (kept + 1) q len (omega arith)
                  (omega arith)))
        | inr other ↦
            rw (keep, other)
              (Compacts-keep pid id head kept rounds i q q2 _ keep
                (window-snoc_zero q2 head kept
                  ∙ ap₂ (λ (xs : List Message) (x : Message). xs ++ x ∷ [])
                      (window-set_out q head 0 kept kept m (omega arith) (omega arith)
                        (inr (omega arith)))
                      (get_or-set_self q ((head + kept) % queue_size) m no_message (omega arith)))
                (window-set_out q head (i + 1) rounds kept m (omega arith) (omega arith)
                  (inl (omega arith)))
                (compact-Compacts pid id head rounds (i + 1) (kept + 1) q2 (length-set q _ m ∙ len)
                  (omega arith) (omega arith)))
      ]
    ]

length-clear_slots :
    (head rounds i : ℕ) (q : List Message) → length (clear_slots head rounds i q) ≡ length q
unfolding clear_slots
length-clear_slots head zero i q = refl
length-clear_slots head (suc rounds) i q =
    length-clear_slots head rounds (i + 1) _ ∙ length-set q _ no_message

-- Clearing the slots behind the window is not seen in it.
window-clear_slots :
    (head n rounds i : ℕ) (q : List Message)
    → n ≤ i
    → i + rounds ≤ queue_size
    → window (clear_slots head rounds i q) head 0 n ≡ window q head 0 n
unfolding clear_slots
window-clear_slots head n zero i q le fit = refl
window-clear_slots head n (suc rounds) i q le fit =
    window-clear_slots head n rounds (i + 1) _ (omega arith) (omega arith)
    ∙ window-set_out q head 0 n i no_message (omega arith) (omega arith) (inr (omega arith))

window_empty :
    (q : List Message) (head head' n : ℕ) → n ≡ 0 → window q head 0 n ≡ window q head' 0 n
unfolding window
window_empty q head head' n e = rw e

-- In a ring within its bounds, SYS_SEND_CANCEL removes exactly the waiting messages of the sender
-- with the given request id, keeps the others in their order, keeps the ring within its bounds, and
-- counts what it removed.
pub cancelled-survivors :
    (pid id : ℕ) (e : Endpoint)
    → RingOk e
    → (messages (cancelled pid id e).0 ≡ survivors pid id (messages e))
      × RingOk (cancelled pid id e).0
      × ((cancelled pid id e).0.count + (cancelled pid id e).1 ≡ e.count)
unfolding messages cancelled window
cancelled-survivors pid id e ok = elim (Bool-cases (r.1 == e.count)) [
  | inl all ↦
      let same : r.1 ≡ e.count = ground arith in
      rw all (sym (keep_if_full _ (messages e) (lengths same)), ok, omega arith)
  | inr some_gone ↦ rw some_gone (
    window_head (r.1 == 0) refl
        ∙ window-clear_slots e.head r.1 (e.count - r.1) r.1 r.0 (omega arith)
            (omega (arith, c.bound))
        ∙ left,
    (
      length-clear_slots e.head (e.count - r.1) r.1 r.0 ∙ c.size,
      ground arith,
      omega (arith, c.bound),
    ),
    omega (arith, c.bound),
  )
]
  where
    r : List Message × ℕ
    r = compact pid id e.head e.count 0 0 e.queue

    c : Compacts pid id e.head 0 e.count 0 e.queue r
    c = compact-Compacts pid id e.head e.count 0 0 e.queue ok.0 (omega arith) (omega arith)

    left : window r.0 e.head 0 r.1 ≡ survivors pid id (messages e)
    left = c.content

    lengths : r.1 ≡ e.count → length (survivors pid id (messages e)) ≡ length (messages e)
    lengths same =
        ap length (sym left)
        ∙ length-window r.0 e.head 0 r.1
        ∙ same
        ∙ sym (length-window e.queue e.head 0 e.count)

    window_head :
        (b : Bool)
        → (r.1 == 0) ≡ b
        → window (clear_slots e.head (e.count - r.1) r.1 r.0) (if b then 0 else e.head) 0 r.1
          ≡ window (clear_slots e.head (e.count - r.1) r.1 r.0) e.head 0 r.1
    window_head true q = window_empty _ 0 e.head r.1 (ground arith)
    window_head false q = refl
