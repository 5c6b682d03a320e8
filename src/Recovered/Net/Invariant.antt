-- ===== src/Recovered/Net/Invariant.antt =====
-- What recovered/net/src/tcp.c and socket.c keep true of the whole table of sockets.
use spirit_fox_os.Prelude.{
  ℕ, zero, suc, ◌<◌, ◌≡◌, sym, ◌∙◌, subst, true, leb, ◌==◌, not, List, [], ◌∷◌, length, get_or, set,
  modify, arith, Bool-cases, Option-cases, inl, inr, length-set, length-modify, get_or-modify,
  get_or-modify_self, get_or-set_ne, ◌≢◌,
}
use spirit_fox_os.Recovered.Net.Socket.{
  Socket, Sockets, socket_at, is_used, modify_socket, no_socket, net_max_sockets,
  net_free_socket_slot, remove_first,
}
use spirit_fox_os.Recovered.Net.Tcp.Sound.{IsSound}

-- Each used socket has its timeout within bounds and its ring in order.
pub record TableOk (n : Sockets) : Type 0 where
  pub sockets_len : length n.sockets ≡ net_max_sockets
  pub used_len : length n.used ≡ net_max_sockets
  pub each : (i : ℕ) → is_used n i ≡ true → IsSound (socket_at n i).state (socket_at n i)

pub modify_socket-TableOk :
    (i : ℕ) (f : Socket → Socket) (n : Sockets)
    → TableOk n
    → (is_used n i ≡ true → IsSound (f (socket_at n i)).state (f (socket_at n i)))
    → TableOk (modify_socket i f n)
modify_socket-TableOk i f n ok h = record {
  sockets_len = length-modify i f n.sockets ∙ ok.sockets_len;
  used_len = ok.used_len;
  each = λ j u. elim (get_or-modify i j f n.sockets no_socket) [
    | inl same ↦ subst (λ s. IsSound s.state s) (sym same) (ok.each j u)
    | inr (e, new, lt) ↦
        let u' : is_used n i ≡ true = rw e u in
        let here : IsSound (f (socket_at n j)).state (f (socket_at n j)) = rw e at (h u') in
        subst (λ s. IsSound s.state s) (sym new) here
  ];
}

-- A free slot is taken by a sound socket.
pub take_slot-TableOk :
    (i : ℕ) (f : Socket → Socket) (n : Sockets)
    → TableOk n
    → i < net_max_sockets
    → ((s : Socket) → IsSound (f s).state (f s))
    → TableOk (modify_socket i f (record n { used = set n.used i 1 }))
take_slot-TableOk i f n ok lt h = record {
  sockets_len = length-modify i f n.sockets ∙ ok.sockets_len;
  used_len = length-set n.used i 1 ∙ ok.used_len;
  each = λ j u. elim (get_or-modify i j f n.sockets no_socket) [
    | inr (e, new, lt') ↦ subst (λ s. IsSound s.state s) (sym new) (h (socket_at n j))
    | inl same ↦ elim (Bool-cases (i == j)) [
      | inl here ↦
          let e : i ≡ j = ground arith in
          let new : get_or (modify i f n.sockets) j no_socket ≡ f (get_or n.sockets j no_socket) =
            subst
              (λ k. get_or (modify k f n.sockets) j no_socket ≡ f (get_or n.sockets j no_socket))
              (sym e)
              (get_or-modify_self j f n.sockets no_socket
                (rw ok.sockets_len (subst (λ k. k < net_max_sockets) e lt))) in
          subst (λ s. IsSound s.state s) (sym new) (h (socket_at n j))
      | inr there ↦
          let ne : i ≢ j = λ e. ground (arith, e, there) in
          let u' : is_used n j ≡ true = rw (get_or-set_ne n.used i j 1 0 ne) at u in
          subst (λ s. IsSound s.state s) (sym same) (ok.each j u')
    ]
  ];
}

free_again : (i j : ℕ) (used : List ℕ) → i ≡ j → not (get_or (set used i 0) j 0 == 0) ≡ true → ⊥
free_again i j [] e u = cc u
free_again zero zero (x ∷ used) e u = cc u
free_again zero (suc j) (x ∷ used) e u = omega (arith, e)
free_again (suc i) zero (x ∷ used) e u = omega (arith, e)
free_again (suc i) (suc j) (x ∷ used) e u = free_again i j used (omega (arith, e)) u

clear_slot-TableOk :
    (i : ℕ) (n : Sockets)
    → TableOk n
    → TableOk (record n { sockets = set n.sockets i no_socket; used = set n.used i 0 })
clear_slot-TableOk i n ok = record {
  sockets_len = length-set n.sockets i no_socket ∙ ok.sockets_len;
  used_len = length-set n.used i 0 ∙ ok.used_len;
  each = λ j u. elim (Bool-cases (i == j)) [
    | inl here ↦ absurd (free_again i j n.used (ground arith) u)
    | inr there ↦
        let ne : i ≢ j = λ e. ground (arith, e, there) in
        let u' : is_used n j ≡ true = rw (get_or-set_ne n.used i j 0 0 ne) at u in
        subst (λ s. IsSound s.state s) (sym (get_or-set_ne n.sockets i j no_socket no_socket ne))
          (ok.each j u')
  ];
}

pub net_free_socket_slot-TableOk :
    (n : Sockets) (i : ℕ) → TableOk n → TableOk (net_free_socket_slot n i)
unfolding net_free_socket_slot
net_free_socket_slot-TableOk n i ok = elim (Bool-cases (leb net_max_sockets i)) [
  | inl far ↦ rw (far, net_free_socket_slot) ok
  | inr near ↦ elim (Option-cases (socket_at n i).listen_parent) [
    | inl none_lem ↦ rw (near, none_lem, net_free_socket_slot) (clear_slot-TableOk i n ok)
    | inr (parent, e) ↦
        rw (near, e, net_free_socket_slot)
          (clear_slot-TableOk i _ (
            modify_socket-TableOk parent
              (λ s. record s { pending_conns = remove_first i s.pending_conns }) n ok
              (ok.each parent)))
  ]
]
