-- ===== src/Recovered/Net/Socket/Ports.antt =====
-- net_alloc_port of recovered/net/src/socket.c hands out a port that no socket has.
use spirit_fox_os.Prelude.{
  ℕ, zero, suc, ◌+◌, ◌%◌, ◌^◌, ◌<◌, ◌≤◌, ◌≡◌, refl, true, false, ◌==◌, ◌&&◌, none, arith,
  Bool-cases, Option-cases, inl, inr, ◌⊎◌, Bool,
}
use spirit_fox_os.Recovered.Net.Socket.{
  Sockets, Socket, socket_at, is_used, find_socket, port_in_use, following_port, try_ports,
  net_alloc_port, net_max_sockets,
}

-- A search that finds nothing has looked at each slot.
find_socket-none :
    (p : Socket → Bool) (n : Sockets) (rounds i j : ℕ)
    → find_socket p n rounds i ≡ none
    → i ≤ j
    → j < i + rounds
    → is_used n j ≡ true
    → p (socket_at n j) ≡ false
unfolding find_socket
find_socket-none p n zero i j e le lt u = absurd (omega arith)
find_socket-none p n (suc rounds) i j e le lt u =
    elim (Bool-cases (is_used n i && p (socket_at n i))) [
      | inl hit ↦ absurd (cc (rw hit at e))
      | inr miss ↦ elim (Bool-cases (i == j)) [
        | inl here ↦ let same : i ≡ j = ground arith in let miss' = rw (same, u) at miss in miss'
        | inr later ↦
            find_socket-none p n rounds (i + 1) j (rw miss at e) (ground arith) (omega arith) u
      ]
    ]

-- What the call returns: a port that no used slot of the table has, with the counter just behind it;
-- or 0.
pub IsFree : Sockets → ℕ × Sockets → Type 0
IsFree n r =
    (r.0 ≡ 0)
    ⊎ (((j : ℕ)
          → j < net_max_sockets
          → is_used n j ≡ true
          → ((socket_at n j).local_port == r.0) ≡ false)
        × (r.1.next_port ≡ (r.0 + 1) % 2 ^ 16))

try_ports-IsFree : (attempts : ℕ) (n : Sockets) → IsFree n (try_ports attempts n)
unfolding try_ports IsFree
try_ports-IsFree zero n = inl refl
try_ports-IsFree (suc attempts) n = elim (Option-cases (port_in_use n n.next_port)) [
  | inl free ↦
      rw (free, try_ports)
        (inr (
          (λ j lt u.
              find_socket-none (λ s. s.local_port == n.next_port) n net_max_sockets 0 j free
                (omega arith) (omega arith) u),
          ground arith,
        ))
  | inr (i, taken) ↦
      rw (taken, try_ports)
        (try_ports-IsFree attempts (record n { next_port = following_port n.next_port }))
]

-- A port that net_alloc_port hands out, if it is not 0, is the local port of no used slot; the counter is
-- then the port behind it, modulo 2 ^ 16: behind 65535 comes 0 and not the first ephemeral port.
pub net_alloc_port-IsFree : (n : Sockets) → IsFree n (net_alloc_port n)
unfolding net_alloc_port
net_alloc_port-IsFree n = try_ports-IsFree 16384 n
