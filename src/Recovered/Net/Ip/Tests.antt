-- ===== src/Recovered/Net/Ip/Tests.antt =====
-- A packet on the wire.
use spirit_fox_os.Prelude.{◌≡◌, [], ◌∷◌, arith, none, true}
use spirit_fox_os.Recovered.Net.Socket.{Sockets}
use spirit_fox_os.Recovered.Net.Tcp.{Env}
use spirit_fox_os.Recovered.Net.Segments.{Packet}
use spirit_fox_os.Recovered.Net.Ip.{ip_packet, deliver, net_rx_ipv4}
use spirit_fox_os.Recovered.Net.Ip.Wire.{Sendable, net_rx_ipv4-ip_packet}

abbrev quiet_env : Env
quiet_env = record { now = 1000; random = 7; kmalloc = λ i. true; behind = λ i. 0 }

abbrev no_sockets : Sockets
no_sockets = record { sockets = []; used = []; next_port = 49152; initial_seq = 0 }

abbrev packet : Packet
packet = record { src_ip = 167772161; dst_ip = 167772162; segment = 4 ∷ 210 ∷ 0 ∷ 80 ∷ [] }

packet-Sendable : Sendable packet
packet-Sendable = record { src_lem = omega arith; dst_lem = omega arith; short = omega arith }

net_rx_ipv4-ip_packet_example :
    net_rx_ipv4 (λ fd. none) quiet_env (ip_packet 99 6 packet) no_sockets
    ≡ deliver (λ fd. none) quiet_env 6 167772161 167772162 (4 ∷ 210 ∷ 0 ∷ 80 ∷ []) no_sockets
net_rx_ipv4-ip_packet_example =
    net_rx_ipv4-ip_packet (λ fd. none) quiet_env 99 6 packet no_sockets packet-Sendable
