-- ===== src/Recovered/Net.antt =====
-- recovered/net/: the sockets, and TCP.
pub mod Rings
pub mod Socket
pub mod Segments
pub mod Tcp
pub mod Calls
pub mod Stream
pub mod Udp
pub mod Checksum
pub mod Arp
pub mod Ip
pub mod Invariant
pub mod Preserved
pub mod Received
pub mod Called
pub mod Streamed
pub mod Connected
pub mod Runs
pub mod Tests
