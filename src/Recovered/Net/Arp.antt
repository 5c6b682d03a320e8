-- ===== src/Recovered/Net/Arp.antt =====
-- recovered/net/src/arp.c: the cache, the packets, and what arrives. An IP address is the number that the
-- processor loads from its four bytes.
pub mod Cache
pub mod Tests
use spirit_fox_os.Prelude.{
  ℕ, zero, suc, ◌+◌, ◌*◌, ◌/◌, ◌%◌, ◌^◌, Bool, true, false, ltb, leb, ◌==◌, not, ◌&&◌, ◌||◌,
  if◌then◌else◌, List, [], ◌∷◌, ◌++◌, length, get_or, set, take, drop, Option, none, some,
  find_index?, replicate,
}
use spirit_fox_os.Recovered.Net.Segments.{bytes16, read16, u64}

pub record ArpEntry : Type 0 where
  pub ip : ℕ
  pub mac : List ℕ
  pub expire : ℕ

abbrev pub no_entry : ArpEntry
no_entry = record { ip = 0; mac = replicate 6 0; expire = 0 }

abbrev pub arp_cache_size : ℕ
arp_cache_size = 16

-- net_arp_init
abbrev pub no_entries : List ArpEntry
no_entries = replicate arp_cache_size no_entry

abbrev pub fresh_entry : ℕ → ℕ → List ℕ → ArpEntry
fresh_entry now ip mac = record { ip = ip; mac = mac; expire = u64 (now + 60000) }

abbrev pub is_for : ℕ → ArpEntry → Bool
is_for ip e = e.ip == ip

abbrev pub is_stale : ℕ → ArpEntry → Bool
is_stale now e = e.ip == 0 || leb e.expire now

-- The entry of the address, or else the first that is empty or has expired, or else the first of all.
unfoldable pub victim : ℕ → ℕ → List ArpEntry → ℕ
victim now ip cache = elim (find_index? (is_for ip) cache) [
  | some i ↦ i
  | none ↦ elim (find_index? (is_stale now) cache) [ some i ↦ i | none ↦ 0 ]
]

unfoldable pub arp_cache_insert : ℕ → ℕ → List ℕ → List ArpEntry → List ArpEntry
arp_cache_insert now ip mac cache = set cache (victim now ip cache) (fresh_entry now ip mac)

abbrev pub is_live : ℕ → ℕ → ArpEntry → Bool
is_live now ip e = e.ip == ip && ltb now e.expire

unfoldable pub arp_cache_lookup : ℕ → ℕ → List ArpEntry → Option (List ℕ)
arp_cache_lookup now ip cache = elim (find_index? (is_live now ip) cache) [
  | some i ↦ some (get_or cache i no_entry).mac
  | none ↦ none
]

-- The number that the processor loads from four bytes.
abbrev pub load32 : List ℕ → ℕ → ℕ
load32 bytes i =
    get_or bytes i 0
    + get_or bytes (i + 1) 0 * 2 ^ 8
    + get_or bytes (i + 2) 0 * 2 ^ 16
    + get_or bytes (i + 3) 0 * 2 ^ 24

abbrev pub store32 : ℕ → List ℕ
store32 n = n % 2 ^ 8 ∷ n / 2 ^ 8 % 2 ^ 8 ∷ n / 2 ^ 16 % 2 ^ 8 ∷ n / 2 ^ 24 % 2 ^ 8 ∷ []

-- The frames of arp_send_request and arp_send_reply, which differ in these.
abbrev pub arp_frame : ℕ → ℕ → List ℕ → List ℕ → List ℕ → ℕ → List ℕ
arp_frame oper local_ip local_mac dst_mac tha target_ip =
    dst_mac
    ++ local_mac
    ++ bytes16 0x0806
    ++ bytes16 1
    ++ bytes16 0x0800
    ++ (6 ∷ 4 ∷ [])
    ++ bytes16 oper
    ++ local_mac
    ++ store32 local_ip
    ++ tha
    ++ store32 target_ip

unfoldable pub arp_send_request : ℕ → List ℕ → ℕ → List ℕ
arp_send_request local_ip local_mac target_ip =
    arp_frame 1 local_ip local_mac (replicate 6 255) (replicate 6 0) target_ip

unfoldable pub arp_send_reply : ℕ → List ℕ → ℕ → List ℕ → List ℕ
arp_send_reply local_ip local_mac target_ip target_mac =
    arp_frame 2 local_ip local_mac target_mac target_mac target_ip

abbrev pub arp_packet_size : ℕ
arp_packet_size = 28

-- The checks of net_arp_rx.
unfoldable pub is_for_us : ℕ → List ℕ → Bool
is_for_us local_ip bytes =
    not (ltb (length bytes) arp_packet_size)
    && (read16 bytes 0 == 1
        && (read16 bytes 2 == 0x0800
            && (get_or bytes 4 0 == 6 && (get_or bytes 5 0 == 4 && (load32 bytes 24 == local_ip)))))

-- The cache after a packet, and the frames that answer it.
unfoldable pub net_arp_rx : ℕ → ℕ → List ℕ → List ℕ → List ArpEntry → List ArpEntry × List (List ℕ)
net_arp_rx now local_ip local_mac bytes cache =
    let oper = read16 bytes 6 in
    let sha = take 6 (drop 8 bytes) in
    let spa = load32 bytes 14 in
    let cache' = arp_cache_insert now spa sha cache in
    if is_for_us local_ip bytes && (oper == 1 || (oper == 2))
    then (cache', if oper == 1 then arp_send_reply local_ip local_mac spa sha ∷ [] else [])
    else (cache, [])
