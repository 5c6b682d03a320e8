-- ===== src/Recovered/Net/Arp/Tests.antt =====
-- A cache with an entry.
use spirit_fox_os.Prelude.{ℕ, ◌≡◌, List, [], ◌∷◌, arith, some}
use spirit_fox_os.Recovered.Net.Arp.{no_entries, arp_cache_insert, arp_cache_lookup}
use spirit_fox_os.Recovered.Net.Arp.Cache.{arp_cache_lookup-arp_cache_insert}

abbrev router : List ℕ
router = 2 ∷ 0 ∷ 0 ∷ 0 ∷ 0 ∷ 1 ∷ []

arp_cache_lookup-arp_cache_insert_example :
    arp_cache_lookup 30000 16777226 (arp_cache_insert 500 16777226 router no_entries) ≡ some router
arp_cache_lookup-arp_cache_insert_example =
    arp_cache_lookup-arp_cache_insert 500 30000 16777226 router no_entries (omega arith)
      (omega arith) (omega arith)
