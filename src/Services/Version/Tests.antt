-- ===== src/Services/Version/Tests.antt =====
-- Tests of services/version.c.
use spirit_fox_os.Prelude.{ℕ, ◌≡◌, ◌≢◌, ◌⊎◌, List, [], ◌∷◌}
use spirit_fox_os.Services.Version.{
  Version, version_upgrade, compare_versions, equal_bytes, sf_version_rejected,
}
use spirit_fox_os.Services.Version.Order.{IsLater, IsSameVersion, upgrade_chain}

abbrev version : ℕ → ℕ → ℕ → Version
version a b c = record { part0 = a; part1 = b; part2 = c }

abbrev old_hash : List ℕ
old_hash = 7 ∷ 8 ∷ []

abbrev new_hash : List ℕ
new_hash = 9 ∷ 8 ∷ []

upgrades : version_upgrade (version 1 9 0) old_hash (version 1 10 0) new_hash ≢ sf_version_rejected
unfolding version_upgrade compare_versions
upgrades q = absurd (cc q)

installs_again :
    version_upgrade (version 1 10 0) new_hash (version 1 10 0) new_hash ≢ sf_version_rejected
unfolding version_upgrade compare_versions equal_bytes
installs_again q = absurd (cc q)

upgrade_chain_example :
    IsLater (version 1 10 0) (version 1 9 0)
    ⊎ (IsSameVersion (version 1 10 0) (version 1 9 0) × (old_hash ≡ new_hash))
upgrade_chain_example =
    upgrade_chain (version 1 9 0) (version 1 10 0) (version 1 10 0) old_hash new_hash new_hash
      upgrades installs_again
