-- ===== src/Services/Version.antt =====
-- services/version.c: the order of versions, and which package may take the place of an installed one.
pub mod Order
mod Tests
use spirit_fox_os.Prelude.{
  ℕ, Bool, true, false, ltb, ◌==◌, not, ◌&&◌, if◌then◌else◌, ℤ, pos, negsuc, List, [], ◌∷◌,
}

-- part[0], part[1] and part[2]
pub record Version : Type 0 where
  pub part0 : ℕ
  pub part1 : ℕ
  pub part2 : ℕ

abbrev pub sf_version_rejected : ℤ
sf_version_rejected = negsuc 20

-- One round of the loop, and the rounds after it.
abbrev pub compare_part : ℕ → ℕ → ℤ → ℤ
compare_part a b rest = if not (a == b) then (if ltb b a then pos 1 else negsuc 0) else rest

unfoldable pub compare_versions : Version → Version → ℤ
compare_versions a b =
    compare_part a.part0 b.part0
      (compare_part a.part1 b.part1 (compare_part a.part2 b.part2 (pos 0)))

-- memcmp(a, b, n) == 0, for the lists of the n bytes
unfoldable pub equal_bytes : List ℕ → List ℕ → Bool
equal_bytes (x ∷ xs) (y ∷ ys) = x == y && equal_bytes xs ys
equal_bytes [] [] = true
equal_bytes xs ys = false

abbrev pub is_positive : ℤ → Bool
is_positive (pos n) = not (n == 0)
is_positive (negsuc n) = false

abbrev pub is_below_zero : ℤ → Bool
is_below_zero (pos n) = false
is_below_zero (negsuc n) = true

-- 0 for an upgrade, 1 for the same package again
unfoldable pub version_upgrade : Version → List ℕ → Version → List ℕ → ℤ
version_upgrade current old candidate next =
    let r = compare_versions candidate current in
    if is_positive r
    then pos 0
    else (if is_below_zero r
        then sf_version_rejected
        else (if not (equal_bytes old next) then sf_version_rejected else pos 1))
