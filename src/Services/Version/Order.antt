-- ===== src/Services/Version/Order.antt =====
-- services/version.c: a chain of accepted packages never goes back, and never swaps a package for
-- another of the same version.
use spirit_fox_os.Prelude.{
  ℕ, ◌<◌, ◌≡◌, ◌≢◌, refl, ap, ◌∙◌, true, pos, List, [], ◌∷◌, arith, Bool-cases, inl, inr, ◌⊎◌,
}
use spirit_fox_os.Services.Version.{
  Version, compare_versions, equal_bytes, version_upgrade, sf_version_rejected,
}

-- Later in the order of the parts.
unfoldable pub IsLater : Version → Version → Type 0
IsLater b a =
    (a.part0 < b.part0)
    ⊎ (((a.part0 ≡ b.part0) × (a.part1 < b.part1))
        ⊎ ((a.part0 ≡ b.part0) × (a.part1 ≡ b.part1) × (a.part2 < b.part2)))

unfoldable pub IsSameVersion : Version → Version → Type 0
IsSameVersion b a = (a.part0 ≡ b.part0) × (a.part1 ≡ b.part1) × (a.part2 ≡ b.part2)

equal_bytes-≡ : (xs ys : List ℕ) → equal_bytes xs ys ≡ true → xs ≡ ys
unfolding equal_bytes
equal_bytes-≡ [] [] e = refl
equal_bytes-≡ [] (y ∷ ys) e = absurd (cc e)
equal_bytes-≡ (x ∷ xs) [] e = absurd (cc e)
equal_bytes-≡ (x ∷ xs) (y ∷ ys) e =
    let same : x ≡ y = ground (arith, e) in
    let rest : equal_bytes xs ys ≡ true = ground (arith, e) in
    rw same (ap (◌∷◌ y) (equal_bytes-≡ xs ys rest))

-- A package that is not rejected is a later version, or the very same package of the same version.
pub version_upgrade_lem :
    (a b : Version) (old next : List ℕ)
    → version_upgrade a old b next ≢ sf_version_rejected
    → IsLater b a ⊎ (IsSameVersion b a × (old ≡ next))
unfolding version_upgrade compare_versions IsLater IsSameVersion
version_upgrade_lem a b old next ok = elim (Bool-cases (equal_bytes old next)) [
  | inl same ↦
      let bytes : old ≡ next = equal_bytes-≡ old next same in ground (arith, ok, same, bytes)
  | inr other ↦ ground (arith, ok, other)
]

IsLater-trans : (a b c : Version) → IsLater b a → IsLater c b → IsLater c a
unfolding IsLater
IsLater-trans a b c p q = ground (arith, p, q)

IsLater-same : (a b c : Version) → IsLater b a → IsSameVersion c b → IsLater c a
unfolding IsLater IsSameVersion
IsLater-same a b c p q = ground (arith, p, q)

same-IsLater : (a b c : Version) → IsSameVersion b a → IsLater c b → IsLater c a
unfolding IsLater IsSameVersion
same-IsLater a b c p q = ground (arith, p, q)

IsSameVersion-trans : (a b c : Version) → IsSameVersion b a → IsSameVersion c b → IsSameVersion c a
unfolding IsSameVersion
IsSameVersion-trans a b c p q = (p.0 ∙ q.0, p.1 ∙ q.1, p.2 ∙ q.2)

-- After two packages in a row that were not rejected, the last one is a later version than the first,
-- or the very same package of the same version.
pub upgrade_chain :
    (a b c : Version) (old next last : List ℕ)
    → version_upgrade a old b next ≢ sf_version_rejected
    → version_upgrade b next c last ≢ sf_version_rejected
    → IsLater c a ⊎ (IsSameVersion c a × (old ≡ last))
upgrade_chain a b c old next last p q = elim (version_upgrade_lem a b old next p) [
  | inl up ↦ elim (version_upgrade_lem b c next last q) [
    | inl up' ↦ inl (IsLater-trans a b c up up')
    | inr (same, e) ↦ inl (IsLater-same a b c up same)
  ]
  | inr (same, e) ↦ elim (version_upgrade_lem b c next last q) [
    | inl up ↦ inl (same-IsLater a b c same up)
    | inr (same', e') ↦ inr (IsSameVersion-trans a b c same same', e ∙ e')
  ]
]

-- Every later version is accepted as an upgrade, whatever its bytes.
pub version_upgrade_later :
    (a b : Version) (old next : List ℕ) → IsLater b a → version_upgrade a old b next ≡ pos 0
unfolding version_upgrade compare_versions IsLater
version_upgrade_later a b old next l = ground (arith, l)
