-- ===== src/Recovered/Net/Arp/Cache.antt =====
-- What the cache of recovered/net/src/arp.c answers.
use spirit_fox_os.Prelude.{
  ℕ, zero, suc, ◌+◌, ◌^◌, ◌<◌, ◌≡◌, refl, ap, ◌∙◌, true, false, List, [], ◌∷◌, length, get_or, set,
  some, none, arith, Bool-cases, Option-cases, inl, inr, find_from, find_index?, find_index?-get_or,
  get_or-set_self,
}
use spirit_fox_os.Recovered.Net.Arp.{
  ArpEntry, no_entry, is_for, is_stale, is_live, fresh_entry, victim, arp_cache_insert,
  arp_cache_lookup,
}

-- No entry before the index has the address.
abbrev NoneBefore : ℕ → ℕ → List ArpEntry → Type 0
NoneBefore ip i cache = (j : ℕ) → j < i → is_for ip (get_or cache j no_entry) ≡ false

by_index :
    (ip : ℕ) (x : ArpEntry) (cache : List ArpEntry) (n : ℕ)
    → is_for ip x ≡ false
    → ((j : ℕ) → suc j < n → is_for ip (get_or cache j no_entry) ≡ false)
    → (j : ℕ) → j < n
    → is_for ip (get_or (x ∷ cache) j no_entry) ≡ false
by_index ip x cache n first others zero lt = first
by_index ip x cache n first others (suc j) lt = others j lt

find_from-NoneBefore :
    (ip k i : ℕ) (cache : List ArpEntry)
    → find_from (is_for ip) k cache ≡ some (k + i)
    → NoneBefore ip i cache
find_from-NoneBefore ip k i [] e j lt = absurd (cc e)
find_from-NoneBefore ip k zero (x ∷ cache) e j lt = absurd (omega arith)
find_from-NoneBefore ip k (suc i) (x ∷ cache) e j lt = elim (Bool-cases (is_for ip x)) [
  | inl hit ↦ let q : k ≡ k + suc i = cc (rw hit at e) in absurd (omega (arith, q))
  | inr miss ↦
      by_index ip x cache (suc i) miss
        (λ j' l.
          find_from-NoneBefore ip (suc k) i cache (rw miss at e ∙ ap some (omega arith)) j'
            (omega (arith, l)))
        j lt
]

find_from-none :
    (ip k : ℕ) (cache : List ArpEntry)
    → find_from (is_for ip) k cache ≡ none
    → (j : ℕ) → j < length cache
    → is_for ip (get_or cache j no_entry) ≡ false
find_from-none ip k [] e j lt = absurd (omega arith)
find_from-none ip k (x ∷ cache) e j lt = elim (Bool-cases (is_for ip x)) [
  | inl hit ↦ absurd (cc (rw hit at e))
  | inr miss ↦
      by_index ip x cache (suc (length cache)) miss
        (λ j' l. find_from-none ip (suc k) cache (rw miss at e) j' (omega (arith, l))) j lt
]

-- The first live entry of the address is the one that was written.
find_from-set :
    (now ip k i : ℕ) (v : ArpEntry) (cache : List ArpEntry)
    → i < length cache
    → NoneBefore ip i cache
    → is_live now ip v ≡ true
    → find_from (is_live now ip) k (set cache i v) ≡ some (k + i)
find_from-set now ip k i v [] lt before live = absurd (omega arith)
find_from-set now ip k zero v (x ∷ cache) lt before live = rw live (ap some (omega arith))
find_from-set now ip k (suc i) v (x ∷ cache) lt before live =
    let skip : is_live now ip x ≡ false = rw (before 0 (omega arith)) refl in
    let rest =
      find_from-set now ip (suc k) i v cache (omega arith) (λ j l. before (suc j) (omega arith))
        live in
    rw skip (rest ∙ ap some (omega arith))

-- Where an address is written, it stands in no entry before, and it is within the cache.
victim-NoneBefore :
    (now ip : ℕ) (cache : List ArpEntry)
    → 0 < length cache
    → (victim now ip cache < length cache) × NoneBefore ip (victim now ip cache) cache
unfolding victim
victim-NoneBefore now ip cache some_entry = elim (Option-cases (find_index? (is_for ip) cache)) [
  | inr (i, e) ↦
      let (lt, hit) = find_index?-get_or (is_for ip) i cache no_entry e in
      rw (victim, e) (lt, find_from-NoneBefore ip 0 i cache (e ∙ ap some (omega arith)))
  | inl absent ↦
      let nowhere : (j : ℕ) → j < length cache → is_for ip (get_or cache j no_entry) ≡ false =
        find_from-none ip 0 cache absent in
      elim (Option-cases (find_index? (is_stale now) cache)) [
        | inr (i, e) ↦
            let (lt, hit) = find_index?-get_or (is_stale now) i cache no_entry e in
            rw (victim, absent, e) (lt, λ j l. nowhere j (omega (arith, lt, l)))
        | inl full ↦ rw (victim, absent, full) (some_entry, λ j l. absurd (omega (arith, l)))
      ]
]

-- An address that was inserted is found with its hardware address for the next minute; the clock does not
-- wrap in it.
pub arp_cache_lookup-arp_cache_insert :
    (now later ip : ℕ) (mac : List ℕ) (cache : List ArpEntry)
    → 0 < length cache
    → now + 60000 < 2 ^ 64
    → later < now + 60000
    → arp_cache_lookup later ip (arp_cache_insert now ip mac cache) ≡ some mac
unfolding arp_cache_insert arp_cache_lookup
arp_cache_lookup-arp_cache_insert now later ip mac cache some_entry far soon =
    let (lt, before) = victim-NoneBefore now ip cache some_entry in
    let live : is_live later ip (fresh_entry now ip mac) ≡ true = ground (arith, far, soon) in
    let found : find_index? (is_live later ip)
          (set cache (victim now ip cache) (fresh_entry now ip mac))
        ≡ some (victim now ip cache) =
      find_from-set later ip 0 (victim now ip cache) (fresh_entry now ip mac) cache lt before live
      ∙ ap some (omega arith) in
    let entry = get_or-set_self cache (victim now ip cache) (fresh_entry now ip mac) no_entry lt in
    rw (arp_cache_lookup, found) (ap (λ (e : ArpEntry). some e.mac) entry)
