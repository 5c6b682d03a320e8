-- ===== src/Services/Update.antt =====
-- services/update.c: the record that says which of two slots holds the application that works, and
-- which one holds the update on trial. A failure code leaves the record as it was.
pub mod Valid
pub mod Trial
pub mod Codec
mod Tests
use spirit_fox_os.Prelude.{
  ℕ, zero, suc, ◌+◌, ◌-◌, Bool, true, false, ltb, leb, ◌==◌, not, ◌&&◌, ◌||◌, if◌then◌else◌, ℤ,
  sf_ok, sf_invalid, sf_bad_format, sf_busy, List, [], ◌∷◌, ◌++◌, length, take, drop, replicate,
  get_or, Option, none, some, negsuc, same_bytes, is_zero,
}

abbrev pub stable : ℕ
stable = 0

abbrev pub pending : ℕ
pending = 1

abbrev pub trying : ℕ
trying = 2

-- 'a' and 'b'; the slot 0 is no slot.
abbrev pub slot_a : ℕ
slot_a = 97

abbrev pub slot_b : ℕ
slot_b = 98

-- Arrays of bytes: the hashes have 32 and the application's name has 64.
pub record Update : Type 0 where
  pub phase : ℕ
  pub good : ℕ
  pub candidate : ℕ
  pub good_hash : List ℕ
  pub candidate_hash : List ℕ
  pub app_id : List ℕ

abbrev pub slot : ℕ → Bool
slot s = s == slot_a || (s == slot_b)

abbrev pub is_id_char : ℕ → Bool
is_id_char c =
    (leb 97 c && leb c 122)
    || ((leb 65 c && leb c 90) || ((leb 48 c && leb c 57) || (c == 46 || (c == 45 || (c == 95)))))

-- The loop of `identity`: the length of the name, unless it has a byte that is not allowed.
unfoldable pub name_length : List ℕ → Option ℕ
name_length [] = some 0
name_length (c ∷ cs) =
    let rest = name_length cs in
    if c == 0
    then some 0
    else (if is_id_char c then elim rest [ none ↦ none | some n ↦ some (suc n) ] else none)

unfoldable pub identity : List ℕ → Bool
identity s = elim (name_length s) [
  | none ↦ false
  | some n ↦ not (n == 0) && (ltb n 64 && is_zero (drop n s))
]

abbrev pub agrees : Bool → Bool → Bool
agrees true b = b
agrees false b = not b

abbrev pub valid_slots : Update → Bool
valid_slots s =
    leb s.phase trying
    && ((slot s.good || (s.good == 0)) && (slot s.candidate || (s.candidate == 0)))

abbrev pub valid_hashes : Update → Bool
valid_hashes s =
    agrees (s.good == 0) (is_zero s.good_hash)
    && agrees (s.candidate == 0) (is_zero s.candidate_hash)

abbrev pub valid_phase : Update → Bool
valid_phase s =
    if s.phase == stable
    then s.candidate == 0
    else not (s.candidate == 0) && not (s.candidate == s.good)

abbrev pub valid_id : Update → Bool
valid_id s =
    if not (s.good == 0) || not (s.candidate == 0) then identity s.app_id else is_zero s.app_id

unfoldable pub valid : Update → Bool
valid s = valid_slots s && (valid_hashes s && (valid_phase s && valid_id s))

abbrev pub sf_dependency : ℤ
sf_dependency = negsuc 5

-- strcmp(a, b) == 0, for arrays that end in a zero byte.
abbrev pub same_name : List ℕ → List ℕ → Bool
same_name (x ∷ xs) (y ∷ ys) = if x == y then (if x == 0 then true else same_name xs ys) else false
same_name xs ys = true

-- char name[64] = {0}, with the bytes of a shorter string in front
abbrev pub padded : List ℕ → List ℕ
padded id = id ++ replicate (64 - length id) 0

abbrev pub other_slot : ℕ → ℕ
other_slot s = if s == slot_a then slot_b else slot_a

abbrev pub staged : Update → List ℕ → List ℕ → Update
staged s name hash = record s {
  app_id = name;
  candidate = other_slot s.good;
  candidate_hash = hash;
  phase = pending;
}

-- `id` has the bytes of the string before its zero byte.
unfoldable pub stage : Update → List ℕ → List ℕ → Update × ℤ
stage s id hash =
    if not (valid s)
    then (s, sf_bad_format)
    else (if not (s.phase == stable)
        then (s, sf_busy)
        else (if leb 64 (length id)
            then (s, sf_bad_format)
            else (if not (identity (padded id)) || is_zero hash
                then (s, sf_bad_format)
                else (if not (s.good == 0) && not (same_name s.app_id (padded id))
                    then (s, sf_dependency)
                    else (staged s (padded id) hash, sf_ok)))))

unfoldable pub begin : Update → Update × ℤ
begin s =
    if not (valid s)
    then (s, sf_bad_format)
    else (if not (s.phase == pending)
        then (s, sf_invalid)
        else (record s { phase = trying }, sf_ok))

abbrev pub promoted : Update → Update
promoted s = record s { good = s.candidate; good_hash = s.candidate_hash }

-- The trial is over; without a slot that works there is no application.
abbrev pub settled : Update → Update
settled s = record s {
  phase = stable;
  candidate = 0;
  candidate_hash = replicate 32 0;
  app_id = if s.good == 0 then replicate 64 0 else s.app_id;
}

unfoldable pub finish : Update → Bool → Update × ℤ
finish s success =
    if not (valid s)
    then (s, sf_bad_format)
    else (if not (s.phase == trying)
        then (s, sf_invalid)
        else (settled (if success then promoted s else s), sf_ok))

-- "SFUPD1\0\0"
abbrev pub magic : List ℕ
magic = 83 ∷ 70 ∷ 85 ∷ 80 ∷ 68 ∷ 49 ∷ 0 ∷ 0 ∷ []

abbrev pub update_bytes : ℕ
update_bytes = 160

-- The fields at their offsets: the zero bytes are what memset leaves between them.
unfoldable pub encode : Update → Option (List ℕ)
encode s =
    if not (valid s)
    then none
    else some (
        magic
        ++ (s.phase
            ∷ s.good
            ∷ s.candidate
            ∷ (replicate 21 0 ++ (s.good_hash ++ (s.candidate_hash ++ s.app_id)))))

abbrev pub parsed : List ℕ → Update
parsed b = record {
  phase = get_or b 8 0;
  good = get_or b 9 0;
  candidate = get_or b 10 0;
  good_hash = take 32 (drop 32 b);
  candidate_hash = take 32 (drop 64 b);
  app_id = take 64 (drop 96 b);
}

unfoldable pub decode : List ℕ → Option Update
decode b =
    if not (length b == update_bytes)
    then none
    else (if not (same_bytes (take 8 b) magic) || not (is_zero (take 21 (drop 11 b)))
        then none
        else (if not (valid (parsed b)) then none else some (parsed b)))
