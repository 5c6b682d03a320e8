-- ===== src/Services/Txn/Tests.antt =====
-- services/txn.c: a disk with a cache, a snapshot on it, and runs of the operations.
use spirit_fox_os.Services.Txn.Decoding.Encoded.{decode_bank-encode_bank}
use spirit_fox_os.Services.Txn.Files.{
  ResizedOk, contents, resize-ResizedOk, updates, commit-updates,
}
use spirit_fox_os.Services.Txn.Crash.{IsHome, OldOrNew, next_files, commit-OldOrNew, commit-IsHome}
use spirit_fox_os.Services.Txn.Recovery.{SnapshotOk, mount-SnapshotOk}
use spirit_fox_os.Services.Txn.Runs.{Finds, commits, commits-Finds, acked, in_doubt}
use spirit_fox_os.Services.Txn.Slots.Records.{check_slot-commit_record}
use spirit_fox_os.Services.Txn.Slots.{Holds, reading, check_slot-IsOff, zeros-IsOff}
use spirit_fox_os.Services.Txn.Commit.{
  write_bank, commit_record, sectors, resize, commit, advanced, commit_ready, write_next,
  apply_changes, place, write_snapshot, write_flush, write_bank, write_sectors,
}
use spirit_fox_os.Services.Txn.Table.{IsTable, Entries}
use spirit_fox_os.Prelude.{
  ℕ, suc, ◌-◌, ◌≡◌, ◌≢◌, refl, sym, ◌∙◌, ap, ◌⊎◌, inl, inr, true, false, if◌then◌else◌, ◌==◌, List,
  [], ◌∷◌, ◌++◌, length, arith, Bool-cases, sf_ok, ℤ, zeros, le_bytes, length-zeros, slice, take,
  drop, take-append-drop, zeros-suc, le_value, get_or, ◌≤◌, some,
}
use spirit_fox_os.Services.Txn.Paths.{path_ok}
use spirit_fox_os.Services.Txn.Bank.{
  TxnFile, encode_bank, bank_sectors, any_path, decode_bank, txn_files, data_start,
}
use spirit_fox_os.Services.Txn.Device.{Device, IsDisk, Medium, DetectsTears}
use spirit_fox_os.Services.Txn.Tears.{PrefixTorn, prefix-DetectsTears}
use spirit_fox_os.Services.Txn.Mount.{
  Txn, header_magic, header_ok, sealed, find_file, mount, check_slot, consider_slot, choose, found,
  skipped,
}

-- Writes go to the cache; a flush copies it; without one, each sector keeps one of the two, or is torn
-- between them.
record Cached : Type 0 where
  media : Medium
  cache : Medium

abbrev put : Medium → ℕ → List ℕ → Medium
put v i s k = if k == i then s else v k

abbrev cached_disk : Device
cached_disk = record {
  State = Cached;
  read = λ d i. (sf_ok, d.cache i);
  write = λ d i s. (sf_ok, record d { cache = put d.cache i s });
  flush = λ d. (sf_ok, record { media = d.cache; cache = d.cache });
  stored = λ d. d.cache;
  After = λ d m.
      (k : ℕ) → (m k ≡ d.media k) ⊎ ((m k ≡ d.cache k) ⊎ PrefixTorn (d.media k) (d.cache k) (m k));
  Torn = PrefixTorn;
}

put_self : (v : Medium) (i : ℕ) (s : List ℕ) → put v i s i ≡ s
put_self v i s = let e : (i == i) ≡ true = ground arith in rw e refl

put-other : (v : Medium) (i k : ℕ) (s : List ℕ) → k ≢ i → put v i s k ≡ v k
put-other v i k s ne = elim (Bool-cases (k == i)) [
  | inl e ↦ absurd (ne (ground (arith, e)))
  | inr e ↦ rw e refl
]

same_either : (c x : List ℕ) → (x ≡ c) ⊎ ((x ≡ c) ⊎ PrefixTorn c c x) → x ≡ c
same_either c x (inl e) = e
same_either c x (inr (inl e)) = e
same_either c x (inr (inr (n, e))) = e ∙ take-append-drop n c

cached_disk-IsDisk : IsDisk cached_disk
cached_disk-IsDisk = record {
  read_lem = λ d i e. refl;
  write_self = λ d i s e. put_self d.cache i s;
  write_other = λ d i k s ne. put-other d.cache i k s ne;
  write_after = λ d i s m after. (
    put m i (d.media i),
    λ k. elim (Bool-cases (k == i)) [
      | inl e ↦ let same : k ≡ i = ground (arith, e) in inl (rw e (ap d.media (sym same)))
      | inr e ↦ rw e (elim (after k) [
        | inl a ↦ inl a
        | inr (inl a) ↦ inr (inl (rw e at a))
        | inr (inr a) ↦ inr (inr (rw e at a))
      ])
    ],
    λ k ne. sym (put-other m i k (d.media i) ne),
    elim (after i) [
      | inl a ↦ inl (a ∙ sym (put_self m i (d.media i)))
      | inr (inl a) ↦ inr (inl (a ∙ put_self d.cache i s))
      | inr (inr (n, a)) ↦ inr (
          inr (
            n,
            a
                ∙ ap (λ x. take n x ++ drop n (d.media i)) (put_self d.cache i s)
                ∙ ap (λ x. take n s ++ drop n x) (sym (put_self m i (d.media i))),
          ))
    ],
  );
  flush_stored = λ d k. refl;
  flush_after = λ d m after k. inr (inl (same_either (d.cache k) (m k) (after k)));
  flush_settles = λ d m k e after. same_either (d.cache k) (m k) (after k);
}

-- A hash of 32 bytes, which are not all zero.
abbrev no_hash : List ℕ → List ℕ
no_hash b = 1 ∷ zeros 31

no_hash-nonzero : (b : List ℕ) → no_hash b ≢ zeros 32
no_hash-nonzero b e = absurd (omega (arith, ap (λ x. get_or x 0 5) (e ∙ zeros-suc 31)))

abbrev header : List ℕ
header =
    header_magic
    ++ (le_bytes 4 1 ++ (le_bytes 4 4096 ++ (zeros 16 ++ (zeros 448 ++ (1 ∷ zeros 31)))))

header-ok : header_ok no_hash header ≡ true
unfolding header_ok sealed slice zeros le_bytes le_value
header-ok = refl

abbrev before : Txn
before = record { generation = 0; bank = 0; ready = false; volume = zeros 16; files = [] }

abbrev empty_bank : List ℕ
empty_bank = encode_bank no_hash 1 []

-- A formatted device: generation 1 of no files in slot 0.
abbrev formatted : Medium
formatted k =
    if k == 2048
    then header
    else (if k == 2049
        then commit_record no_hash 1 0 (zeros 16) (no_hash empty_bank)
        else (if k == 2050
            then zeros 512
            else get_or (sectors bank_sectors empty_bank) (k - 2051) []))

abbrev at_home : Txn
at_home = record { generation = 1; bank = 0; ready = true; volume = zeros 16; files = [] }

get_or-Holds :
    (ss : List (List ℕ)) (m : Medium) (i : ℕ)
    → ((k : ℕ) → i ≤ k → m k ≡ get_or ss (k - i) [])
    → Holds m i ss
get_or-Holds [] m i h = tt
get_or-Holds (s ∷ ss) m i h =
    let none_before : i - i ≡ 0 = omega arith in
    (
      h i (omega arith) ∙ ap (λ n. get_or (s ∷ ss) n []) none_before,
      get_or-Holds ss m (suc i) (λ k l.
          let step : k - i ≡ suc (k - suc i) = omega (arith, l) in
          h k (omega (arith, l)) ∙ ap (λ n. get_or (s ∷ ss) n []) step),
    )

bank-Holds : Holds formatted 2051 (sectors bank_sectors empty_bank)
bank-Holds = get_or-Holds (sectors bank_sectors empty_bank) formatted 2051 (λ k l.
    let a : (k == 2048) ≡ false = ground (arith, l) in
    let b : (k == 2049) ≡ false = ground (arith, l) in
    let c : (k == 2050) ≡ false = ground (arith, l) in rw (a, b, c) refl)

no_hash_length : (b : List ℕ) → length (no_hash b) ≡ 32
no_hash_length b = ap suc (length-zeros 31)

cached_disk-DetectsTears : DetectsTears no_hash cached_disk
cached_disk-DetectsTears =
    prefix-DetectsTears no_hash no_hash_length no_hash-nonzero cached_disk (λ old new x torn. torn)

no_files-IsTable : IsTable []
no_files-IsTable = record { entries = unfold Entries in tt; count_le = omega arith }

slot_0 : check_slot no_hash (reading formatted) (zeros 16) 0 ≡ found 1 []
slot_0 =
    check_slot-commit_record no_hash no_hash_length formatted before [] 0 (omega arith)
      (omega arith) (length-zeros 16) no_files-IsTable refl bank-Holds

slot_1 : check_slot no_hash (reading formatted) (zeros 16) 1 ≡ skipped
slot_1 = check_slot-IsOff no_hash formatted (zeros 16) 1 (zeros-IsOff no_hash)

volume_slice : slice 16 16 header ≡ zeros 16
unfolding slice zeros le_bytes
volume_slice = refl

mounted : mount no_hash before (reading formatted) ≡ (sf_ok, at_home)
unfolding mount consider_slot choose
mounted = rw (header-ok, volume_slice, slot_0, slot_1) refl

header-length : length header ≡ 512
unfolding zeros le_bytes
header-length = refl

abbrev formatted_disk : Cached
formatted_disk = record { media = formatted; cache = formatted }

formatted_disk-IsHome : IsHome no_hash cached_disk before formatted_disk at_home
formatted_disk-IsHome = record {
  settled = λ m after k. same_either (formatted k) (m k) (after k);
  header_length = header-length;
  mounted = mounted;
  generation_lt = omega arith;
}

-- "/a" with two bytes
abbrev file_a : TxnFile
file_a = record { path = 47 ∷ 97 ∷ []; content = 7 ∷ 8 ∷ [] }

abbrev path_b : List ℕ
path_b = 47 ∷ 98 ∷ []

abbrev committed : ℤ × (Txn × Cached)
committed = commit cached_disk no_hash at_home formatted_disk (file_a ∷ [])

paths_ok : (path_ok (47 ∷ 97 ∷ []) ≡ true) × (path_ok (47 ∷ 46 ∷ 46 ∷ []) ≡ false)
unfolding path_ok
paths_ok = (refl, refl)

-- What the cache holds after the commit is one of the media that a loss of power can leave.
commit-OldOrNew_example :
    OldOrNew no_hash no_hash_length cached_disk cached_disk-IsDisk before at_home
      (advanced at_home (
        next_files no_hash no_hash_length cached_disk cached_disk-IsDisk before at_home
          (file_a ∷ [])))
      committed.1.1.cache
commit-OldOrNew_example =
    commit-OldOrNew no_hash no_hash_length cached_disk cached_disk-IsDisk before formatted_disk
      at_home formatted_disk-IsHome cached_disk-DetectsTears (file_a ∷ []) committed.1.1.cache
      (λ k. inr (inl refl))

file_a-EntryOk : Entries [] (file_a ∷ [])
unfolding Entries any_path path_ok
file_a-EntryOk = (record { allowed = refl; fits = omega arith; fresh = refl }, tt)

file_a-IsTable : IsTable (file_a ∷ [])
file_a-IsTable = record { entries = file_a-EntryOk; count_le = omega arith }

decode_bank-encode_bank_example :
    decode_bank no_hash (encode_bank no_hash 2 (file_a ∷ [])) 2 txn_files data_start
    ≡ some (file_a ∷ [])
decode_bank-encode_bank_example =
    decode_bank-encode_bank no_hash no_hash_length 2 (file_a ∷ []) file_a-IsTable (omega arith)

mount-SnapshotOk_example : SnapshotOk no_hash formatted at_home
mount-SnapshotOk_example = mount-SnapshotOk no_hash before formatted at_home mounted

-- Two commits, the second of them refused: its path is not allowed.
abbrev two_commits : List (List TxnFile)
two_commits = (file_a ∷ []) ∷ (record { path = []; content = [] } ∷ []) ∷ []

abbrev after_commits : Cached
after_commits = (commits cached_disk no_hash at_home formatted_disk two_commits).1

commits-Finds_example :
    Finds no_hash no_hash_length cached_disk cached_disk-IsDisk before
      (contents at_home)
      (acked cached_disk no_hash at_home formatted_disk two_commits)
      (in_doubt cached_disk no_hash at_home formatted_disk two_commits)
      after_commits.cache
commits-Finds_example =
    commits-Finds no_hash no_hash_length cached_disk cached_disk-IsDisk before
      cached_disk-DetectsTears two_commits at_home formatted_disk formatted_disk-IsHome
      after_commits.cache (λ k. inr (inl refl))

committed-ok : committed.0 ≡ sf_ok
unfolding commit commit_ready write_next apply_changes place path_ok any_path write_snapshot
    write_flush write_bank write_sectors sectors
committed-ok = refl

commit-IsHome_example :
    (committed.1.0
      ≡ advanced at_home (
          next_files no_hash no_hash_length cached_disk cached_disk-IsDisk before at_home
            (file_a ∷ [])))
    × IsHome no_hash cached_disk before committed.1.1 committed.1.0
commit-IsHome_example =
    commit-IsHome no_hash no_hash_length cached_disk cached_disk-IsDisk before formatted_disk
      at_home formatted_disk-IsHome (file_a ∷ []) committed-ok

commit-updates_example :
    contents committed.1.0 path_b ≡ updates (contents at_home) (file_a ∷ []) path_b
commit-updates_example =
    commit-updates cached_disk no_hash at_home formatted_disk (file_a ∷ []) committed-ok path_b refl

-- A file that is not there gets three bytes.
abbrev grown : ℤ × (Txn × Cached)
grown = resize cached_disk no_hash at_home formatted_disk path_b 3

grown-ok : grown.0 ≡ sf_ok
unfolding resize path_ok find_file commit commit_ready write_next apply_changes place any_path
    write_snapshot write_flush write_bank write_sectors sectors zeros
grown-ok = refl

resize-ResizedOk_example : ResizedOk cached_disk no_hash at_home path_b 3 grown.1.0
resize-ResizedOk_example =
    resize-ResizedOk cached_disk no_hash at_home formatted_disk path_b 3 grown-ok
