-- ===== src/Services/Txn/Device.antt =====
-- services/txn.c: the device behind the callbacks that sf_txn_mount is given, and what losing power
-- may do to it. The callbacks belong to the client, so they are a record of operations and laws.
use spirit_fox_os.Prelude.{ℕ, ◌≡◌, ◌≢◌, ◌⊎◌, ℤ, sf_ok, List, ◌++◌, length, slice, zeros}
use spirit_fox_os.Services.Txn.Bank.{sector_bytes}
use spirit_fox_os.Services.Txn.Mount.{commit_magic}

-- What the sectors of a device hold.
abbrev pub Medium : Type 0
Medium = ℕ → List ℕ

-- SfTxnRead, SfTxnWrite and SfTxnFlush: a code, and the device after the call.
pub record Device : Type 1 where
  pub State : Type 0
  pub read : State → ℕ → ℤ × List ℕ
  pub write : State → ℕ → List ℕ → ℤ × State
  pub flush : State → ℤ × State
  -- The medium with all writes done, and the media that a loss of power can leave.
  pub stored : State → Medium
  pub After : State → Medium → Type 0
  -- What may be found of a sector whose write was cut off: old bytes, new bytes, found bytes.
  pub Torn : List ℕ → List ℕ → List ℕ → Type 0

-- A device that writes in any order until a flush succeeds. A call that fails, or that no flush
-- follows, may have had none of its effect, all of it, or have torn its sector.
pub record IsDisk (dev : Device) : Type 0 where
  pub read_lem :
      (d : dev.State) (i : ℕ) → (dev.read d i).0 ≡ sf_ok → (dev.read d i).1 ≡ dev.stored d i
  pub write_self :
      (d : dev.State) (i : ℕ) (s : List ℕ)
      → (dev.write d i s).0 ≡ sf_ok
      → dev.stored (dev.write d i s).1 i ≡ s
  pub write_other :
      (d : dev.State) (i k : ℕ) (s : List ℕ)
      → k ≢ i
      → dev.stored (dev.write d i s).1 k ≡ dev.stored d k
  pub write_after :
      (d : dev.State) (i : ℕ) (s : List ℕ) (m : Medium)
      → dev.After (dev.write d i s).1 m
      → (m' : Medium) × dev.After d m'
        × ((k : ℕ) → k ≢ i → m k ≡ m' k)
        × ((m i ≡ m' i) ⊎ ((m i ≡ s) ⊎ dev.Torn (m' i) s (m i)))
  pub flush_stored : (d : dev.State) (k : ℕ) → dev.stored (dev.flush d).1 k ≡ dev.stored d k
  pub flush_after : (d : dev.State) (m : Medium) → dev.After (dev.flush d).1 m → dev.After d m
  pub flush_settles :
      (d : dev.State) (m : Medium) (k : ℕ)
      → (dev.flush d).0 ≡ sf_ok
      → dev.After (dev.flush d).1 m
      → m k ≡ dev.stored (dev.flush d).1 k

-- No write is pending: a loss of power leaves what the device stores.
abbrev pub IsSettled : (dev : Device) → dev.State → Type 0
IsSettled dev d = (m : Medium) → dev.After d m → (k : ℕ) → m k ≡ dev.stored d k

-- Bytes that look like a commit record: the magic, and a seal that is the hash of the rest.
abbrev pub LooksSealed : (List ℕ → List ℕ) → List ℕ → Type 0
LooksSealed hash x = (slice 0 8 x ≡ commit_magic) × (hash (slice 0 480 x) ≡ slice 480 32 x)

-- The hash tells a record that is torn, while it is erased or while it is written over zeros, from a whole
-- one: the mixture passes the seal only when it happens to be the record itself.
pub record DetectsTears (hash : List ℕ → List ℕ) (dev : Device) : Type 0 where
  pub erase_lem :
      (old x : List ℕ) → dev.Torn old (zeros sector_bytes) x → LooksSealed hash x → x ≡ old
  pub record_lem :
      (body x : List ℕ)
      → length body ≡ 480
      → dev.Torn (zeros sector_bytes) (body ++ hash body) x
      → LooksSealed hash x
      → x ≡ body ++ hash body
