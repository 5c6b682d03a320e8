-- ===== src/Services/Txn/Writing/Snapshots.antt =====
-- services/txn.c: the media that a loss of power can leave after the writes of a commit.
use spirit_fox_os.Prelude.{
  ℕ, ◌<◌, ◌≤◌, ◌≡◌, ◌≢◌, sym, ◌∙◌, ap, ◌⊎◌, subst, inl, inr, Bool, true, false, List, length, arith,
  Bool-cases, zeros, ◌==◌,
}
use spirit_fox_os.Services.Txn.Bank.{sector_bytes}
use spirit_fox_os.Services.Txn.Device.{Device, IsDisk, Medium, IsSettled}
use spirit_fox_os.Services.Txn.Mount.{is_ok, record_sector, bank_sector}
use spirit_fox_os.Services.Txn.Commit.{write_flush, write_sectors, write_bank, write_snapshot}
use spirit_fox_os.Services.Txn.Slots.{Holds}
use spirit_fox_os.Services.Txn.Writing.{
  Outside, Kept, flush-Kept, write_sectors-Kept, write_sectors-other, write_sectors-Holds,
  Holds-same, is_ok→≡, OneWritten, FlushedOk, write_flush-OneWritten, write_flush-FlushedOk,
}

module _ (dev : Device) (disk : IsDisk dev) where
  -- A bank that is written and flushed.
  record FilledOk (d : dev.State) (i : ℕ) (ss : List (List ℕ)) (d' : dev.State) : Type 0 where
    settled : IsSettled dev d'
    holds : Holds (dev.stored d') i ss
    other : (k : ℕ) → Outside i (length ss) k → dev.stored d' k ≡ dev.stored d k

  module _ (bank : ℕ) (ss : List (List ℕ)) where
    abbrev base : ℕ
    base = bank_sector bank

    write_bank-Kept :
        (d : dev.State)
        → IsSettled dev d
        → Kept dev disk base (length ss) (dev.stored d) (write_bank dev d bank ss).1
    unfolding write_bank
    write_bank-Kept d settled =
        let w : Kept dev disk base (length ss) (dev.stored d) (write_sectors dev d base ss).1 =
          write_sectors-Kept dev disk base (length ss) (dev.stored d) ss d base (omega arith)
            (omega arith) (λ m after k out. settled m after k) in
        elim (Bool-cases (write_sectors dev d base ss).0) [
          | inl e ↦ rw e (
              flush-Kept dev disk base (length ss) (dev.stored d) (write_sectors dev d base ss).1 w)
          | inr e ↦ rw e w
        ]

    write_bank-FilledOk :
        (d : dev.State)
        → (write_bank dev d bank ss).0 ≡ true
        → FilledOk d base ss (write_bank dev d bank ss).1
    unfolding write_bank
    write_bank-FilledOk d h = elim (Bool-cases (write_sectors dev d base ss).0) [
      | inl e ↦
          let f : is_ok (dev.flush (write_sectors dev d base ss).1).0 ≡ true = rw e at h in
          let filled : FilledOk d base ss (dev.flush (write_sectors dev d base ss).1).1 = record {
            settled = λ m after k.
                disk.flush_settles (write_sectors dev d base ss).1 m k
                  (is_ok→≡ (dev.flush (write_sectors dev d base ss).1).0 f) after;
            holds =
                Holds-same (dev.stored (dev.flush (write_sectors dev d base ss).1).1)
                  (dev.stored (write_sectors dev d base ss).1) base ss
                  (λ k l u. disk.flush_stored (write_sectors dev d base ss).1 k)
                  (write_sectors-Holds dev disk ss d base e);
            other = λ k out.
                disk.flush_stored (write_sectors dev d base ss).1 k
                ∙ write_sectors-other dev disk ss d base k out e;
          } in
          rw e filled
      | inr e ↦ let bad : false ≡ true = rw e at h in absurd (ground (arith, bad))
    ]

    abbrev rec_at : ℕ
    rec_at = record_sector bank

    -- The whole of the snapshot, and nothing else, is new.
    pub record Written (d : dev.State) (s : List ℕ) (m : Medium) : Type 0 where
      pub rec : m rec_at ≡ s
      pub holds : Holds m base ss
      pub other : (k : ℕ) → k ≢ rec_at → Outside base (length ss) k → m k ≡ dev.stored d k

    -- What is left: the old sectors; or a record that says nothing, with anything in its bank; or all of it.
    pub data Left (Off : List ℕ → Type 0) (d : dev.State) (s : List ℕ) (m : Medium) : Type 0 where
      untouched : ((k : ℕ) → m k ≡ dev.stored d k) → Left Off d s m
      erased :
          Off (m rec_at)
          → ((k : ℕ) → k ≢ rec_at → Outside base (length ss) k → m k ≡ dev.stored d k)
          → Left Off d s m
      written : Written d s m → Left Off d s m

    -- The record stands before the banks.
    rec-Outside : (n : ℕ) → bank < 2 → Outside base n rec_at
    unfolding Outside
    rec-Outside n h = inl (omega (arith, h))

    rec_ne : (k : ℕ) → bank < 2 → base ≤ k → k ≢ rec_at
    rec_ne k h l e = absurd (omega (arith, h, l, e))

    module _ (a_bank : bank < 2) (d : dev.State) (s : List ℕ) (settled : IsSettled dev d) where
      abbrev one : dev.State
      one = (write_flush dev d rec_at (zeros sector_bytes)).1

      abbrev two : dev.State
      two = (write_bank dev one bank ss).1

      -- Records that say nothing: zeros, and what is torn on the way to zeros or from them.
      module _ (Off : List ℕ → Type 0) (off_zeros : Off (zeros sector_bytes))
          (torn_erase : (x : List ℕ)
            → dev.Torn (dev.stored d rec_at) (zeros sector_bytes) x
            → (x ≡ dev.stored d rec_at) ⊎ Off x)
          (torn_record : (x : List ℕ) → dev.Torn (zeros sector_bytes) s x → (x ≡ s) ⊎ Off x) where
        untouched_rec :
            (m : Medium)
            → m rec_at ≡ dev.stored d rec_at
            → ((k : ℕ) → k ≢ rec_at → m k ≡ dev.stored d k)
            → Left Off d s m
        untouched_rec m e h = untouched (λ k. elim (Bool-cases (k == rec_at)) [
          | inl b ↦ let p : k ≡ rec_at = ground (arith, b) in ap m p ∙ e ∙ ap (dev.stored d) (sym p)
          | inr b ↦ h k (λ p. absurd (ground (arith, b, p)))
        ])

        Left-one :
            (m : Medium) → OneWritten dev disk d rec_at (zeros sector_bytes) m → Left Off d s m
        Left-one m h = elim h.self [
          | inl e ↦ untouched_rec m e h.other
          | inr (inl e) ↦ erased (subst Off (sym e) off_zeros) (λ k ne out. h.other k ne)
          | inr (inr torn) ↦ elim (torn_erase (m rec_at) torn) [
            | inl e ↦ untouched_rec m e h.other
            | inr off ↦ erased off (λ k ne out. h.other k ne)
          ]
        ]

        Left-two :
            (m : Medium)
            → FlushedOk dev disk d rec_at (zeros sector_bytes) one
            → dev.After two m
            → Left Off d s m
        Left-two m f after =
            let kept = write_bank-Kept one f.settled m after in
            erased
              (subst Off (sym (kept rec_at (rec-Outside (length ss) a_bank) ∙ f.self)) off_zeros)
              (λ k ne out. kept k out ∙ f.other k ne)

        Left-three :
            (m : Medium)
            → FlushedOk dev disk d rec_at (zeros sector_bytes) one
            → FilledOk one base ss two
            → OneWritten dev disk two rec_at s m
            → Left Off d s m
        Left-three m f g h = elim h.self [
          | inl e ↦ erased (subst Off (sym (e ∙ cleared)) off_zeros) others
          | inr (inl e) ↦ whole e
          | inr (inr torn) ↦
              elim (torn_record (m rec_at) (subst (λ x. dev.Torn x s (m rec_at)) cleared torn)) [
                | inl e ↦ whole e
                | inr off ↦ erased off others
              ]
        ]
          where
            cleared : dev.stored two rec_at ≡ zeros sector_bytes
            cleared = g.other rec_at (rec-Outside (length ss) a_bank) ∙ f.self

            others : (k : ℕ) → k ≢ rec_at → Outside base (length ss) k → m k ≡ dev.stored d k
            others k ne out = h.other k ne ∙ g.other k out ∙ f.other k ne

            whole : m rec_at ≡ s → Left Off d s m
            whole e = written (record {
              rec = e;
              holds =
                  Holds-same m (dev.stored two) base ss (λ k l u. h.other k (rec_ne k a_bank l))
                    g.holds;
              other = others;
            })

        -- Whichever call fails, and wherever power is lost.
        pub write_snapshot-Left :
            (m : Medium) → dev.After (write_snapshot dev d bank ss s).1 m → Left Off d s m
        unfolding write_snapshot
        write_snapshot-Left m after =
            elim (Bool-cases (write_flush dev d rec_at (zeros sector_bytes)).0) [
              | inr e ↦ Left-one m (
                  write_flush-OneWritten dev disk d rec_at (zeros sector_bytes) m settled
                    (rw e at after))
              | inl e ↦
                  let f : FlushedOk dev disk d rec_at (zeros sector_bytes) one =
                    write_flush-FlushedOk dev disk d rec_at (zeros sector_bytes) e in
                  elim (Bool-cases (write_bank dev one bank ss).0) [
                    | inr e' ↦ Left-two m f (rw (e, e') at after)
                    | inl e' ↦
                        let g : FilledOk one base ss two = write_bank-FilledOk one e' in
                        Left-three m f g (
                          write_flush-OneWritten dev disk two rec_at s m g.settled
                            (rw (e, e') at after))
                  ]
            ]

      abbrev three : Bool × dev.State
      three = write_flush dev two rec_at s

      -- When all succeed: nothing is pending, and the snapshot is stored.
      pub write_snapshot-Written :
          (write_snapshot dev d bank ss s).0 ≡ true
          → IsSettled dev (write_snapshot dev d bank ss s).1
            × Written d s (dev.stored (write_snapshot dev d bank ss s).1)
      unfolding write_snapshot
      write_snapshot-Written h =
          elim (Bool-cases (write_flush dev d rec_at (zeros sector_bytes)).0) [
            | inr e ↦ let bad : false ≡ true = rw e at h in absurd (ground (arith, bad))
            | inl e ↦ elim (Bool-cases (write_bank dev one bank ss).0) [
              | inr e' ↦ let bad : false ≡ true = rw (e, e') at h in absurd (ground (arith, bad))
              | inl e' ↦
                  let f : FlushedOk dev disk d rec_at (zeros sector_bytes) one =
                    write_flush-FlushedOk dev disk d rec_at (zeros sector_bytes) e in
                  let g : FilledOk one base ss two = write_bank-FilledOk one e' in
                  let last : three.0 ≡ true = rw (e, e') at h in
                  let r : FlushedOk dev disk two rec_at s three.1 =
                    write_flush-FlushedOk dev disk two rec_at s last in
                  let result : Written d s (dev.stored three.1) = record {
                    rec = r.self;
                    holds =
                        Holds-same (dev.stored three.1) (dev.stored two) base ss
                          (λ k l u. r.other k (rec_ne k a_bank l)) g.holds;
                    other = λ k ne out. r.other k ne ∙ g.other k out ∙ f.other k ne;
                  } in
                  rw (e, e') (r.settled, result)
            ]
          ]
