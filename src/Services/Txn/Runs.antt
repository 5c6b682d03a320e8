-- ===== src/Services/Txn/Runs.antt =====
-- services/txn.c: a client that commits again and again, until the device fails it or power is lost.
use mathlib.Core.List.{append_assoc, append-nil}
use spirit_fox_os.Prelude.{
  ℕ, ◌≡◌, refl, sym, ◌∙◌, ap, subst, ◌⊎◌, inl, inr, true, false, not, if◌then◌else◌, List, [], ◌∷◌,
  ◌++◌, Bool-cases, sf_ok, ℤ, same_bytes, length, ◌+◌,
}
use spirit_fox_os.Services.Txn.Bank.{TxnFile, bank_sectors, encode_bank}
use spirit_fox_os.Services.Txn.Device.{Device, IsDisk, Medium, DetectsTears}
use spirit_fox_os.Services.Txn.Mount.{Txn, mount, is_ok, sf_device_gone}
use spirit_fox_os.Services.Txn.Commit.{
  commit, commit_ready, write_next, write_snapshot, advanced, other_bank, sectors, snapshot_record,
  apply_changes, is_uncertain, sf_commit_uncertain,
}
use spirit_fox_os.Services.Txn.Slots.{reading}
use spirit_fox_os.Services.Txn.Files.{
  FileMap, contents, updates, update, updates-same, apply_changes-updates, commit-updates,
}
use spirit_fox_os.Services.Txn.Crash.{
  IsHome, Mounts-home, refused, attempted, commit-Ended, commit-Mounts, commit-IsHome, next_files,
}

-- One commit after the other, on the state and the device that the one before leaves.
unfoldable pub commits :
    (dev : Device) → (List ℕ → List ℕ) → Txn → dev.State → List (List TxnFile) → Txn × dev.State
commits dev hash t d [] = (t, d)
commits dev hash t d (changes ∷ rest) =
    let r = commit dev hash t d changes in commits dev hash r.1.0 r.1.1 rest

-- The changes of the commits that return SF_OK, in their order.
unfoldable pub acked :
    (dev : Device) → (List ℕ → List ℕ) → Txn → dev.State → List (List TxnFile) → List TxnFile
acked dev hash t d [] = []
acked dev hash t d (changes ∷ rest) =
    let r = commit dev hash t d changes in
    (if is_ok r.0 then changes else []) ++ acked dev hash r.1.0 r.1.1 rest

-- The changes of the commits that return SF_COMMIT_UNCERTAIN.
unfoldable pub in_doubt :
    (dev : Device) → (List ℕ → List ℕ) → Txn → dev.State → List (List TxnFile) → List TxnFile
in_doubt dev hash t d [] = []
in_doubt dev hash t d (changes ∷ rest) =
    let r = commit dev hash t d changes in
    (if is_uncertain r.0 then changes else []) ++ in_doubt dev hash r.1.0 r.1.1 rest

updates-append :
    (cs others : List TxnFile) (look : FileMap)
    → updates look (cs ++ others) ≡ updates (updates look cs) others
unfolding updates
updates-append [] others look = refl
updates-append (c ∷ cs) others look = updates-append cs others (update look c)

-- The files of a state are these, at the paths that are not empty.
abbrev pub Agrees : Txn → FileMap → Type 0
Agrees u look = (path : List ℕ) → same_bytes [] path ≡ false → contents u path ≡ look path

module _ (dev : Device) (hash : List ℕ → List ℕ) where
  -- Once the state is not ready, nothing is written and nothing is acknowledged.
  commit_idle :
      (t : Txn) (d : dev.State) (changes : List TxnFile)
      → t.ready ≡ false
      → commit dev hash t d changes ≡ (sf_device_gone, (t, d))
  unfolding commit
  commit_idle t d changes e =
      subst
        (λ b.
          (if not b then (sf_device_gone, (t, d)) else commit_ready dev hash t d changes)
          ≡ (sf_device_gone, (t, d)))
        (sym e) refl

  commits_idle :
      (rest : List (List TxnFile)) (t : Txn) (d : dev.State)
      → t.ready ≡ false
      → ((commits dev hash t d rest).1 ≡ d)
        × (acked dev hash t d rest ≡ [])
        × (in_doubt dev hash t d rest ≡ [])
  unfolding commits acked in_doubt
  commits_idle [] t d e = (refl, refl, refl)
  commits_idle (changes ∷ rest) t d e =
      let idle = commit_idle t d changes e in
      let (still, no_more, no_doubt) = commits_idle rest t d e in
      (
        ap (λ r. (commits dev hash r.1.0 r.1.1 rest).1) idle ∙ still,
        ap (λ r. (if is_ok r.0 then changes else []) ++ acked dev hash r.1.0 r.1.1 rest) idle
            ∙ no_more,
        ap (λ r. (if is_uncertain r.0 then changes else []) ++ in_doubt dev hash r.1.0 r.1.1 rest)
              idle
            ∙ no_doubt,
      )

module _ (hash : List ℕ → List ℕ) (hash_length : (b : List ℕ) → length (hash b) ≡ 32) (dev : Device)
    (disk : IsDisk dev) (t0 : Txn) where
  -- A mount succeeds, and finds the files with these changes, or with those in doubt as well.
  pub Finds : FileMap → List TxnFile → List TxnFile → Medium → Type 0
  Finds look known doubtful m =
      (u : Txn) × (mount hash t0 (reading m) ≡ (sf_ok, u))
      × (Agrees u (updates look known) ⊎ Agrees u (updates look (known ++ doubtful)))

  -- What holds of the files after some changes holds of those before, with the changes in front.
  Finds-before :
      (look look' : FileMap) (changes known doubtful : List TxnFile) (m : Medium)
      → ((path : List ℕ) → same_bytes [] path ≡ false → look' path ≡ updates look changes path)
      → Finds look' known doubtful m
      → Finds look (changes ++ known) doubtful m
  unfolding Finds
  Finds-before look look' changes known doubtful m same (u, e, found) = (
    u,
    e,
    elim found [
      | inl h ↦ inl (λ path ne.
          h path ne
          ∙ updates-same known look' (updates look changes) same path ne
          ∙ ap (λ f. f path) (sym (updates-append changes known look)))
      | inr h ↦ inr (λ path ne.
          h path ne
          ∙ updates-same (known ++ doubtful) look' (updates look changes) same path ne
          ∙ ap (λ f. f path) (sym (updates-append changes (known ++ doubtful) look))
          ∙ ap (λ cs. updates look cs path) (sym (append_assoc changes known doubtful)))
    ],
  )

  -- How a commit leaves a state and a device that were at home.
  data Outcome (t : Txn) (changes : List TxnFile) (r : ℤ × (Txn × dev.State)) : Type 0 where
    nothing :
        is_ok r.0 ≡ false
        → is_uncertain r.0 ≡ false
        → IsHome hash dev t0 r.1.1 r.1.0
        → r.1.0 ≡ t
        → Outcome t changes r
    done : r.0 ≡ sf_ok → IsHome hash dev t0 r.1.1 r.1.0 → Outcome t changes r
    cut :
        r.0 ≡ sf_commit_uncertain
        → r.1.0.ready ≡ false
        → is_ok (apply_changes t.files [] changes).0 ≡ true
        → Outcome t changes r

  write_next-cases :
      (t : Txn) (d : dev.State) (next : List TxnFile)
      → ((write_next dev hash t d next).0 ≡ sf_ok)
        ⊎ (((write_next dev hash t d next).0 ≡ sf_commit_uncertain)
            × ((write_next dev hash t d next).1.0.ready ≡ false))
  unfolding write_next
  write_next-cases t d next =
      elim (Bool-cases
        (write_snapshot dev d (other_bank t.bank)
          (sectors bank_sectors (encode_bank hash (t.generation + 1) next))
          (snapshot_record dev hash t next)).0) [
            | inl ok ↦ inl (rw ok refl)
            | inr bad ↦ inr (rw bad refl, rw bad refl)
          ]

  commit-Outcome :
      (t : Txn) (d : dev.State)
      → IsHome hash dev t0 d t
      → (changes : List TxnFile) → Outcome t changes (commit dev hash t d changes)
  commit-Outcome t d h changes = elim (commit-Ended hash hash_length dev disk t0 d t h changes) [
    | refused code certain et ed ↦
        nothing code certain
          (subst (λ x. IsHome hash dev t0 x (commit dev hash t d changes).1.0) (sym ed)
            (subst (λ x. IsHome hash dev t0 d x) (sym et) h))
          et
    | attempted lt applied e ↦
        elim (write_next-cases t d (next_files hash hash_length dev disk t0 t changes)) [
          | inl ok ↦
              let code : (commit dev hash t d changes).0 ≡ sf_ok = ap (λ r. r.0) e ∙ ok in
              done code (commit-IsHome hash hash_length dev disk t0 d t h changes code).1
          | inr (code, off) ↦ cut (ap (λ r. r.0) e ∙ code) (ap (λ r. r.1.0.ready) e ∙ off) applied
        ]
  ]

  Finds-home :
      (t : Txn) (d : dev.State)
      → IsHome hash dev t0 d t
      → (m : Medium) → dev.After d m
      → Finds (contents t) [] [] m
  unfolding Finds updates
  Finds-home t d h m after = elim (Mounts-home hash hash_length dev disk t0 d t h t m after) [
    | inl e ↦ (t, e, inl (λ path ne. refl))
    | inr e ↦ (t, e, inl (λ path ne. refl))
  ]

  -- A commit that was cut off has made all of its changes, or none.
  Finds-cut :
      DetectsTears hash dev
      → (t : Txn) (d : dev.State) → IsHome hash dev t0 d t
      → (changes : List TxnFile) → is_ok (apply_changes t.files [] changes).0 ≡ true
      → (m : Medium) → dev.After (commit dev hash t d changes).1.1 m
      → Finds (contents t) ([] ++ []) (changes ++ []) m
  unfolding Finds updates
  Finds-cut tears t d h changes applied m after =
      elim (commit-Mounts hash hash_length dev disk t0 d t h tears changes m after) [
        | inl e ↦ (t, e, inl (λ path ne. refl))
        | inr e ↦ (
          advanced t (next_files hash hash_length dev disk t0 t changes),
          e,
          inr (λ path ne.
              apply_changes-updates changes t.files [] path ne applied
              ∙ ap (λ cs. updates (contents t) cs path) (sym (append-nil changes))),
        )
      ]

  -- From a state that mounting the settled device gives, with a hash that detects the torn records of
  -- the device, and calls of the device that may fail: after any sequence of commits, however power is
  -- lost, a mount succeeds. The files it finds, at each path that is not empty, are those of the start
  -- with the changes of every commit that returned SF_OK, in their order; or those with the changes of
  -- the commit that returned SF_COMMIT_UNCERTAIN as well.
  pub commits-Finds :
      DetectsTears hash dev
      → (rest : List (List TxnFile)) (t : Txn) (d : dev.State) → IsHome hash dev t0 d t
      → (m : Medium) → dev.After (commits dev hash t d rest).1 m
      → Finds (contents t) (acked dev hash t d rest) (in_doubt dev hash t d rest) m
  unfolding commits acked in_doubt
  commits-Finds tears [] t d h m after = Finds-home t d h m after
  commits-Finds tears (changes ∷ rest) t d h m after =
      let r = commit dev hash t d changes in
      elim (commit-Outcome t d h changes) [
        | nothing code certain home same ↦
            rw (code, certain)
              (Finds-before (contents t) (contents r.1.0) [] (acked dev hash r.1.0 r.1.1 rest)
                (in_doubt dev hash r.1.0 r.1.1 rest) m
                (λ path ne. unfold updates in ap (λ x. contents x path) same)
                (commits-Finds tears rest r.1.0 r.1.1 home m after))
        | done code home ↦ rw code (
            Finds-before (contents t) (contents r.1.0) changes (acked dev hash r.1.0 r.1.1 rest)
              (in_doubt dev hash r.1.0 r.1.1 rest) m
              (λ path ne. commit-updates dev hash t d changes code path ne)
              (commits-Finds tears rest r.1.0 r.1.1 home m after))
        | cut code off applied ↦
            let (still, no_more, no_doubt) = commits_idle dev hash rest r.1.0 r.1.1 off in
            rw (code, no_more, no_doubt)
              (Finds-cut tears t d h changes applied m (subst (λ x. dev.After x m) still after))
      ]
