-- ===== src/Services/Txn/Files.antt =====
-- services/txn.c: a snapshot is a map from paths to contents, which commits and resizes update.
use mathlib.Core.List.{append-nil}
use spirit_fox_os.Prelude.{
  ℕ, zero, suc, ◌+◌, ◌-◌, ◌^◌, ◌≡◌, refl, sym, ◌∙◌, ap, subst, inl, inr, Bool, true, false, not,
  ◌||◌, ◌==◌, if◌then◌else◌, List, [], ◌∷◌, ◌++◌, length, arith, Bool-cases, Option-cases, Option,
  none, some, sf_ok, ℤ, same_bytes, same_bytes→≡, same_bytes_refl, ltb, take, zeros, take_all, ◌≢◌,
  if-both, zeros-none,
}
use spirit_fox_os.Services.Txn.Paths.{path_ok}
use spirit_fox_os.Services.Txn.Bank.{
  TxnFile, any_path, txn_files, file_bytes, bank_sectors, encode_bank,
}
use spirit_fox_os.Services.Txn.Device.{Device}
use spirit_fox_os.Services.Txn.Mount.{Txn, is_ok, find_file, sf_device_gone}
use spirit_fox_os.Services.Txn.Commit.{
  place, apply_changes, commit, commit_ready, write_next, resize, resized, old_content,
  write_snapshot, other_bank, sectors, snapshot_record,
}

-- A map from paths to contents, and a change of it.
abbrev pub FileMap : Type 0
FileMap = List ℕ → Option (List ℕ)

unfoldable pub update : FileMap → TxnFile → FileMap
update look c path = if same_bytes c.path path then some c.content else look path

unfoldable pub updates : FileMap → List TxnFile → FileMap
updates look [] = look
updates look (c ∷ cs) = updates (update look c) cs

abbrev pub contents : Txn → FileMap
contents t = find_file txn_files t.files

some-injective {ℓ} : {A : Type ℓ} {a b : A} → some a ≡ some b → a ≡ b
some-injective {a} e = ap (λ o. elim o [ none ↦ a | some x ↦ x ]) e

none≢some {ℓ} : {A : Type ℓ} {a : A} → none ≢ some a
none≢some e =
    let bad : true ≡ false = ap (λ o. elim o [ none ↦ true | some x ↦ false ]) e in
    absurd (ground (arith, bad))

other_path :
    (f c : TxnFile) (path : List ℕ)
    → same_bytes f.path c.path ≡ false
    → same_bytes f.path path ≡ true
    → same_bytes c.path path ≡ false
other_path f c path m p = elim (Bool-cases (same_bytes c.path path)) [
  | inr q ↦ q
  | inl q ↦
      let same : same_bytes f.path c.path ≡ true =
        subst (λ x. same_bytes f.path x ≡ true) (sym (same_bytes→≡ c.path path q)) p in
      absurd (ground (arith, sym same ∙ m))
]

-- Maps that agree on the paths that are not empty agree after the same changes.
pub updates-same :
    (cs : List TxnFile) (look look' : FileMap)
    → ((p : List ℕ) → same_bytes [] p ≡ false → look p ≡ look' p)
    → (p : List ℕ) → same_bytes [] p ≡ false
    → updates look cs p ≡ updates look' cs p
unfolding updates update
updates-same [] look look' same p h = same p h
updates-same (c ∷ cs) look look' same p h =
    updates-same cs (update look c) (update look' c)
      (λ q hq. elim (Bool-cases (same_bytes c.path q)) [
        | inl e ↦ rw e refl
        | inr e ↦ rw e (same q hq)
      ])
      p h

find_file-nil :
    (room : ℕ) (path : List ℕ) → same_bytes [] path ≡ false → find_file room [] path ≡ none
unfolding find_file
find_file-nil zero path h = refl
find_file-nil (suc room) path h = rw h refl

place-update :
    (room : ℕ) (fs : List TxnFile) (c : TxnFile) (fs' : List TxnFile) (path : List ℕ)
    → same_bytes [] path ≡ false
    → place room fs c ≡ some fs'
    → find_file room fs' path ≡ update (find_file room fs) c path
unfolding place find_file update
place-update zero fs c fs' path h e = absurd (none≢some e)
place-update (suc room) [] c fs' path h e =
    subst (λ fs. find_file (suc room) fs path ≡ update (find_file (suc room) []) c path)
      (some-injective e)
      (elim (Bool-cases (same_bytes c.path path)) [
        | inl m ↦ rw m refl
        | inr m ↦ rw (m, h, find_file-nil room path h) refl
      ])
place-update (suc room) (f ∷ fs) c fs' path h e = elim (Bool-cases (same_bytes f.path c.path)) [
  | inl m ↦
      let e' : some (c ∷ fs) ≡ some fs' = rw m at e in
      subst (λ gs. find_file (suc room) gs path ≡ update (find_file (suc room) (f ∷ fs)) c path)
        (some-injective e')
        (elim (Bool-cases (same_bytes c.path path)) [
          | inl p ↦ rw p refl
          | inr p ↦
              let q : same_bytes f.path path ≡ false =
                subst (λ x. same_bytes x path ≡ false) (sym (same_bytes→≡ f.path c.path m)) p in
              rw (p, q) refl
        ])
  | inr m ↦ elim (Option-cases (place room fs c)) [
    | inl n ↦ let bad : none ≡ some fs' = rw (m, n) at e in absurd (none≢some bad)
    | inr r ↦
        let e' : some (f ∷ r.0) ≡ some fs' = rw (m, r.1) at e in
        subst (λ gs. find_file (suc room) gs path ≡ update (find_file (suc room) (f ∷ fs)) c path)
          (some-injective e')
          (elim (Bool-cases (same_bytes f.path path)) [
            | inr p ↦ rw p (place-update room fs c r.0 path h r.1)
            | inl p ↦
                let q : same_bytes c.path path ≡ false = other_path f c path m p in rw (p, q) refl
          ])
  ]
]

pub apply_changes-updates :
    (changes : List TxnFile) (files : List TxnFile) (seen : List (List ℕ)) (path : List ℕ)
    → same_bytes [] path ≡ false
    → is_ok (apply_changes files seen changes).0 ≡ true
    → find_file txn_files (apply_changes files seen changes).1 path
      ≡ updates (find_file txn_files files) changes path
unfolding apply_changes updates
apply_changes-updates [] files seen path h e = refl
apply_changes-updates (c ∷ cs) files seen path h e =
    elim (Bool-cases
      (not (path_ok c.path) || (ltb file_bytes (length c.content) || any_path c.path seen))) [
        | inl m ↦ let bad : false ≡ true = rw m at e in absurd (ground (arith, bad))
        | inr m ↦ elim (Option-cases (place txn_files files c)) [
          | inl n ↦ let bad : false ≡ true = rw (m, n) at e in absurd (ground (arith, bad))
          | inr r ↦
              let ok : is_ok (apply_changes r.0 (seen ++ (c.path ∷ [])) cs).0 ≡ true =
                rw (m, r.1) at e in
              rw (m, r.1)
                (apply_changes-updates cs r.0 (seen ++ (c.path ∷ [])) path h ok
                  ∙ updates-same cs (find_file txn_files r.0) (update (find_file txn_files files) c)
                      (λ p hp. place-update txn_files files c r.0 p hp r.1) path h)
        ]
      ]

module _ (dev : Device) (hash : List ℕ → List ℕ) where
  -- A result that, when it is SF_OK, is the table with the changes.
  abbrev Updated : Txn → List TxnFile → ℤ × (Txn × dev.State) → Type 0
  Updated t changes r =
      is_ok r.0 ≡ true
      → (path : List ℕ) → same_bytes [] path ≡ false
      → contents r.1.0 path ≡ updates (contents t) changes path

  commit_ready-Updated :
      (t : Txn) (d : dev.State) (changes : List TxnFile)
      → Updated t changes (commit_ready dev hash t d changes)
  unfolding commit_ready write_next
  commit_ready-Updated t d changes = elim (Bool-cases tests) [
    | inl e ↦ rw e (λ ok. absurd (ground (arith, ok)))
    | inr e ↦ elim (Bool-cases (is_ok next.0)) [
      | inr h ↦ rw (e, h) (λ ok. absurd (ground (arith, h, ok)))
      | inl h ↦
          elim (Bool-cases
            (write_snapshot dev d (other_bank t.bank)
              (sectors bank_sectors (encode_bank hash (t.generation + 1) next.1))
              (snapshot_record dev hash t next.1)).0) [
                | inl w ↦
                    rw (e, h, w) (λ ok path ne. apply_changes-updates changes t.files [] path ne h)
                | inr w ↦ rw (e, h, w) (λ ok. absurd (ground (arith, ok)))
              ]
    ]
  ]
    where
      next : ℤ × List TxnFile
      next = apply_changes t.files [] changes

      tests : Bool
      tests =
          length changes == 0 || (ltb txn_files (length changes) || (t.generation == 2 ^ 64 - 1))

  commit-Updated :
      (t : Txn) (d : dev.State) (changes : List TxnFile)
      → Updated t changes (commit dev hash t d changes)
  unfolding commit
  commit-Updated t d changes =
      if-both (Updated t changes) (not t.ready) (sf_device_gone, (t, d))
        (commit_ready dev hash t d changes) (λ ok. absurd (ground (arith, ok)))
        (commit_ready-Updated t d changes)

  -- A commit that returns SF_OK updates the map from paths to contents by its changes, in their
  -- order: at each path that is not empty it leaves what the map then has.
  pub commit-updates :
      (t : Txn) (d : dev.State) (changes : List TxnFile)
      → (commit dev hash t d changes).0 ≡ sf_ok
      → (path : List ℕ) → same_bytes [] path ≡ false
      → contents (commit dev hash t d changes).1.0 path ≡ updates (contents t) changes path
  commit-updates t d changes e path ne = commit-Updated t d changes (ap (λ x. is_ok x) e) path ne

  -- The old bytes up to the new length, or zeros after them; and no other file is changed.
  pub record ResizedOk (t : Txn) (path : List ℕ) (bytes : ℕ) (t' : Txn) : Type 0 where
    pub content : old_content t' path ≡ resized (old_content t path) bytes
    pub other :
        (p : List ℕ)
        → same_bytes [] p ≡ false
        → same_bytes path p ≡ false
        → contents t' p ≡ contents t p

  -- A path that is allowed is not empty.
  path_ok-nonempty : (path : List ℕ) → path_ok path ≡ true → same_bytes [] path ≡ false
  unfolding path_ok
  path_ok-nonempty [] h = absurd (ground (arith, h))
  path_ok-nonempty (c ∷ s) h = refl

  resized-same :
      (content : List ℕ) (bytes : ℕ) → bytes ≡ length content → resized content bytes ≡ content
  resized-same content bytes e =
      let none_new : zeros (bytes - length content) ≡ [] =
        ap zeros (omega (arith, e)) ∙ zeros-none in
      rw (none_new, append-nil (take bytes content)) (take_all content bytes (omega (arith, e)))

  ResizedIf : Txn → List ℕ → ℕ → ℤ × (Txn × dev.State) → Type 0
  ResizedIf t path bytes r = is_ok r.0 ≡ true → ResizedOk t path bytes r.1.0

  committed-ResizedIf :
      (t : Txn) (d : dev.State) (path : List ℕ) (bytes : ℕ)
      → path_ok path ≡ true
      → ResizedIf t path bytes (
          commit dev hash t d
            (record { path = path; content = resized (old_content t path) bytes } ∷ []))
  unfolding ResizedIf updates update
  committed-ResizedIf t d path bytes allowed ok =
      let c : TxnFile = record { path = path; content = resized (old_content t path) bytes } in
      let new = commit-Updated t d (c ∷ []) ok in
      let found_new : contents (commit dev hash t d (c ∷ [])).1.0 path ≡ some c.content =
        new path (path_ok-nonempty path allowed)
        ∙ ap (λ b. if b then some c.content else contents t path) (same_bytes_refl path) in
      record {
        content = ap (λ o. elim o [ none ↦ [] | some x ↦ x ]) found_new;
        other =
            λ p ne differs. new p ne ∙ ap (λ b. if b then some c.content else contents t p) differs;
      }

  resize-ResizedIf :
      (t : Txn) (d : dev.State) (path : List ℕ) (bytes : ℕ)
      → ResizedIf t path bytes (resize dev hash t d path bytes)
  unfolding resize ResizedIf
  resize-ResizedIf t d path bytes =
      if-both (ResizedIf t path bytes) (not t.ready) _ _ (λ ok. absurd (ground (arith, ok)))
        (elim (Bool-cases (path_ok path)) [
          | inr e ↦ rw e (λ ok. absurd (ground (arith, ok)))
          | inl e ↦ rw e (
              if-both (ResizedIf t path bytes) (ltb file_bytes bytes) _ _
                (λ ok. absurd (ground (arith, ok)))
                (elim (Bool-cases (bytes == length (old_content t path))) [
                  | inl b ↦ rw b (λ ok. record {
                    content = sym (resized-same (old_content t path) bytes (ground (arith, b)));
                    other = λ p ne differs. refl;
                  })
                  | inr b ↦ rw b (committed-ResizedIf t d path bytes e)
                ]))
        ])

  -- A resize that returns SF_OK leaves at its path the bytes that were there up to the new length,
  -- with zeros after them, an absent file being empty; every other file is as it was.
  pub resize-ResizedOk :
      (t : Txn) (d : dev.State) (path : List ℕ) (bytes : ℕ)
      → (resize dev hash t d path bytes).0 ≡ sf_ok
      → ResizedOk t path bytes (resize dev hash t d path bytes).1.0
  unfolding ResizedIf
  resize-ResizedOk t d path bytes e = resize-ResizedIf t d path bytes (ap (λ x. is_ok x) e)
