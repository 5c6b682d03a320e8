-- ===== src/Services/Txn/Table.antt =====
-- services/txn.c: what sf_txn_commit and decode make sure of in a table of files.
use spirit_fox_os.Prelude.{
  ℕ, zero, suc, ◌≤◌, ◌≡◌, refl, subst, inl, inr, true, false, not, ◌||◌, List, [], ◌∷◌, ◌++◌,
  length, arith, Option, none, some, same_bytes, same_bytes→≡, Bool-cases, Option-cases, ltb,
}
use spirit_fox_os.Services.Txn.Paths.{path_ok}
use spirit_fox_os.Services.Txn.Bank.{TxnFile, any_path, txn_files, file_bytes}
use spirit_fox_os.Services.Txn.Commit.{place, apply_changes}

-- An entry after entries with these paths: its path is allowed and its own, and its data fits.
pub record EntryOk (paths : List (List ℕ)) (f : TxnFile) : Type 0 where
  pub allowed : path_ok f.path ≡ true
  pub fits : length f.content ≤ file_bytes
  pub fresh : any_path f.path paths ≡ false

unfoldable pub Entries : List (List ℕ) → List TxnFile → Type 0
Entries paths [] = Unit
Entries paths (f ∷ fs) = EntryOk paths f × Entries (paths ++ (f.path ∷ [])) fs

pub record IsTable (files : List TxnFile) : Type 0 where
  pub entries : Entries [] files
  pub count_le : length files ≤ txn_files

pub any_path-snoc :
    (p q : List ℕ) (paths : List (List ℕ))
    → any_path p paths ≡ false
    → same_bytes q p ≡ false
    → any_path p (paths ++ (q ∷ [])) ≡ false
unfolding any_path
any_path-snoc p q [] h e = ground (arith, e)
any_path-snoc p q (r ∷ paths) h e =
    let first : same_bytes r p ≡ false = ground (arith, h) in
    let rest : any_path p paths ≡ false = ground (arith, h) in
    ground (arith, first, any_path-snoc p q paths rest e)

-- A table with room for no more than so many of the entries.
abbrev Within : ℕ → List (List ℕ) → List TxnFile → Type 0
Within room paths fs = Entries paths fs × (length fs ≤ room)

abbrev PlacedOk : ℕ → List (List ℕ) → Option (List TxnFile) → Type 0
PlacedOk room paths none = Unit
PlacedOk room paths (some fs) = Within room paths fs

place-PlacedOk :
    (room : ℕ) (paths : List (List ℕ)) (fs : List TxnFile) (c : TxnFile)
    → EntryOk paths c
    → Within room paths fs
    → PlacedOk room paths (place room fs c)
unfolding place Entries
place-PlacedOk zero paths fs c ok h = tt
place-PlacedOk (suc room) paths [] c ok h = ((ok, tt), omega arith)
place-PlacedOk (suc room) paths (f ∷ fs) c ok h =
    let within : length fs ≤ room = omega (arith, h.1) in
    elim (Bool-cases (same_bytes f.path c.path)) [
      | inl e ↦
          let rest : Entries (paths ++ (c.path ∷ [])) fs =
            subst (λ p. Entries (paths ++ (p ∷ [])) fs) (same_bytes→≡ f.path c.path e) h.0.1 in
          rw e ((ok, rest), omega (arith, within))
      | inr e ↦
          let ok' : EntryOk (paths ++ (f.path ∷ [])) c = record {
            allowed = ok.allowed;
            fits = ok.fits;
            fresh = any_path-snoc c.path f.path paths ok.fresh e;
          } in
          elim (Option-cases (place room fs c)) [
            | inl n ↦ rw (e, n) tt
            | inr s ↦
                let rest : Within room (paths ++ (f.path ∷ [])) s.0 =
                  subst (PlacedOk room (paths ++ (f.path ∷ []))) s.1
                    (place-PlacedOk room (paths ++ (f.path ∷ [])) fs c ok' (h.0.1, within)) in
                rw (e, s.1) ((h.0.0, rest.0), omega (arith, rest.1))
          ]
    ]

-- A change that is put into a table leaves a table.
pub place-IsTable :
    (files : List TxnFile) (c : TxnFile) (files' : List TxnFile)
    → EntryOk [] c
    → IsTable files
    → place txn_files files c ≡ some files'
    → IsTable files'
place-IsTable files c files' ok h e =
    let placed : Within txn_files [] files' =
      subst (PlacedOk txn_files []) e
        (place-PlacedOk txn_files [] files c ok (h.entries, h.count_le)) in
    record { entries = placed.0; count_le = placed.1 }

-- The next table of a commit whose changes pass the tests.
pub apply_changes-IsTable :
    (changes : List TxnFile) (files : List TxnFile) (seen : List (List ℕ))
    → IsTable files
    → IsTable (apply_changes files seen changes).1
unfolding apply_changes
apply_changes-IsTable [] files seen h = h
apply_changes-IsTable (c ∷ cs) files seen h =
    elim (Bool-cases
      (not (path_ok c.path) || (ltb file_bytes (length c.content) || any_path c.path seen))) [
        | inl e ↦ rw e h
        | inr e ↦
            let allowed : path_ok c.path ≡ true = ground (arith, e) in
            let fits : length c.content ≤ file_bytes = ground (arith, e) in
            let ok : EntryOk [] c = record {
              allowed = allowed;
              fits = fits;
              fresh = unfold any_path in refl;
            } in
            elim (Option-cases (place txn_files files c)) [
              | inl n ↦ rw (e, n) h
              | inr s ↦
                  rw (e, s.1)
                    (apply_changes-IsTable cs s.0 (seen ++ (c.path ∷ []))
                      (place-IsTable files c s.0 ok h s.1))
            ]
      ]
