-- ===== src/Services/Update/Trial.antt =====
-- services/update.c: a trial that fails leaves the record that was there before it; one that succeeds
-- moves to the other slot.
use spirit_fox_os.Prelude.{is_zero}
use spirit_fox_os.Prelude.{
  ℕ, zero, suc, ◌<◌, ◌-◌, ◌≡◌, ◌≢◌, refl, sym, ap, ◌∙◌, true, false, ◌==◌, List, [], ◌∷◌, drop,
  replicate, length, sf_ok, arith, if◌then◌else◌, Bool, Bool-cases, Option-cases, some, inl, inr,
  length-append, length-replicate, ℤ, is_zero,
}
use spirit_fox_os.Services.Update.{
  Update, identity, name_length, valid, stable, pending, trying, padded, same_name, stage, staged,
  begin, finish, settled, promoted, other_slot,
}
use spirit_fox_os.Services.Update.Valid.{Stages, stage-Stages, stage-valid, begin-valid}

abbrev ends_zero : List ℕ → Bool
ends_zero [] = true
ends_zero (x ∷ xs) = if x == 0 then is_zero xs else ends_zero xs

is_zero-≡ : (xs : List ℕ) → is_zero xs ≡ true → xs ≡ replicate (length xs) 0
is_zero-≡ [] z = refl
is_zero-≡ (x ∷ xs) z =
    let first : x ≡ 0 = ground arith in
    let rest : is_zero xs ≡ true = ground arith in rw first (ap (◌∷◌ 0) (is_zero-≡ xs rest))

name_length-ends_zero :
    (s : List ℕ) (n : ℕ) → name_length s ≡ some n → is_zero (drop n s) ≡ true → ends_zero s ≡ true
unfolding name_length
name_length-ends_zero [] n e z = refl
name_length-ends_zero (c ∷ cs) zero e z = ground arith
name_length-ends_zero (c ∷ cs) (suc n) e z = elim (Option-cases (name_length cs)) [
  | inl bad ↦ absurd (ground (arith, bad))
  | inr (m, q) ↦
      let is_n : m ≡ n = ground arith in
      ground (arith, name_length-ends_zero cs n (q ∙ ap some is_n) z)
]

identity-ends_zero : (s : List ℕ) → identity s ≡ true → ends_zero s ≡ true
unfolding identity
identity-ends_zero s e = elim (Option-cases (name_length s)) [
  | inl bad ↦ absurd (ground (arith, bad))
  | inr (n, ok) ↦ name_length-ends_zero s n ok (ground (arith, ok))
]

same_name-≡ :
    (xs ys : List ℕ)
    → length xs ≡ length ys
    → ends_zero xs ≡ true
    → ends_zero ys ≡ true
    → same_name xs ys ≡ true
    → xs ≡ ys
same_name-≡ [] [] l p q e = refl
same_name-≡ [] (y ∷ ys) l p q e = absurd (omega arith)
same_name-≡ (x ∷ xs) [] l p q e = absurd (omega arith)
same_name-≡ (x ∷ xs) (y ∷ ys) l p q e =
    let same : x ≡ y = ground arith in
    let len : length xs ≡ length ys = omega arith in
    elim (Bool-cases (x == 0)) [
      | inl last ↦
          let zx : is_zero xs ≡ true = ground arith in
          let zy : is_zero ys ≡ true = ground arith in
          rw same (ap (◌∷◌ y) (is_zero-≡ xs zx ∙ rw len (sym (is_zero-≡ ys zy))))
      | inr more ↦
          rw same (ap (◌∷◌ y) (same_name-≡ xs ys len (ground arith) (ground arith) (ground arith)))
    ]

begin-ok :
    (s : Update)
    → valid s ≡ true
    → s.phase ≡ pending
    → begin s ≡ (record s { phase = trying }, sf_ok)
unfolding begin
begin-ok s v p = rw (v, p) refl

finish-ok :
    (s : Update) (success : Bool)
    → valid s ≡ true
    → s.phase ≡ trying
    → finish s success ≡ (settled (if success then promoted s else s), sf_ok)
unfolding finish
finish-ok s success v p = rw (v, p) refl

-- An update that is staged, begun and finished.
abbrev pub trial : Update → List ℕ → List ℕ → Bool → Update × ℤ
trial s id hash success = finish (begin (stage s id hash).0).0 success

trial-ok :
    (s : Update) (id hash : List ℕ) (success : Bool)
    → Stages s id hash
    → trial s id hash success ≡ (
      settled (
          if success
          then promoted (record (staged s (padded id) hash) { phase = trying })
          else record (staged s (padded id) hash) { phase = trying }),
      sf_ok,
    )
trial-ok s id hash success c =
    let s1 = staged s (padded id) hash in
    let s2 : Update = record s1 { phase = trying } in
    let v1 : valid s1 ≡ true = rw c.result at (stage-valid s id hash c.was_valid) in
    let b = begin-ok s1 v1 refl in
    let v2 : valid s2 ≡ true = rw b at (begin-valid s1 v1) in
    rw (c.result, b) (finish-ok s2 success v2 refl)

Update-ext :
    (s t : Update)
    → s.phase ≡ t.phase
    → s.good ≡ t.good
    → s.candidate ≡ t.candidate
    → s.good_hash ≡ t.good_hash
    → s.candidate_hash ≡ t.candidate_hash
    → s.app_id ≡ t.app_id
    → s ≡ t
Update-ext s t p g c gh ch a = λ i. record {
  phase = p i;
  good = g i;
  candidate = c i;
  good_hash = gh i;
  candidate_hash = ch i;
  app_id = a i;
}

length-padded : (id : List ℕ) → length id < 64 → length (padded id) ≡ 64
length-padded id lt = omega (
  arith,
  length-append id (replicate (64 - length id) 0),
  length-replicate {A = ℕ} (64 - length id) 0,
)

-- The name that is left is the one before the trial.
kept_name :
    (s : Update) (id hash : List ℕ)
    → Stages s id hash
    → length s.app_id ≡ 64
    → (if s.good == 0 then replicate 64 0 else padded id) ≡ s.app_id
kept_name s id hash c len = elim (Bool-cases (s.good == 0)) [
  | inl first ↦
      let old = c.old_id in
      let none_there = c.no_candidate in
      let zeros : is_zero s.app_id ≡ true = ground arith in
      rw first (sym (is_zero-≡ s.app_id zeros ∙ rw len refl))
  | inr later ↦
      let old = c.old_id in
      let same = c.same in
      let old_name : identity s.app_id ≡ true = ground arith in
      let same_names : same_name s.app_id (padded id) ≡ true = ground arith in
      rw later (
        sym (
          same_name-≡ s.app_id (padded id) (len ∙ sym (length-padded id c.short))
            (identity-ends_zero s.app_id old_name) (identity-ends_zero (padded id) c.name)
            same_names))
]

-- If an update can be staged, and the arrays have their C sizes, then a trial of it that fails ends
-- with success, and with exactly the record that was there before the update was staged.
pub trial_failed :
    (s : Update) (id hash : List ℕ)
    → length s.app_id ≡ 64
    → length s.candidate_hash ≡ 32
    → (stage s id hash).1 ≡ sf_ok
    → trial s id hash false ≡ (s, sf_ok)
trial_failed s id hash len_id len_hash e =
    let c = stage-Stages s id hash e in
    trial-ok s id hash false c
    ∙ ap (λ (x : Update). (x, sf_ok))
        (Update-ext _ s (sym c.phase) refl (sym c.no_candidate) refl
          (sym (is_zero-≡ s.candidate_hash c.no_hash ∙ rw len_hash refl))
          (kept_name s id hash c len_id))

abbrev pub installed_update : Update → List ℕ → List ℕ → Update
installed_update s id hash = record {
  phase = stable;
  good = other_slot s.good;
  candidate = 0;
  good_hash = hash;
  candidate_hash = replicate 32 0;
  app_id = padded id;
}

-- If an update can be staged, then a trial of it that succeeds makes the other slot the one that
-- works, with the hash of the update; the slot that worked before is another one.
pub trial_succeeded :
    (s : Update) (id hash : List ℕ)
    → (stage s id hash).1 ≡ sf_ok
    → (trial s id hash true ≡ (installed_update s id hash, sf_ok)) × (other_slot s.good ≢ s.good)
trial_succeeded s id hash e =
    let c = stage-Stages s id hash e in
    let used : (other_slot s.good == 0) ≡ false = ground arith in
    (trial-ok s id hash true c ∙ rw used refl, ground arith)
