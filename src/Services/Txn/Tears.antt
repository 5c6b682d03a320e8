-- ===== src/Services/Txn/Tears.antt =====
-- services/txn.c: tears as tests/host/test_txn.c makes them, at any byte of a sector, and a seal that
-- detects them.
use mathlib.Core.List.{append_assoc, append-nil}
use spirit_fox_os.Prelude.{
  ℕ, zero, suc, ◌+◌, ◌-◌, ◌≤◌, ◌<◌, ◌≡◌, ◌≢◌, refl, sym, ◌∙◌, ap, List, [], ◌∷◌, ◌++◌, length,
  arith, slice, zeros, take, drop, get_or, zeros-suc, slice-zeros, slice-front, slice-end,
  length-append, length-take, length-drop, length-zeros, inl, inr, Bool-cases, leb,
}
use spirit_fox_os.Services.Txn.Bank.{sector_bytes}
use spirit_fox_os.Services.Txn.Device.{Device, LooksSealed, DetectsTears}

-- The new bytes up to some place, and the old ones from there.
abbrev pub PrefixTorn : List ℕ → List ℕ → List ℕ → Type 0
PrefixTorn old new x = (n : ℕ) × (x ≡ take n new ++ drop n old)

drop-zeros : (k n : ℕ) → drop k (zeros n) ≡ zeros (n - k)
unfolding zeros
drop-zeros zero n = let e : n - 0 ≡ n = omega arith in rw e refl
drop-zeros (suc k) zero = let e : 0 - suc k ≡ 0 = omega arith in rw e refl
drop-zeros (suc k) (suc n) = let e : suc n - suc k ≡ n - k = omega arith in rw e (drop-zeros k n)

take-append_more :
    (xs ys : List ℕ) (n k : ℕ) → length xs + k ≡ n → take n (xs ++ ys) ≡ xs ++ take k ys
take-append_more [] ys n k e = let same : n ≡ k = omega arith in rw same refl
take-append_more (x ∷ xs) ys zero k e = absurd (omega arith)
take-append_more (x ∷ xs) ys (suc n) k e = ap (◌∷◌ x) (take-append_more xs ys n k (omega arith))

module _ (hash : List ℕ → List ℕ) (hash_length : (b : List ℕ) → length (hash b) ≡ 32) where
  erase_detected :
      (old x : List ℕ) (n : ℕ)
      → x ≡ take n (zeros sector_bytes) ++ drop n old
      → LooksSealed hash x
      → x ≡ old
  erase_detected old x zero e looks = e
  erase_detected old x (suc n) e looks =
      let start : get_or (slice 0 8 x) 0 1 ≡ 0 =
        ap (λ b. get_or (slice 0 8 b) 0 1)
          (e ∙ ap (λ z. take (suc n) z ++ drop (suc n) old) (zeros-suc 511))
        ∙ slice_head in
      absurd (omega (arith, sym start ∙ ap (λ b. get_or b 0 1) looks.0))
    where
      slice_head : get_or (slice 0 8 (take (suc n) (0 ∷ zeros 511) ++ drop (suc n) old)) 0 1 ≡ 0
      slice_head = unfold slice in refl

  -- Up to the seal nothing of the seal is there.
  no_seal :
      (body x : List ℕ) (n : ℕ)
      → length body ≡ 480
      → x ≡ take n (body ++ hash body) ++ drop n (zeros sector_bytes)
      → n ≤ 480
      → slice 480 32 x ≡ zeros 32
  no_seal body x n l e early =
      ap (slice 480 32) (
        e
        ∙ ap (λ z. take n (body ++ hash body) ++ z)
            (drop-zeros n sector_bytes ∙ sym (append-nil (zeros (sector_bytes - n)))))
      ∙ slice-zeros (take n (body ++ hash body)) [] 480 32 (480 - n) (sector_bytes - n)
          (omega
            (arith, early, l, length-append body (hash body), length-take n (body ++ hash body)))
          (omega (arith, early))

  -- From the seal on, the body is there.
  whole_body :
      (body x : List ℕ) (n : ℕ)
      → length body ≡ 480
      → x ≡ take n (body ++ hash body) ++ drop n (zeros sector_bytes)
      → 480 < n
      → LooksSealed hash x
      → x ≡ body ++ hash body
  whole_body body x n l e late looks = split ∙ ap (λ z. body ++ z) (sym seal)
    where
      rest : List ℕ
      rest = take (n - 480) (hash body) ++ drop n (zeros sector_bytes)

      split : x ≡ body ++ rest
      split =
          e
          ∙ ap (λ z. z ++ drop n (zeros sector_bytes))
              (take-append_more body (hash body) n (n - 480) (omega (arith, l, late)))
          ∙ append_assoc body (take (n - 480) (hash body)) (drop n (zeros sector_bytes))

      rest_length : length rest ≡ 32
      rest_length = omega (
        arith,
        late,
        hash_length body,
        length-append (take (n - 480) (hash body)) (drop n (zeros sector_bytes)),
        length-take (n - 480) (hash body),
        length-drop n (zeros sector_bytes),
        length-zeros sector_bytes,
      )

      seal : hash body ≡ rest
      seal =
          sym (ap hash (ap (slice 0 480) split ∙ slice-front body rest 480 l))
          ∙ looks.1
          ∙ ap (slice 480 32) split
          ∙ slice-end body rest 480 32 l rest_length

  -- A hash that is never zero detects tears that keep the front of the new bytes and the end of the old.
  pub prefix-DetectsTears :
      ((b : List ℕ) → hash b ≢ zeros 32)
      → (dev : Device) → ((old new x : List ℕ) → dev.Torn old new x → PrefixTorn old new x)
      → DetectsTears hash dev
  prefix-DetectsTears nonzero dev prefix = record {
    erase_lem = λ old x torn looks.
        let (n, e) = prefix old (zeros sector_bytes) x torn in erase_detected old x n e looks;
    record_lem = λ body x l torn looks.
        let (n, e) = prefix (zeros sector_bytes) (body ++ hash body) x torn in
        elim (Bool-cases (leb n 480)) [
          | inl early ↦
              absurd
                (nonzero (slice 0 480 x) (looks.1 ∙ no_seal body x n l e (ground (arith, early))))
          | inr late ↦ whole_body body x n l e (ground (arith, late)) looks
        ];
  }
