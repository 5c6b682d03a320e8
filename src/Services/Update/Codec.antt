-- ===== src/Services/Update/Codec.antt =====
-- services/update.c: what sf_update_encode writes, sf_update_decode reads back.
use spirit_fox_os.Prelude.{
  ℕ, ◌≡◌, refl, true, List, ◌∷◌, ◌++◌, take, drop, length, arith, some, length-append, replicate,
  drop-append_length, take-append_length, drop-append_more, take_all,
}
use spirit_fox_os.Services.Update.{Update, valid, encode, decode, parsed, magic, update_bytes}

abbrev layout : Update → List ℕ
layout s =
    magic
    ++ (s.phase
        ∷ s.good
        ∷ s.candidate
        ∷ (replicate 21 0 ++ (s.good_hash ++ (s.candidate_hash ++ s.app_id))))

module _ (s : Update) (good : length s.good_hash ≡ 32) (candidate : length s.candidate_hash ≡ 32)
    (id : length s.app_id ≡ 64) where
  length-layout : length (layout s) ≡ update_bytes
  length-layout = omega (
    arith,
    length-append s.good_hash (s.candidate_hash ++ s.app_id),
    length-append s.candidate_hash s.app_id,
  )

  parsed-layout : parsed (layout s) ≡ s
  parsed-layout = λ i. record {
    phase = s.phase;
    good = s.good;
    candidate = s.candidate;
    good_hash = take-append_length s.good_hash (s.candidate_hash ++ s.app_id) 32 good i;
    candidate_hash = second i;
    app_id = third i;
  }
    where
      after : drop 32 (s.good_hash ++ (s.candidate_hash ++ s.app_id)) ≡ s.candidate_hash ++ s.app_id
      after = drop-append_length s.good_hash (s.candidate_hash ++ s.app_id) 32 good

      second : take 32 (drop 64 (layout s)) ≡ s.candidate_hash
      second = rw after (take-append_length s.candidate_hash s.app_id 32 candidate)

      third : take 64 (drop 96 (layout s)) ≡ s.app_id
      third =
          rw
            (
              drop-append_more s.good_hash (s.candidate_hash ++ s.app_id) 64 32 (omega arith),
              drop-append_length s.candidate_hash s.app_id 32 candidate,
            )
            (take_all s.app_id 64 (omega (arith, id)))

  -- A valid record whose arrays have their C sizes is encoded in 160 bytes, and they decode to it.
  pub decode-encode :
      valid s ≡ true
      → (b : List ℕ) × (encode s ≡ some b) × (length b ≡ update_bytes) × (decode b ≡ some s)
  unfolding encode decode
  decode-encode v = (layout s, rw v refl, length-layout, rw (length-layout, parsed-layout, v) refl)
