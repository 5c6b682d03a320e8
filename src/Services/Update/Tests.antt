-- ===== src/Services/Update/Tests.antt =====
-- Tests of services/update.c: an application called "app" in slot a, and an update of it.
use spirit_fox_os.Prelude.{ℕ, ◌≡◌, refl, true, false, List, [], ◌∷◌, replicate, some, length, sf_ok}
use spirit_fox_os.Services.Update.{
  Update, valid, identity, name_length, stage, encode, decode, padded, slot_a, update_bytes,
}
use spirit_fox_os.Services.Update.Valid.{Operation, perform_all, perform_all-valid}
use spirit_fox_os.Services.Update.Trial.{trial, trial_failed}
use spirit_fox_os.Services.Update.Codec.{decode-encode}

abbrev app : List ℕ
app = 97 ∷ 112 ∷ 112 ∷ []

abbrev hash : List ℕ
hash = replicate 32 9

abbrev current_update : Update
current_update = record {
  phase = 0;
  good = slot_a;
  candidate = 0;
  good_hash = replicate 32 7;
  candidate_hash = replicate 32 0;
  app_id = padded app;
}

is_valid : valid current_update ≡ true
unfolding valid identity name_length
is_valid = refl

can_stage : (stage current_update app hash).1 ≡ sf_ok
unfolding stage valid identity name_length
can_stage = refl

perform_all-valid_example :
    valid (
      perform_all
        (Operation.stages app hash ∷ Operation.begins ∷ Operation.finishes true ∷ [])
        current_update)
    ≡ true
perform_all-valid_example =
    perform_all-valid (Operation.stages app hash ∷ Operation.begins ∷ Operation.finishes true ∷ [])
      current_update is_valid

trial_failed_example : trial current_update app hash false ≡ (current_update, sf_ok)
trial_failed_example = trial_failed current_update app hash refl refl can_stage

decode-encode_example :
    (b : List ℕ) × (encode current_update ≡ some b)
    × (length b ≡ update_bytes)
    × (decode b ≡ some current_update)
decode-encode_example = decode-encode current_update refl refl refl is_valid
