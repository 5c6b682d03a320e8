-- ===== src/Services/Update/Valid.antt =====
-- services/update.c: every call keeps the record valid.
use spirit_fox_os.Prelude.{is_zero}
use spirit_fox_os.Prelude.{
  ℕ, ◌<◌, ◌≡◌, true, false, ◌||◌, ◌==◌, List, [], ◌∷◌, length, sf_ok, arith, Bool, is_zero,
}
use spirit_fox_os.Services.Update.{
  Update, slot, agrees, identity, valid_id, valid, stable, padded, same_name, stage, staged, begin,
  finish,
}

-- What a call that stages an update has checked.
pub record Stages (s : Update) (id hash : List ℕ) : Type 0 where
  pub was_valid : valid s ≡ true
  pub short : length id < 64
  pub good_slot : (slot s.good || (s.good == 0)) ≡ true
  pub good_hash : agrees (s.good == 0) (is_zero s.good_hash) ≡ true
  pub no_candidate : s.candidate ≡ 0
  pub no_hash : is_zero s.candidate_hash ≡ true
  pub old_id : valid_id s ≡ true
  pub phase : s.phase ≡ stable
  pub name : identity (padded id) ≡ true
  pub nonzero : is_zero hash ≡ false
  pub same : (s.good == 0 || same_name s.app_id (padded id)) ≡ true
  pub result : (stage s id hash).0 ≡ staged s (padded id) hash

pub stage-Stages : (s : Update) (id hash : List ℕ) → (stage s id hash).1 ≡ sf_ok → Stages s id hash
unfolding stage valid
stage-Stages s id hash e = record {
  was_valid = ground (arith, e);
  short = ground (arith, e);
  good_slot = ground (arith, e);
  good_hash = ground (arith, e);
  no_candidate = ground (arith, e);
  no_hash = ground (arith, e);
  old_id = ground (arith, e);
  phase = ground (arith, e);
  name = ground (arith, e);
  nonzero = ground (arith, e);
  same = ground (arith, e);
  result = ground (arith, e);
}

pub stage-valid :
    (s : Update) (id hash : List ℕ) → valid s ≡ true → valid (stage s id hash).0 ≡ true
unfolding stage valid
stage-valid s id hash v = ground (arith, v)

pub begin-valid : (s : Update) → valid s ≡ true → valid (begin s).0 ≡ true
unfolding begin valid
begin-valid s v = ground (arith, v)

finish-valid : (s : Update) (success : Bool) → valid s ≡ true → valid (finish s success).0 ≡ true
unfolding finish valid
finish-valid s true v = ground (arith, v)
finish-valid s false v = ground (arith, v)

pub data Operation : Type 0 where
  stages : List ℕ → List ℕ → Operation
  begins : Operation
  finishes : Bool → Operation

abbrev pub perform : Operation → Update → Update
perform (stages id hash) s = (stage s id hash).0
perform begins s = (begin s).0
perform (finishes success) s = (finish s success).0

abbrev pub perform_all : List Operation → Update → Update
perform_all [] s = s
perform_all (o ∷ os) s = perform_all os (perform o s)

-- A valid record is valid after any sequence of calls, with any arguments and results.
pub perform_all-valid :
    (os : List Operation) (s : Update) → valid s ≡ true → valid (perform_all os s) ≡ true
perform_all-valid [] s v = v
perform_all-valid (stages id hash ∷ os) s v =
    perform_all-valid os (stage s id hash).0 (stage-valid s id hash v)
perform_all-valid (begins ∷ os) s v = perform_all-valid os (begin s).0 (begin-valid s v)
perform_all-valid (finishes success ∷ os) s v =
    perform_all-valid os (finish s success).0 (finish-valid s success v)
