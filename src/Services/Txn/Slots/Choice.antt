-- ===== src/Services/Txn/Slots/Choice.antt =====
-- services/txn.c: which of the two slots sf_txn_mount picks, and what becomes of the choice when the
-- other one is erased or holds the next snapshot.
use spirit_fox_os.Prelude.{
  ℕ, ◌+◌, ◌<◌, ◌≡◌, refl, sym, ◌∙◌, ap, subst, inl, inr, true, false, ◌==◌, ltb, sf_ok,
  sf_bad_format, List, arith, Bool-cases,
}
use spirit_fox_os.Services.Txn.Bank.{TxnFile}
use spirit_fox_os.Services.Txn.Mount.{
  Txn, Checked, failed, skipped, found, is_ok, consider_slot, choose,
}
use spirit_fox_os.Services.Txn.Commit.{other_bank, advanced}

abbrev pub started : Txn → Txn
started t = record t { ready = true }

abbrev pub picked : Txn → ℕ → ℕ → List TxnFile → Txn
picked t slot g fs = record t { generation = g; bank = slot; files = fs }

-- A slot that does not replace a snapshot of this generation.
abbrev pub Lower : ℕ → Checked → Type 0
Lower g (failed r) = Unit
Lower g skipped = Unit
Lower g (found g' fs) = g' < g

-- What a turn of the loop does, when it does not end the call.
data Turn (t : Txn) (slot : ℕ) (c : Checked) (t' : Txn) : Type 0 where
  passed : t' ≡ t → Lower t.generation c → Turn t slot c t'
  took :
      (g : ℕ) (fs : List TxnFile)
      → c ≡ found g fs
      → t.generation < g
      → t' ≡ picked t slot g fs
      → Turn t slot c t'

consider_slot-Turn :
    (t : Txn) (slot : ℕ) (c : Checked)
    → is_ok (consider_slot t slot c).0 ≡ true
    → Turn t slot c (consider_slot t slot c).1
unfolding consider_slot
consider_slot-Turn t slot (failed r) h = passed refl tt
consider_slot-Turn t slot skipped h = passed refl tt
consider_slot-Turn t slot (found g fs) h = elim (Bool-cases (g == t.generation)) [
  | inl e ↦ absurd (ground (arith, h, e))
  | inr e ↦ elim (Bool-cases (ltb t.generation g)) [
    | inl l ↦ rw (e, l) (took g fs refl (ground (arith, l)) refl)
    | inr l ↦ rw (e, l) (passed refl (ground (arith, e, l)))
  ]
]

-- The slot that is picked, and that the other one does not replace it.
pub data Picked (t : Txn) (c0 c1 : Checked) (t' : Txn) : Type 0 where
  first :
      (g : ℕ) (fs : List TxnFile)
      → c0 ≡ found g fs
      → t' ≡ picked (started t) 0 g fs
      → 0 < g
      → Lower g c1
      → Picked t c0 c1 t'
  second :
      (g : ℕ) (fs : List TxnFile)
      → c1 ≡ found g fs
      → t' ≡ picked (started t) 1 g fs
      → 0 < g
      → Lower g c0
      → Picked t c0 c1 t'

-- A mount that succeeds has gone through both slots, and has a snapshot.
record Chosen (t : Txn) (c0 c1 : Checked) (t' : Txn) : Type 0 where
  one : is_ok (consider_slot t 0 c0).0 ≡ true
  two : is_ok (consider_slot (consider_slot t 0 c0).1 1 c1).0 ≡ true
  some_generation : ((consider_slot (consider_slot t 0 c0).1 1 c1).1.generation == 0) ≡ false
  same : record (consider_slot (consider_slot t 0 c0).1 1 c1).1 { ready = true } ≡ t'

choose-Chosen :
    (t : Txn) (c0 c1 : Checked) (t' : Txn) → choose t c0 c1 ≡ (sf_ok, t') → Chosen t c0 c1 t'
unfolding choose
choose-Chosen t c0 c1 t' e = elim (Bool-cases (is_ok (consider_slot t 0 c0).0)) [
  | inr h ↦
      let e' : consider_slot t 0 c0 ≡ (sf_ok, t') = rw h at e in
      absurd (ground (arith, h, ap (λ p. is_ok p.0) e'))
  | inl h ↦ elim (Bool-cases (is_ok (consider_slot (consider_slot t 0 c0).1 1 c1).0)) [
    | inr h' ↦
        let e' : consider_slot (consider_slot t 0 c0).1 1 c1 ≡ (sf_ok, t') = rw (h, h') at e in
        absurd (ground (arith, h', ap (λ p. is_ok p.0) e'))
    | inl h' ↦ elim (Bool-cases ((consider_slot (consider_slot t 0 c0).1 1 c1).1.generation == 0)) [
      | inl z ↦
          let e' : (sf_bad_format, (consider_slot (consider_slot t 0 c0).1 1 c1).1) ≡ (sf_ok, t') =
            rw (h, h', z) at e in
          absurd (ground (arith, ap (λ p. is_ok p.0) e'))
      | inr z ↦
          let e' : (sf_ok, record (consider_slot (consider_slot t 0 c0).1 1 c1).1 { ready = true })
              ≡ (sf_ok, t') =
            rw (h, h', z) at e in
          record { one = h; two = h'; some_generation = z; same = ap (λ p. p.1) e' }
    ]
  ]
]

Lower-zero : (g : ℕ) (c : Checked) → Lower 0 c → Lower g c
Lower-zero g (failed r) h = tt
Lower-zero g skipped h = tt
Lower-zero g (found g' fs) h = absurd (omega (arith, h))

module _ (t : Txn) (start : t.generation ≡ 0) (c0 c1 : Checked) where
  picked-turns :
      (a b t' : Txn)
      → Turn t 0 c0 a
      → Turn a 1 c1 b
      → (b.generation == 0) ≡ false
      → record b { ready = true } ≡ t'
      → Picked t c0 c1 t'
  picked-turns a b t' (passed ea la) (passed eb lb) some_generation same =
      absurd (
        ground
          (arith, some_generation, ap (λ x. x.generation) eb, ap (λ x. x.generation) ea, start))
  picked-turns a b t' (passed ea la) (took g fs ec gt eb) some_generation same =
      second g fs ec (sym same ∙ ap started (eb ∙ ap (λ x. picked x 1 g fs) ea)) (omega (arith, gt))
        (Lower-zero g c0 (subst (λ n. Lower n c0) start la))
  picked-turns a b t' (took g fs ec gt ea) (passed eb lb) some_generation same =
      first g fs ec (sym same ∙ ap started (eb ∙ ea)) (omega (arith, gt))
        (subst (λ x. Lower x.generation c1) ea lb)
  picked-turns a b t' (took g0 fs0 ec0 gt0 ea) (took g fs ec gt eb) some_generation same =
      second g fs ec (sym same ∙ ap started (eb ∙ ap (λ x. picked x 1 g fs) ea)) (omega (arith, gt))
        (subst (Lower g) (sym ec0) (omega (arith, gt, ap (λ x. x.generation) ea)))

  choose-Picked : (t' : Txn) → choose t c0 c1 ≡ (sf_ok, t') → Picked t c0 c1 t'
  choose-Picked t' e =
      let h : Chosen t c0 c1 t' = choose-Chosen t c0 c1 t' e in
      picked-turns (consider_slot t 0 c0).1 (consider_slot (consider_slot t 0 c0).1 1 c1).1 t'
        (consider_slot-Turn t 0 c0 h.one) (consider_slot-Turn (consider_slot t 0 c0).1 1 c1 h.two)
        h.some_generation h.same

  turn_found :
      (a : Txn) (slot g : ℕ) (fs : List TxnFile)
      → a.generation < g
      → consider_slot a slot (found g fs) ≡ (sf_ok, picked a slot g fs)
  unfolding consider_slot
  turn_found a slot g fs lt =
      let new : (g == a.generation) ≡ false = ground (arith, lt) in
      let later : ltb a.generation g ≡ true = ground (arith, lt) in rw (new, later) refl

  turn_lower :
      (a : Txn) (slot g : ℕ) (fs : List TxnFile)
      → g < a.generation
      → consider_slot a slot (found g fs) ≡ (sf_ok, a)
  unfolding consider_slot
  turn_lower a slot g fs lt =
      let new : (g == a.generation) ≡ false = ground (arith, lt) in
      let later : ltb a.generation g ≡ false = ground (arith, lt) in rw (new, later) refl

  turn_skipped : (a : Txn) (slot : ℕ) → consider_slot a slot skipped ≡ (sf_ok, a)
  unfolding consider_slot
  turn_skipped a slot = refl

  choose_turns :
      (a b : Txn)
      → consider_slot t 0 c0 ≡ (sf_ok, a)
      → consider_slot a 1 c1 ≡ (sf_ok, b)
      → 0 < b.generation
      → choose t c0 c1 ≡ (sf_ok, started b)
  unfolding choose
  choose_turns a b ea eb gt =
      let some_generation : (b.generation == 0) ≡ false = ground (arith, gt) in
      rw (ea, eb, some_generation) refl

-- The other slot is left out: the choice stays.
pub choose-skipped :
    (t : Txn) (start : t.generation ≡ 0) (c c' : ℕ → Checked) (t' : Txn)
    → choose t (c 0) (c 1) ≡ (sf_ok, t')
    → c' t'.bank ≡ c t'.bank
    → c' (other_bank t'.bank) ≡ skipped
    → choose t (c' 0) (c' 1) ≡ (sf_ok, t')
choose-skipped t start c c' t' e kept off = elim (choose-Picked t start (c 0) (c 1) t' e) [
  | first g fs ec et gt l ↦
      let bank : t'.bank ≡ 0 = ap (λ x. x.bank) et in
      let k0 : c' 0 ≡ found g fs = subst (λ b. c' b ≡ c b) bank kept ∙ ec in
      let k1 : c' 1 ≡ skipped = subst (λ b. c' (other_bank b) ≡ skipped) bank off in
      choose_turns t start (c' 0) (c' 1) (picked t 0 g fs) (picked t 0 g fs)
        (ap (consider_slot t 0) k0
          ∙ turn_found t start (c 0) (c 1) t 0 g fs (omega (arith, start, gt)))
        (ap (consider_slot (picked t 0 g fs) 1) k1
          ∙ turn_skipped t start (c 0) (c 1) (picked t 0 g fs) 1)
        gt
      ∙ ap (λ x. (sf_ok, x)) (sym et)
  | second g fs ec et gt l ↦
      let bank : t'.bank ≡ 1 = ap (λ x. x.bank) et in
      let k1 : c' 1 ≡ found g fs = subst (λ b. c' b ≡ c b) bank kept ∙ ec in
      let k0 : c' 0 ≡ skipped = subst (λ b. c' (other_bank b) ≡ skipped) bank off in
      choose_turns t start (c' 0) (c' 1) t (picked t 1 g fs)
        (ap (consider_slot t 0) k0 ∙ turn_skipped t start (c 0) (c 1) t 0)
        (ap (consider_slot t 1) k1
          ∙ turn_found t start (c 0) (c 1) t 1 g fs (omega (arith, start, gt)))
        gt
      ∙ ap (λ x. (sf_ok, x)) (sym et)
]

-- The other slot holds the next snapshot: it is picked.
pub choose-next :
    (t : Txn) (start : t.generation ≡ 0) (c c' : ℕ → Checked) (t' : Txn) (next : List TxnFile)
    → choose t (c 0) (c 1) ≡ (sf_ok, t')
    → c' t'.bank ≡ c t'.bank
    → c' (other_bank t'.bank) ≡ found (t'.generation + 1) next
    → choose t (c' 0) (c' 1) ≡ (sf_ok, advanced t' next)
choose-next t start c c' t' next e kept new = elim (choose-Picked t start (c 0) (c 1) t' e) [
  | first g fs ec et gt l ↦
      let bank : t'.bank ≡ 0 = ap (λ x. x.bank) et in
      let generation : t'.generation ≡ g = ap (λ x. x.generation) et in
      let k0 : c' 0 ≡ found g fs = subst (λ b. c' b ≡ c b) bank kept ∙ ec in
      let k1 : c' 1 ≡ found (g + 1) next =
        subst (λ x. c' (other_bank x.bank) ≡ found (x.generation + 1) next) et new in
      choose_turns t start (c' 0) (c' 1) (picked t 0 g fs) (picked t 1 (g + 1) next)
        (ap (consider_slot t 0) k0
          ∙ turn_found t start (c 0) (c 1) t 0 g fs (omega (arith, start, gt)))
        (ap (consider_slot (picked t 0 g fs) 1) k1
          ∙ turn_found t start (c 0) (c 1) (picked t 0 g fs) 1 (g + 1) next (omega arith))
        (omega arith)
      ∙ ap (λ x. (sf_ok, advanced x next)) (sym et)
  | second g fs ec et gt l ↦
      let bank : t'.bank ≡ 1 = ap (λ x. x.bank) et in
      let generation : t'.generation ≡ g = ap (λ x. x.generation) et in
      let k1 : c' 1 ≡ found g fs = subst (λ b. c' b ≡ c b) bank kept ∙ ec in
      let k0 : c' 0 ≡ found (g + 1) next =
        subst (λ x. c' (other_bank x.bank) ≡ found (x.generation + 1) next) et new in
      choose_turns t start (c' 0) (c' 1) (picked t 0 (g + 1) next) (picked t 0 (g + 1) next)
        (ap (consider_slot t 0) k0
          ∙ turn_found t start (c 0) (c 1) t 0 (g + 1) next (omega (arith, start, gt)))
        (ap (consider_slot (picked t 0 (g + 1) next) 1) k1
          ∙ turn_lower t start (c 0) (c 1) (picked t 0 (g + 1) next) 1 g fs (omega arith))
        (omega arith)
      ∙ ap (λ x. (sf_ok, advanced x next)) (sym et)
]

-- The snapshot of a mount that succeeds is that of its bank's slot.
pub record ChosenOk (t : Txn) (c : ℕ → Checked) (t' : Txn) : Type 0 where
  pub bank_lt : t'.bank < 2
  pub ready_lem : t'.ready ≡ true
  pub volume_lem : t'.volume ≡ t.volume
  pub slot_lem : c t'.bank ≡ found t'.generation t'.files

pub choose-ChosenOk :
    (t : Txn) (start : t.generation ≡ 0) (c : ℕ → Checked) (t' : Txn)
    → choose t (c 0) (c 1) ≡ (sf_ok, t')
    → ChosenOk t c t'
choose-ChosenOk t start c t' e = elim (choose-Picked t start (c 0) (c 1) t' e) [
  | first g fs ec et gt l ↦ record {
    bank_lt = omega (arith, ap (λ x. x.bank) et);
    ready_lem = ap (λ x. x.ready) et;
    volume_lem = ap (λ x. x.volume) et;
    slot_lem = subst (λ x. c x.bank ≡ found x.generation x.files) (sym et) ec;
  }
  | second g fs ec et gt l ↦ record {
    bank_lt = omega (arith, ap (λ x. x.bank) et);
    ready_lem = ap (λ x. x.ready) et;
    volume_lem = ap (λ x. x.volume) et;
    slot_lem = subst (λ x. c x.bank ≡ found x.generation x.files) (sym et) ec;
  }
]
