-- ===== src/Kernel/Sched/Fairness.antt =====
-- What the choice of kernel/sched_policy.c promises: the best effective level wins, and among equals
-- the first one after the current task.
use spirit_fox_os.Prelude.{
  ℕ, zero, suc, ◌+◌, ◌≤◌, ◌<◌, ◌≡◌, refl, false, ◌||◌, ltb, ◌==◌, ◌⊎◌, inl, inr, ℤ, pos, minus_one,
  List, get_elem?, Option, none, some, arith, if◌then◌else◌, Bool-cases, ◌*◌,
}
use spirit_fox_os.Kernel.Sched.{
  SchedEntry, Choice, max_tasks, bad_current, index, eligible, score, consider, scan, pick,
  is_negative, true, priority_max, priority_aging_ticks,
}

-- The effective level of an entry that may run.
rank_of : ℕ → Option SchedEntry → Option ℕ
rank_of now none = none
rank_of now (some e) = if eligible e then some (score now e) else none

rank_of-le : (now : ℕ) (o : Option SchedEntry) (v : ℕ) → rank_of now o ≡ some v → v ≤ priority_max
unfolding rank_of eligible score
rank_of-le now none v q = absurd (cc)
rank_of-le now (some e) v q = ground arith

rank_of_aged :
    (now : ℕ) (e : SchedEntry)
    → eligible e ≡ true
    → e.ready_since + priority_max * priority_aging_ticks ≤ now
    → rank_of now (some e) ≡ some priority_max
unfolding rank_of eligible score
rank_of_aged now e may aged = ground arith

module _ (entries : List SchedEntry) (count : ℕ) (current : ℤ) (now : ℕ) where
  -- The level met in the given round of the traversal.
  pub rank : ℕ → Option ℕ
  unfolding rank_of
  rank step = rank_of now (get_elem? entries (index current step count))

  abbrev Nothing : ℕ → Type 0
  Nothing upto = (r : ℕ) → 1 ≤ r → r < upto → rank r ≡ none

  -- Round `s`, at level `v`, is the first of the best among the rounds below `upto`.
  pub record IsBest (upto s v : ℕ) : Type 0 where
    pub positive : 1 ≤ s
    pub within : s < upto
    pub own : rank s ≡ some v
    pub best : (r w : ℕ) → 1 ≤ r → r < upto → rank r ≡ some w → w ≤ v
    pub first : (r w : ℕ) → 1 ≤ r → r < s → rank r ≡ some w → w < v

  abbrev Chosen : ℕ → Choice → Type 0
  Chosen upto ch =
      (Nothing upto × (ch.selected ≡ minus_one))
      ⊎ ((s : ℕ) × IsBest upto s ch.best × (ch.selected ≡ pos (index current s count)))

  upto_cases : (r step : ℕ) → r < step + 1 → (r < step) ⊎ (r ≡ step)
  upto_cases r step h = grind arith

  Nothing-suc : (step : ℕ) → Nothing step → rank step ≡ none → Nothing (step + 1)
  Nothing-suc step h e r one lt = elim (upto_cases r step lt) [
    | inl below ↦ h r one below
    | inr same ↦ rw same e
  ]

  -- A round that does not beat the choice keeps it; a level that does replaces it.
  IsBest-keep :
      (step s v : ℕ)
      → IsBest step s v
      → ((w : ℕ) → rank step ≡ some w → w ≤ v)
      → IsBest (step + 1) s v
  IsBest-keep step s v b h = record {
    positive = b.positive;
    within = omega (arith, b.within);
    own = b.own;
    best = λ r w one lt e. elim (upto_cases r step lt) [
      | inl below ↦ b.best r w one below e
      | inr same ↦ h w (rw same at e)
    ];
    first = b.first;
  }

  IsBest-replace :
      (step v : ℕ)
      → 1 ≤ step
      → rank step ≡ some v
      → ((r w : ℕ) → 1 ≤ r → r < step → rank r ≡ some w → w < v)
      → IsBest (step + 1) step v
  IsBest-replace step v one own h = record {
    positive = one;
    within = omega arith;
    own = own;
    best = λ r w pos_r lt e. elim (upto_cases r step lt) [
      | inl below ↦ omega (arith, h r w pos_r below e)
      | inr same ↦ ground (arith, same)
    ];
    first = h;
  }

  -- A level beats no choice at all, and a choice of a lower level.
  replace-Chosen :
      (step v : ℕ) (ch : Choice)
      → 1 ≤ step
      → rank step ≡ some v
      → Chosen step ch
      → Chosen (step + 1) (
          if is_negative ch.selected || ltb ch.best v
          then record { selected = pos (index current step count); best = v }
          else ch)
  replace-Chosen step v ch one own (inl (none_yet, e)) = rw e (
      inr (step, IsBest-replace step v one own (λ r w p lt q. absurd (cc (none_yet r p lt))), refl))
  replace-Chosen step v ch one own (inr (s, b, e)) = rw e (elim (Bool-cases (ltb ch.best v)) [
    | inl more ↦ rw more (
        inr (
          step,
          IsBest-replace step v one own (λ r w p lt q. ground (arith, b.best r w p lt q)),
          refl,
        ))
    | inr less ↦ rw less (inr (s, IsBest-keep step s ch.best b (λ w q. ground arith), refl))
  ])

  keep-Chosen : (step : ℕ) (ch : Choice) → rank step ≡ none → Chosen step ch → Chosen (step + 1) ch
  keep-Chosen step ch q (inl (none_yet, e)) = inl (Nothing-suc step none_yet q, e)
  keep-Chosen step ch q (inr (s, b, e)) =
      inr (s, IsBest-keep step s ch.best b (λ w p. absurd (cc q)), e)

  entry-Chosen :
      (step : ℕ) (o : Option SchedEntry) (ch : Choice)
      → 1 ≤ step
      → rank step ≡ rank_of now o
      → Chosen step ch
      → Chosen (step + 1) (consider now (index current step count) o ch)
  unfolding consider rank_of
  entry-Chosen step none ch one q h = keep-Chosen step ch q h
  entry-Chosen step (some x) ch one q h = elim (Bool-cases (eligible x)) [
    | inl may ↦ rw may (replace-Chosen step (score now x) ch one (rw may at q) h)
    | inr may_not ↦ rw may_not (keep-Chosen step ch (rw may_not at q) h)
  ]

  scan-Chosen :
      (rounds step : ℕ) (ch : Choice)
      → 1 ≤ step
      → Chosen step ch
      → Chosen (step + rounds) (scan entries count current now rounds step ch)
  unfolding scan rank
  scan-Chosen zero step ch one h = let e : step + 0 ≡ step = omega arith in rw e h
  scan-Chosen (suc rounds) step ch one h =
      let e : step + suc rounds ≡ step + 1 + rounds = omega arith in
      rw e (scan-Chosen rounds (step + 1) _ (omega arith) (entry-Chosen step _ ch one refl h))

  abbrev pub Picks : ℤ → Type 0
  Picks r =
      (((s : ℕ) → 1 ≤ s → s ≤ count → rank s ≡ none) × (r ≡ minus_one))
      ⊎ ((s v : ℕ) × IsBest (count + 1) s v × (r ≡ pos (index current s count)))

  -- For a count of 1 to 12 and a current task in range or -1: the call returns -1 and no entry may
  -- run, or it returns the entry of the first round, after the current task, that has the best
  -- effective level of all rounds.
  pub pick-Picks :
      0 < count
      → count ≤ max_tasks
      → bad_current current count ≡ false
      → Picks (pick (some entries) count current now)
  unfolding pick scan rank
  pick-Picks some_entry few good = rw guard (finish _ (scan-Chosen count 1 _ (omega arith) start))
    where
      guard : (count == 0 || ltb max_tasks count || bad_current current count) ≡ false
      guard = ground arith

      start : Chosen 1 (record { selected = minus_one; best = 0 })
      start = inl (λ r one lt. absurd (omega arith), refl)

      finish : (ch : Choice) → Chosen (1 + count) ch → Picks ch.selected
      finish ch (inl (none_met, e)) = inl (λ s one le. none_met s one (omega arith), e)
      finish ch (inr (s, b, e)) =
          inr (s, ch.best, let same : count + 1 ≡ 1 + count = omega arith in rw same b, e)

  -- No starvation, for a count of 1 to 12 and a current task in range or -1: an entry that may run
  -- and has waited 3 * 4 ticks is overtaken only by entries that come before it in the round robin
  -- after the current task.
  pub pick_aged :
      0 < count
      → count ≤ max_tasks
      → bad_current current count ≡ false
      → (a : ℕ) (e : SchedEntry) → 1 ≤ a
      → a ≤ count
      → get_elem? entries (index current a count) ≡ some e
      → eligible e ≡ true
      → e.ready_since + priority_max * priority_aging_ticks ≤ now
      → (s : ℕ) × (1 ≤ s)
        × (s ≤ a)
        × (pick (some entries) count current now ≡ pos (index current s count))
  unfolding rank
  pick_aged some_entry few good a e one le here may aged = finish (pick-Picks some_entry few good)
    where
      top : rank a ≡ some priority_max
      top = rw here (rank_of_aged now e may aged)

      finish :
          Picks (pick (some entries) count current now)
          → (s : ℕ) × (1 ≤ s)
            × (s ≤ a)
            × (pick (some entries) count current now ≡ pos (index current s count))
      finish (inl (nobody, r)) = absurd (cc (nobody a one le, top))
      finish (inr (s, v, b, r)) = (
        s,
        b.positive,
        ground (arith, b.first a priority_max one, top, rank_of-le now _ v b.own),
        r,
      )
