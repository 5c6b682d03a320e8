-- ===== src/Kernel/Sched.antt =====
-- kernel/sched_policy.c: the choice of the next task, by priority with aging, round robin among
-- equals.
pub mod Fairness
mod Tests
use spirit_fox_os.Prelude.{
  ℕ, zero, suc, ◌+◌, ◌-◌, ◌/◌, ◌%◌, Bool, true, false, ◌&&◌, ◌||◌, not, ltb, leb, ◌==◌,
  if◌then◌else◌, ℤ, pos, negsuc, minus_one, List, get_elem?, Option, none, some,
}

abbrev pub max_tasks : ℕ
max_tasks = 12

abbrev pub priority_max : ℕ
priority_max = 3

abbrev pub priority_aging_ticks : ℕ
priority_aging_ticks = 4

pub record SchedEntry : Type 0 where
  pub ready_since : ℕ
  pub priority : ℕ
  pub ready : ℕ

-- `selected` and `best` of the loop.
pub record Choice : Type 0 where
  pub selected : ℤ
  pub best : ℕ

abbrev pub is_negative : ℤ → Bool
is_negative (pos n) = false
is_negative (negsuc n) = true

-- current < -1 || current >= count
abbrev pub bad_current : ℤ → ℕ → Bool
bad_current (pos c) count = leb count c
bad_current (negsuc zero) count = false
bad_current (negsuc (suc n)) count = true

-- (current + step) % count, for current >= -1 and step >= 1
abbrev pub index : ℤ → ℕ → ℕ → ℕ
index (pos c) step count = (c + step) % count
index (negsuc n) step count = (step - suc n) % count

pub eligible : SchedEntry → Bool
eligible e = not (e.ready == 0) && leb e.priority priority_max

pub score : ℕ → SchedEntry → ℕ
score now e =
    let age = if leb e.ready_since now then now - e.ready_since else 0 in
    let boost = age / priority_aging_ticks in
    if leb (priority_max - e.priority) boost then priority_max else e.priority + boost

-- One round of the loop at the entry with index `i`.
consider : ℕ → ℕ → Option SchedEntry → Choice → Choice
consider now i none ch = ch
consider now i (some e) ch =
    if eligible e
    then (if is_negative ch.selected || ltb ch.best (score now e)
        then record { selected = pos i; best = score now e }
        else ch)
    else ch

-- The rounds that are left, from `step` on.
scan : List SchedEntry → ℕ → ℤ → ℕ → ℕ → ℕ → Choice → Choice
scan entries count current now zero step ch = ch
scan entries count current now (suc rounds) step ch =
    let i = index current step count in
    scan entries count current now rounds (step + 1) (consider now i (get_elem? entries i) ch)

-- `entries` is `none` for a null pointer.
unfoldable pub pick : Option (List SchedEntry) → ℕ → ℤ → ℕ → ℤ
unfolding scan consider eligible score
pick none count current now = minus_one
pick (some entries) count current now =
    if count == 0 || ltb max_tasks count || bad_current current count
    then minus_one
    else (scan entries count current now count 1
        (record { selected = minus_one; best = 0 })).selected
