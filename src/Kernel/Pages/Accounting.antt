-- ===== src/Kernel/Pages/Accounting.antt =====
-- The page counts of kernel/memory.c are right, and within the limits.
use spirit_fox_os.Prelude.{
  ℕ, zero, suc, ◌+◌, ◌≤◌, ◌<◌, ◌≡◌, ◌≢◌, refl, sym, ap, ◌∙◌, Bool, false, leb, ◌==◌, if◌then◌else◌,
  List, [], ◌∷◌, get_or, modify, set, map, find_index?, find_from, some, count_if, arith, length,
  find_index?-get_or, Bool-cases, Option-cases, inl, inr, get_or-modify_self, get_or-set_self,
  get_or-modify_ne, get_or-map_fix,
}
use spirit_fox_os.Kernel.State.{Task, no_task}
use spirit_fox_os.Kernel.Pages.{
  Pool, page_owner, page_alloc, pages_free, free_pages, forget_count, holds_pid, bad_pid, zero_page,
}

-- The pages of a process.
abbrev pub owned : Pool → ℕ → ℕ
owned p pid = count_if (λ o. o == pid) p.owner

-- What `page_owner` finds for a process has the right count, within its limit.
pub record IsAccounted (tasks : List Task) (p : Pool) (pid ti : ℕ) : Type 0 where
  pub exact : (get_or tasks ti no_task).page_count ≡ owned p pid
  pub limited : (get_or tasks ti no_task).page_count ≤ (get_or tasks ti no_task).page_limit

abbrev pub AreAccounted : List Task → Pool → Type 0
AreAccounted tasks p = (pid ti : ℕ) → page_owner tasks pid ≡ some ti → IsAccounted tasks p pid ti

count_if-set :
    (xs : List ℕ) (i v pid : ℕ)
    → i < length xs
    → count_if (λ o. o == pid) (set xs i v) + (if get_or xs i 0 == pid then 1 else 0)
      ≡ count_if (λ o. o == pid) xs + (if v == pid then 1 else 0)
count_if-set [] i v pid lt = absurd (omega arith)
count_if-set (x ∷ xs) zero v pid lt = omega arith
count_if-set (x ∷ xs) (suc i) v pid lt = omega (arith, count_if-set xs i v pid (omega arith))

-- A change that keeps the processes' identity keeps the search.
find_from-modify :
    (q : Task → Bool) (i ti : ℕ) (f : Task → Task) (ts : List Task)
    → ((t : Task) → q (f t) ≡ q t)
    → find_from q i (modify ti f ts) ≡ find_from q i ts
find_from-modify q i ti f [] h = refl
find_from-modify q i zero f (t ∷ ts) h = rw (h t)
find_from-modify q i (suc ti) f (t ∷ ts) h = rw (find_from-modify q (suc i) ti f ts h)

find_from-map :
    (q : Task → Bool) (i : ℕ) (f : Task → Task) (ts : List Task)
    → ((t : Task) → q (f t) ≡ q t)
    → find_from q i (map f ts) ≡ find_from q i ts
find_from-map q i f [] h = refl
find_from-map q i f (t ∷ ts) h = rw (h t, find_from-map q (suc i) f ts h)

abbrev charged : ℕ → List Task → List Task
charged ti tasks = modify ti (λ x. record x { page_count = x.page_count + 1 }) tasks

abbrev taken : ℕ → ℕ → Pool → Pool
taken page pid p = record { owner = set p.owner page pid; pool = set p.pool page zero_page }

some-inj {ℓ} : {A : Type ℓ} (a b : A) → some a ≡ some b → a ≡ b
some-inj a b e = cc e

-- How a call that hands out a page goes.
record Allocates (tasks : List Task) (p : Pool) (pid : ℕ) (r : ℕ × List Task × Pool) : Type 0 where
  ti : ℕ
  i : ℕ
  payer : page_owner tasks pid ≡ some ti
  below : (get_or tasks ti no_task).page_count < (get_or tasks ti no_task).page_limit
  free : find_index? (λ o. o == 0) p.owner ≡ some i
  result : (i, charged ti tasks, taken i pid p) ≡ r

page_alloc-Allocates :
    (tasks : List Task) (p : Pool) (pid : ℕ) (r : ℕ × List Task × Pool)
    → page_alloc tasks p pid ≡ some r
    → Allocates tasks p pid r
unfolding page_alloc
page_alloc-Allocates tasks p pid r e = elim (Option-cases (page_owner tasks pid)) [
  | inl nobody ↦ absurd (cc (rw (nobody, page_alloc) at e))
  | inr (ti, payer) ↦
      let t = get_or tasks ti no_task in
      elim (Bool-cases (leb t.page_limit t.page_count)) [
        | inl full ↦ absurd (cc (rw (payer, page_alloc, full) at e))
        | inr room ↦ elim (Option-cases (find_index? (λ (o : ℕ). o == 0) p.owner)) [
          | inl no_page ↦ absurd (cc (rw (payer, page_alloc, room, no_page) at e))
          | inr (i, free) ↦ record {
            ti = ti;
            i = i;
            payer = payer;
            below = ground arith;
            free = free;
            result =
                some-inj (i, charged ti tasks, taken i pid p) r
                  (rw (payer, page_alloc, room, free) at e);
          }
        ]
      ]
]

-- Who the search finds has the identity asked for.
pub page_owner-holds :
    (tasks : List Task) (pid ti : ℕ)
    → page_owner tasks pid ≡ some ti
    → (pid ≢ 0) × (ti < length tasks) × ((get_or tasks ti no_task).pid ≡ pid)
unfolding page_owner
page_owner-holds tasks pid ti e = elim (Bool-cases (bad_pid pid)) [
  | inl bad ↦ absurd (cc (rw bad at e))
  | inr fine ↦
      let (lt, hit) = find_index?-get_or (holds_pid pid) ti tasks no_task (rw fine at e) in
      (ground arith, lt, ground (arith, hit))
]

page_owner-charged :
    (tasks : List Task) (pid ti : ℕ) → page_owner (charged ti tasks) pid ≡ page_owner tasks pid
unfolding page_owner
page_owner-charged tasks pid ti = elim (Bool-cases (bad_pid pid)) [
  | inl bad ↦ rw bad
  | inr fine ↦ rw fine (
      find_from-modify (holds_pid pid) 0 ti (λ x. record x { page_count = x.page_count + 1 }) tasks
        (λ t. refl))
]

-- What `page_alloc` gives: the page was free, is now the caller's and zeroed, and the counts hold.
pub record Gives (p : Pool) (pid page : ℕ) (tasks' : List Task) (p' : Pool) : Type 0 where
  pub was_free : get_or p.owner page 0 ≡ 0
  pub is_owned : get_or p'.owner page 0 ≡ pid
  pub is_zero : get_or p'.pool page [] ≡ zero_page
  pub counts : AreAccounted tasks' p'

charged-IsAccounted :
    (tasks : List Task) (p : Pool) (pid ti i other to : ℕ)
    → AreAccounted tasks p
    → page_owner tasks pid ≡ some ti
    → (get_or tasks ti no_task).page_count < (get_or tasks ti no_task).page_limit
    → i < length p.owner
    → get_or p.owner i 0 ≡ 0
    → page_owner tasks other ≡ some to
    → IsAccounted (charged ti tasks) (taken i pid p) other to
charged-IsAccounted tasks p pid ti i other to h payer room lt free found =
    let (nz, tlt, same) = page_owner-holds tasks pid ti payer in
    let (nz', olt, same') = page_owner-holds tasks other to found in
    let not_other : (get_or p.owner i 0 == other) ≡ false = ground arith in
    let counted = rw not_other at (count_if-set p.owner i pid other lt) in
    let before = h other to found in
    elim (Bool-cases (pid == other)) [
      | inl same_pid ↦
          let is_pid : other ≡ pid = ground arith in
          let is_ti : to ≡ ti = some-inj to ti (sym found ∙ rw is_pid payer) in
          let here =
            get_or-modify_self ti (λ (x : Task). record x { page_count = x.page_count + 1 }) tasks
              no_task tlt in
          let exact : (get_or tasks ti no_task).page_count ≡ owned p other =
            rw (sym is_ti) before.exact in
          record {
            exact = rw is_ti (rw here (omega (arith, exact, rw same_pid at counted)));
            limited = rw is_ti (rw here (omega arith));
          }
      | inr other_pid ↦
          let there =
            get_or-modify_ne ti to (λ (x : Task). record x { page_count = x.page_count + 1 }) tasks
              no_task
              (λ q.
                absurd
                  (ground (arith, sym same ∙ ap (λ j. (get_or tasks j no_task).pid) q ∙ same'))) in
          record {
            exact = rw there (omega (arith, before.exact, rw other_pid at counted));
            limited = rw there before.limited;
          }
    ]

-- With exact page counts within their limits, and an owner for each page: if `page_alloc` hands out a
-- page, it was free, is now zeroed and owned by the process, and the counts are again exact and
-- within their limits.
pub page_alloc-Gives :
    (tasks : List Task) (p : Pool) (pid page : ℕ) (tasks' : List Task) (p' : Pool)
    → AreAccounted tasks p
    → length p.owner ≡ length p.pool
    → page_alloc tasks p pid ≡ some (page, tasks', p')
    → Gives p pid page tasks' p'
page_alloc-Gives tasks p pid page tasks' p' h same e =
    let a = page_alloc-Allocates tasks p pid (page, tasks', p') e in
    let (lt, hit) = find_index?-get_or (λ (o : ℕ). o == 0) a.i p.owner 0 a.free in
    let free : get_or p.owner a.i 0 ≡ 0 = ground arith in
    let is_page : a.i ≡ page = ap (λ (x : ℕ × List Task × Pool). x.0) a.result in
    let is_tasks : charged a.ti tasks ≡ tasks' = ap (λ (x : ℕ × List Task × Pool). x.1) a.result in
    let is_pool : taken a.i pid p ≡ p' = ap (λ (x : ℕ × List Task × Pool). x.2) a.result in
    record {
      was_free = rw (sym is_page) free;
      is_owned = rw (sym is_page, sym is_pool) (get_or-set_self p.owner a.i pid 0 lt);
      is_zero =
          rw (sym is_page, sym is_pool)
            (get_or-set_self p.pool a.i zero_page [] (rw (sym same) lt));
      counts = λ other to found.
          rw (sym is_tasks, sym is_pool)
            (charged-IsAccounted tasks p pid a.ti a.i other to h a.payer a.below lt free
              (sym (page_owner-charged tasks other a.ti) ∙ rw is_tasks found));
    }

owner-free_pages :
    (pid : ℕ) (os : List ℕ) (pages : List (List ℕ))
    → (free_pages pid os pages).0 ≡ map (λ (o : ℕ). if o == pid then 0 else o) os
unfolding free_pages
owner-free_pages pid [] pages = refl
owner-free_pages pid (o ∷ os) [] = ap (◌∷◌ (if o == pid then 0 else o)) (owner-free_pages pid os [])
owner-free_pages pid (o ∷ os) (page ∷ pages) =
    ap (◌∷◌ (if o == pid then 0 else o)) (owner-free_pages pid os pages)

pages-free_pages :
    (pid j : ℕ) (os : List ℕ) (pages : List (List ℕ))
    → pid ≢ 0
    → length os ≡ length pages
    → get_or os j 0 ≡ pid
    → get_or (free_pages pid os pages).1 j [] ≡ zero_page
unfolding free_pages
pages-free_pages pid j [] pages nz same e = absurd (nz (sym e))
pages-free_pages pid j (o ∷ os) [] nz same e = absurd (omega (arith, same))
pages-free_pages pid zero (o ∷ os) (page ∷ pages) nz same e = ground arith
pages-free_pages pid (suc j) (o ∷ os) (page ∷ pages) nz same e =
    pages-free_pages pid j os pages nz (omega (arith, same)) e

count_if-freed_self :
    (pid : ℕ) (os : List ℕ)
    → pid ≢ 0
    → count_if (λ o. o == pid) (map (λ (o : ℕ). if o == pid then 0 else o) os) ≡ 0
count_if-freed_self pid [] h = refl
count_if-freed_self pid (o ∷ os) h = ground (arith, count_if-freed_self pid os h)

count_if-freed_other :
    (pid other : ℕ) (os : List ℕ)
    → other ≢ 0
    → other ≢ pid
    → count_if (λ o. o == other) (map (λ (o : ℕ). if o == pid then 0 else o) os)
      ≡ count_if (λ o. o == other) os
count_if-freed_other pid other [] h ne = refl
count_if-freed_other pid other (o ∷ os) h ne =
    ground (arith, count_if-freed_other pid other os h ne)

page_owner-forgotten :
    (tasks : List Task) (pid other : ℕ)
    → page_owner (map (forget_count pid) tasks) other ≡ page_owner tasks other
unfolding page_owner
page_owner-forgotten tasks pid other = elim (Bool-cases (bad_pid other)) [
  | inl bad ↦ rw bad
  | inr fine ↦
      rw fine (find_from-map (holds_pid other) 0 (forget_count pid) tasks (λ t. ground arith))
]

-- What `pages_free` leaves: no page of the process, every page it had cleared, and right counts.
pub record Frees (p : Pool) (pid : ℕ) (r : List Task × Pool) : Type 0 where
  pub none_left : owned r.1 pid ≡ 0
  pub others : (other : ℕ) → other ≢ 0 → other ≢ pid → owned r.1 other ≡ owned p other
  pub is_clear : (page : ℕ) → get_or p.owner page 0 ≡ pid → get_or r.1.pool page [] ≡ zero_page
  pub counts : AreAccounted r.0 r.1

forgotten-IsAccounted :
    (tasks : List Task) (p : Pool) (pid other to : ℕ) (p' : Pool)
    → AreAccounted tasks p
    → owned p' pid ≡ 0
    → (other ≢ pid → owned p' other ≡ owned p other)
    → page_owner tasks other ≡ some to
    → IsAccounted (map (forget_count pid) tasks) p' other to
forgotten-IsAccounted tasks p pid other to p' h cleared kept found =
    let (nz, lt, same) = page_owner-holds tasks other to found in
    let before = h other to found in
    let t = get_or tasks to no_task in
    let moved = get_or-map_fix (forget_count pid) tasks to no_task (ground arith) in
    elim (Bool-cases (t.pid == pid)) [
      | inl mine ↦ record {
        exact =
            rw (moved, mine) (let is_pid : other ≡ pid = ground arith in rw is_pid (sym cleared));
        limited = rw (moved, mine) (omega arith);
      }
      | inr theirs ↦ record {
        exact = rw (moved, theirs) (before.exact ∙ sym (kept (λ q. absurd (ground arith))));
        limited = rw (moved, theirs) before.limited;
      }
    ]

-- With exact page counts within their limits, and an owner for each page: `pages_free` of an
-- identifier in range leaves no page of it, clears every page it had, keeps the number of pages of
-- all other processes, and the counts are again exact and within their limits.
pub pages_free-Frees :
    (tasks : List Task) (p : Pool) (pid : ℕ)
    → AreAccounted tasks p
    → length p.owner ≡ length p.pool
    → bad_pid pid ≡ false
    → Frees p pid (pages_free tasks p pid)
unfolding pages_free
pages_free-Frees tasks p pid h same fine =
    let nz : pid ≢ 0 = ground arith in
    let owners = owner-free_pages pid p.owner p.pool in
    let gone = count_if-freed_self pid p.owner nz in
    let kept = λ (other : ℕ) (ne0 : other ≢ 0) (ne : other ≢ pid).
      count_if-freed_other pid other p.owner ne0 ne in
    record {
      none_left = rw (pages_free, fine, owners) gone;
      others = λ other ne0 ne. rw (pages_free, fine, owners) (kept other ne0 ne);
      is_clear =
          λ page e. rw (pages_free, fine) (pages-free_pages pid page p.owner p.pool nz same e);
      counts = λ other to found.
          let before =
            sym (page_owner-forgotten tasks pid other) ∙ rw (pages_free, fine) at found in
          let (nz', lt, who) = page_owner-holds tasks other to before in
          rw (pages_free, fine)
            (forgotten-IsAccounted tasks p pid other to
              (record {
                owner = (free_pages pid p.owner p.pool).0;
                pool = (free_pages pid p.owner p.pool).1;
              })
              h (rw owners gone) (λ ne. rw owners (kept other nz' ne)) before);
    }
