-- ===== src/Kernel/Pages.antt =====
-- kernel/memory.c: the private page pool. A page is named by its index in the pool.
pub mod Accounting
mod Tests
use spirit_fox_os.Prelude.{
  ℕ, ◌+◌, ◌-◌, ◌^◌, Bool, true, false, ltb, leb, ◌==◌, not, ◌&&◌, ◌||◌, if◌then◌else◌, List, get_or,
  modify, set, map, find_index?, Option, none, some, replicate, count_if, ◌∷◌, [],
}
use spirit_fox_os.Kernel.State.{Task, TaskState, is_dead, no_task, page_limit_max}

-- `owner` and `pool`; an owner of 0 marks a free page.
pub record Pool : Type 0 where
  pub owner : List ℕ
  pub pool : List (List ℕ)

abbrev pub page_size : ℕ
page_size = 4096

pub zero_page : List ℕ
zero_page = replicate page_size 0

abbrev pub bad_pid : ℕ → Bool
bad_pid pid = pid == 0 || ltb (2 ^ 31 - 1) pid

-- EMPTY, READY or BLOCKED
abbrev pub holds_pid : ℕ → Task → Bool
holds_pid pid t = t.pid == pid && not (is_dead t.state)

unfoldable pub page_owner : List Task → ℕ → Option ℕ
page_owner tasks pid = if bad_pid pid then none else find_index? (holds_pid pid) tasks

-- The page, and the tables after the call; `none` is a null pointer, and then nothing has changed.
unfoldable pub page_alloc : List Task → Pool → ℕ → Option (ℕ × List Task × Pool)
page_alloc tasks p pid = elim (page_owner tasks pid) [
  | none ↦ none
  | some ti ↦
      let t = get_or tasks ti no_task in
      if leb t.page_limit t.page_count then none else elim (find_index? (λ o. o == 0) p.owner) [
        | none ↦ none
        | some i ↦ some (
          i,
          modify ti (λ x. record x { page_count = x.page_count + 1 }) tasks,
          record { owner = set p.owner i pid; pool = set p.pool i zero_page },
        )
      ]
]

-- Both loops over the pages that are left: the page is cleared, and it is free.
free_pages : ℕ → List ℕ → List (List ℕ) → List ℕ × List (List ℕ)
free_pages pid [] pages = ([], pages)
free_pages pid (o ∷ os) [] =
    let (rest, pages) = free_pages pid os [] in ((if o == pid then 0 else o) ∷ rest, pages)
free_pages pid (o ∷ os) (page ∷ pages) =
    let (rest, pages') = free_pages pid os pages in
    ((if o == pid then 0 else o) ∷ rest, (if o == pid then zero_page else page) ∷ pages')

abbrev forget_count : ℕ → Task → Task
forget_count pid t = if t.pid == pid then record t { page_count = 0 } else t

unfoldable pub pages_free : List Task → Pool → ℕ → List Task × Pool
unfolding free_pages
pages_free tasks p pid =
    if bad_pid pid
    then (tasks, p)
    else (let (owner, pool) = free_pages pid p.owner p.pool in
        (map (forget_count pid) tasks, record { owner = owner; pool = pool }))
