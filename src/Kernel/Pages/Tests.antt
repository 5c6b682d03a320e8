-- ===== src/Kernel/Pages/Tests.antt =====
-- Tests of the page pool of kernel/memory.c: three pages, the first of process 1.
use spirit_fox_os.Prelude.{refl}
use spirit_fox_os.Kernel.Pages.{Pool, page_alloc, page_owner, [], pages_free, zero_page, some}
use spirit_fox_os.Prelude.{List, ◌∷◌, ◌≡◌, arith, [], suc, some, zero}
use spirit_fox_os.Kernel.State.{Task, TaskState, no_task}
use spirit_fox_os.Kernel.Pages.Accounting.{
  page_alloc-Gives, Gives, AreAccounted, page_owner-holds, Frees, pages_free-Frees,
}

abbrev pages : Pool
pages = record { owner = 1 ∷ 0 ∷ 0 ∷ []; pool = (7 ∷ []) ∷ zero_page ∷ zero_page ∷ [] }

abbrev process : Task
process = record no_task { pid = 1; state = TaskState.ready; page_limit = 2; page_count = 1 }

abbrev table : List Task
table = process ∷ []

pages-AreAccounted : AreAccounted table pages
pages-AreAccounted pid zero found =
    let (nz, lt, who) = page_owner-holds table pid 0 found in
    let one : pid ≡ 1 = ground arith in record { exact = rw one refl; limited = omega arith }
pages-AreAccounted pid (suc ti) found =
    let (nz, lt, who) = page_owner-holds table pid (suc ti) found in absurd (omega arith)

allocates :
    page_alloc table pages 1
    ≡ some (
      1,
      record process { page_count = 2 } ∷ [],
      record { owner = 1 ∷ 1 ∷ 0 ∷ []; pool = (7 ∷ []) ∷ zero_page ∷ zero_page ∷ [] },
    )
unfolding page_alloc page_owner
allocates = refl

page_alloc-Gives_example :
    Gives pages 1 1
      (record process { page_count = 2 } ∷ [])
      (record { owner = 1 ∷ 1 ∷ 0 ∷ []; pool = (7 ∷ []) ∷ zero_page ∷ zero_page ∷ [] })
page_alloc-Gives_example =
    page_alloc-Gives table pages 1 1 (record process { page_count = 2 } ∷ [])
      (record { owner = 1 ∷ 1 ∷ 0 ∷ []; pool = (7 ∷ []) ∷ zero_page ∷ zero_page ∷ [] })
      pages-AreAccounted refl allocates

pages_free-Frees_example : Frees pages 1 (pages_free table pages 1)
pages_free-Frees_example = pages_free-Frees table pages 1 pages-AreAccounted refl refl
