-- ===== src/Mem/Virt/Kernel.antt =====
-- src/mem/virt.c over src/mem/phys.c and accounting.c: the page-fault handler with the physical allocator of
-- Mem.Phys as the `Frames` that it calls.
use mathlib.Core.List.{Mem}
use tomato.Base.{
  ℕ, ◌+◌, ◌-◌, ◌%◌, ◌≤◌, ◌≡◌, Option, none, Run, ok, halt, ◌>>=◌, Err, internal_error,
}
use tomato.Mem.Accounting.{reserve, unreserve}
use tomato.Mem.Phys.{Phys, alloc, alloc_reserved, free, page_level}
use tomato.Mem.Virt.{Frames}

-- The allocator after a call: where an assertion of it has failed, no page is there and it stays so.
abbrev pub handed : Run (Option ℕ × Phys) → Option ℕ × Run Phys
handed (ok (page, s)) = (page, ok s)
handed halt = (none, halt)

abbrev pub reserve_in : ℕ → Run Phys → Err × Run Phys
reserve_in n (ok s) = let (err, acct) = reserve n s.acct in (err, ok (record s { acct = acct }))
reserve_in n halt = (internal_error, halt)

-- The calls that src/mem/virt.c makes.
abbrev pub phys_frames : Frames (Run Phys)
phys_frames = record {
  phys_alloc_page = λ m. handed (m >>= alloc 4096);
  phys_alloc_reserved_page = λ m. handed (m >>= alloc_reserved 4096);
  phys_free_page = λ page m. m >>= free page 4096;
  mem_acct_reserve = reserve_in;
  mem_acct_unreserve =
      λ n m. m >>= λ s. unreserve n s.acct >>= λ acct. ok (record s { acct = acct });
}

-- The free pages, reserved ones among them.
abbrev pub pages_left : Run Phys → ℕ
pages_left (ok s) = s.acct.available + s.acct.reserved
pages_left halt = 0

-- The free blocks of whole pages are aligned in the direct map.
abbrev pub IsPaged : (base : ℕ) → Phys → Type 0
IsPaged base s = (k b : ℕ) → page_level ≤ k → Mem b (s.levels k) → (b - base) % 4096 ≡ 0
