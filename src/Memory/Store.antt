-- ===== src/Memory/Store.antt =====
-- The memory that kmalloc's clients share: the heap's headers and the bytes between them.
pub mod Linked
use korus_os.Prelude.{
  ℕ, zero, suc, ◌+◌, ◌-◌, ◌*◌, ◌/◌, ◌%◌, Bool, true, ◌&&◌, ◌||◌, not, Option, none, some, leb, ◌==◌,
  u32_mod, update,
}
use korus_os.Memory.Frames.{page_size}
use korus_os.Memory.Paging.{Paging}
use korus_os.Memory.Bytes.{Bytes}
use korus_os.Memory.Heap.{Headers, heap_magic}
use korus_os.Memory.Heap

-- Where the linker puts the kernel.
abbrev image_start : ℕ
image_start = 0x10_0000

-- The kernel's code and variables end at `image_end`, which the linker sets.
pub record Store : Type 0 where
  pub headers : Headers
  pub bytes : Bytes
  pub image_end : ℕ

-- The `n` bytes from `a` on and the `k` bytes from `c` on have none in common.
abbrev apart : ℕ → ℕ → ℕ → ℕ → Bool
apart a n c k = leb (a + n) c || leb (c + k) a

-- No header of a block begins at one of the `n` addresses from `a` on.
unfoldable pub no_header : ℕ → Headers → ℕ → Bool
no_header zero h a = true
no_header (suc n) h a = not ((h a).magic == heap_magic) && no_header n h (a + 1)

-- None of the first `d` page tables that are present has a byte of the `n` from `a` on.
unfoldable pub no_table : ℕ → Paging → ℕ → ℕ → Bool
no_table zero p a n = true
no_table (suc d) p a n =
    (not (p.directory d).present || apart a n ((p.directory d).frame * page_size) page_size)
    && no_table d p a n

-- Whether a write of `n` bytes at `a` changes nothing but `bytes`: it meets no header of the heap, no page
-- table that is in use and no part of the kernel's image, and does not wrap around.
unfoldable pub is_plain : Store → Paging → ℕ → ℕ → Bool
is_plain s p a n =
    n == 0
    || (leb (a + n) u32_mod
        && apart a n image_start (s.image_end - image_start)
        && no_table 1024 p a n
        && no_header (n + 15) s.headers (a - 15))

-- `none` means that the search of kmalloc ran out of fuel.
abbrev pub kmalloc : Store → ℕ → Option (ℕ × Store)
kmalloc s size = elim (Heap.kmalloc s.headers size) [
  | none ↦ none
  | some (ptr, h) ↦ some (ptr, record s { headers = h })
]

abbrev pub kfree : Store → ℕ → Store
kfree s ptr = record s { headers = Heap.kfree s.headers ptr }

-- `*(u32 *)addr = value`, little-endian.
unfoldable pub store32 : Bytes → ℕ → ℕ → Bytes
store32 m addr value =
    update
      (update (update (update m addr (value % 256)) (addr + 1) (value / 256 % 256)) (addr + 2)
        (value / 65536 % 256))
      (addr + 3) (value / 16777216 % 256)
