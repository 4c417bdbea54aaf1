-- ===== src/Elf.antt =====
-- core/loader/elf_loader.c and core/include/elf.h: the loader of 32-bit ELF files.
-- A structure is read at its address, with the packed offsets of elf.h. The context is the address
-- of a caller's local, never NULL. An int is 0, or k for the code -k. Paging is off, so a segment goes to
-- the address p_vaddr itself; one that would be written over the heap's headers, a page table or the
-- kernel comes to none.
pub mod Format
pub mod Header
pub mod Segments
pub mod Pages
mod Tests
use korus_os.Prelude.{
  ℕ, zero, suc, ◌+◌, ◌-◌, ◌*◌, ◌/◌, Bool, true, false, ◌&&◌, not, Option, none, some, List, [], ◌∷◌,
  ltb, ◌==◌, if◌then◌else◌, update, add32, length,
}
use korus_os.Prelude.Bits.{test_bit}
use korus_os.Memory.Frames.{page_size}
use korus_os.Memory.Bytes.{Bytes, kmemset, kmemcpy}
use korus_os.Memory.Store.{Store, kmalloc, kfree, is_plain}
use korus_os.Memory.Paging.{Paging, alloc_zeroed, map_page}
use korus_os.Vfs.{vfs_open, vfs_read, vfs_close}
use korus_os.Vfs.Memfs.{Vfs}
use korus_os.Elf.Format.{
  e_entry, e_phnum, elf_get_phdr, p_filesz, p_flags, p_memsz, p_offset, p_type, p_vaddr,
  validate_elf,
}

-- The memory that the loader works on.
pub record Space : Type 0 where
  pub paging : Paging
  pub store : Store

pub record ElfContext : Type 0 where
  pub entry_point : ℕ
  pub load_base : ℕ
  pub load_end : ℕ
  pub valid : Bool

abbrev pub is_load : Bytes → ℕ → Bool
is_load m phdr = p_type m phdr == 1

-- One round of the loop of load_elf, for a LOAD segment.
unfoldable pub widen : Bytes → ℕ → ℕ × ℕ → ℕ × ℕ
widen m phdr (load_base, load_end) =
    let seg_end = add32 (p_vaddr m phdr) (p_memsz m phdr) in
    (
      if ltb (p_vaddr m phdr) load_base then p_vaddr m phdr else load_base,
      if ltb load_end seg_end then seg_end else load_end,
    )

-- `for (i = ...; i < hdr->e_phnum; i++)`, with the rounds left.
unfoldable pub load_range : ℕ → Bytes → ℕ → ℕ → ℕ × ℕ → ℕ × ℕ
load_range zero m image i r = r
load_range (suc n) m image i r =
    let phdr = elf_get_phdr m image i in
    load_range n m image (i + 1) (if is_load m phdr then widen m phdr r else r)

-- `page_flags`: PAGE_PRESENT and PAGE_USER, and PAGE_WRITABLE where PF_W is set.
unfoldable pub segment_flags : Bytes → ℕ → ℕ
segment_flags m phdr = if test_bit (p_flags m phdr) 1 then 7 else 5

abbrev pub page_align : ℕ → ℕ
page_align x = add32 x (page_size - 1) / page_size * page_size

abbrev pub page_start : Bytes → ℕ → ℕ
page_start m phdr = p_vaddr m phdr / page_size * page_size

-- The rounds of `for (va = vaddr; va < vend; va += PAGE_SIZE)`; both ends are multiples of a page.
unfoldable pub page_count : Bytes → ℕ → ℕ
page_count m phdr =
    (page_align (add32 (p_vaddr m phdr) (p_memsz m phdr)) - page_start m phdr) / page_size

-- alloc_page with its kmemset.
unfoldable pub alloc_cleared : Space → ℕ × Space
alloc_cleared s =
    let (phys, p) = alloc_zeroed s.paging in
    (
      phys,
      record {
        paging = p;
        store =
            if phys == 0
            then s.store
            else record (s.store) { bytes = kmemset s.store.bytes phys 0 page_size };
      },
    )

abbrev pub map_in : Space → ℕ → ℕ → ℕ → Space
map_in s va phys flags = record s { paging = map_page s.paging va phys flags }

-- The loop over the pages of a segment; false for `return -1`.
unfoldable pub map_pages : ℕ → ℕ → ℕ → Space → Bool × Space
map_pages zero va flags s = (true, s)
map_pages (suc n) va flags s =
    let (phys, s') = alloc_cleared s in
    let rest = map_pages n (va + page_size) flags (map_in s' va phys flags) in
    if phys == 0 then (false, s') else rest

-- `if (phdr->p_filesz > 0) kmemcpy(...)`
unfoldable pub copy_file : Bytes → ℕ → ℕ → Bytes
copy_file m image phdr =
    if ltb 0 (p_filesz m phdr)
    then kmemcpy m (p_vaddr m phdr) (add32 image (p_offset m phdr)) (p_filesz m phdr)
    else m

-- `if (phdr->p_memsz > phdr->p_filesz) kmemset(...)`
unfoldable pub clear_bss : Bytes → ℕ → Bytes
clear_bss m phdr =
    if ltb (p_filesz m phdr) (p_memsz m phdr)
    then kmemset m (add32 (p_vaddr m phdr) (p_filesz m phdr)) 0 (p_memsz m phdr - p_filesz m phdr)
    else m

abbrev pub bytes_of_space : Space → Bytes
bytes_of_space s = s.store.bytes

abbrev pub with_bytes : Space → Bytes → Space
with_bytes s m = record s { store = record (s.store) { bytes = m } }

-- The file's bytes go to p_vaddr itself. Whether they and the zeros, whose header is read again after the
-- copy, change nothing but plain bytes.
unfoldable pub fills_plain : Space → ℕ → ℕ → Bool
fills_plain s image phdr =
    let m = bytes_of_space s in
    let m' = copy_file m image phdr in
    let bss = p_memsz m' phdr - p_filesz m' phdr in
    is_plain s.store s.paging (p_vaddr m phdr) (p_filesz m phdr)
    && is_plain s.store s.paging (add32 (p_vaddr m' phdr) (p_filesz m' phdr)) bss

-- none where the segment would write over a header of the heap, a page table or the kernel, which the
-- source does not prevent.
abbrev pub fill_mapped : ℕ → ℕ → Bool × Space → Option (Bool × Space)
fill_mapped image phdr (false, s) = some (false, s)
fill_mapped image phdr (true, s) =
    if fills_plain s image phdr
    then some (true, with_bytes s (clear_bss (copy_file (bytes_of_space s) image phdr) phdr))
    else none

-- The body of the loop of map_elf_segments, for the program header at `phdr`.
unfoldable pub load_segment : Space → ℕ → ℕ → Option (Bool × Space)
load_segment s image phdr =
    let m = bytes_of_space s in
    if not (is_load m phdr)
    then some (true, s)
    else if p_memsz m phdr == 0
    then some (true, s)
    else fill_mapped image phdr
        (map_pages (page_count m phdr) (page_start m phdr) (segment_flags m phdr) s)

-- `for (u16 i = ...; i < hdr->e_phnum; i++)` on fuel: e_phnum is read again in each round.
unfoldable pub segments_from : ℕ → ℕ → Space → ℕ → Option (Bool × Space)
segments_from zero i s image = some (true, s)
segments_from (suc n) i s image = elim (ltb i (e_phnum (bytes_of_space s) image)) [
  | false ↦ some (true, s)
  | true ↦ elim (load_segment s image (elf_get_phdr (bytes_of_space s) image i)) [
    | none ↦ none
    | some (ok, s') ↦ elim ok [ false ↦ some (false, s') | true ↦ segments_from n (i + 1) s' image ]
  ]
]

unfoldable pub map_elf_segments : Space → ℕ → Option (Bool × Space)
map_elf_segments s image = segments_from 65536 0 s image

abbrev pub fill_context :
    ElfContext → ℕ × ℕ → ℕ → Option (Bool × Space) → Option (ℕ × ElfContext × Space)
fill_context ctx r image none = none
fill_context ctx r image (some (false, s)) = some (1, ctx, s)
fill_context ctx (load_base, load_end) image (some (true, s)) = some (
  0,
  record {
    entry_point = e_entry (bytes_of_space s) image;
    load_base = load_base;
    load_end = load_end;
    valid = true;
  },
  s,
)

unfoldable pub load_elf : Space → ℕ → ℕ → ElfContext → Option (ℕ × ElfContext × Space)
load_elf s image size ctx =
    let m = bytes_of_space s in
    let ctx' = record ctx { valid = false } in
    if not (validate_elf m image size)
    then some (2, ctx', s)
    else fill_context ctx' (load_range (e_phnum m image) m image 0 (0xFFFF_FFFF, 0)) image
        (map_elf_segments s image)

abbrev pub max_elf_size : ℕ
max_elf_size = 1024 * 1024

-- What vfs_read copies to the buffer.
unfoldable pub store_bytes : Bytes → ℕ → List ℕ → Bytes
store_bytes m a [] = m
store_bytes m a (b ∷ bs) = store_bytes (update m a b) (a + 1) bs

abbrev pub Loaded : Type 0
Loaded = ℕ × ElfContext × Vfs × Space

abbrev pub free_buffer : ℕ → Vfs → Option (ℕ × ElfContext × Space) → Option Loaded
free_buffer buffer v none = none
free_buffer buffer v (some (result, ctx, s)) =
    some (result, ctx, v, record s { store = kfree s.store buffer })

-- load_elf_from_file with the file's bytes, none for a failed read; the file is closed.
unfoldable pub load_bytes : ℕ → Option (List ℕ) → Vfs → Space → ElfContext → Option Loaded
load_bytes buffer none v s ctx = free_buffer buffer v (some (4, ctx, s))
load_bytes buffer (some []) v s ctx = free_buffer buffer v (some (4, ctx, s))
load_bytes buffer (some (b ∷ bs)) v s ctx = free_buffer buffer v (
    load_elf (with_bytes s (store_bytes (bytes_of_space s) buffer (b ∷ bs))) buffer
      (length (b ∷ bs)) ctx)

abbrev pub read_and_load : ℕ → ℕ → Vfs → Space → ElfContext → Option Loaded
read_and_load fd buffer v s ctx =
    let (bytes, v') = vfs_read v fd max_elf_size in load_bytes buffer bytes (vfs_close v' fd) s ctx

-- load_elf_from_file once the file is open and the buffer asked for. none means that kmalloc ran out
-- of fuel, or that a segment wrote over more than plain bytes.
abbrev pub with_buffer : ℕ → Vfs → Space → ElfContext → Option (ℕ × Store) → Option Loaded
with_buffer fd v s ctx none = none
with_buffer fd v s ctx (some (buffer, st)) =
    let s' = record s { store = st } in
    if buffer == 0 then some (3, ctx, vfs_close v fd, s') else read_and_load fd buffer v s' ctx

unfoldable pub load_open : ℕ → Vfs → Space → ElfContext → Option Loaded
load_open fd v s ctx = with_buffer fd v s ctx (kmalloc s.store max_elf_size)

abbrev pub after_open : Option (Option ℕ × Vfs) → Space → ElfContext → Option Loaded
after_open none s ctx = none
after_open (some (none, v)) s ctx = some (2, ctx, v, s)
after_open (some (some fd, v)) s ctx = load_open fd v s ctx

-- The outer none also stands for what vfs_open leaves undefined, which needs VFS_O_CREATE.
unfoldable pub load_elf_from_file : Option (List ℕ) → Vfs → Space → ElfContext → Option Loaded
load_elf_from_file none v s ctx = some (1, ctx, v, s)
load_elf_from_file (some path) v s ctx = after_open (vfs_open v (some path) 1) s ctx
