-- ===== src/Memory/Paging.antt =====
-- The page directory and page tables of core/kernel/memory.c. The tables lie in frames that
-- alloc_page hands out; `tables n` is frame n read as a page_table_t. Of a page_entry_t the fields
-- that the kernel writes are kept; all others stay as kmemset left them, 0.
pub mod Map
pub mod Translate
pub mod Init
use korus_os.Prelude.{
  ℕ, zero, suc, ◌+◌, ◌*◌, ◌/◌, ◌%◌, Bool, true, false, ◌&&◌, Option, none, some, ◌==◌,
  if◌then◌else◌, update,
}
use korus_os.Prelude.Bits.{test_bit}
use korus_os.Memory.Frames.{Frames, page_size, alloc_page, init_frames}

pub record PageEntry : Type 0 where
  pub present : Bool
  pub writable : Bool
  pub user : Bool
  pub frame : ℕ

abbrev pub zero_entry : PageEntry
zero_entry = record { present = false; writable = false; user = false; frame = 0 }

pub record Paging : Type 0 where
  pub frames : Frames
  pub directory : ℕ → PageEntry
  pub tables : ℕ → ℕ → PageEntry

-- The bits PAGE_PRESENT, PAGE_WRITABLE and PAGE_USER of `flags`.
abbrev pub page_present : ℕ → Bool
page_present flags = test_bit flags 0

abbrev pub page_writable : ℕ → Bool
page_writable flags = test_bit flags 1

abbrev pub page_user : ℕ → Bool
page_user flags = test_bit flags 2

-- `virt >> 22` and `(virt >> 12) & 0x3FF`
abbrev pub dir_index : ℕ → ℕ
dir_index virt = virt / 0x40_0000

abbrev pub table_index : ℕ → ℕ
table_index virt = virt / 0x1000 % 0x400

-- `kmemset((void *)frame, 0, PAGE_SIZE)` on the page that alloc_page found.
abbrev pub zero_page : Paging → ℕ → Frames → ℕ × Paging
zero_page p a f =
    if a == 0
    then (0, record p { frames = f })
    else (a, record p { frames = f; tables = update p.tables (a / page_size) (λ i. zero_entry) })

-- alloc_page with its kmemset.
unfoldable pub alloc_zeroed : Paging → ℕ × Paging
alloc_zeroed p = let (a, f) = alloc_page p.frames in zero_page p a f

-- The second half of map_page: the entry in the table that the directory entry names.
unfoldable pub write_entry : Paging → ℕ → ℕ → ℕ → Paging
write_entry p virt phys flags =
    let t = (p.directory (dir_index virt)).frame in
    record p {
      tables = update p.tables t (
          update (p.tables t) (table_index virt) (record {
            frame = phys / 0x1000;
            present = page_present flags;
            writable = page_writable flags;
            user = page_user flags;
          }));
    }

-- The first half: `dir_entry` gets a new table.
unfoldable pub set_directory : Paging → ℕ → ℕ → ℕ → Paging
set_directory p virt new_table flags = record p {
  directory = update p.directory (dir_index virt) (record {
    frame = new_table / 0x1000;
    present = true;
    writable = true;
    user = page_user flags;
  });
}

-- Without a frame for a new table map_page returns and maps nothing.
unfoldable pub map_page : Paging → ℕ → ℕ → ℕ → Paging
unfolding write_entry set_directory
map_page p virt phys flags =
    let (new_table, q) = alloc_zeroed p in
    if (p.directory (dir_index virt)).present
    then write_entry p virt phys flags
    else if new_table == 0
    then q
    else write_entry (set_directory q virt new_table flags) virt phys flags

-- `entry->present = 0`, in the table that the directory entry names.
unfoldable pub clear_present : Paging → ℕ → Paging
clear_present p virt =
    let t = (p.directory (dir_index virt)).frame in
    record p {
      tables = update p.tables t (
          update (p.tables t) (table_index virt)
            (record (p.tables t (table_index virt)) { present = false }));
    }

-- unmap_page but for the invlpg instruction.
unfoldable pub unmap_page : Paging → ℕ → Paging
unmap_page p virt = if (p.directory (dir_index virt)).present then clear_present p virt else p

-- `for (addr = ...; addr < 4 * 1024 * 1024; addr += PAGE_SIZE) map_page(addr, addr, 3);`
unfoldable pub identity_map : ℕ → ℕ → Paging → Paging
identity_map zero addr p = p
identity_map (suc n) addr p = identity_map n (addr + page_size) (map_page p addr addr 3)

-- init_memory, from the used_frames before it: the frames, an empty directory, and the first 4 MB mapped to themselves. (The heap
-- that it also sets up stands in Memory/Heap.)
unfoldable pub init_memory : ℕ → ℕ → (ℕ → ℕ → PageEntry) → Paging
init_memory used mem_upper_kb tables = identity_map 1024 0 (record {
  frames = init_frames used mem_upper_kb;
  directory = λ i. zero_entry;
  tables = tables;
})

-- Where the processor finds a virtual address: through both levels, if both entries are present.
unfoldable pub translate : Paging → ℕ → Option ℕ
translate p virt =
    let d = p.directory (dir_index virt) in
    let e = p.tables d.frame (table_index virt) in
    if d.present && e.present then some (e.frame * page_size + virt % page_size) else none
