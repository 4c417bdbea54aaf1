-- ===== src/Elf/Tests.antt =====
-- The theorems on the loader at a small file, with one segment of two pages.
use korus_os.Prelude.{
  ℕ, ◌+◌, ◌-◌, ◌<◌, ◌≡◌, ◌↔◌, refl, true, false, List, [], ◌∷◌, arith, ltb, if◌then◌else◌, add32,
  u32_mod, inl, inr, get_or,
}
use mathlib.Core.Bool.{false≢true}
use korus_os.Prelude.Bits.{test_bit, set_bit}
use korus_os.Memory.Bytes.{Bytes, in_range}
use korus_os.Memory.Frames.{
  Frames, init_frames, alloc_page, frame_find_free, find_from, find_in_word, find_clear_bit,
  reserve, count_frames, frame_set,
}
use korus_os.Memory.Frames.Alloc.{init_frames-IsValid}
use korus_os.Memory.Paging.{
  zero_entry, page_present, alloc_zeroed, map_page, write_entry, set_directory,
}
use korus_os.Memory.Paging.Map.{IsSeparate}
use korus_os.Elf.{Space, widen, alloc_cleared, load_range, map_pages, copy_file, clear_bss}
use korus_os.Elf.Format.{
  load16, load32, elf_get_phdr, e_phnum, validate_elf, p_vaddr, p_filesz, p_memsz, p_offset,
}
use korus_os.Elf.Header.{
  entry_offset, IsElf, validate_elf-IsElf, CoversAll, Within, load_range-LeastCover,
}
use korus_os.Elf.Pages.{Mapped, map_pages-Mapped}
use korus_os.Elf.Segments.{Loadable, clear_bss-copy_file}

abbrev file : List ℕ
file =
    127 ∷ 69 ∷ 76 ∷ 70 ∷ 1 ∷ 1 ∷ 1 ∷ 0 ∷ 0 ∷ 0 ∷ 0 ∷ 0 ∷ 0 ∷ 0 ∷ 0 ∷ 0 ∷ 2 ∷ 0 ∷ 3 ∷ 0 ∷ 1 ∷ 0 ∷ 0
    ∷ 0 ∷ 16 ∷ 0 ∷ 64 ∷ 0 ∷ 52 ∷ 0 ∷ 0 ∷ 0 ∷ 0 ∷ 0 ∷ 0 ∷ 0 ∷ 0 ∷ 0 ∷ 0 ∷ 0 ∷ 52 ∷ 0 ∷ 32 ∷ 0 ∷ 1 ∷ 0
    ∷ 0 ∷ 0 ∷ 0 ∷ 0 ∷ 0 ∷ 0 ∷ 1 ∷ 0 ∷ 0 ∷ 0 ∷ 84 ∷ 0 ∷ 0 ∷ 0 ∷ 0 ∷ 0 ∷ 64 ∷ 0 ∷ 0 ∷ 0 ∷ 64 ∷ 0 ∷ 4
    ∷ 0 ∷ 0 ∷ 0 ∷ 0 ∷ 24 ∷ 0 ∷ 0 ∷ 7 ∷ 0 ∷ 0 ∷ 0 ∷ 0 ∷ 16 ∷ 0 ∷ 0 ∷ 222 ∷ 173 ∷ 190 ∷ 239 ∷ []

-- The file in a buffer at 0x20_0000.
abbrev image : ℕ
image = 0x20_0000

abbrev memory : Bytes
memory a = if ltb a image then 0 else get_or file (a - image) 0

table_below : entry_offset memory image (e_phnum memory image) < u32_mod
unfolding load16 load32
table_below = omega arith

file-accepted : validate_elf memory image 88 ≡ true
unfolding validate_elf load16 load32
file-accepted = refl

validate_elf-IsElf_example : (validate_elf memory image 88 ≡ true) ↔ IsElf memory image 88
validate_elf-IsElf_example = validate_elf-IsElf memory image 88 table_below

abbrev phdr : ℕ
phdr = image + 52

loadable : Loadable memory image phdr
unfolding load32
loadable = record {
  in_memory = omega arith;
  no_wrap = omega arith;
  header_apart = inl (omega arith);
  source_apart = inr (omega arith);
}

clear_bss-copy_file_example : clear_bss (copy_file memory image phdr) phdr 0x40_0002 ≡ (
    if in_range (p_vaddr memory phdr) (p_filesz memory phdr) 0x40_0002
    then memory (add32 image (p_offset memory phdr) + (0x40_0002 - p_vaddr memory phdr))
    else if in_range (p_vaddr memory phdr) (p_memsz memory phdr) 0x40_0002
    then 0
    else memory 0x40_0002)
clear_bss-copy_file_example = clear_bss-copy_file memory image phdr 0x40_0002 loadable

-- The range of the one segment.
reported :
    load_range (e_phnum memory image) memory image 0 (0xFFFF_FFFF, 0) ≡ (0x40_0000, 0x40_1800)
unfolding load16 load32 load_range widen elf_get_phdr
reported = refl

load_range-LeastCover_example :
    let r = load_range (e_phnum memory image) memory image 0 (0xFFFF_FFFF, 0) in
    CoversAll (e_phnum memory image) memory image 0 r
    × ((s : ℕ × ℕ)
        → Within (0xFFFF_FFFF, 0) s
        → CoversAll (e_phnum memory image) memory image 0 s
        → Within r s)
load_range-LeastCover_example = load_range-LeastCover memory image

abbrev frames : Frames
frames = init_frames 0 65536

abbrev start_space : Space
start_space = record {
  paging = record { frames = frames; directory = λ i. zero_entry; tables = λ n i. zero_entry };
  store = record {
    headers = λ a. record { magic = 0; size = 0; free = false; next = 0 };
    bytes = memory;
    image_end = 0x12_0000;
  };
}

start_space-IsSeparate : IsSeparate start_space.paging
start_space-IsSeparate = record {
  counted = (init_frames-IsValid 65536).0;
  tables_used = λ d t. absurd (false≢true t);
  distinct = λ d e t. absurd (false≢true t);
}

seven_present : page_present 7 ≡ true
unfolding test_bit
seven_present = refl

two_pages : (map_pages 2 0x40_0000 7 start_space).0 ≡ true
unfolding map_pages alloc_cleared alloc_zeroed alloc_page frame_find_free find_from find_in_word
    find_clear_bit init_frames reserve count_frames frame_set test_bit set_bit map_page write_entry
    set_directory
two_pages = refl

map_pages-Mapped_example : Mapped ((map_pages 2 0x40_0000 7 start_space).1).paging 0x40_0123
map_pages-Mapped_example =
    map_pages-Mapped 1 0x40_0000 7 start_space start_space-IsSeparate seven_present two_pages
      0x40_0123 refl
