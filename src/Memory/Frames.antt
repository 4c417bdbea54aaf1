-- ===== src/Memory/Frames.antt =====
-- The bitmap of physical frames in core/kernel/memory.c: one bit for each page of 4 KB.
-- The array frame_bitmap is a function from word indices. Beyond its 8192 words lies memory that is
-- not its own; the guards and the bounds of the callers decide whether it is reached.
pub mod Find
pub mod Alloc
use korus_os.Prelude.{
  ℕ, zero, suc, ◌+◌, ◌*◌, ◌/◌, ◌%◌, Bool, Option, none, some, ltb, ◌==◌, if◌then◌else◌, update,
  add32, sub32, u32_mod,
}
use korus_os.Prelude.Bits.{test_bit, set_bit, clear_bit}

abbrev pub page_size : ℕ
page_size = 4096

abbrev pub max_frames : ℕ
max_frames = 256 * 1024

-- The first 2 MB, for the kernel.
abbrev pub reserved_frames : ℕ
reserved_frames = 2 * 1024 * 1024 / page_size

abbrev pub Bitmap : Type 0
Bitmap = ℕ → ℕ

-- The static variables frame_bitmap, total_frames, used_frames and mem_total_kb.
pub record Frames : Type 0 where
  pub bitmap : Bitmap
  pub total : ℕ
  pub used : ℕ
  pub mem_total_kb : ℕ

unfoldable pub frame_set : Bitmap → ℕ → Bitmap
frame_set m addr =
    let frame = addr / page_size in update m (frame / 32) (set_bit (m (frame / 32)) (frame % 32))

unfoldable pub frame_clear : Bitmap → ℕ → Bitmap
frame_clear m addr =
    let frame = addr / page_size in update m (frame / 32) (clear_bit (m (frame / 32)) (frame % 32))

unfoldable pub frame_test : Bitmap → ℕ → Bool
frame_test m addr = let frame = addr / page_size in test_bit (m (frame / 32)) (frame % 32)

-- `for (j = ...; j < 32; j++) if (!(word & (1 << j)))`, with the rounds left.
unfoldable pub find_clear_bit : ℕ → ℕ → ℕ → Option ℕ
find_clear_bit zero word j = none
find_clear_bit (suc n) word j =
    let rest = find_clear_bit n word (j + 1) in if test_bit word j then rest else some j

-- The inner loop at word `i`, which a full word skips.
unfoldable pub find_in_word : ℕ → Option ℕ
unfolding find_clear_bit
find_in_word word = if word == 0xFFFF_FFFF then none else find_clear_bit 32 word 0

-- `for (i = ...; i < total_frames / 32; i++)`, with the rounds left; 0 if no frame is free.
unfoldable pub find_from : ℕ → Bitmap → ℕ → ℕ
find_from zero m i = 0
find_from (suc n) m i =
    let rest = find_from n m (i + 1) in
    elim (find_in_word (m i)) [ some j ↦ (i * 32 + j) * page_size | none ↦ rest ]

unfoldable pub frame_find_free : Frames → ℕ
frame_find_free f = find_from (f.total / 32) f.bitmap 0

-- alloc_page once the frame is found.
abbrev pub alloc_at : Frames → ℕ → ℕ × Frames
alloc_at f frame =
    if frame == 0
    then (0, f)
    else (frame, record f { bitmap = frame_set f.bitmap frame; used = add32 f.used 1 })

-- alloc_page but for its kmemset of the page, which stands with the memory that is cleared.
unfoldable pub alloc_page : Frames → ℕ × Frames
alloc_page f = alloc_at f (frame_find_free f)

unfoldable pub free_page : Frames → ℕ → Frames
free_page f addr =
    if ltb addr (2 * 1024 * 1024)
    then f
    else if frame_test f.bitmap addr
    then record f { bitmap = frame_clear f.bitmap addr; used = sub32 f.used 1 }
    else f

-- `for (i = ...; i < reserved_frames; i++) { frame_set(i * PAGE_SIZE); used_frames++; }`
unfoldable pub reserve : ℕ → ℕ → Frames → Frames
reserve zero i f = f
reserve (suc n) i f =
    reserve n (i + 1)
      (record f { bitmap = frame_set f.bitmap (i * page_size); used = add32 f.used 1 })

-- The number of frames that init_memory counts: the product wraps, and the bitmap's size caps it.
unfoldable pub count_frames : ℕ → ℕ
count_frames mem_upper_kb =
    let n = mem_upper_kb * 1024 % u32_mod / page_size in if ltb max_frames n then max_frames else n

-- The part of init_memory that sets the frames up. It does not reset used_frames, which is an argument.
unfoldable pub init_frames : ℕ → ℕ → Frames
init_frames used mem_upper_kb = reserve reserved_frames 0 (record {
  bitmap = λ i. 0;
  total = count_frames mem_upper_kb;
  used = used;
  mem_total_kb = mem_upper_kb;
})

pub record MemoryInfo : Type 0 where
  pub total_kb : ℕ
  pub used_kb : ℕ
  pub free_kb : ℕ
  pub total_pages : ℕ
  pub used_pages : ℕ
  pub free_pages : ℕ

unfoldable pub get_memory_info : Frames → MemoryInfo
get_memory_info f = record {
  total_kb = f.mem_total_kb;
  total_pages = f.total;
  used_pages = f.used;
  free_pages = sub32 f.total f.used;
  used_kb = f.used * (page_size / 1024) % u32_mod;
  free_kb = sub32 f.total f.used * (page_size / 1024) % u32_mod;
}
