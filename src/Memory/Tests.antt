-- ===== src/Memory/Tests.antt =====
-- The memory's theorems at concrete states.
use korus_os.Prelude.{
  ℕ, ◌+◌, ◌-◌, ◌*◌, ◌/◌, ◌≤◌, ◌<◌, ◌≡◌, ◌≢◌, refl, true, false, none, some, [], ◌∷◌, arith,
  if◌then◌else◌, inl, inr, sym, ◌∙◌,
}
use mathlib.Core.Bool.{true≢false, false≢true}
use korus_os.Prelude.Bits.{test_bit}
use korus_os.Memory.Bytes.{Bytes}
use korus_os.Memory.Heap.{
  Headers, heap_start, heap_max_size, header_size, init_heap, kmalloc, kfree,
}
use korus_os.Memory.Heap.Chain.{Block, Chain, total, alloc_ptr, alloc_blocks, free_blocks}
use korus_os.Memory.Heap.Alloc.{Refines, kmalloc-Refines}
use korus_os.Memory.Heap.Free.{kfree-Chain}
use korus_os.Memory.Heap.Live.{Fresh, kmalloc-Fresh}
use korus_os.Memory.Frames.{Frames, page_size, alloc_page, free_page, init_frames, count_frames}
use korus_os.Memory.Frames.Find.{in_use, LowestFree}
use korus_os.Memory.Frames.Alloc.{
  IsValid, Allocates, alloc_page-Allocates, init_frames-IsValid, free_page-alloc_page,
  init_frames-total,
}
use korus_os.Memory.Paging.{
  Paging, zero_entry, map_page, unmap_page, translate, init_memory, page_present,
}
use korus_os.Memory.Paging.Map.{IsSeparate, same_page}
use korus_os.Memory.Paging.Translate.{Maps, map_page-Maps, unmap_page-translate}
use korus_os.Memory.Paging.Init.{init_memory_maps}

abbrev no_headers : Headers
no_headers a = record { magic = 0; size = 0; free = false; next = 0 }

abbrev all_free : Block
all_free = record { size = heap_max_size - header_size; free = true }

abbrev heap : Headers
heap = init_heap no_headers

heap-Chain : Chain heap heap_start (all_free ∷ [])
unfolding init_heap
heap-Chain = (refl, tt)

kmalloc-Refines_example :
    Refines heap heap_start
      (alloc_ptr 100 heap_start (all_free ∷ []))
      (alloc_blocks 100 (all_free ∷ []))
      (kmalloc heap 98)
kmalloc-Refines_example =
    kmalloc-Refines heap 98 all_free [] heap-Chain (omega arith) (omega arith) (omega arith)

kmalloc-Fresh_example : Fresh heap 98 (all_free ∷ [])
kmalloc-Fresh_example =
    kmalloc-Fresh heap 98 all_free [] heap-Chain (omega arith) (omega arith) (omega arith)

kfree-Chain_example :
    Chain
      (kfree heap (heap_start + header_size))
      heap_start
      (free_blocks (heap_start + header_size) heap_start (all_free ∷ []))
    × (total (free_blocks (heap_start + header_size) heap_start (all_free ∷ []))
        ≡ total (all_free ∷ []))
kfree-Chain_example =
    kfree-Chain heap (heap_start + header_size) (all_free ∷ []) heap-Chain (omega arith) (inl refl)

abbrev counting : Bytes
counting i = i

-- 64 MB of memory
abbrev frames : Frames
frames = init_frames 0 65536

abbrev FramesLowest : ℕ → Type 0
FramesLowest a = LowestFree frames.bitmap 0 (frames.total / 32) a

frames-IsValid : IsValid frames
frames-IsValid = (init_frames-IsValid 65536).0

alloc_page-Allocates_example : Allocates frames (alloc_page frames).0 (alloc_page frames).1
alloc_page-Allocates_example = alloc_page-Allocates frames frames-IsValid

frames-total : frames.total ≡ 16384
unfolding count_frames
frames-total = init_frames-total 65536

found_frame : (alloc_page frames).0 ≢ 0
found_frame z = elim (alloc_page-Allocates frames frames-IsValid) [
  | inl (_, _, u) ↦ absurd (
      true≢false (
        sym (u 512 (omega arith) (omega (arith, frames-total)))
        ∙ (init_frames-IsValid 65536).1 512 (omega arith)))
  | inr (k, e, l, _, _, _, _, _, _, _) ↦ absurd (omega (arith, z, e, l))
]

free_page-alloc_page_example :
    let f' = free_page (alloc_page frames).1 (alloc_page frames).0 in
    ((n : ℕ) → in_use f'.bitmap n ≡ in_use frames.bitmap n) × (f'.used ≡ frames.used)
free_page-alloc_page_example = free_page-alloc_page frames frames-IsValid found_frame

count_frames_example : count_frames 65536 ≡ 16384
unfolding count_frames
count_frames_example = refl

init_memory_maps_example :
    let p = init_memory 0 65536 (λ n i. zero_entry) in
    ((w : ℕ) → w < 4 * 1024 * 1024 → translate p w ≡ some w)
    × ((p.directory 0).present ≡ true)
    × ((p.directory 0).frame * page_size ≡ 2 * 1024 * 1024)
    × (heap_start < (p.directory 0).frame * page_size)
    × ((p.directory 0).frame * page_size + page_size ≤ heap_start + heap_max_size)
init_memory_maps_example =
    init_memory_maps 65536 (λ n i. zero_entry) (omega (arith, count_frames_example))

-- Two page tables of no memory yet.
abbrev paging : Paging
paging = record { frames = frames; directory = λ i. zero_entry; tables = λ n i. zero_entry }

paging-IsSeparate : IsSeparate paging
paging-IsSeparate = record {
  counted = frames-IsValid;
  tables_used = λ d t. absurd (false≢true t);
  distinct = λ d e t. absurd (false≢true t);
}

three_present : page_present 3 ≡ true
unfolding test_bit
three_present = refl

map_page-Maps_example :
    IsSeparate (map_page paging 0x40_0000 0x80_0000 3)
    × Maps paging 0x40_0000 0x80_0000 (map_page paging 0x40_0000 0x80_0000 3)
map_page-Maps_example = map_page-Maps paging 0x40_0000 0x80_0000 3 paging-IsSeparate three_present

unmap_page-translate_example :
    translate (unmap_page (map_page paging 0x40_0000 0x80_0000 3) 0x40_0000) 0x40_0123 ≡ (
      if same_page 0x40_0000 0x40_0123
      then none
      else translate (map_page paging 0x40_0000 0x80_0000 3) 0x40_0123)
unmap_page-translate_example =
    unmap_page-translate (map_page paging 0x40_0000 0x80_0000 3) 0x40_0000 0x40_0123
      map_page-Maps_example.0
