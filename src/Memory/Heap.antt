-- ===== src/Memory/Heap.antt =====
-- The kernel heap of core/kernel/memory.c: heap_block_t headers linked through memory, with the
-- first-fit kmalloc and the kfree that merges a block with the next one.
-- A header is 16 bytes (two u32, a bool with its padding, a 32-bit pointer). The headers are a
-- function from addresses, apart from the bytes that clients keep between them; no two of them overlap. Pointers are
-- numbers, 0 for NULL.
pub mod Chain
pub mod Alloc
pub mod Free
pub mod Live
pub mod Linked
use korus_os.Prelude.{
  ℕ, zero, suc, ◌+◌, ◌-◌, ◌*◌, ◌/◌, Bool, true, false, ◌&&◌, Option, none, some, leb, ◌==◌,
  if◌then◌else◌, update, add32, sub32,
}

pub record HeapBlock : Type 0 where
  pub magic : ℕ
  pub size : ℕ
  pub free : Bool
  pub next : ℕ

abbrev pub Headers : Type 0
Headers = ℕ → HeapBlock

abbrev pub heap_magic : ℕ
heap_magic = 0xCAFE_BABE

-- sizeof(heap_block_t)
abbrev pub header_size : ℕ
header_size = 16

abbrev pub heap_start : ℕ
heap_start = 0x10_0000

abbrev pub heap_max_size : ℕ
heap_max_size = 0x400_0000

-- ALIGN(x, 4) on a u32: `(x + 3) & ~3`, with the sum's wrap-around.
abbrev pub align4 : ℕ → ℕ
align4 x = add32 x 3 / 4 * 4

-- The one free block that init_memory lays over the heap. `heap_head` is `heap_start` from then on.
unfoldable pub init_heap : Headers → Headers
init_heap c =
    update c heap_start
      (record { magic = heap_magic; size = heap_max_size - header_size; free = true; next = 0 })

-- The test of the search: `block->free && block->size >= size && block->magic == HEAP_MAGIC`.
abbrev pub fits : HeapBlock → ℕ → Bool
fits b size = b.free && leb size b.size && b.magic == heap_magic

-- The two headers that the cut writes: `new_block`'s, then the size and the link of `block`.
abbrev write_halves : Headers → ℕ → ℕ → ℕ → ℕ → Headers
write_halves c block new_block size left =
    let c' =
      update c new_block
        (record { magic = heap_magic; size = left; free = true; next = (c block).next }) in
    update c' block (record (c' block) { size = size; next = new_block })

-- `if (block->size >= size + sizeof(heap_block_t) + 16)`: cut the block in two.
unfoldable pub split_block : Headers → ℕ → ℕ → Headers
split_block c block size =
    if leb (add32 size (header_size + 16)) (c block).size
    then write_halves c block (add32 block (header_size + size)) size
        (sub32 (c block).size (size + header_size))
    else c

-- What kmalloc does with the block that fits.
unfoldable pub take_block : Headers → ℕ → ℕ → ℕ × Headers
unfolding split_block
take_block c block size =
    let c' = split_block c block size in
    (add32 block header_size, update c' block (record (c' block) { free = false }))

-- `while (block) { ... block = block->next; }`. `none` means that the fuel ran out.
unfoldable pub kmalloc_from : ℕ → Headers → ℕ → ℕ → Option (ℕ × Headers)
unfolding take_block
kmalloc_from zero c size block = none
kmalloc_from (suc fuel) c size block =
    let rest = kmalloc_from fuel c size (c block).next in
    if block == 0
    then some (0, c)
    else if fits (c block) size
    then some (take_block c block size)
    else rest

-- More rounds than the heap has room for headers.
abbrev pub heap_fuel : ℕ
heap_fuel = heap_max_size / header_size + 1

unfoldable pub kmalloc : Headers → ℕ → Option (ℕ × Headers)
kmalloc c size =
    if size == 0 then some (0, c) else kmalloc_from heap_fuel c (align4 size) heap_start

-- `block->free = TRUE`
unfoldable pub mark_free : Headers → ℕ → Headers
mark_free c block = update c block (record (c block) { free = true })

-- `block->next && block->next->free && block->next->magic == HEAP_MAGIC`
unfoldable pub mergeable : Headers → ℕ → Bool
mergeable c block =
    let next = (c block).next in
    (if next == 0 then false else true) && (c next).free && (c next).magic == heap_magic

-- `block->size += sizeof(heap_block_t) + block->next->size; block->next = block->next->next;`
unfoldable pub merge_next : Headers → ℕ → Headers
merge_next c block =
    let next = (c block).next in
    update c block (record (c block) {
      size = add32 (c block).size (header_size + (c next).size);
      next = (c next).next;
    })

-- The header before the pointer decides: without the magic number nothing happens. The function of
-- headers is exact for a pointer whose header is one of the heap's or overlaps none of them; what a
-- header laid across another one reads or spoils is left out.
unfoldable pub kfree : Headers → ℕ → Headers
kfree c ptr =
    let block = sub32 ptr header_size in
    let c' = mark_free c block in
    if ptr == 0
    then c
    else if (c block).magic == heap_magic
    then (if mergeable c' block then merge_next c' block else c')
    else c
