-- ===== src/Memory/Heap/Linked.antt =====
-- What every call of kmalloc leaves of the heap: the linked headers are those of some list of blocks
-- over the bytes that init_memory gave.
use korus_os.Prelude.{
  ℕ, ◌-◌, ◌≤◌, ◌≡◌, refl, true, List, [], ◌∷◌, arith, Bool-cases, inl, inr, Option, some, subst,
  ◌==◌, ◌∙◌,
}
use korus_os.Memory.Heap.{
  Headers, header_size, kmalloc, kmalloc_from, heap_fuel, heap_start, heap_max_size, align4,
  init_heap,
}
use korus_os.Memory.Heap.Chain.{
  Block, total, start, Chain, alloc_blocks, alloc_ptr, length-le-total, total-alloc_blocks,
  start-alloc_blocks,
}
use korus_os.Memory.Heap.Alloc.{Refines, kmalloc_from-Refines}

-- The headers are those of a list of blocks, not empty and at most 64 MB long.
pub record IsLinked (c : Headers) : Type 0 where
  pub blocks : List Block
  pub chain : Chain c heap_start blocks
  pub first : start heap_start blocks ≡ heap_start
  pub room : total blocks ≤ heap_max_size

pub init_heap-IsLinked : (c : Headers) → IsLinked (init_heap c)
unfolding init_heap
init_heap-IsLinked c = record {
  blocks = record { size = heap_max_size - header_size; free = true } ∷ [];
  chain = (refl, tt);
  first = refl;
  room = omega arith;
}

-- A call of kmalloc that returned, with the headers after it.
abbrev pub Returned : Option (ℕ × Headers) → Type 0
Returned r = (p : ℕ) × (c' : Headers) × (r ≡ some (p, c')) × IsLinked c'

-- Whatever the size is, 0 and the sizes that wrap when they are rounded included, kmalloc returns and
-- leaves the heap linked.
pub kmalloc-IsLinked : (c : Headers) (size : ℕ) → IsLinked c → Returned (kmalloc c size)
unfolding kmalloc
kmalloc-IsLinked c size v = elim (Bool-cases (size == 0)) [
  | inl e ↦ rw e (0, c, refl, v)
  | inr e ↦
      let n = align4 size in
      let r : Refines c heap_start (alloc_ptr n heap_start v.blocks) (alloc_blocks n v.blocks)
          (kmalloc_from heap_fuel c n heap_start) =
        subst
          (λ x.
            Refines c heap_start (alloc_ptr n heap_start v.blocks) (alloc_blocks n v.blocks)
              (kmalloc_from heap_fuel c n x))
          v.first
          (kmalloc_from-Refines heap_fuel c n heap_start v.blocks
            (omega (arith, length-le-total v.blocks, v.room)) (omega arith) (omega (arith, v.room))
            v.chain) in
      rw e (
        alloc_ptr n heap_start v.blocks,
        r.heap,
        r.returns,
        record {
          blocks = alloc_blocks n v.blocks;
          chain = r.chain;
          first = start-alloc_blocks n heap_start heap_start v.blocks ∙ v.first;
          room = omega (arith, total-alloc_blocks n v.blocks, v.room);
        },
      )
]
