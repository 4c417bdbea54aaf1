-- ===== src/Memory/Heap/Chain.antt =====
-- The heap as a list of blocks that lie one behind the other, and what makes the linked headers of
-- memory.c such a list.
use korus_os.Prelude.{
  ℕ, ◌+◌, ◌-◌, ◌*◌, ◌≤◌, ◌≡◌, refl, Bool, true, false, ◌&&◌, List, [], ◌∷◌, arith, leb, ◌==◌,
  if◌then◌else◌, length, ◌∙◌,
}
use korus_os.Memory.Heap.{HeapBlock, Headers, heap_magic, header_size}

pub record Block : Type 0 where
  pub size : ℕ
  pub free : Bool

-- The bytes that the blocks take up, headers included.
abbrev pub total : List Block → ℕ
total [] = 0
total (b ∷ bs) = header_size + b.size + total bs

-- A pointer to the first of the blocks that begin at `a`.
abbrev pub start : ℕ → List Block → ℕ
start a [] = 0
start a (b ∷ bs) = a

abbrev pub header : ℕ → Block → List Block → HeapBlock
header a b bs = record {
  magic = heap_magic;
  size = b.size;
  free = b.free;
  next = start (a + header_size + b.size) bs;
}

-- The headers from address `a` on are those of the blocks.
abbrev pub Chain : Headers → ℕ → List Block → Type 0
Chain c a [] = Unit {0}
Chain c a (b ∷ bs) = (c a ≡ header a b bs) × Chain c (a + header_size + b.size) bs

-- Writes below the first block do not matter.
pub Chain-agree :
    (c c' : Headers) (a : ℕ) (bs : List Block)
    → ((x : ℕ) → a ≤ x → c' x ≡ c x)
    → Chain c a bs
    → Chain c' a bs
Chain-agree c c' a [] h v = tt
Chain-agree c c' a (b ∷ bs) h v = (
  h a (omega arith) ∙ v.0,
  Chain-agree c c' (a + header_size + b.size) bs (λ x l. h x (omega arith)) v.1,
)

pub length-le-total : (bs : List Block) → header_size * length bs ≤ total bs
length-le-total [] = omega arith
length-le-total (b ∷ bs) = omega (arith, length-le-total bs)

-- First fit on the list: where the block is found it is cut if 32 bytes or more are over.
abbrev pub cut : ℕ → Block → List Block → List Block
cut size b bs =
    if leb (size + (header_size + 16)) b.size
    then record { size = size; free = false }
      ∷ (record { size = b.size - (size + header_size); free = true } ∷ bs)
    else record { size = b.size; free = false } ∷ bs

unfoldable pub alloc_blocks : ℕ → List Block → List Block
alloc_blocks size [] = []
alloc_blocks size (b ∷ bs) =
    if b.free && leb size b.size then cut size b bs else b ∷ alloc_blocks size bs

-- The pointer to the memory of the block that is taken, 0 if none is.
unfoldable pub alloc_ptr : ℕ → ℕ → List Block → ℕ
alloc_ptr size a [] = 0
alloc_ptr size a (b ∷ bs) =
    if b.free && leb size b.size
    then a + header_size
    else alloc_ptr size (a + header_size + b.size) bs

-- Marking the block whose memory begins at `ptr` free, and merging it with the next if that is free.
abbrev pub release : Block → List Block → List Block
release b [] = record { size = b.size; free = true } ∷ []
release b (n ∷ bs) =
    if n.free
    then record { size = b.size + (header_size + n.size); free = true } ∷ bs
    else record { size = b.size; free = true } ∷ (n ∷ bs)

unfoldable pub free_blocks : ℕ → ℕ → List Block → List Block
free_blocks ptr a [] = []
free_blocks ptr a (b ∷ bs) =
    if ptr == a + header_size
    then release b bs
    else b ∷ free_blocks ptr (a + header_size + b.size) bs

-- Allocation only cuts blocks up: the bytes that they take up together stay the same.
pub total-alloc_blocks : (size : ℕ) (bs : List Block) → total (alloc_blocks size bs) ≡ total bs
unfolding alloc_blocks
total-alloc_blocks size [] = refl
total-alloc_blocks size (b ∷ bs) = ground (arith, total-alloc_blocks size bs)

pub total-free_blocks : (ptr a : ℕ) (bs : List Block) → total (free_blocks ptr a bs) ≡ total bs
unfolding free_blocks
total-free_blocks ptr a [] = refl
total-free_blocks ptr a (b ∷ []) = ground arith
total-free_blocks ptr a (b ∷ n ∷ bs) =
    ground (arith, total-free_blocks ptr (a + header_size + b.size) (n ∷ bs))

pub start-alloc_blocks :
    (size a x : ℕ) (bs : List Block) → start x (alloc_blocks size bs) ≡ start x bs
unfolding alloc_blocks
start-alloc_blocks size a x [] = refl
start-alloc_blocks size a x (b ∷ bs) = ground arith

pub start-free_blocks :
    (ptr a x : ℕ) (bs : List Block) → start x (free_blocks ptr a bs) ≡ start x bs
unfolding free_blocks
start-free_blocks ptr a x [] = refl
start-free_blocks ptr a x (b ∷ []) = ground arith
start-free_blocks ptr a x (b ∷ n ∷ bs) = ground arith
