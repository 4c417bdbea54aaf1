-- ===== src/Memory/Heap/Free.antt =====
-- kfree of memory.c against freeing and merging on the list of blocks.
use korus_os.Prelude.{
  ℕ, ◌+◌, ◌≤◌, ◌<◌, ◌≡◌, ◌≢◌, true, false, List, [], ◌∷◌, arith, ==-self, ==_of_ne, if◌then◌else◌,
  ◌∙◌, Bool-cases, inl, inr, add32, sub32, subst, ap, sym, ◌⊎◌,
}
use korus_os.Memory.Heap.{
  Headers, heap_magic, header_size, kfree, mark_free, mergeable, merge_next, heap_start,
  heap_max_size,
}
use korus_os.Memory.Heap.Chain.{
  Block, total, header, Chain, Chain-agree, release, free_blocks, start-free_blocks,
  total-free_blocks,
}

-- The pointer is that of one of the blocks.
abbrev pub Owns : ℕ → ℕ → List Block → Type 0
Owns ptr a [] = ⊥
Owns ptr a (b ∷ bs) = (ptr ≡ a + header_size) ⊎ Owns ptr (a + header_size + b.size) bs

-- Memory lies behind the header of its block.
Owns-above : (ptr a : ℕ) (bs : List Block) → Owns ptr a bs → a + header_size ≤ ptr
Owns-above ptr a [] o = absurd o
Owns-above ptr a (b ∷ bs) (inl e) = omega arith
Owns-above ptr a (b ∷ bs) (inr o) = omega (arith, Owns-above ptr (a + header_size + b.size) bs o)

module _ (c : Headers) (a : ℕ) (b : Block) (bs : List Block) (here : c a ≡ header a b bs) where
  marked : mark_free c a a ≡ header a (record { size = b.size; free = true }) bs
  unfolding mark_free
  marked = simp (==-self a, here)

  marked_ne : (x : ℕ) → x ≢ a → mark_free c a x ≡ c x
  unfolding mark_free
  marked_ne x p = simp (==_of_ne a x (λ e. p (sym e)))

merge_next_ne : (c : Headers) (a x : ℕ) → x ≢ a → merge_next c a x ≡ c x
unfolding merge_next
merge_next_ne c a x p = simp (==_of_ne a x (λ e. p (sym e)))

-- A block before a free one takes up its bytes.
merged :
    (c : Headers) (a : ℕ) (b n : Block) (bs : List Block)
    → a + header_size + b.size + total (n ∷ bs) < 0x1_0000_0000
    → c a ≡ header a b (n ∷ bs)
    → c (a + header_size + b.size) ≡ header (a + header_size + b.size) n bs
    → merge_next c a a
      ≡ header a (record { size = b.size + (header_size + n.size); free = b.free }) bs
unfolding merge_next
merged c a b n bs room here next =
    let sum : add32 b.size (header_size + n.size) ≡ b.size + (header_size + n.size) = omega arith in
    let end : a + header_size + b.size + header_size + n.size
        ≡ a + header_size + (b.size + (header_size + n.size)) =
      omega arith in
    simp (==-self a, here, next, sum) (rw end)

-- Past the guards kfree marks the block, and merges if it can.
kfree-marks :
    (c : Headers) (a : ℕ) (b : Block) (bs : List Block)
    → a + header_size < 0x1_0000_0000
    → c a ≡ header a b bs
    → kfree c (a + header_size)
      ≡ (if mergeable (mark_free c a) a then merge_next (mark_free c a) a else mark_free c a)
unfolding kfree
kfree-marks c a b bs room here =
    let at : sub32 (a + header_size) header_size ≡ a = omega arith in
    simp (at, ==_of_ne (a + header_size) 0 (omega arith), here)

mergeable_last : (c : Headers) (a : ℕ) (b : Block) → c a ≡ header a b [] → mergeable c a ≡ false
unfolding mergeable
mergeable_last c a b here = rw here

mergeable_next :
    (c : Headers) (a : ℕ) (b n : Block) (bs : List Block)
    → 0 < a
    → c a ≡ header a b (n ∷ bs)
    → c (a + header_size + b.size) ≡ header (a + header_size + b.size) n bs
    → mergeable c a ≡ n.free
unfolding mergeable
mergeable_next c a b n bs pos here next =
    rw (here, next, ==_of_ne (a + header_size + b.size) 0 (omega arith)) (ground arith)

abbrev Released : Headers → Headers → ℕ → List Block → Type 0
Released c c' a bs = Chain c' a bs × ((x : ℕ) → x ≢ a → c' x ≡ c x)

-- At the block that it finds, kfree does what the list says.
kfree-release :
    (c : Headers) (a : ℕ) (b : Block) (bs : List Block)
    → 16 ≤ a
    → a + header_size + b.size + total bs < 0x1_0000_0000
    → Chain c a (b ∷ bs)
    → Released c (kfree c (a + header_size)) a (release b bs)
kfree-release c a b [] high room v =
    let here = marked c a b [] v.0 in
    rw (kfree-marks c a b [] (omega arith) v.0, mergeable_last (mark_free c a) a _ here)
      ((here, tt), marked_ne c a b [] v.0)
kfree-release c a b (n ∷ bs) high room v =
    let m = mark_free c a in
    let other = marked_ne c a b (n ∷ bs) v.0 in
    let here = marked c a b (n ∷ bs) v.0 in
    let next = other (a + header_size + b.size) (omega arith) ∙ v.1.0 in
    let tail =
      Chain-agree c m (a + header_size + b.size) (n ∷ bs) (λ x l. other x (omega arith)) v.1 in
    let test = mergeable_next m a _ n bs (omega arith) here next in
    rw (kfree-marks c a b (n ∷ bs) (omega arith) v.0, test)
      (elim (Bool-cases n.free) [
        | inl t ↦
            let c' = merge_next m a in
            simp t (
              (
                merged m a _ n bs room here next,
                subst (λ x. Chain c' x bs) (omega arith)
                    (Chain-agree m c' (a + header_size + b.size + header_size + n.size) bs
                      (λ x l. merge_next_ne m a x (omega arith)) tail.1),
              ),
              λ x p. merge_next_ne m a x p ∙ other x p,
            )
        | inr t ↦ simp t ((here, simp t at tail), other)
      ])

-- kfree of a pointer that owns a block marks that block free, and merges it with the block behind
-- it if that is free; the headers stay linked as the blocks are then.
kfree-Chain_from :
    (c : Headers) (ptr a : ℕ) (bs : List Block)
    → 16 ≤ a
    → a + total bs < 0x1_0000_0000
    → Chain c a bs
    → Owns ptr a bs
    → Chain (kfree c ptr) a (free_blocks ptr a bs) × ((x : ℕ) → x < a → kfree c ptr x ≡ c x)
unfolding free_blocks
kfree-Chain_from c ptr a [] high room v o = absurd o
kfree-Chain_from c ptr a (b ∷ bs) high room v (inl e) =
    let r = kfree-release c a b bs high (omega arith) v in
    rw (e, ==-self (a + header_size)) (r.0, λ x l. r.1 x (omega arith))
kfree-Chain_from c ptr a (b ∷ bs) high room v (inr o) =
    let r =
      kfree-Chain_from c ptr (a + header_size + b.size) bs (omega arith) (omega arith) v.1 o in
    rw
      (==_of_ne ptr (a + header_size)
        (omega (arith, Owns-above ptr (a + header_size + b.size) bs o)))
      (
        (
          r.1 a (omega arith)
              ∙ v.0
              ∙ ap (λ n. record { magic = heap_magic; size = b.size; free = b.free; next = n })
                  (sym (
                    start-free_blocks ptr (a + header_size + b.size) (a + header_size + b.size)
                      bs)),
          r.0,
        ),
        λ x l. r.1 x (omega arith),
      )

-- kfree of the pointer to a block's memory, over a heap of linked headers that are those of `bs`, at
-- most 64 MB, marks that block free, takes the block behind it in if that is free, and leaves the
-- headers linked as the blocks are then. The bytes of all blocks together stay the same.
pub kfree-Chain :
    (c : Headers) (ptr : ℕ) (bs : List Block)
    → Chain c heap_start bs
    → total bs ≤ heap_max_size
    → Owns ptr heap_start bs
    → Chain (kfree c ptr) heap_start (free_blocks ptr heap_start bs)
      × (total (free_blocks ptr heap_start bs) ≡ total bs)
kfree-Chain c ptr bs v h o = (
  (kfree-Chain_from c ptr heap_start bs (omega arith) (omega arith) v o).0,
  total-free_blocks ptr heap_start bs,
)
