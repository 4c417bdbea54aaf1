-- ===== src/Memory/Heap/Alloc.antt =====
-- kmalloc of memory.c against first fit on the list of blocks.
use korus_os.Prelude.{
  ℕ, zero, suc, ◌+◌, ◌-◌, ◌*◌, ◌/◌, ◌≤◌, ◌<◌, ◌≡◌, ◌≢◌, refl, Bool, true, false, ◌&&◌, List, [],
  ◌∷◌, arith, leb, ==-self, leb_of_le, leb→le, leb_of_lt, ==_of_ne, length, ◌∙◌, Bool-cases, inl,
  inr, add32, sub32, Option, some, subst, ap, sym,
}
use korus_os.Memory.Heap.{
  Headers, heap_magic, header_size, fits, split_block, take_block, kmalloc_from, kmalloc, heap_fuel,
  heap_start, heap_max_size, align4,
}
use korus_os.Memory.Heap.Chain.{
  Block, total, start, header, Chain, Chain-agree, cut, alloc_blocks, alloc_ptr, length-le-total,
  start-alloc_blocks,
}

-- A result that is the list's: the pointer, the blocks, and no header before them touched.
pub record Refines (c : Headers) (a p : ℕ) (bs : List Block) (r : Option (ℕ × Headers))
    : Type 0 where
  pub heap : Headers
  pub returns : r ≡ some (p, heap)
  pub chain : Chain heap a bs
  pub below : (x : ℕ) → x < a → heap x ≡ c x

module _ (c : Headers) (size a : ℕ) (b : Block) (bs : List Block) (high : 16 ≤ a)
    (room : a + header_size + b.size + total bs < 0x1_0000_0000) (here : c a ≡ header a b bs)
    (rest : Chain c (a + header_size + b.size) bs) (enough : size ≤ b.size) where
  abbrev taken : Headers
  taken = (take_block c a size).1

  -- A block with 32 bytes or more over becomes two.
  take_block-cut :
      size + (header_size + 16) ≤ b.size
      → (taken a ≡ header a (record { size = size; free = false }) (b ∷ bs))
        × (taken (a + header_size + size)
            ≡ header
                (a + header_size + size)
                (record { size = b.size - (size + header_size); free = true })
                bs)
        × ((x : ℕ) → x ≢ a → x ≢ a + header_size + size → taken x ≡ c x)
  unfolding take_block split_block
  take_block-cut h =
      let fit : leb (add32 size (header_size + 16)) (c a).size ≡ true =
        rw here (leb_of_le _ _ (omega arith)) in
      let at : add32 a (header_size + size) ≡ a + header_size + size = omega arith in
      let left : sub32 (c a).size (size + header_size) ≡ b.size - (size + header_size) =
        rw here (omega arith) in
      let n : ℕ = a + header_size + size in
      let same = ==-self a in
      let off = ==_of_ne n a (omega arith) in
      let away = ==_of_ne a n (omega arith) in
      rw (fit, at, left)
        (
          simp (same, off, here),
          simp (away, off, same, ==-self n, here) (ground arith),
          λ x p q. simp (==_of_ne a x (λ e. p (sym e)), ==_of_ne n x (λ e. q (sym e))),
        )

  -- Any other is taken whole.
  take_block-whole :
      b.size < size + (header_size + 16)
      → (taken a ≡ header a (record { size = b.size; free = false }) bs)
        × ((x : ℕ) → x ≢ a → taken x ≡ c x)
  unfolding take_block split_block
  take_block-whole h =
      let fit : leb (add32 size (header_size + 16)) (c a).size ≡ false =
        rw here (leb_of_lt _ _ (omega arith)) in
      rw fit (simp (==-self a, here), λ x p. simp (==_of_ne a x (λ e. p (sym e))))

ptr-take_block :
    (c : Headers) (size a : ℕ)
    → a + header_size < 0x1_0000_0000
    → some (take_block c a size) ≡ some (a + header_size, (take_block c a size).1)
unfolding take_block
ptr-take_block c size a h = let e : add32 a header_size ≡ a + header_size = omega arith in rw e

fits-here :
    (c : Headers) (size a : ℕ) (b : Block) (bs : List Block)
    → c a ≡ header a b bs
    → fits (c a) size ≡ (b.free && leb size b.size)
fits-here c size a b bs e = rw e (ground arith)

&&-leb→le : (f : Bool) (m n : ℕ) → (f && leb m n) ≡ true → m ≤ n
&&-leb→le f m n h = ground arith

-- A block that does not fit is passed over.
step :
    (c : Headers) (size a : ℕ) (b : Block) (bs : List Block) (r : Option (ℕ × Headers))
    → c a ≡ header a b bs
    → Refines c
        (a + header_size + b.size)
        (alloc_ptr size (a + header_size + b.size) bs)
        (alloc_blocks size bs)
        r
    → Refines c a (alloc_ptr size (a + header_size + b.size) bs) (b ∷ alloc_blocks size bs) r
step c size a b bs r here ih = record {
  heap = ih.heap;
  returns = ih.returns;
  chain = (
    ih.below a (omega arith)
        ∙ here
        ∙ ap (λ n. record { magic = heap_magic; size = b.size; free = b.free; next = n })
            (sym (start-alloc_blocks size a (a + header_size + b.size) bs)),
    ih.chain,
  );
  below = λ x l. ih.below x (omega arith);
}

-- A block that fits is taken as the list says.
take_block-Refines :
    (c : Headers) (size a : ℕ) (b : Block) (bs : List Block)
    → 16 ≤ a
    → a + header_size + b.size + total bs < 0x1_0000_0000
    → Chain c a (b ∷ bs)
    → size ≤ b.size
    → Refines c a (a + header_size) (cut size b bs) (some (take_block c a size))
take_block-Refines c size a b bs high room v enough =
    elim (Bool-cases (leb (size + (header_size + 16)) b.size)) [
      | inl t ↦
          let t' = leb→le _ _ t in
          let (first, second, other) = take_block-cut c size a b bs high room v.0 v.1 enough t' in
          let d = take_block c a size in
          rw t (record {
            heap = d.1;
            returns = ptr-take_block c size a (omega arith);
            chain = (
              first,
              (
                second,
                subst (λ x. Chain d.1 x bs) (omega arith)
                    (Chain-agree c d.1 (a + header_size + b.size) bs
                      (λ x l. other x (omega arith) (omega arith)) v.1),
              ),
            );
            below = λ x l. other x (omega arith) (omega arith);
          })
      | inr t ↦
          let t' : b.size < size + (header_size + 16) = ground arith in
          let (first, other) = take_block-whole c size a b bs high room v.0 v.1 enough t' in
          let d = take_block c a size in
          rw t (record {
            heap = d.1;
            returns = ptr-take_block c size a (omega arith);
            chain = (
              first,
              Chain-agree c d.1 (a + header_size + b.size) bs (λ x l. other x (omega arith)) v.1,
            );
            below = λ x l. other x (omega arith);
          })
    ]

-- The search of kmalloc is first fit on the list.
pub kmalloc_from-Refines :
    (fuel : ℕ) (c : Headers) (size a : ℕ) (bs : List Block)
    → length bs < fuel
    → 16 ≤ a
    → a + total bs < 0x1_0000_0000
    → Chain c a bs
    → Refines c a
        (alloc_ptr size a bs)
        (alloc_blocks size bs)
        (kmalloc_from fuel c size (start a bs))
unfolding kmalloc_from alloc_ptr alloc_blocks
kmalloc_from-Refines zero c size a bs h high room v = absurd (omega arith)
kmalloc_from-Refines (suc fuel) c size a [] h high room v = record {
  heap = c;
  returns = refl;
  chain = tt;
  below = λ x l. refl;
}
kmalloc_from-Refines (suc fuel) c size a (b ∷ bs) h high room v =
    let live = ==_of_ne a 0 (omega arith) in
    let test = fits-here c size a b bs v.0 in
    elim (Bool-cases (b.free && leb size b.size)) [
      | inl t ↦
          simp (live, test, t)
            (take_block-Refines c size a b bs high (omega arith) v (&&-leb→le b.free size b.size t))
      | inr t ↦
          let ih =
            kmalloc_from-Refines fuel c size (a + header_size + b.size) bs (omega arith)
              (omega arith) (omega arith) v.1 in
          simp (live, test, t) (rw v.0 (step c size a b bs _ v.0 ih))
    ]

-- kmalloc is first fit. Over a heap of linked headers that are those of `bs`, at most 64 MB, the
-- search ends within its fuel; a size that is not 0 and whose rounding does not wrap gives the
-- pointer of first fit on `bs` for the size rounded up to 4 bytes (0 where no block fits), and
-- leaves the headers linked as the blocks of first fit.
pub kmalloc-Refines :
    (c : Headers) (size : ℕ) (b : Block) (bs : List Block)
    → Chain c heap_start (b ∷ bs)
    → total (b ∷ bs) ≤ heap_max_size
    → 0 < size
    → size + 3 < 0x1_0000_0000
    → let n = (size + 3) / 4 * 4 in
      Refines c heap_start
        (alloc_ptr n heap_start (b ∷ bs))
        (alloc_blocks n (b ∷ bs))
        (kmalloc c size)
unfolding kmalloc
kmalloc-Refines c size b bs v h pos small =
    let n : ℕ = (size + 3) / 4 * 4 in
    let round : align4 size ≡ n = omega arith in
    rw (==_of_ne size 0 (omega arith), round)
      (kmalloc_from-Refines heap_fuel c n heap_start (b ∷ bs)
        (omega (arith, length-le-total (b ∷ bs))) (omega arith) (omega arith) v)

-- The rounding wraps for the last three sizes: kmalloc then looks for a block of 0 bytes, and its
-- caller gets a pointer to fewer bytes than it asked for.
pub kmalloc-wraps :
    (c : Headers) (size : ℕ) (b : Block) (bs : List Block)
    → Chain c heap_start (b ∷ bs)
    → total (b ∷ bs) ≤ heap_max_size
    → size < 0x1_0000_0000
    → 0x1_0000_0000 ≤ size + 3
    → Refines c heap_start
        (alloc_ptr 0 heap_start (b ∷ bs))
        (alloc_blocks 0 (b ∷ bs))
        (kmalloc c size)
unfolding kmalloc
kmalloc-wraps c size b bs v h small wraps =
    let round : align4 size ≡ 0 = omega arith in
    rw (==_of_ne size 0 (omega arith), round)
      (kmalloc_from-Refines heap_fuel c 0 heap_start (b ∷ bs)
        (omega (arith, length-le-total (b ∷ bs))) (omega arith) (omega arith) v)
