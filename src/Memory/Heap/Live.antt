-- ===== src/Memory/Heap/Live.antt =====
-- What a client of the heap relies on: memory that is handed out is in use by nobody else.
use korus_os.Prelude.{
  ℕ_discrete, ℕ, ◌+◌, ◌*◌, ◌/◌, ◌≤◌, ◌<◌, ◌≡◌, ◌≢◌, refl, Bool, true, false, ◌&&◌, List, [], ◌∷◌,
  arith, leb, leb→le, Bool-cases, inl, inr, some, subst, ◌⊎◌,
}
use korus_os.Memory.Heap.{Headers, header_size, kmalloc, heap_start, heap_max_size}
use korus_os.Memory.Heap.Chain.{
  Block, total, Chain, cut, alloc_blocks, alloc_ptr, total-alloc_blocks,
}
use korus_os.Memory.Heap.Alloc.{kmalloc-Refines}

-- A block of `size` bytes in use, whose memory begins at `ptr`.
abbrev pub Live : ℕ → ℕ → ℕ → List Block → Type 0
Live ptr size a [] = ⊥
Live ptr size a (b ∷ bs) =
    ((ptr ≡ a + header_size) × (size ≡ b.size) × (b.free ≡ false))
    ⊎ Live ptr size (a + header_size + b.size) bs

pub Live-above :
    (ptr size a : ℕ) (bs : List Block)
    → Live ptr size a bs
    → (a + header_size ≤ ptr) × (ptr + size ≤ a + total bs)
Live-above ptr size a [] v = absurd v
Live-above ptr size a (b ∷ bs) (inl v) = omega arith
Live-above ptr size a (b ∷ bs) (inr v) =
    omega (arith, Live-above ptr size (a + header_size + b.size) bs v)

fits→le : (f : Bool) (m n : ℕ) → (f && leb m n) ≡ true → m ≤ n
fits→le f m n h = ground arith

-- Cutting a block up does not move those behind it.
Live-cut :
    (n ptr size a : ℕ) (b : Block) (bs : List Block)
    → n ≤ b.size
    → Live ptr size (a + header_size + b.size) bs
    → Live ptr size a (cut n b bs)
Live-cut n ptr size a b bs h v = elim (Bool-cases (leb (n + (header_size + 16)) b.size)) [
  | inl t ↦
      let t' = leb→le _ _ t in simp t (inr (inr (subst (λ x. Live ptr size x bs) (omega arith) v)))
  | inr t ↦ simp t (inr v)
]

-- Allocation leaves blocks in use as they are.
alloc-Live :
    (n ptr size a : ℕ) (bs : List Block) → Live ptr size a bs → Live ptr size a (alloc_blocks n bs)
unfolding alloc_blocks
alloc-Live n ptr size a [] v = absurd v
alloc-Live n ptr size a (b ∷ bs) (inl v) = simp v.2 (inl (v.0, v.1, refl))
alloc-Live n ptr size a (b ∷ bs) (inr v) = elim (Bool-cases (b.free && leb n b.size)) [
  | inl t ↦ simp t (Live-cut n ptr size a b bs (fits→le b.free n b.size t) v)
  | inr t ↦ simp t (inr (alloc-Live n ptr size (a + header_size + b.size) bs v))
]

cut-Live :
    (n a : ℕ) (b : Block) (bs : List Block)
    → n ≤ b.size
    → (size : ℕ) × (n ≤ size) × Live (a + header_size) size a (cut n b bs)
cut-Live n a b bs h = elim (Bool-cases (leb (n + (header_size + 16)) b.size)) [
  | inl t ↦ simp t (n, omega arith, inl (refl, refl, refl))
  | inr t ↦ simp t (b.size, h, inl (refl, refl, refl))
]

alloc_ptr-above :
    (n a : ℕ) (bs : List Block) → alloc_ptr n a bs ≢ 0 → a + header_size ≤ alloc_ptr n a bs
unfolding alloc_ptr
alloc_ptr-above n a [] h = absurd (h refl)
alloc_ptr-above n a (b ∷ bs) h = ground (arith, alloc_ptr-above n (a + header_size + b.size) bs)

-- The block that is handed out is then in use, and large enough.
alloc_ptr-Live :
    (n a : ℕ) (bs : List Block)
    → alloc_ptr n a bs ≢ 0
    → (size : ℕ) × (n ≤ size) × Live (alloc_ptr n a bs) size a (alloc_blocks n bs)
unfolding alloc_blocks alloc_ptr
alloc_ptr-Live n a [] h = absurd (h refl)
alloc_ptr-Live n a (b ∷ bs) h = elim (Bool-cases (b.free && leb n b.size)) [
  | inl t ↦ simp t (cut-Live n a b bs (fits→le b.free n b.size t))
  | inr t ↦
      let h' : alloc_ptr n (a + header_size + b.size) bs ≢ 0 = λ e. h (simp t e) in
      let (size, l, v) = alloc_ptr-Live n (a + header_size + b.size) bs h' in
      simp t (size, l, inr v)
]

-- The memory handed out does not meet that of a block that was in use before.
alloc_ptr-apart :
    (n ptr size a : ℕ) (bs : List Block)
    → Live ptr size a bs
    → alloc_ptr n a bs ≢ 0
    → (ptr + size ≤ alloc_ptr n a bs) ⊎ (alloc_ptr n a bs + n ≤ ptr)
unfolding alloc_ptr
alloc_ptr-apart n ptr size a [] v h = absurd v
alloc_ptr-apart n ptr size a (b ∷ bs) (inl v) h =
    ground (arith, alloc_ptr-above n (a + header_size + b.size) bs)
alloc_ptr-apart n ptr size a (b ∷ bs) (inr v) h = ground (
  arith,
  Live-above ptr size (a + header_size + b.size) bs v,
  alloc_ptr-apart n ptr size (a + header_size + b.size) bs v,
)

rounds : (n p q k size : ℕ) → size ≤ n → (q + k ≤ p) ⊎ (p + n ≤ q) → (q + k ≤ p) ⊎ (p + size ≤ q)
rounds n p q k size h v = grind arith

-- What kmalloc of `size` bytes comes to over the blocks: a NULL pointer, or the memory of a block in
-- use of at least that size, apart from the memory of every block that was in use, which still is.
abbrev pub Fresh : Headers → ℕ → List Block → Type 0
Fresh c size bs =
    (ptr : ℕ) × (c' : Headers) × (bs' : List Block) × (kmalloc c size ≡ some (ptr, c'))
    × Chain c' heap_start bs'
    × (total bs' ≡ total bs)
    × ((ptr ≡ 0)
        ⊎ (((n : ℕ) × (size ≤ n) × Live ptr n heap_start bs')
            × ((q m : ℕ)
                → Live q m heap_start bs
                → Live q m heap_start bs' × ((q + m ≤ ptr) ⊎ (ptr + size ≤ q)))))

-- Memory that kmalloc hands out is fresh. Over a heap of linked headers that are those of `bs`, at
-- most 64 MB, and for a size that is not 0 and whose rounding does not wrap, kmalloc returns, and the
-- headers stay linked over as many bytes. The pointer is NULL, or that of a block in use of at least
-- the size asked for; then every block in use before is still in use, with its pointer and size, and
-- its memory does not meet the new one's.
pub kmalloc-Fresh :
    (c : Headers) (size : ℕ) (b : Block) (bs : List Block)
    → Chain c heap_start (b ∷ bs)
    → total (b ∷ bs) ≤ heap_max_size
    → 0 < size
    → size + 3 < 0x1_0000_0000
    → Fresh c size (b ∷ bs)
kmalloc-Fresh c size b bs v h pos small =
    let n : ℕ = (size + 3) / 4 * 4 in
    let r = kmalloc-Refines c size b bs v h pos small in
    let p = alloc_ptr n heap_start (b ∷ bs) in
    (
      p,
      r.heap,
      alloc_blocks n (b ∷ bs),
      r.returns,
      r.chain,
      total-alloc_blocks n (b ∷ bs),
      elim (ℕ_discrete p 0) [
        | yes z ↦ inl z
        | no live ↦
            let (m, l, u) = alloc_ptr-Live n heap_start (b ∷ bs) live in
            inr (
              (m, omega arith, u),
              λ q k w. (
                alloc-Live n q k heap_start (b ∷ bs) w,
                rounds n p q k size (omega arith)
                    (alloc_ptr-apart n q k heap_start (b ∷ bs) w live),
              ),
            )
      ],
    )
