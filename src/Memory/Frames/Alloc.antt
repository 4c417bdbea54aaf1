-- ===== src/Memory/Frames/Alloc.antt =====
-- alloc_page and free_page against the set of frames in use, and what used_frames counts.
use korus_os.Prelude.{
  ℕ, zero, suc, ◌+◌, ◌*◌, ◌/◌, ◌%◌, ◌≤◌, ◌<◌, ◌≡◌, ◌≢◌, refl, dec_lt, ℕ_discrete, true, false,
  arith, ltb, ◌==◌, if◌then◌else◌, add32, u32_mod, Bool-cases, inl, inr, ◌⊎◌, sym, ◌∙◌, subst,
  ==_of_ne, ==-self, bit, ap, ltb_of_le,
}
use korus_os.Prelude.Bits.{test_bit-zero}
use korus_os.Memory.Frames.{
  Bitmap, Frames, page_size, max_frames, reserved_frames, frame_find_free, frame_set, frame_clear,
  frame_test, alloc_page, alloc_at, free_page, reserve, count_frames, init_frames,
}
use korus_os.Memory.Frames.Find.{
  in_use, in_use-frame_set, in_use-frame_clear, Upto, LowestFree, frame_find_free-LowestFree,
}

-- How many frames below `n` are in use.
pub count_used : Bitmap → ℕ → ℕ
count_used m zero = 0
count_used m (suc n) = count_used m n + bit (in_use m n)

count_used-le : (m : Bitmap) (n : ℕ) → count_used m n ≤ n
unfolding count_used
count_used-le m zero = omega arith
count_used-le m (suc n) = ground (arith, count_used-le m n)

-- Two bitmaps that agree but at one frame.
abbrev Differ : Bitmap → Bitmap → ℕ → Type 0
Differ m m' k = (n : ℕ) → k ≢ n → in_use m' n ≡ in_use m n

count_used-Differ :
    (m m' : Bitmap) (k n : ℕ)
    → Differ m m' k
    → count_used m' n + (if ltb k n then bit (in_use m k) else 0)
      ≡ count_used m n + (if ltb k n then bit (in_use m' k) else 0)
unfolding count_used
count_used-Differ m m' k zero h = ground arith
count_used-Differ m m' k (suc n) h = elim (ℕ_discrete k n) [
  | yes e ↦ ground (arith, ap (in_use m) e, ap (in_use m') e, count_used-Differ m m' k n h)
  | no ne ↦ ground (arith, h n ne, count_used-Differ m m' k n h)
]

-- What init_memory sets up and both operations keep: used_frames is the number of bits that are set,
-- the kernel's frames are in use, and no more frames are managed than the bitmap has bits.
pub record IsValid (f : Frames) : Type 0 where
  pub counted : f.used ≡ count_used f.bitmap max_frames
  pub kernel : Upto (in_use f.bitmap) 0 reserved_frames
  pub small : f.total ≤ max_frames

-- The two outcomes of alloc_page: no frame is free and nothing changes, or the lowest free frame,
-- which is not one of the kernel's, is in use from then on.
abbrev pub Allocates : Frames → ℕ → Frames → Type 0
Allocates f a f' =
    ((a ≡ 0) × (f' ≡ f) × Upto (in_use f.bitmap) 0 (f.total / 32 * 32))
    ⊎ ((k : ℕ) × (a ≡ k * page_size)
        × (reserved_frames ≤ k)
        × (k < f.total / 32 * 32)
        × (in_use f.bitmap k ≡ false)
        × Upto (in_use f.bitmap) 0 k
        × ((n : ℕ) → in_use f'.bitmap n ≡ (if k == n then true else in_use f.bitmap n))
        × (f'.used ≡ f.used + 1)
        × (f'.total ≡ f.total)
        × (f'.mem_total_kb ≡ f.mem_total_kb))

set-Differ : (m : Bitmap) (addr : ℕ) → Differ m (frame_set m addr) (addr / page_size)
set-Differ m addr n h = rw (in_use-frame_set m addr n, ==_of_ne (addr / page_size) n h)

clear-Differ : (m : Bitmap) (addr : ℕ) → Differ m (frame_clear m addr) (addr / page_size)
clear-Differ m addr n h = rw (in_use-frame_clear m addr n, ==_of_ne (addr / page_size) n h)

-- Setting a clear bit counts one more, clearing a set one counts one less.
count_used-frame_set :
    (m : Bitmap) (addr n : ℕ)
    → addr / page_size < n
    → in_use m (addr / page_size) ≡ false
    → count_used (frame_set m addr) n ≡ count_used m n + 1
count_used-frame_set m addr n l c =
    let k = addr / page_size in
    ground (
      arith,
      count_used-Differ m (frame_set m addr) k n (set-Differ m addr),
      in_use-frame_set m addr k,
    )

count_used-frame_clear :
    (m : Bitmap) (addr n : ℕ)
    → addr / page_size < n
    → in_use m (addr / page_size) ≡ true
    → count_used m n ≡ count_used (frame_clear m addr) n + 1
count_used-frame_clear m addr n l c =
    let k = addr / page_size in
    ground (
      arith,
      count_used-Differ m (frame_clear m addr) k n (clear-Differ m addr),
      in_use-frame_clear m addr k,
    )

outside_kernel : (f : Frames) (k : ℕ) → IsValid f → in_use f.bitmap k ≡ false → reserved_frames ≤ k
outside_kernel f k v c = elim (dec_lt k reserved_frames) [
  | yes l ↦ cc (v.kernel k (omega arith) l)
  | no l ↦ omega arith
]

alloc_page-Allocates_at :
    (f : Frames) (a : ℕ)
    → IsValid f
    → LowestFree f.bitmap 0 (f.total / 32) a
    → a ≡ frame_find_free f
    → Allocates f (alloc_page f).0 (alloc_page f).1
unfolding alloc_page
alloc_page-Allocates_at f a v (inr (z, u)) e = simp (← e, z) (inl (refl, refl, u))
alloc_page-Allocates_at f a v (inl (k, p, l, u, c, b)) e =
    let above = outside_kernel f k v c in
    let at : a / page_size ≡ k = omega (arith, p) in
    simp (← e, ==_of_ne a 0 (omega (arith, above)))
      (inr (
        k,
        p,
        above,
        u,
        c,
        b,
        λ n.
            subst
              (λ x. in_use (frame_set f.bitmap a) n ≡ (if x == n then true else in_use f.bitmap n))
              at (in_use-frame_set f.bitmap a n),
        omega (arith, count_used-le f.bitmap max_frames, v.counted),
        refl,
        refl,
      ))

-- alloc_page, over frames that are validly counted: either every frame that the search covers is in
-- use, the result is 0 and nothing changes; or the result is the address of the lowest free frame,
-- which is none of the kernel's 512, that frame is in use afterwards, all others are as before, and
-- used_frames is one more.
pub alloc_page-Allocates : (f : Frames) → IsValid f → Allocates f (alloc_page f).0 (alloc_page f).1
alloc_page-Allocates f v =
    alloc_page-Allocates_at f (frame_find_free f) v (frame_find_free-LowestFree f) refl

alloc_page-IsValid_at :
    (f : Frames) (a : ℕ)
    → IsValid f
    → LowestFree f.bitmap 0 (f.total / 32) a
    → IsValid (alloc_at f a).1
alloc_page-IsValid_at f a v (inr (z, u)) = rw z v
alloc_page-IsValid_at f a v (inl (k, p, l, u, c, b)) =
    let above = outside_kernel f k v c in
    let at : a / page_size ≡ k = omega (arith, p) in
    let free : in_use f.bitmap (a / page_size) ≡ false = rw at c in
    let small : k < max_frames = omega (arith, v.small) in
    simp (==_of_ne a 0 (omega (arith, above))) (record {
      counted = omega (
        arith,
        count_used-le f.bitmap max_frames,
        v.counted,
        count_used-frame_set f.bitmap a max_frames (omega arith) free,
      );
      kernel = λ j x y. set-Differ f.bitmap a j (omega arith) ∙ v.kernel j x y;
      small = v.small;
    })

-- alloc_page keeps the count of the frames in use exact, and the kernel's frames in use.
pub alloc_page-IsValid : (f : Frames) → IsValid f → IsValid (alloc_page f).1
unfolding alloc_page
alloc_page-IsValid f v =
    alloc_page-IsValid_at f (frame_find_free f) v (frame_find_free-LowestFree f)

-- free_page keeps them too, below 1 GB, where the bitmap ends.
pub free_page-IsValid :
    (f : Frames) (addr : ℕ) → IsValid f → addr / page_size < max_frames → IsValid (free_page f addr)
unfolding free_page
free_page-IsValid f addr v h = elim (Bool-cases (ltb addr (2 * 1024 * 1024))) [
  | inl t ↦ rw t v
  | inr t ↦ elim (Bool-cases (frame_test f.bitmap addr)) [
    | inr free ↦ rw (t, free) v
    | inl used ↦
        let out : 2 * 1024 * 1024 ≤ addr = ground arith in
        let counts =
          count_used-frame_clear f.bitmap addr max_frames h (unfold frame_test in used) in
        rw (t, used)
          (record {
            counted = omega (arith, counts, v.counted, count_used-le f.bitmap max_frames);
            kernel = λ j x y. clear-Differ f.bitmap addr j (omega arith) ∙ v.kernel j x y;
            small = v.small;
          })
  ]
]

extend :
    (m' m : Bitmap) (i : ℕ)
    → in_use m' i ≡ true
    → ((j : ℕ) → i ≢ j → in_use m' j ≡ in_use m j)
    → Upto (in_use m) 0 i
    → Upto (in_use m') 0 (i + 1)
extend m' m i hit miss u j x y = elim (ℕ_discrete i j) [
  | yes e ↦ subst (λ k. in_use m' k ≡ true) e hit
  | no ne ↦ miss j ne ∙ u j x (omega arith)
]

-- init_memory's loop over the kernel's frames.
reserve-IsValid :
    (n i : ℕ) (f : Frames)
    → i + n ≤ max_frames
    → f.total ≤ max_frames
    → f.used ≡ count_used f.bitmap max_frames
    → Upto (in_use f.bitmap) 0 i
    → ((j : ℕ) → i ≤ j → in_use f.bitmap j ≡ false)
    → (Upto (in_use (reserve n i f).bitmap) 0 (i + n))
      × ((j : ℕ) → i + n ≤ j → in_use (reserve n i f).bitmap j ≡ false)
      × ((reserve n i f).used ≡ count_used (reserve n i f).bitmap max_frames)
      × ((reserve n i f).total ≡ f.total)
unfolding reserve
reserve-IsValid zero i f h s c u w =
    (λ j x y. u j x (omega arith), λ j x. w j (omega arith), c, refl)
reserve-IsValid (suc n) i f h s c u w =
    let m = frame_set f.bitmap (i * page_size) in
    let at : i * page_size / page_size ≡ i = omega arith in
    let one =
      count_used-frame_set f.bitmap (i * page_size) max_frames (omega arith)
        (rw at (w i (omega arith))) in
    let hit : in_use m i ≡ true =
      in_use-frame_set f.bitmap (i * page_size) i ∙ rw (at, ==-self i) in
    let miss : (j : ℕ) → i ≢ j → in_use m j ≡ in_use f.bitmap j =
      λ j ne. set-Differ f.bitmap (i * page_size) j (rw at ne) in
    let (a, b, d, e) =
      reserve-IsValid n (i + 1) (record f { bitmap = m; used = add32 f.used 1 }) (omega arith) s
        (omega (arith, one, c, count_used-le f.bitmap max_frames)) (extend m f.bitmap i hit miss u)
        (λ j x. miss j (omega arith) ∙ w j (omega arith)) in
    (λ j x y. a j x (omega arith), λ j x. b j (omega arith), d, e)

count_used-zero : (n : ℕ) → count_used (λ i. 0) n ≡ 0
unfolding count_used
count_used-zero zero = refl
count_used-zero (suc n) = rw (test_bit-zero (n % 32)) (omega (arith, count_used-zero n))

total-reserve : (n i : ℕ) (f : Frames) → (reserve n i f).total ≡ f.total
unfolding reserve
total-reserve zero i f = refl
total-reserve (suc n) i f = total-reserve n (i + 1) _

pub init_frames-total : (kb : ℕ) → (init_frames 0 kb).total ≡ count_frames kb
unfolding init_frames
init_frames-total kb = total-reserve reserved_frames 0 _

-- After init_memory, with used_frames at 0 before it, the frames are validly counted: exactly the first 512 are in use.
pub init_frames-IsValid :
    (mem_upper_kb : ℕ)
    → IsValid (init_frames 0 mem_upper_kb)
      × ((n : ℕ) → reserved_frames ≤ n → in_use (init_frames 0 mem_upper_kb).bitmap n ≡ false)
unfolding init_frames count_frames
init_frames-IsValid kb =
    let n = kb * 1024 % u32_mod / page_size in
    let total = if ltb max_frames n then max_frames else n in
    let (a, b, d, e) =
      reserve-IsValid reserved_frames 0
        (record { bitmap = λ i. 0; total = total; used = 0; mem_total_kb = kb }) (omega arith)
        (ground arith) (sym (count_used-zero max_frames)) (λ j x y. absurd (omega arith))
        (λ j x. test_bit-zero (j % 32)) in
    (record { counted = d; kernel = a; small = rw e (ground arith) }, λ j x. b j x)

restored :
    (f g : Frames) (a k n : ℕ)
    → a / page_size ≡ k
    → in_use f.bitmap k ≡ false
    → in_use g.bitmap n ≡ (if k == n then true else in_use f.bitmap n)
    → in_use (frame_clear g.bitmap a) n ≡ in_use f.bitmap n
restored f g a k n at c i =
    in_use-frame_clear g.bitmap a n
    ∙ rw at (elim (ℕ_discrete k n) [
      | yes e ↦ rw (e, ==-self n) (sym (subst (λ x. in_use f.bitmap x ≡ false) e c))
      | no ne ↦ rw (==_of_ne k n ne) (i ∙ rw (==_of_ne k n ne))
    ])

free_page-allocated :
    (f : Frames) (a : ℕ) (g : Frames)
    → IsValid f
    → a ≢ 0
    → Allocates f a g
    → ((n : ℕ) → in_use (free_page g a).bitmap n ≡ in_use f.bitmap n)
      × ((free_page g a).used ≡ f.used)
unfolding free_page
free_page-allocated f a g v h (inl (z, _, _)) = absurd (h z)
free_page-allocated f a g v h (inr (k, p, l, u, c, b, i, w, _, _)) =
    let at : a / page_size ≡ k = omega (arith, p) in
    let above : ltb a (2 * 1024 * 1024) ≡ false = ltb_of_le a _ (omega (arith, p)) in
    let hit : frame_test g.bitmap a ≡ true = unfold frame_test in rw at (i k ∙ rw (==-self k)) in
    simp (above, hit)
      (
        λ n. restored f g a k n at c (i n),
        omega (arith, w, count_used-le f.bitmap max_frames, v.counted),
      )

-- free_page undoes alloc_page: freeing the page that was just handed out gives every frame the state
-- it had, and used_frames its value.
pub free_page-alloc_page :
    (f : Frames)
    → IsValid f
    → (alloc_page f).0 ≢ 0
    → let f' = free_page (alloc_page f).1 (alloc_page f).0 in
      ((n : ℕ) → in_use f'.bitmap n ≡ in_use f.bitmap n) × (f'.used ≡ f.used)
unfolding free_page
free_page-alloc_page f v h =
    free_page-allocated f (alloc_page f).0 (alloc_page f).1 v h (alloc_page-Allocates f v)
