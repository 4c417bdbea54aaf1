-- ===== src/Memory/Frames/Find.antt =====
-- The search for a free frame: the lowest one, in the words that it covers.
use korus_os.Prelude.{
  ℕ, zero, suc, ◌+◌, ◌-◌, ◌*◌, ◌/◌, ◌%◌, ◌≤◌, ◌<◌, ◌≡◌, refl, dec_lt, ℕ_discrete, Bool, true, false,
  Option, none, some, arith, ◌==◌, if◌then◌else◌, Bool-cases, Option-cases, inl, inr, ◌⊎◌, ==_iff,
  ◌∙◌, subst,
}
use korus_os.Prelude.Bits.{test_bit, all_set, test_bit-set_bit, test_bit-clear_bit}
use korus_os.Memory.Frames.{
  Bitmap, Frames, page_size, find_clear_bit, find_in_word, find_from, frame_find_free, frame_set,
  frame_clear,
}

-- Frame number `n` is in use.
abbrev pub in_use : Bitmap → ℕ → Bool
in_use m n = test_bit (m (n / 32)) (n % 32)

pub in_use-frame_set :
    (m : Bitmap) (addr n : ℕ)
    → in_use (frame_set m addr) n ≡ (if addr / page_size == n then true else in_use m n)
unfolding frame_set
in_use-frame_set m addr n =
    let k = addr / page_size in ground (arith, test_bit-set_bit (m (k / 32)) (k % 32) (n % 32))

pub in_use-frame_clear :
    (m : Bitmap) (addr n : ℕ)
    → in_use (frame_clear m addr) n ≡ (if addr / page_size == n then false else in_use m n)
unfolding frame_clear
in_use-frame_clear m addr n =
    let k = addr / page_size in ground (arith, test_bit-clear_bit (m (k / 32)) (k % 32) (n % 32))

-- Every index from `i` up to `k` passes.
abbrev pub Upto : (ℕ → Bool) → ℕ → ℕ → Type 0
Upto p i k = (j : ℕ) → i ≤ j → j < k → p j ≡ true

Upto-cons : (p : ℕ → Bool) (i k : ℕ) → p i ≡ true → Upto p (i + 1) k → Upto p i k
Upto-cons p i k h u j l r = elim (ℕ_discrete i j) [
  | yes e ↦ subst (λ x. p x ≡ true) e h
  | no ne ↦ u j (omega arith) r
]

Upto-append : (p : ℕ → Bool) (i k n : ℕ) → Upto p i k → Upto p k n → Upto p i n
Upto-append p i k n u v j l r = elim (dec_lt j k) [ yes h ↦ u j l h | no h ↦ v j (omega arith) r ]

-- The lowest index below `n` from `i` on that fails, or that none does.
abbrev pub FirstClear : (ℕ → Bool) → ℕ → ℕ → Option ℕ → Type 0
FirstClear p i n none = Upto p i n
FirstClear p i n (some k) = (i ≤ k) × (k < n) × (p k ≡ false) × Upto p i k

FirstClear-cons :
    (p : ℕ → Bool) (i n : ℕ) (r : Option ℕ)
    → p i ≡ true
    → FirstClear p (i + 1) n r
    → FirstClear p i n r
FirstClear-cons p i n none h f = Upto-cons p i n h f
FirstClear-cons p i n (some k) h f = (omega arith, f.1, f.2, Upto-cons p i k h f.3)

find_clear_bit-FirstClear :
    (n word j e : ℕ) → j + n ≡ e → FirstClear (test_bit word) j e (find_clear_bit n word j)
unfolding find_clear_bit
find_clear_bit-FirstClear zero word j e h = λ i l u. absurd (omega arith)
find_clear_bit-FirstClear (suc n) word j e h = elim (Bool-cases (test_bit word j)) [
  | inl t ↦
      let r = find_clear_bit-FirstClear n word (j + 1) e (omega arith) in
      rw t (FirstClear-cons (test_bit word) j e (find_clear_bit n word (j + 1)) t r)
  | inr t ↦ rw t (omega arith, omega arith, t, λ i l u. absurd (omega arith))
]

find_in_word-FirstClear : (word : ℕ) → FirstClear (test_bit word) 0 32 (find_in_word word)
unfolding find_in_word
find_in_word-FirstClear word = elim (Bool-cases (word == 0xFFFF_FFFF)) [
  | inl t ↦ rw t (λ j l u. rw ((==_iff word 0xFFFF_FFFF).0 t) (all_set j u))
  | inr t ↦ rw t (find_clear_bit-FirstClear 32 word 0 32 (omega arith))
]

-- The address of the lowest free frame of the words `[i, e)`, or 0 if all their frames are in use.
abbrev pub LowestFree : Bitmap → ℕ → ℕ → ℕ → Type 0
LowestFree m i e r =
    ((k : ℕ) × (r ≡ k * page_size)
      × (i * 32 ≤ k)
      × (k < e * 32)
      × (in_use m k ≡ false)
      × Upto (in_use m) (i * 32) k)
    ⊎ ((r ≡ 0) × Upto (in_use m) (i * 32) (e * 32))

-- The frames of one word.
in_use-word : (m : Bitmap) (i j : ℕ) → j < 32 → in_use m (i * 32 + j) ≡ test_bit (m i) j
in_use-word m i j h =
    let q : (i * 32 + j) / 32 ≡ i = omega arith in
    let r : (i * 32 + j) % 32 ≡ j = omega arith in rw (q, r)

Upto-word :
    (m : Bitmap) (i k : ℕ)
    → k ≤ 32
    → Upto (test_bit (m i)) 0 k
    → Upto (in_use m) (i * 32) (i * 32 + k)
Upto-word m i k h u j l r =
    let e : i * 32 + (j - i * 32) ≡ j = omega arith in
    subst (λ x. in_use m x ≡ true) e
      (in_use-word m i (j - i * 32) (omega arith) ∙ u (j - i * 32) (omega arith) (omega arith))

LowestFree-next :
    (m : Bitmap) (i e r : ℕ)
    → Upto (test_bit (m i)) 0 32
    → LowestFree m (i + 1) e r
    → LowestFree m i e r
LowestFree-next m i e r full (inl (k, p, l, u, c, b)) = inl (
  k,
  p,
  omega arith,
  u,
  c,
  Upto-append (in_use m) (i * 32) (i * 32 + 32) k (Upto-word m i 32 (omega arith) full)
      (λ j l' u'. b j (omega arith) u'),
)
LowestFree-next m i e r full (inr (p, b)) = inr (
  p,
  Upto-append (in_use m) (i * 32) (i * 32 + 32) (e * 32) (Upto-word m i 32 (omega arith) full)
      (λ j l' u'. b j (omega arith) u'),
)

find_from-LowestFree :
    (n : ℕ) (m : Bitmap) (i e : ℕ) → i + n ≡ e → LowestFree m i e (find_from n m i)
unfolding find_from
find_from-LowestFree zero m i e h = inr (refl, λ j l u. absurd (omega arith))
find_from-LowestFree (suc n) m i e h = elim (Option-cases (find_in_word (m i))) [
  | inl t ↦
      let full = rw t at (find_in_word-FirstClear (m i)) in
      rw (t, find_from)
        (LowestFree-next m i e (find_from n m (i + 1)) full
          (find_from-LowestFree n m (i + 1) e (omega arith)))
  | inr (k, t) ↦
      let f : FirstClear (test_bit (m i)) 0 32 (some k) = rw t at (find_in_word-FirstClear (m i)) in
      rw (t, find_from)
        (inl (
          i * 32 + k,
          refl,
          omega arith,
          omega arith,
          in_use-word m i k f.1 ∙ f.2,
          Upto-word m i k (omega arith) f.3,
        ))
]

-- frame_find_free returns the address of the lowest free frame among the first
-- total_frames / 32 * 32, and 0 exactly where all of these are in use (frame 0 being in use).
pub frame_find_free-LowestFree :
    (f : Frames) → LowestFree f.bitmap 0 (f.total / 32) (frame_find_free f)
unfolding frame_find_free
frame_find_free-LowestFree f =
    find_from-LowestFree (f.total / 32) f.bitmap 0 (f.total / 32) (omega arith)
