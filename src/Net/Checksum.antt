-- ===== src/Net/Checksum.antt =====
-- The checksum that ip_checksum computes verifies the header it is put in.
use korus_os.Prelude.{
  ℕ, zero, suc, ◌+◌, ◌-◌, ◌*◌, ◌/◌, ◌%◌, ◌<◌, ◌≡◌, refl, ℕ_discrete, true, false, List, [], ◌∷◌,
  ◌++◌, arith, ◌==◌, add32, u32_mod, Bool-cases, inl, inr, ==_iff, sym, ◌∙◌,
}
use korus_os.Net.{htons, htonl, sum_words, fold_carry, ip_checksum, le16}

-- htons undoes itself on 16 bits.
pub htons-involutive : (val : ℕ) → val < 65536 → htons (htons val) ≡ val
unfolding htons
htons-involutive val l = omega arith

-- htonl undoes itself on 32 bits.
pub htonl-involutive : (val : ℕ) → val < u32_mod → htonl (htonl val) ≡ val
unfolding htonl
htonl-involutive val l = omega arith

-- The sum of the words without wrap-around.
abbrev pub plain : List ℕ → ℕ
plain [] = 0
plain (a ∷ []) = a
plain (a ∷ b ∷ bs) = a + b * 256 + plain bs

sum_words-plain :
    (bs : List ℕ) (sum : ℕ) → sum + plain bs < u32_mod → sum_words sum bs ≡ sum + plain bs
unfolding sum_words
sum_words-plain [] sum l = omega arith
sum_words-plain (a ∷ []) sum l = omega arith
sum_words-plain (a ∷ b ∷ bs) sum l =
    let e : add32 sum (a + b * 256) ≡ sum + (a + b * 256) = omega arith in
    rw e (sum_words-plain bs (sum + (a + b * 256)) (omega arith) ∙ omega arith)

-- An even number of bytes.
abbrev pub Even : List ℕ → Type 0
Even [] = Unit
Even (a ∷ []) = ⊥
Even (a ∷ b ∷ bs) = Even bs

plain-append : (xs ys : List ℕ) → Even xs → plain (xs ++ ys) ≡ plain xs + plain ys
plain-append [] ys h = omega arith
plain-append (a ∷ []) ys h = absurd h
plain-append (a ∷ b ∷ xs) ys h = omega (arith, plain-append xs ys h)

-- The fold keeps a sum's remainder modulo 65535, and makes 0 of 0 alone.
abbrev Folds : ℕ → ℕ → Type 0
Folds sum r = (q : ℕ) × (sum ≡ r + 65535 * q) × (r ≡ 0 → sum ≡ 0)

fold_carry-small : (n sum : ℕ) → (sum / 65536 == 0) ≡ true → fold_carry (suc n) sum ≡ sum
unfolding fold_carry
fold_carry-small n sum e = rw e

fold_carry-step :
    (n sum : ℕ)
    → (sum / 65536 == 0) ≡ false
    → fold_carry (suc n) sum ≡ fold_carry n (sum % 65536 + sum / 65536)
unfolding fold_carry
fold_carry-step n sum e = rw e

no-high : (sum : ℕ) → (sum / 65536 == 0) ≡ true → sum < 65536
no-high sum e = omega (arith, (==_iff (sum / 65536) 0).0 e)

fold_carry-zero : (sum : ℕ) → Folds sum (fold_carry zero sum)
unfolding fold_carry
fold_carry-zero sum = (0, omega arith, λ h. h)

fold_carry-Folds : (n sum : ℕ) → Folds sum (fold_carry n sum)
fold_carry-Folds zero sum = fold_carry-zero sum
fold_carry-Folds (suc n) sum = elim (Bool-cases (sum / 65536 == 0)) [
  | inl e ↦ rw (fold_carry-small n sum e) (0, omega arith, λ h. h)
  | inr e ↦
      let (q, a, z) = fold_carry-Folds n (sum % 65536 + sum / 65536) in
      rw (fold_carry-step n sum e) (q + sum / 65536, omega (arith, a), λ h. omega (arith, z h))
]

bound_one : (n sum : ℕ) → sum < 65536 → fold_carry (suc n) sum < 65536
bound_one n sum l =
    let e : (sum / 65536 == 0) ≡ true = rw (high sum l) refl in rw (fold_carry-small n sum e) l
  where
    high : (sum : ℕ) → sum < 65536 → sum / 65536 ≡ 0
    high sum l = omega arith

bound_two : (n sum : ℕ) → sum < 131071 → fold_carry (suc (suc n)) sum < 65536
bound_two n sum l = elim (Bool-cases (sum / 65536 == 0)) [
  | inl e ↦ rw (fold_carry-small (suc n) sum e) (no-high sum e)
  | inr e ↦
      rw (fold_carry-step (suc n) sum e)
        (bound_one n (sum % 65536 + sum / 65536) (omega (arith, l, high (sum / 65536) e)))
]
  where
    high : (k : ℕ) → (k == 0) ≡ false → 0 < k
    high k e = ground arith

bound_three : (n sum : ℕ) → sum < u32_mod → fold_carry (suc (suc (suc n))) sum < 65536
bound_three n sum l = elim (Bool-cases (sum / 65536 == 0)) [
  | inl e ↦ rw (fold_carry-small (suc (suc n)) sum e) (no-high sum e)
  | inr e ↦
      rw (fold_carry-step (suc (suc n)) sum e)
        (bound_two n (sum % 65536 + sum / 65536) (omega arith))
]

-- Two sums that a checksum completes: the second one folds to all ones.
completes :
    (s r c r' q q' : ℕ)
    → s ≡ r + 65535 * q
    → (r ≡ 0 → s ≡ 0)
    → r < 65536
    → c ≡ 65535 - r % 65536
    → s + c ≡ r' + 65535 * q'
    → (r' ≡ 0 → s + c ≡ 0)
    → r' < 65536
    → 65535 - r' % 65536 ≡ 0
completes s r c r' q q' a b l e a' b' l' = elim (ℕ_discrete r' 0) [
  | yes z ↦ absurd (omega (arith, b' z, e, a, l))
  | no nz ↦ omega (arith, a, l, e, a', l', nz)
]

checksum_range : (bs : List ℕ) → ip_checksum bs < 65536
unfolding ip_checksum
checksum_range bs = omega arith

word_of : (v : ℕ) → v < 65536 → v % 256 + v / 256 % 256 * 256 ≡ v
word_of v l = omega arith

ip_checksum-plain :
    (bs : List ℕ) → plain bs < u32_mod → ip_checksum bs ≡ 65535 - fold_carry 3 (plain bs) % 65536
unfolding ip_checksum
ip_checksum-plain bs l =
    let e : sum_words 0 bs ≡ plain bs = sum_words-plain bs 0 (omega arith) ∙ omega arith in rw e

-- A checksum that is computed over a header with a field of zeros, and stored in that field, verifies:
-- over the whole header ip_checksum then returns 0. The field lies behind an even number of bytes,
-- and the sum of the words does not wrap.
pub ip_checksum-verifies :
    (xs ys : List ℕ)
    → Even xs
    → plain xs + plain ys + 65535 < u32_mod
    → ip_checksum (xs ++ (le16 (ip_checksum (xs ++ (0 ∷ 0 ∷ ys))) ++ ys)) ≡ 0
ip_checksum-verifies xs ys even l =
    let zeros = plain-append xs (0 ∷ 0 ∷ ys) even in
    let s = plain (xs ++ (0 ∷ 0 ∷ ys)) in
    let c = ip_checksum (xs ++ (0 ∷ 0 ∷ ys)) in
    let cl : c < 65536 = checksum_range (xs ++ (0 ∷ 0 ∷ ys)) in
    let sl : s < u32_mod = omega (arith, zeros, l) in
    let whole = plain-append xs (le16 c ++ ys) even in
    let t = plain (xs ++ (le16 c ++ ys)) in
    let sum : t ≡ s + c = omega (arith, whole, zeros, word_of c cl) in
    let tl : t < u32_mod = omega (arith, sum, zeros, l, cl) in
    let (q, a, z) = fold_carry-Folds 3 s in
    let (q', a', z') = fold_carry-Folds 3 t in
    ip_checksum-plain (xs ++ (le16 c ++ ys)) tl
    ∙ completes s (fold_carry 3 s) c (fold_carry 3 t) q q' a z (bound_three 0 s sl)
        (ip_checksum-plain (xs ++ (0 ∷ 0 ∷ ys)) sl) (sym sum ∙ a') (λ h. sym sum ∙ z' h)
        (bound_three 0 t tl)
