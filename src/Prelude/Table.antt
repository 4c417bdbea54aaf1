-- ===== src/Prelude/Table.antt =====
-- Fixed tables of slots, as the kernel's static arrays: the first slot that passes a test, a write
-- to one slot, and how many slots pass a test.
use Prim.Native.Nat.{ℕ, zero, suc, ◌+◌, ◌≤◌, ◌<◌}
use mathlib.Core.Path.{◌≡◌, refl, ap}
use mathlib.Core.Logic.{◌≢◌, inl, inr}
use mathlib.Core.Bool.{Bool, true, false}
use mathlib.Core.List.{List, [], ◌∷◌}
use mathlib.Core.Option
use mathlib.Core.Option.{Option, none, some}
use native.Mathlib.Omega.{arith}
use korus_os.Prelude.Tests.{if◌then◌else◌, Bool-cases, Option-cases}
use korus_os.Prelude.Lists.{length, get_or}

-- 1 for a test that holds.
abbrev pub bit : Bool → ℕ
bit true = 1
bit false = 0

module _ {ℓ} {A : Type ℓ} where
  -- `for (i = 0; i < N; i++) if (p(t[i])) return i;`
  unfoldable pub find_index : (A → Bool) → List A → Option ℕ
  find_index p [] = none
  find_index p (x ∷ xs) = if p x then some 0 else Option.map suc (find_index p xs)

  -- `t[i] = f(t[i])`, and no change where `i` is out of range.
  abbrev pub modify : List A → ℕ → (A → A) → List A
  modify [] i f = []
  modify (x ∷ xs) zero f = f x ∷ xs
  modify (x ∷ xs) (suc i) f = x ∷ modify xs i f

  abbrev pub count_if : (A → Bool) → List A → ℕ
  count_if p [] = 0
  count_if p (x ∷ xs) = bit (p x) + count_if p xs

  pub length-modify : (xs : List A) (i : ℕ) (f : A → A) → length (modify xs i f) ≡ length xs
  length-modify [] i f = refl
  length-modify (x ∷ xs) zero f = refl
  length-modify (x ∷ xs) (suc i) f = ap suc (length-modify xs i f)

  pub get_or-modify_self :
      (xs : List A) (i : ℕ) (f : A → A) (d : A)
      → i < length xs
      → get_or (modify xs i f) i d ≡ f (get_or xs i d)
  get_or-modify_self [] i f d h = absurd (omega arith)
  get_or-modify_self (x ∷ xs) zero f d h = refl
  get_or-modify_self (x ∷ xs) (suc i) f d h = get_or-modify_self xs i f d (omega arith)

  pub get_or-modify_ne :
      (xs : List A) (i j : ℕ) (f : A → A) (d : A)
      → i ≢ j
      → get_or (modify xs i f) j d ≡ get_or xs j d
  get_or-modify_ne [] i j f d h = refl
  get_or-modify_ne (x ∷ xs) zero zero f d h = absurd (h refl)
  get_or-modify_ne (x ∷ xs) zero (suc j) f d h = refl
  get_or-modify_ne (x ∷ xs) (suc i) zero f d h = refl
  get_or-modify_ne (x ∷ xs) (suc i) (suc j) f d h = get_or-modify_ne xs i j f d (λ e. h (ap suc e))

  -- A write changes the count by what it does to its own slot.
  pub count_if-modify :
      (p : A → Bool) (xs : List A) (i : ℕ) (f : A → A) (d : A)
      → i < length xs
      → count_if p (modify xs i f) + bit (p (get_or xs i d))
        ≡ count_if p xs + bit (p (f (get_or xs i d)))
  count_if-modify p [] i f d h = absurd (omega arith)
  count_if-modify p (x ∷ xs) zero f d h = omega arith
  count_if-modify p (x ∷ xs) (suc i) f d h = omega (arith, count_if-modify p xs i f d (omega arith))

  pub count_if-le-length : (p : A → Bool) (xs : List A) → count_if p xs ≤ length xs
  count_if-le-length p [] = omega arith
  count_if-le-length p (x ∷ xs) = ground (arith, count_if-le-length p xs)

  -- What the search promises: the first index that passes, or that none does.
  pub record Found (p : A → Bool) (xs : List A) (i : ℕ) (d : A) : Type 0 where
    pub inside : i < length xs
    pub passes : p (get_or xs i d) ≡ true
    pub first : (j : ℕ) → j < i → p (get_or xs j d) ≡ false

  Found-step :
      (p : A → Bool) (x : A) (xs : List A) (k i : ℕ) (d : A)
      → i ≡ suc k
      → p x ≡ false
      → ((j : ℕ) → j < k → p (get_or xs j d) ≡ false)
      → (j : ℕ) → j < i
      → p (get_or (x ∷ xs) j d) ≡ false
  Found-step p x xs k i d z e h zero l = e
  Found-step p x xs k i d z e h (suc j) l = h j (omega arith)

  pub find_index-Found :
      (p : A → Bool) (xs : List A) (i : ℕ) (d : A) → find_index p xs ≡ some i → Found p xs i d
  unfolding find_index
  find_index-Found p [] i d h = cc
  find_index-Found p (x ∷ xs) i d h = elim (Bool-cases (p x)) [
    | inl e ↦
        let z : i ≡ 0 = ground arith in
        record { inside = omega arith; passes = rw z e; first = λ j l. absurd (omega arith) }
    | inr e ↦ elim (Option-cases (find_index p xs)) [
      | inl n ↦ ground arith
      | inr (k, f) ↦
          let z : i ≡ suc k = ground arith in
          let r : Found p xs k d = find_index-Found p xs k d f in
          record {
            inside = omega (arith, r.inside);
            passes = rw z r.passes;
            first = Found-step p x xs k i d z e r.first;
          }
    ]
  ]

  pub find_index-none :
      (p : A → Bool) (xs : List A) (j : ℕ) (d : A)
      → find_index p xs ≡ none
      → j < length xs
      → p (get_or xs j d) ≡ false
  unfolding find_index
  find_index-none p [] j d h l = absurd (omega arith)
  find_index-none p (x ∷ xs) zero d h l = ground arith
  find_index-none p (x ∷ xs) (suc j) d h l = ground (arith, find_index-none p xs j d)

  -- Where fewer slots than the table has fail the test, the search finds one.
  pub find_index_total :
      (p q : A → Bool) (xs : List A)
      → ((x : A) → p x ≡ false → q x ≡ true)
      → count_if q xs < length xs
      → (i : ℕ) × (find_index p xs ≡ some i)
  unfolding find_index
  find_index_total p q [] h l = absurd (omega arith)
  find_index_total p q (x ∷ xs) h l = elim (Bool-cases (p x)) [
    | inl e ↦ (0, rw e)
    | inr e ↦ let (i, f) = find_index_total p q xs h (ground (arith, h x)) in (suc i, rw (e, f))
  ]

  -- A property of every slot, kept by a write that keeps it.
  pub get_or-modify-All :
      (P : A → Type 0) (xs : List A) (i : ℕ) (f : A → A) (d : A)
      → ((j : ℕ) → P (get_or xs j d))
      → (P (get_or xs i d) → P (f (get_or xs i d)))
      → (j : ℕ) → P (get_or (modify xs i f) j d)
  get_or-modify-All P [] i f d h k j = h j
  get_or-modify-All P (x ∷ xs) zero f d h k zero = k (h 0)
  get_or-modify-All P (x ∷ xs) zero f d h k (suc j) = h (suc j)
  get_or-modify-All P (x ∷ xs) (suc i) f d h k zero = h 0
  get_or-modify-All P (x ∷ xs) (suc i) f d h k (suc j) =
      get_or-modify-All P xs i f d (λ n. h (suc n)) k j
