-- ===== src/Prelude/Tests.antt =====
-- Boolean tests on the native numbers, and the conditional.
use Prim.Native.Nat.{ℕ, ◌+◌, ◌-◌, ◌%◌, ◌≤◌, ◌<◌, compare, Ordering}
use mathlib.Core.Path.{◌≡◌, refl}
use mathlib.Core.Logic.{◌≢◌, ◌↔◌, ◌⊎◌, inl, inr}
use mathlib.Core.Bool.{Bool, true, false}
use mathlib.Core.Option.{Option, none, some}
use native.Mathlib.Omega.{arith}

-- These compute to `compare`, which `ground` and `grind` read with no lemma listed.
abbrev pub ltb : ℕ → ℕ → Bool
ltb a b = elim (compare a b) [ Ordering.lt ↦ true | _ ↦ false ]

abbrev pub leb : ℕ → ℕ → Bool
leb a b = elim (compare a b) [ Ordering.gt ↦ false | _ ↦ true ]

infix 50 ◌==◌
abbrev pub ◌==◌ : ℕ → ℕ → Bool
a == b = elim (compare a b) [ Ordering.eq ↦ true | _ ↦ false ]

infix 1 if◌then◌else◌
abbrev pub if◌then◌else◌ {ℓ} : {A : Type ℓ} → Bool → A → A → A
if true then x else y = x
if false then x else y = y

-- `omega` reads a test through such lemmas.
pub ltb→lt : (a b : ℕ) → ltb a b ≡ true → a < b
ltb→lt a b h = ground arith

pub lt→ltb : (a b : ℕ) → a < b → ltb a b ≡ true
lt→ltb a b h = ground arith

pub leb→le : (a b : ℕ) → leb a b ≡ true → a ≤ b
leb→le a b h = ground arith

pub ==_iff : (a b : ℕ) → ((a == b) ≡ true) ↔ (a ≡ b)
==_iff a b = ground arith

pub ruleset tests = (arith, ltb→lt, lt→ltb, leb→le)

-- To split on a computed value and keep the equation.
pub Bool-cases : (b : Bool) → (b ≡ true) ⊎ (b ≡ false)
Bool-cases true = inl refl
Bool-cases false = inr refl

pub Option-cases {ℓ} : {A : Type ℓ} (o : Option A) → (o ≡ none) ⊎ ((a : A) × (o ≡ some a))
Option-cases none = inl refl
Option-cases (some a) = inr (a, refl)

pub ==-self : (a : ℕ) → (a == a) ≡ true
==-self a = ground arith

pub ==_of_ne : (a b : ℕ) → a ≢ b → (a == b) ≡ false
==_of_ne a b h = ground arith

pub leb_of_le : (a b : ℕ) → a ≤ b → leb a b ≡ true
leb_of_le a b h = ground arith

pub leb_of_lt : (a b : ℕ) → b < a → leb a b ≡ false
leb_of_lt a b h = ground arith

pub ltb_of_le : (a b : ℕ) → b ≤ a → ltb a b ≡ false
ltb_of_le a b h = ground arith

-- uint32_t sums and differences.
abbrev pub u32_mod : ℕ
u32_mod = 0x1_0000_0000

abbrev pub add32 : ℕ → ℕ → ℕ
add32 a b = (a + b) % u32_mod

abbrev pub sub32 : ℕ → ℕ → ℕ
sub32 a b = (a + u32_mod - b) % u32_mod

-- `m[p] = v`, for an array or a memory seen as a function.
abbrev pub update {ℓ} : {A : Type ℓ} → (ℕ → A) → ℕ → A → ℕ → A
update m p v q = if p == q then v else m q

pub none≢some {ℓ} : {A : Type ℓ} (a : A) → none ≢ some a
none≢some a h = cc

-- The call returns a result that satisfies `P`, or it does not return, and then `U` holds.
abbrev pub Ends {ℓ} : {A : Type ℓ} → Type 0 → (A → Type 0) → Option A → Type 0
Ends U P none = U
Ends U P (some a) = P a

-- The call returns, with a result that satisfies `P`.
abbrev pub Returns {ℓ} : {A : Type ℓ} → (A → Type 0) → Option A → Type 0
Returns P o = Ends ⊥ P o

pub Returns-inv {ℓ} :
    {A : Type ℓ} (P : A → Type 0) (o : Option A) → Returns P o → (a : A) × (o ≡ some a) × P a
Returns-inv P none h = absurd h
Returns-inv P (some a) h = (a, refl, h)

pub Ends-if {ℓ} :
    {A : Type ℓ} (U : Type 0) (P : A → Type 0) (b : Bool) (x y : Option A)
    → (b ≡ true → Ends U P x)
    → (b ≡ false → Ends U P y)
    → Ends U P (if b then x else y)
Ends-if U P true x y h k = h refl
Ends-if U P false x y h k = k refl

-- A weaker excuse.
pub Ends-weaken {ℓ} :
    {A : Type ℓ} (U V : Type 0) (P : A → Type 0) (o : Option A) → (U → V) → Ends U P o → Ends V P o
Ends-weaken U V P none h e = h e
Ends-weaken U V P (some a) h e = e

-- What holds if the call returns, and that it returns.
pub Ends-both {ℓ} :
    {A : Type ℓ} (P Q : A → Type 0) (o : Option A)
    → Ends (Unit {0}) P o
    → Returns Q o
    → Returns (λ a. P a × Q a) o
Ends-both P Q none h k = k
Ends-both P Q (some a) h k = (h, k)

pub Returns-map {ℓ} :
    {A : Type ℓ} (P Q : A → Type 0) (o : Option A)
    → ((a : A) → P a → Q a)
    → Returns P o
    → Returns Q o
Returns-map P Q none k h = h
Returns-map P Q (some a) k h = k a h

pub Returns-both {ℓ} :
    {A : Type ℓ} (P Q : A → Type 0) (o : Option A)
    → Returns P o
    → Returns Q o
    → Returns (λ a. P a × Q a) o
Returns-both P Q none h k = h
Returns-both P Q (some a) h k = (h, k)
