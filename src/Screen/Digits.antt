-- ===== src/Screen/Digits.antt =====
-- The digits that screen_print_int prints.
use korus_os.Prelude.{
  ℕ, zero, suc, ◌+◌, ◌-◌, ◌*◌, ◌/◌, ◌%◌, ◌<◌, ◌≡◌, ℕ_discrete, List, [], ◌∷◌, arith, ◌∙◌, ==_of_ne,
  ap,
}
use korus_os.Screen.{int_digits}

-- What a string of decimal digits stands for, after `acc`.
abbrev pub decimal : ℕ → List ℕ → ℕ
decimal acc [] = acc
decimal acc (d ∷ ds) = decimal (acc * 10 + (d - b'0')) ds

abbrev pub pow10 : ℕ → ℕ
pow10 zero = 1
pow10 (suc n) = 10 * pow10 n

int_digits-decimal :
    (n val : ℕ) (acc : List ℕ) → val < pow10 n → decimal 0 (int_digits n val acc) ≡ decimal val acc
unfolding int_digits
int_digits-decimal zero val acc l = ap (λ x. decimal x acc) (omega arith)
int_digits-decimal (suc n) val acc l = elim (ℕ_discrete val 0) [
  | yes e ↦ rw e
  | no ne ↦
      let less : val / 10 < pow10 n = omega arith in
      let back : val / 10 * 10 + (b'0' + val % 10 - b'0') ≡ val = omega arith in
      rw (==_of_ne val 0 ne) (
        int_digits-decimal n (val / 10) ((b'0' + val % 10) ∷ acc) less
        ∙ ap (λ x. decimal x acc) back)
]

-- The digits that screen_print_int prints for a number from 1 to 2^31 - 1 are decimal digits that
-- stand for that number.
pub int_digits-value : (val : ℕ) → val < 0x8000_0000 → decimal 0 (int_digits 10 val []) ≡ val
int_digits-value val l = int_digits-decimal 10 val [] (omega arith)
