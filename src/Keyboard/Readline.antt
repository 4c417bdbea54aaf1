-- ===== src/Keyboard/Readline.antt =====
-- kb_readline: the line that it reads.
use korus_os.Prelude.{
  ℕ, zero, suc, ◌+◌, ◌-◌, ◌≤◌, ◌<◌, ◌≡◌, true, false, ◌&&◌, ◌||◌, Option, some, List, [], ◌∷◌, ◌++◌,
  arith, ltb, leb, ◌==◌, sub32, Bool-cases, Option-cases, inl, inr, ap, length, take, length-take,
  length-append,
}
use mathlib.Core.Option.{some-injective}
use korus_os.Keyboard.{Keyboard, kb_getchar, kb_getchar_noblock, Line, readline, kb_readline}

-- Space to tilde.
abbrev pub Printable : List ℕ → Type 0
Printable [] = Unit
Printable (c ∷ cs) = (leb 32 c && ltb c 127) ≡ true × Printable cs

abbrev pub Fits : ℕ → List ℕ → Type 0
Fits max_len buffer = (length buffer ≤ sub32 max_len 1) × Printable buffer

-- A line or a wait, never out of fuel, with what was typed inside the buffer.
abbrev pub Reads : ℕ → Line → Type 0
Reads max_len (Line.line buffer screen k is) = Fits max_len buffer
Reads max_len (Line.waits buffer screen) = Fits max_len buffer
Reads max_len Line.out = ⊥

getchar-shorter :
    (k : Keyboard) (is is' : List (Option ℕ)) (c : ℕ) (k' : Keyboard)
    → kb_getchar k is ≡ some (c, k', is')
    → length is' < length is
unfolding kb_getchar
getchar-shorter k [] is' c k' h = cc
getchar-shorter k (i ∷ is) is' c k' h =
    let p = kb_getchar_noblock k i in
    elim (Bool-cases (p.0 == 0)) [
      | inl z ↦ omega (arith, getchar-shorter p.1 is is' c k' (rw (z, kb_getchar) at h))
      | inr z ↦
          let q = some-injective (p.0, p.1, is) (c, k', is') (rw (z, kb_getchar) at h) in
          let same : length is ≡ length is' = ap (λ x. length x.2) q in omega (arith, same)
    ]

Printable-append : (xs ys : List ℕ) → Printable xs → Printable ys → Printable (xs ++ ys)
Printable-append [] ys p q = q
Printable-append (x ∷ xs) ys (e, p) q = (e, Printable-append xs ys p q)

Printable-take : (n : ℕ) (xs : List ℕ) → Printable xs → Printable (take n xs)
Printable-take zero xs p = tt
Printable-take (suc n) [] p = p
Printable-take (suc n) (x ∷ xs) (e, p) = (e, Printable-take n xs p)

Fits-erase :
    (max_len : ℕ) (buffer : List ℕ)
    → Fits max_len buffer
    → Fits max_len (take (length buffer - 1) buffer)
Fits-erase max_len buffer (l, p) = (
  omega (arith, l, length-take (length buffer - 1) buffer),
  Printable-take (length buffer - 1) buffer p,
)

Fits-type :
    (max_len : ℕ) (buffer : List ℕ) (c : ℕ)
    → leb (sub32 max_len 1) (length buffer) ≡ false
    → (leb 32 c && ltb c 127) ≡ true
    → Fits max_len buffer
    → Fits max_len (buffer ++ (c ∷ []))
Fits-type max_len buffer c room shown (l, p) =
    let less : length buffer < sub32 max_len 1 = below (sub32 max_len 1) (length buffer) room in
    (
      omega (arith, less, length-append buffer (c ∷ [])),
      Printable-append buffer (c ∷ []) p (shown, tt),
    )
  where
    below : (n m : ℕ) → leb n m ≡ false → m < n
    below n m h = ground arith

-- Enough fuel for the inputs that are left: the loop comes to a line or waits.
readline-Reads :
    (n : ℕ) (k : Keyboard) (is : List (Option ℕ)) (buffer screen : List ℕ) (max_len : ℕ)
    → length is < n
    → Fits max_len buffer
    → Reads max_len (readline n k is buffer screen max_len)
unfolding readline
readline-Reads zero k is buffer screen max_len l f = absurd (omega arith)
readline-Reads (suc n) k is buffer screen max_len l f =
    elim (Bool-cases (leb (sub32 max_len 1) (length buffer))) [
      | inl full ↦ rw full f
      | inr room ↦ rw room (elim (Option-cases (kb_getchar k is)) [
        | inl e ↦ rw e f
        | inr ((c, k', is'), e) ↦ rw e (elim (Bool-cases (c == 10 || c == 13)) [
          | inl stop ↦ rw stop f
          | inr go ↦ rw go (elim (Bool-cases (c == 8)) [
            | inl b ↦ rw b (elim (Bool-cases (ltb 0 (length buffer))) [
              | inl some_left ↦ rw some_left (
                  readline-Reads n k' is' (take (length buffer - 1) buffer) (screen ++ (8 ∷ []))
                    max_len (omega (arith, getchar-shorter k is is' c k' e))
                    (Fits-erase max_len buffer f))
              | inr nothing ↦ rw nothing (
                  readline-Reads n k' is' buffer screen max_len
                    (omega (arith, getchar-shorter k is is' c k' e)) f)
            ])
            | inr b ↦ rw b (elim (Bool-cases (leb 32 c && ltb c 127)) [
              | inl shown ↦ rw shown (
                  readline-Reads n k' is' (buffer ++ (c ∷ [])) (screen ++ (c ∷ [])) max_len
                    (omega (arith, getchar-shorter k is is' c k' e))
                    (Fits-type max_len buffer c room shown f))
              | inr other ↦ rw other (
                  readline-Reads n k' is' buffer screen max_len
                    (omega (arith, getchar-shorter k is is' c k' e)) f)
            ])
          ])
        ])
      ])
    ]

-- kb_readline ends its loop or still waits for a key, and what it has stored by then is at most
-- max_len - 1 printable characters (2^32 - 1 for a max_len of 0, whose difference wraps).
pub kb_readline-Reads :
    (k : Keyboard) (is : List (Option ℕ)) (max_len : ℕ) → Reads max_len (kb_readline k is max_len)
unfolding kb_readline
kb_readline-Reads k is max_len =
    readline-Reads (length is + 1) k is [] [] max_len (omega arith) (omega arith, tt)
