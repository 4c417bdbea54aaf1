-- ===== src/Shell/Words.antt =====
-- parse_args against the words of a line.
use korus_os.Prelude.{
  ℕ, zero, suc, ◌≡◌, refl, false, List, [], ◌∷◌, ◌==◌, if◌then◌else◌, Bool-cases, inl, inr, ◌∙◌, ap,
  take,
}
use korus_os.Shell.Args.{space, skip_spaces, split_word, add_arg, parse_args}

-- A line cut at its spaces: what stands before the first one, and the pieces behind it.
abbrev pub pieces : List ℕ → List ℕ × List (List ℕ)
pieces [] = ([], [])
pieces (c ∷ cs) = let (p, ps) = pieces cs in if c == space then ([], p ∷ ps) else (c ∷ p, ps)

abbrev pub filled : List (List ℕ) → List (List ℕ)
filled [] = []
filled ([] ∷ ps) = filled ps
filled ((c ∷ cs) ∷ ps) = (c ∷ cs) ∷ filled ps

-- The words of a line: its pieces that are not empty.
abbrev pub words : List ℕ → List (List ℕ)
words line = filled ((pieces line).0 ∷ (pieces line).1)

skip_spaces-stops : (c : ℕ) (cs : List ℕ) → (c == space) ≡ false → skip_spaces (c ∷ cs) ≡ c ∷ cs
unfolding skip_spaces
skip_spaces-stops c cs e = rw e

words-skip_spaces : (line : List ℕ) → words (skip_spaces line) ≡ words line
unfolding skip_spaces
words-skip_spaces [] = refl
words-skip_spaces (c ∷ cs) = elim (Bool-cases (c == space)) [
  | inl e ↦ rw e (words-skip_spaces cs)
  | inr e ↦ ap words (skip_spaces-stops c cs e)
]

-- split_word takes the first piece, and leaves the others.
split_word-pieces :
    (p : List ℕ)
    → ((split_word p).0 ≡ (pieces p).0) × (words (split_word p).1 ≡ filled (pieces p).1)
unfolding split_word
split_word-pieces [] = (refl, refl)
split_word-pieces (c ∷ cs) =
    let (w, r) = split_word-pieces cs in
    elim (Bool-cases (c == space)) [
      | inl e ↦ rw e (refl, refl)
      | inr e ↦ rw e (ap (λ x. c ∷ x) w, r)
    ]

-- Empty, or with a character first that is no space.
abbrev Trimmed : List ℕ → Type 0
Trimmed [] = Unit
Trimmed (c ∷ cs) = (c == space) ≡ false

skip_spaces-Trimmed : (line : List ℕ) → Trimmed (skip_spaces line)
unfolding skip_spaces
skip_spaces-Trimmed [] = tt
skip_spaces-Trimmed (c ∷ cs) = elim (Bool-cases (c == space)) [
  | inl e ↦ rw e (skip_spaces-Trimmed cs)
  | inr e ↦ rw e e
]

words-Trimmed :
    (c : ℕ) (cs : List ℕ)
    → (c == space) ≡ false
    → words (c ∷ cs) ≡ (split_word (c ∷ cs)).0 ∷ words (split_word (c ∷ cs)).1
unfolding split_word
words-Trimmed c cs e = let (w, r) = split_word-pieces cs in rw (e, w, r)

add_arg-words :
    (p : List ℕ) (n : ℕ) (args : List (List ℕ))
    → Trimmed p
    → args ≡ take n (words (split_word p).1)
    → add_arg p (split_word p).0 args ≡ take (suc n) (words p)
add_arg-words [] n args t e = refl
add_arg-words (c ∷ cs) n args t e = rw (words-Trimmed c cs t, e)

-- parse_args returns the words of the line, the first `max_args` of them if there are more.
pub parse_args-words :
    (line : List ℕ) (max_args : ℕ) → parse_args line max_args ≡ take max_args (words line)
unfolding parse_args
parse_args-words line zero = refl
parse_args-words line (suc n) =
    let p = skip_spaces line in
    add_arg-words p n (parse_args (split_word p).1 n) (skip_spaces-Trimmed line)
      (parse_args-words (split_word p).1 n)
    ∙ ap (take (suc n)) (words-skip_spaces line)
