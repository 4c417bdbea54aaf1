-- ===== src/Shell/Args.antt =====
-- The strings of core/shell/shell.c and the split of a line into arguments. A pointer into the line is
-- the list of the characters from there on.
use korus_os.Prelude.{ℕ, zero, suc, Option, none, some, List, [], ◌∷◌, ◌==◌, if◌then◌else◌, length}
use korus_os.Vfs.Memfs

abbrev pub shell_input_size : ℕ
shell_input_size = 256

abbrev pub shell_max_args : ℕ
shell_max_args = 16

abbrev pub space : ℕ
space = b' '

unfoldable pub kstrlen : Option (List ℕ) → ℕ
kstrlen none = 0
kstrlen (some s) = length s

-- The pair of the first two characters that differ, 0 at an end, as in Vfs; (0, 1) for NULL.
unfoldable pub kstrcmp : Option (List ℕ) → Option (List ℕ) → ℕ × ℕ
kstrcmp none b = (0, 1)
kstrcmp (some a) none = (0, 1)
kstrcmp (some a) (some b) = Memfs.kstrcmp a b

unfoldable pub kstrncmp : ℕ → List ℕ → List ℕ → ℕ × ℕ
kstrncmp zero a b = (0, 0)
kstrncmp (suc n) [] [] = (0, 0)
kstrncmp (suc n) [] (y ∷ ys) = (0, y)
kstrncmp (suc n) (x ∷ xs) [] = (x, 0)
kstrncmp (suc n) (x ∷ xs) (y ∷ ys) = let rest = kstrncmp n xs ys in if x == y then rest else (x, y)

-- `while (*p == ' ') p++;`
unfoldable pub skip_spaces : List ℕ → List ℕ
skip_spaces [] = []
skip_spaces (c ∷ cs) = let rest = skip_spaces cs in if c == space then rest else c ∷ cs

-- `while (*p && *p != ' ') p++;`: the argument, and what stands behind its separator.
unfoldable pub split_word : List ℕ → List ℕ × List ℕ
split_word [] = ([], [])
split_word (c ∷ cs) =
    let (word, rest) = split_word cs in if c == space then ([], cs) else (c ∷ word, rest)

-- `if (!*p) break;`, for `p` behind the spaces.
abbrev pub add_arg : List ℕ → List ℕ → List (List ℕ) → List (List ℕ)
add_arg [] word args = []
add_arg (c ∷ cs) word args = word ∷ args

-- The loop of parse_args, with the number of arguments that there is still room for: each round but
-- one that meets the end of the line takes one. The result is argv, its length argc.
unfoldable pub parse_args : List ℕ → ℕ → List (List ℕ)
unfolding skip_spaces split_word
parse_args line zero = []
parse_args line (suc n) =
    let p = skip_spaces line in
    let (word, rest) = split_word p in let args = parse_args rest n in add_arg p word args
