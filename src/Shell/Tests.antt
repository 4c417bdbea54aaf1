-- ===== src/Shell/Tests.antt =====
-- Lines of the shell.
use korus_os.Prelude.{ℕ, ◌≡◌, refl, List, [], ◌∷◌, take}
use korus_os.Prelude.Text.{bytes_of, utf8}
use korus_os.Shell.Args.{parse_args, skip_spaces, split_word}
use korus_os.Shell.Words.{words, parse_args-words}

-- "  run  a.elf "
abbrev line : List ℕ
line = bytes_of "  run  a.elf "

parsed : parse_args line 16 ≡ bytes_of "run" ∷ bytes_of "a.elf" ∷ []
unfolding parse_args skip_spaces split_word bytes_of utf8
parsed = refl

parse_args-words_example : parse_args line 1 ≡ take 1 (words line)
parse_args-words_example = parse_args-words line 1
