-- ===== src/Prelude/Text.antt =====
-- String literals of the source as their bytes: the files are UTF-8.
use Prim.Native.Nat.{ℕ, ◌+◌, ◌/◌, ◌%◌}
use Prim.Native.Char.{code}
use Prim.Native.String.{String}
use mathlib.Core.List.{List, [], ◌∷◌, ◌++◌}
use korus_os.Prelude.Tests.{ltb, if◌then◌else◌}

-- One code point: one, two or three bytes.
unfoldable pub utf8 : ℕ → List ℕ
utf8 c =
    if ltb c 0x80
    then c ∷ []
    else if ltb c 0x800
    then (0xC0 + c / 64) ∷ (0x80 + c % 64) ∷ []
    else (0xE0 + c / 4096) ∷ (0x80 + c / 64 % 64) ∷ (0x80 + c % 64) ∷ []

unfoldable pub bytes_of : String → List ℕ
unfolding utf8
bytes_of String.[] = []
bytes_of (String.◌∷◌ c s) = utf8 (code c) ++ bytes_of s
