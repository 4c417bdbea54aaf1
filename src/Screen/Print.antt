-- ===== src/Screen/Print.antt =====
-- What the printing functions of the kernel send to the screen, as a list of calls of screen.c.
use korus_os.Prelude.{ℕ, ◌-◌, List, [], ◌∷◌, arith, ltb, ◌==◌, u32_mod, Bool-cases, inl, inr}
use korus_os.Prelude.Text.{bytes_of}
use Prim.Native.String.{String}
use korus_os.Screen.{
  Screen, hex_digits, int_digits, print_natural, screen_clear, screen_set_color, screen_putchar,
  screen_print, screen_println, screen_print_hex, screen_print_int,
}
use korus_os.Screen.Cursor.{InScreen, screen_putchar-InScreen, screen_print-InScreen}

-- The calls: screen_print of a literal and of a string, screen_println of either, screen_print_int of
-- a 32-bit pattern, screen_print_hex, screen_putchar, screen_set_color and screen_clear.
pub data Call : Type 0 where
  print println : String → Call
  string string_line : List ℕ → Call
  int hex char : ℕ → Call
  color : ℕ → ℕ → Call
  clear : Call

unfoldable pub run_call : Screen → Call → Screen
run_call s (print t) = screen_print s (bytes_of t)
run_call s (println t) = screen_println s (bytes_of t)
run_call s (string t) = screen_print s t
run_call s (string_line t) = screen_println s t
run_call s (int v) = screen_print_int s v
run_call s (hex v) = screen_print_hex s v
run_call s (char c) = screen_putchar s c
run_call s (color fg bg) = screen_set_color s fg bg
run_call s clear = screen_clear s

unfoldable pub show : Screen → List Call → Screen
show s [] = s
show s (c ∷ cs) = show (run_call s c) cs

println-InScreen : (s : Screen) (str : List ℕ) → InScreen s → InScreen (screen_println s str)
unfolding screen_println
println-InScreen s str v =
    screen_putchar-InScreen (screen_print s str) 10 (screen_print-InScreen s str v)

hex-InScreen : (s : Screen) (val : ℕ) → InScreen s → InScreen (screen_print_hex s val)
unfolding screen_print_hex
hex-InScreen s val v = screen_print-InScreen s (48 ∷ 120 ∷ hex_digits 8 val []) v

pub clear-InScreen : (s : Screen) → InScreen (screen_clear s)
unfolding screen_clear
clear-InScreen s = (omega arith, omega arith)

natural-InScreen : (s : Screen) (val : ℕ) → InScreen s → InScreen (print_natural s val)
natural-InScreen s val v = elim (Bool-cases (val == 0)) [
  | inl e ↦ rw e (screen_putchar-InScreen s 48 v)
  | inr e ↦ rw e (screen_print-InScreen s (int_digits 10 val []) v)
]

int-InScreen : (s : Screen) (val : ℕ) → InScreen s → InScreen (screen_print_int s val)
unfolding screen_print_int
int-InScreen s val v = elim (Bool-cases (ltb val 0x8000_0000)) [
  | inl e ↦ rw e (natural-InScreen s val v)
  | inr e ↦ elim (Bool-cases (val == 0x8000_0000)) [
    | inl f ↦ rw (e, f) (screen_putchar-InScreen s 45 v)
    | inr f ↦
        rw (e, f)
          (natural-InScreen (screen_putchar s 45) (u32_mod - val) (screen_putchar-InScreen s 45 v))
  ]
]

color-InScreen : (s : Screen) (fg bg : ℕ) → InScreen s → InScreen (screen_set_color s fg bg)
unfolding screen_set_color
color-InScreen s fg bg v = v

run_call-InScreen : (s : Screen) (c : Call) → InScreen s → InScreen (run_call s c)
unfolding run_call
run_call-InScreen s (print t) v = screen_print-InScreen s (bytes_of t) v
run_call-InScreen s (println t) v = println-InScreen s (bytes_of t) v
run_call-InScreen s (string t) v = screen_print-InScreen s t v
run_call-InScreen s (string_line t) v = println-InScreen s t v
run_call-InScreen s (int n) v = int-InScreen s n v
run_call-InScreen s (hex n) v = hex-InScreen s n v
run_call-InScreen s (char c) v = screen_putchar-InScreen s c v
run_call-InScreen s (color fg bg) v = color-InScreen s fg bg v
run_call-InScreen s clear v = clear-InScreen s

-- Whatever the kernel prints, strings, numbers in both bases, colours and cleared screens, in any
-- order, a cursor on the screen stays on the screen.
pub show-InScreen : (s : Screen) (cs : List Call) → InScreen s → InScreen (show s cs)
unfolding show
show-InScreen s [] v = v
show-InScreen s (c ∷ cs) v = show-InScreen (run_call s c) cs (run_call-InScreen s c v)
