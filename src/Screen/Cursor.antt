-- ===== src/Screen/Cursor.antt =====
-- The cursor stays on the screen.
use korus_os.Prelude.{
  ℕ, ◌-◌, ◌≤◌, ◌<◌, ◌≡◌, refl, true, false, List, [], ◌∷◌, arith, ltb, leb, if◌then◌else◌,
  Bool-cases, inl, inr, lt→ltb, leb→le,
}
use korus_os.Screen.{
  Screen, vga_width, vga_height, update_cursor, scroll_up, put, screen_putchar, screen_print,
}

abbrev pub InScreen : Screen → Type 0
InScreen s = (s.cursor_x < vga_width) × (s.cursor_y < vga_height)

put-near :
    (s : Screen) (c : ℕ)
    → InScreen s
    → ((put s c).cursor_x < vga_width) × ((put s c).cursor_y ≤ vga_height)
unfolding put
put-near s c v = ground arith

scroll_up-cursor :
    (s : Screen)
    → ((scroll_up s).cursor_x ≡ s.cursor_x)
      × ((scroll_up s).cursor_y ≡ (if ltb 0 s.cursor_y then s.cursor_y - 1 else s.cursor_y))
unfolding scroll_up
scroll_up-cursor s = (refl, refl)

putchar_parts :
    (s : Screen) (c : ℕ)
    → ((screen_putchar s c).cursor_x
        ≡ (if leb vga_height (put s c).cursor_y then (scroll_up (put s c)) else put s c).cursor_x)
      × ((screen_putchar s c).cursor_y
          ≡ (if leb vga_height (put s c).cursor_y then (scroll_up (put s c)) else put s c).cursor_y)
unfolding screen_putchar update_cursor
putchar_parts s c = (refl, refl)

pub screen_putchar-InScreen : (s : Screen) (c : ℕ) → InScreen s → InScreen (screen_putchar s c)
screen_putchar-InScreen s c v =
    let (x, y) = put-near s c v in
    let (a, b) = putchar_parts s c in
    let (sx, sy) = scroll_up-cursor (put s c) in
    elim (Bool-cases (leb vga_height (put s c).cursor_y)) [
      | inl e ↦
          let full = leb→le vga_height (put s c).cursor_y e in
          let pos : ltb 0 (put s c).cursor_y ≡ true =
            lt→ltb 0 (put s c).cursor_y (omega (arith, full)) in
          let xs = rw e at a in
          let ys = rw e at b in (omega (arith, xs, sx, x), omega (arith, ys, rw pos at sy, y, full))
      | inr e ↦
          let low = below vga_height (put s c).cursor_y e in
          let xs = rw e at a in let ys = rw e at b in (omega (arith, xs, x), omega (arith, ys, low))
    ]
  where
    below : (n m : ℕ) → leb n m ≡ false → m < n
    below n m h = ground arith

-- Whatever string is printed, newlines, tabs, backspaces and full lines included, a cursor on the
-- screen stays on the screen.
pub screen_print-InScreen : (s : Screen) (str : List ℕ) → InScreen s → InScreen (screen_print s str)
unfolding screen_print
screen_print-InScreen s [] v = v
screen_print-InScreen s (c ∷ cs) v =
    screen_print-InScreen (screen_putchar s c) cs (screen_putchar-InScreen s c v)
