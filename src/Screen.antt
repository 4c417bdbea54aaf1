-- ===== src/Screen.antt =====
-- core/drivers/screen.c: the text screen of 80 by 25 cells and its cursor. The cells at 0xB8000 are a
-- function from indices, a char is its byte, and `ports` lists what outb wrote, port and value.
pub mod Cursor
pub mod Scroll
pub mod Digits
pub mod Print
mod Tests
use korus_os.Prelude.{
  ℕ, zero, suc, ◌+◌, ◌-◌, ◌*◌, ◌/◌, ◌%◌, List, [], ◌∷◌, ◌++◌, ltb, leb, ◌==◌, if◌then◌else◌, update,
  u32_mod,
}

abbrev pub vga_width : ℕ
vga_width = 80

abbrev pub vga_height : ℕ
vga_height = 25

-- VGA_MEMORY, the static variables of screen.c, and the port writes.
pub record Screen : Type 0 where
  pub cells : ℕ → ℕ
  pub cursor_x : ℕ
  pub cursor_y : ℕ
  pub cur_color : ℕ
  pub ports : List (ℕ × ℕ)

-- A char is signed: from 128 on its sign bits cover the colour.
unfoldable pub make_entry : ℕ → ℕ → ℕ
make_entry c color = if ltb c 128 then c + color * 256 else 0xFF00 + c

unfoldable pub update_cursor : Screen → Screen
update_cursor s =
    let pos = s.cursor_y * vga_width + s.cursor_x in
    record s {
      ports =
          s.ports
          ++ ((0x3D4, 14) ∷ (0x3D5, pos / 256 % 256) ∷ (0x3D4, 15) ∷ (0x3D5, pos % 256) ∷ []);
    }

-- The inner loop of scroll_up, from column `x` on, with the rounds left.
unfoldable pub copy_row : ℕ → ℕ → ℕ → (ℕ → ℕ) → ℕ → ℕ
copy_row zero y x cells = cells
copy_row (suc n) y x cells =
    copy_row n y (x + 1) (update cells ((y - 1) * vga_width + x) (cells (y * vga_width + x)))

-- The outer loop, from row `y` on.
unfoldable pub copy_rows : ℕ → ℕ → (ℕ → ℕ) → ℕ → ℕ
copy_rows zero y cells = cells
copy_rows (suc n) y cells = copy_rows n (y + 1) (copy_row vga_width y 0 cells)

-- `for (x = ...) cells[start + x] = entry`, with the rounds left.
unfoldable pub fill_cells : ℕ → ℕ → ℕ → (ℕ → ℕ) → ℕ → ℕ
fill_cells zero i entry cells = cells
fill_cells (suc n) i entry cells = fill_cells n (i + 1) entry (update cells i entry)

unfoldable pub scroll_up : Screen → Screen
scroll_up s = record s {
  cells =
      fill_cells vga_width ((vga_height - 1) * vga_width) (make_entry 32 s.cur_color)
        (copy_rows (vga_height - 1) 1 s.cells);
  cursor_y = if ltb 0 s.cursor_y then s.cursor_y - 1 else s.cursor_y;
}

unfoldable pub init_screen : Screen → Screen
init_screen s = record s { cursor_x = 0; cursor_y = 0; cur_color = 0x07 }

unfoldable pub screen_clear : Screen → Screen
unfolding fill_cells make_entry update_cursor
screen_clear s = update_cursor (record s {
  cells = fill_cells (vga_width * vga_height) 0 (make_entry 32 s.cur_color) s.cells;
  cursor_x = 0;
  cursor_y = 0;
})

-- `(bg << 4) | (fg & 0x0F)`, cut to a byte.
unfoldable pub screen_set_color : Screen → ℕ → ℕ → Screen
screen_set_color s fg bg = record s { cur_color = bg * 16 % 256 + fg % 16 }

-- What comes of the cursor after a step to the right.
abbrev pub wrap_line : Screen → ℕ → Screen
wrap_line s x =
    if leb vga_width x
    then record s { cursor_x = 0; cursor_y = s.cursor_y + 1 }
    else record s { cursor_x = x }

abbrev pub put_cell : Screen → ℕ → ℕ → Screen
put_cell s x c = record s {
  cells = update s.cells (s.cursor_y * vga_width + x) (make_entry c s.cur_color);
}

-- The chain of conditions in screen_putchar. `(cursor_x + 8) & ~7` is the next multiple of 8.
unfoldable pub put : Screen → ℕ → Screen
put s c =
    if c == 10
    then record s { cursor_x = 0; cursor_y = s.cursor_y + 1 }
    else if c == 13
    then record s { cursor_x = 0 }
    else if c == 8
    then (if ltb 0 s.cursor_x
        then record (put_cell s (s.cursor_x - 1) 32) { cursor_x = s.cursor_x - 1 }
        else s)
    else if c == 9
    then wrap_line s ((s.cursor_x + 8) / 8 * 8)
    else wrap_line (put_cell s s.cursor_x c) (s.cursor_x + 1)

unfoldable pub screen_putchar : Screen → ℕ → Screen
unfolding put scroll_up update_cursor
screen_putchar s c =
    let s' = put s c in update_cursor (if leb vga_height s'.cursor_y then scroll_up s' else s')

unfoldable pub screen_print : Screen → List ℕ → Screen
screen_print s [] = s
screen_print s (c ∷ cs) = screen_print (screen_putchar s c) cs

unfoldable pub screen_println : Screen → List ℕ → Screen
screen_println s str = screen_putchar (screen_print s str) 10

-- "0123456789ABCDEF"[d]
unfoldable pub hex_char : ℕ → ℕ
hex_char d = if ltb d 10 then b'0' + d else b'A' + (d - 10)

-- The loop of screen_print_hex, which fills `buf` from its end.
unfoldable pub hex_digits : ℕ → ℕ → List ℕ → List ℕ
unfolding hex_char
hex_digits zero val buf = buf
hex_digits (suc n) val buf = hex_digits n (val / 16) (hex_char (val % 16) ∷ buf)

unfoldable pub screen_print_hex : Screen → ℕ → Screen
screen_print_hex s val = screen_print s (b'0' ∷ b'x' ∷ hex_digits 8 val [])

-- `while (val > 0) { buf[i++] = '0' + val % 10; val /= 10; }` and the loop that prints backwards.
unfoldable pub int_digits : ℕ → ℕ → List ℕ → List ℕ
int_digits zero val acc = acc
int_digits (suc n) val acc =
    let rest = int_digits n (val / 10) ((b'0' + val % 10) ∷ acc) in if val == 0 then acc else rest

abbrev pub print_natural : Screen → ℕ → Screen
print_natural s val =
    if val == 0 then screen_putchar s b'0' else screen_print s (int_digits 10 val [])

-- An s32 is its 32-bit pattern. Of the least one C leaves `-val` undefined; it stays as it is here,
-- and the loop then prints no digit.
unfoldable pub screen_print_int : Screen → ℕ → Screen
screen_print_int s val =
    if ltb val 0x8000_0000
    then print_natural s val
    else if val == 0x8000_0000
    then screen_putchar s b'-'
    else print_natural (screen_putchar s b'-') (u32_mod - val)

unfoldable pub screen_get_cursor : Screen → ℕ × ℕ
screen_get_cursor s = (s.cursor_x, s.cursor_y)
