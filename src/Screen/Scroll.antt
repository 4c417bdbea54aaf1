-- ===== src/Screen/Scroll.antt =====
-- What scroll_up does to the cells.
use korus_os.Prelude.{
  ℕ, zero, suc, ◌+◌, ◌-◌, ◌*◌, ◌<◌, ◌≡◌, refl, ◌&&◌, arith, ltb, leb, if◌then◌else◌, update, ◌∙◌,
}
use korus_os.Screen.{Screen, vga_width, make_entry, copy_row, copy_rows, fill_cells, scroll_up}

copy_row_lem :
    (n y x : ℕ) (cells : ℕ → ℕ) (i : ℕ)
    → 0 < y
    → copy_row n y x cells i ≡ (
        if leb ((y - 1) * vga_width + x) i && ltb i ((y - 1) * vga_width + x + n)
        then cells (i + vga_width)
        else cells i)
unfolding copy_row
copy_row_lem zero y x cells i l = ground arith
copy_row_lem (suc n) y x cells i l = ground (
  arith,
  copy_row_lem n y (x + 1) (update cells ((y - 1) * vga_width + x) (cells (y * vga_width + x))) i l,
)

fill_cells_lem :
    (n k entry : ℕ) (cells : ℕ → ℕ) (i : ℕ)
    → fill_cells n k entry cells i ≡ (if leb k i && ltb i (k + n) then entry else cells i)
unfolding fill_cells
fill_cells_lem zero k entry cells i = ground arith
fill_cells_lem (suc n) k entry cells i =
    ground (arith, fill_cells_lem n (k + 1) entry (update cells k entry) i)

-- One row is copied, then those below it.
rows_step :
    (m k i x y z : ℕ)
    → (if leb (m + 80) i && ltb i (m + 80 + k)
        then (if leb m (i + 80) && ltb (i + 80) (m + 80) then z else y)
        else (if leb m i && ltb i (m + 80) then y else x))
      ≡ (if leb m i && ltb i (m + (80 + k)) then y else x)
rows_step m k i x y z = ground arith

-- `m` is the first cell of the row before `y`.
copy_rows_at :
    (n m : ℕ) (cells : ℕ → ℕ) (i y : ℕ)
    → y * vga_width ≡ m + vga_width
    → copy_rows n y cells i
      ≡ (if leb m i && ltb i (m + n * vga_width) then cells (i + vga_width) else cells i)
unfolding copy_rows
copy_rows_at zero m cells i y e = ground arith
copy_rows_at (suc n) m cells i y e =
    let pos : 0 < y = omega arith in
    let ih =
      copy_rows_at n (m + vga_width) (copy_row vga_width y 0 cells) i (y + 1) (omega arith) in
    let back : (y - 1) * vga_width + 0 ≡ m = omega arith in
    let a = copy_row_lem vga_width y 0 cells i pos in
    let b = copy_row_lem vga_width y 0 cells (i + vga_width) pos in
    let a' = rw back at a in
    let b' = rw back at b in
    let wide : suc n * vga_width ≡ vga_width + n * vga_width = omega arith in
    rw (ih, a', b', wide)
      (rows_step m (n * vga_width) i (cells i) (cells (i + vga_width))
        (cells (i + vga_width + vga_width)))

pick_cell :
    (i x y e : ℕ)
    → (if leb 1920 i && ltb i 2000 then e else (if leb 0 i && ltb i 1920 then y else x))
      ≡ (if ltb i 1920 then y else if ltb i 2000 then e else x)
pick_cell i x y e = ground arith

-- scroll_up moves each of the 25 rows up by one, clears the last row in the current colour, and
-- touches no other cell.
pub scroll_up_lem :
    (s : Screen) (i : ℕ)
    → (scroll_up s).cells i ≡ (
        if ltb i 1920
        then s.cells (i + vga_width)
        else if ltb i 2000
        then make_entry 32 s.cur_color
        else s.cells i)
unfolding scroll_up
scroll_up_lem s i =
    let a = fill_cells_lem vga_width 1920 (make_entry 32 s.cur_color) (copy_rows 24 1 s.cells) i in
    let b = copy_rows_at 24 0 s.cells i 1 refl in
    a ∙ rw b (pick_cell i (s.cells i) (s.cells (i + vga_width)) (make_entry 32 s.cur_color))
