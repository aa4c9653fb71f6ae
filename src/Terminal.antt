-- ===== src/Terminal.antt =====
-- src/framebuffer.c, and `putchar` and `puts` of src/interrupt.c. A character is its byte. The cells
-- of the video memory are 16-bit words from FRAMEBUFFER_MEMORY_OFFSET on, without a bound: the code
-- tests none.
pub mod Cells
pub mod Stage
pub mod Cursor
pub mod Puts
use os_2024_operatingsalsa.Base.{
  refl, zero, suc, ℕ, if◌then◌else◌, u8_of_int, Array, Bytes, u16, store, bit_or, int_pred, ◌+◌,
  not, int_eq, List, ℤ, ◌==◌, ◌*◌, is_minus_one, pos, int_suc, ◌∷◌, ◌&&◌, u8, ◌^◌, int_ge, bit_and,
  ◌/◌, ltb,
}
use os_2024_operatingsalsa.Pic.{Outs, out}

abbrev pub cursor_port_cmd : ℕ
cursor_port_cmd = 0x03D4

abbrev pub cursor_port_data : ℕ
cursor_port_data = 0x03D5

-- The 80 by 25 cells of the screen.
abbrev pub width : ℕ
width = 80

abbrev pub height : ℕ
height = 25

pub record Terminal : Type 0 where
  pub cells : Array ℕ
  pub row : ℤ
  pub col : ℤ
  pub outs : Outs

unfoldable pub framebuffer_set_cursor : ℕ → ℕ → Terminal → Terminal
framebuffer_set_cursor r c t =
    let cell = u16 (r * width + c) in
    let o1 = out cursor_port_cmd 0x0F t.outs in
    let o2 = out cursor_port_data (u8 (bit_and cell 0xFF)) o1 in
    let o3 = out cursor_port_cmd 0x0E o2 in
    record t { outs = out cursor_port_data (u8 (bit_and (cell / 2 ^ 8) 0xFF)) o3 }

-- `c | (attrib << 8)` as a `uint16_t`: a `char` from 128 on is negative, and its sign fills the byte of
-- the color.
unfoldable pub cell_of : ℕ → ℕ → ℕ → ℕ
cell_of c fg bg =
    let attrib = bit_or (bg * 2 ^ 4) (bit_and fg 0x0F) in
    let signed = if ltb c 128 then c else 0xFF00 + c in u16 (bit_or signed (attrib * 2 ^ 8))

-- `row` and `col` are `uint8_t`.
unfoldable pub framebuffer_write : ℕ → ℕ → ℕ → ℕ → ℕ → Array ℕ → Array ℕ
framebuffer_write row col c fg bg cells = store cells (row * width + col) (cell_of c (u8 fg) bg)

-- The inner loop of `framebuffer_clear` with the columns that are left, and the outer one.
pub clear_columns : ℕ → ℕ → ℕ → Array ℕ → Array ℕ
clear_columns zero col row cells = cells
clear_columns (suc left) col row cells =
    clear_columns left (col + 1) row (framebuffer_write row col 0 0xF 0 cells)

pub clear_rows : ℕ → ℕ → Array ℕ → Array ℕ
clear_rows zero row cells = cells
clear_rows (suc left) row cells = clear_rows left (row + 1) (clear_columns width 0 row cells)

unfoldable pub framebuffer_clear : Array ℕ → Array ℕ
unfolding clear_rows clear_columns
framebuffer_clear cells = clear_rows height 0 cells

-- A write at the current place.
abbrev pub write_here : ℕ → ℕ → Terminal → Terminal
write_here c fg t = record t {
  cells = framebuffer_write (u8_of_int t.row) (u8_of_int t.col) c fg 0 t.cells;
}

-- The first `if` of `putchar`.
unfoldable pub put_visible : ℕ → ℕ → Terminal → Terminal
put_visible c color t =
    let written = write_here c color t in
    if not (c == 0) && not (c == 10) && not (c == 8)
    then (if int_ge t.col width
        then record written { row = int_suc t.row; col = pos 0 }
        else record written { col = int_suc t.col })
    else t

-- The second: '\n'.
unfoldable pub put_newline : ℕ → Terminal → Terminal
put_newline c t = if c == 10 then record t { row = int_suc t.row; col = pos 0 } else t

-- The third: '\b'.
unfoldable pub put_backspace : ℕ → Terminal → Terminal
put_backspace c t =
    let back = record t { col = int_pred t.col } in
    let moved =
      if is_minus_one back.col
      then record back { row = int_pred t.row; col = pos width }
      else back in
    if c == 8 then write_here 0 15 moved else t

-- The fourth, which `puts` has too: past the last row the screen starts anew.
unfoldable pub wrap_screen : Terminal → Terminal
wrap_screen t =
    if int_eq t.row height
    then record t { cells = framebuffer_clear t.cells; row = pos 0; col = pos 0 }
    else t

unfoldable pub set_cursor : Terminal → Terminal
set_cursor t = framebuffer_set_cursor (u8_of_int t.row) (u8_of_int t.col) t

unfoldable pub putchar : ℕ → ℕ → Terminal → Terminal
putchar c color t =
    set_cursor (wrap_screen (put_backspace c (put_newline c (put_visible c color t))))

-- The loop body of `puts`.
unfoldable pub puts_char : ℕ → ℕ → Terminal → Terminal
puts_char c color t =
    let put =
      if c == 10
      then record t { row = int_suc t.row; col = pos 0 }
      else record (write_here c color t) { col = int_suc t.col } in
    let wrapped = wrap_screen put in
    if int_eq wrapped.col width
    then record wrapped { row = int_suc wrapped.row; col = pos 0 }
    else wrapped

pub puts_loop : ℕ → ℕ → Bytes → ℕ → ℕ → Terminal → Terminal
puts_loop zero i ram str color t = t
puts_loop (suc left) i ram str color t =
    puts_loop left (i + 1) ram str color (puts_char (ram (str + i)) color t)

unfoldable pub puts : Bytes → ℕ → ℕ → ℕ → Terminal → Terminal
unfolding puts_loop
puts ram str count color t = set_cursor (puts_loop count 0 ram str color t)
