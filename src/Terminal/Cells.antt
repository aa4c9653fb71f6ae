-- ===== src/Terminal/Cells.antt =====
-- The cells that src/framebuffer.c writes.
use os_2024_operatingsalsa.Base.{
  zero, suc, Array, ℕ, ◌≡◌, ◌<◌, if◌then◌else◌, ◌+◌, ◌*◌, ltb, ◌%◌, arith, store, u8, bit_and,
  bit_or, lt→ltb,
}
use os_2024_operatingsalsa.Base.Bits.{bit_and-mask, bit_or-shift, bit_or-zero}
use os_2024_operatingsalsa.Terminal.{
  cell_of, framebuffer_write, framebuffer_clear, clear_columns, clear_rows, width,
}
use os_2024_operatingsalsa.StringOps.Memory.{in_range}

-- The cell of an ASCII character in a color on black.
pub cell_of_ascii : (c fg : ℕ) → c < 128 → cell_of c fg 0 ≡ c + 256 * (fg % 16)
unfolding cell_of
cell_of_ascii c fg h =
    let low : bit_and fg 15 ≡ fg % 16 = bit_and-mask 4 fg in
    let attrib = bit_or-zero (fg % 16) in
    let both : bit_or c (fg % 16 * 256) ≡ c + fg % 16 * 256 =
      bit_or-shift 8 c (fg % 16) (omega arith) in
    rw (lt→ltb c 128 h, low) (rw attrib (rw both (omega arith)))

pub clear_columns_lem :
    (left col row : ℕ) (cells : Array ℕ) (x : ℕ)
    → clear_columns left col row cells x
      ≡ (if in_range (row * width + col) left x then cell_of 0 0xF 0 else cells x)
unfolding clear_columns framebuffer_write
clear_columns_lem zero col row cells x = ground arith
clear_columns_lem (suc left) col row cells x = ground (
  arith,
  clear_columns_lem left (col + 1) row (store cells (row * width + col) (cell_of 0 (u8 0xF) 0)) x,
)

pub clear_rows_lem :
    (left row : ℕ) (cells : Array ℕ) (x : ℕ)
    → clear_rows left row cells x
      ≡ (if in_range (row * width) (left * width) x then cell_of 0 0xF 0 else cells x)
unfolding clear_rows
clear_rows_lem zero row cells x = ground arith
clear_rows_lem (suc left) row cells x = ground (
  arith,
  clear_rows_lem left (row + 1) (clear_columns width 0 row cells) x,
  clear_columns_lem width 0 row cells x,
)

-- `framebuffer_clear` blanks the 2000 cells of the screen and no other.
pub framebuffer_clear_lem :
    (cells : Array ℕ) (x : ℕ) → framebuffer_clear cells x ≡ (if ltb x 2000 then 0xF00 else cells x)
unfolding framebuffer_clear
framebuffer_clear_lem cells x = ground (arith, clear_rows_lem 25 0 cells x, cell_of_ascii 0 15)

pub framebuffer_clear-blank :
    (cells : Array ℕ) (x : ℕ) → x < 2000 → framebuffer_clear cells x ≡ 0xF00
framebuffer_clear-blank cells x h = ground (arith, framebuffer_clear_lem cells x)
