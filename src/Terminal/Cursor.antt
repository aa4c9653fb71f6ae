-- ===== src/Terminal/Cursor.antt =====
-- Where `putchar` of src/interrupt.c puts the cursor, and which cells it writes.
use os_2024_operatingsalsa.Base.{
  refl, pos, ℕ, ◌≡◌, ◌<◌, ◌≤◌, ◌⊎◌, arith, if◌then◌else◌, List, Array, ◌==◌, ◌+◌, ℕ_discrete, ne→==,
  eq→==, ◌*◌, u8, bit_and, u16, ◌/◌, ◌%◌, ◌∷◌, subst,
}
use os_2024_operatingsalsa.Terminal.{
  Terminal, height, width, wrap_screen, putchar, set_cursor, framebuffer_set_cursor,
  cursor_port_data, cursor_port_cmd,
}
use os_2024_operatingsalsa.Terminal.Cells.{framebuffer_clear_lem}
use os_2024_operatingsalsa.Base.Bits.{bit_and-mask}
use os_2024_operatingsalsa.Terminal.Stage.{stage, raw_row, IsPut, raw_col, stage-IsPut}

-- A fresh screen starts at the top.
abbrev pub next_row : ℕ → ℕ → ℕ → ℕ
next_row ch r c = if raw_row ch r c == height then 0 else raw_row ch r c

abbrev pub next_col : ℕ → ℕ → ℕ → ℕ
next_col ch r c = if raw_row ch r c == height then 0 else raw_col ch c

wrap_screen-IsPut :
    (t u : Terminal) (r c : ℕ)
    → IsPut t u r c
    → IsPut t (wrap_screen u) (if r == height then 0 else r) (if r == height then 0 else c)
unfolding wrap_screen
wrap_screen-IsPut t u r c v = elim (ℕ_discrete r height) [
  | yes e ↦
      rw (v.row, eq→== r height e)
        (record {
          row = refl;
          col = refl;
          cells = λ x h. ground (arith, framebuffer_clear_lem u.cells x, v.cells x h);
          outs = v.outs;
        })
  | no n ↦
      rw (v.row, ne→== r height n)
        (record { row = refl; col = v.col; cells = v.cells; outs = v.outs })
]

-- The bytes that go to the cursor ports.
set_cursor_outs :
    (u : Terminal) (r c : ℕ)
    → u.row ≡ pos r
    → u.col ≡ pos c
    → r < height
    → c ≤ width
    → (set_cursor u).outs
      ≡ (cursor_port_data, (r * width + c) / 256)
        ∷ (cursor_port_cmd, 0x0E)
        ∷ (cursor_port_data, (r * width + c) % 256)
        ∷ (cursor_port_cmd, 0x0F)
        ∷ u.outs
unfolding set_cursor framebuffer_set_cursor
set_cursor_outs u r c rows cols h l =
    let place : u16 (r % 256 * width + c % 256) ≡ r * width + c = omega arith in
    let low : bit_and (r * width + c) 0xFF ≡ (r * width + c) % 256 =
      bit_and-mask 8 (r * width + c) in
    let high : bit_and ((r * width + c) / 256) 0xFF ≡ (r * width + c) / 256 % 256 =
      bit_and-mask 8 ((r * width + c) / 256) in
    let byte : u8 ((r * width + c) % 256) ≡ (r * width + c) % 256 = omega arith in
    let top : u8 ((r * width + c) / 256 % 256) ≡ (r * width + c) / 256 = omega arith in
    rw (rows, cols) (rw place (rw (low, high) (rw (byte, top))))

module _ (ch color r c : ℕ) (cells : Array ℕ) (outs : List (ℕ × ℕ)) (row_in : r < height)
    (col_in : c ≤ width) (inside : (ch ≡ 8) → (0 < r) ⊎ (0 < c)) where
  abbrev before : Terminal
  before = record { cells = cells; row = pos r; col = pos c; outs = outs }

  wrapped : IsPut before (wrap_screen (stage ch color before)) (next_row ch r c) (next_col ch r c)
  wrapped =
      wrap_screen-IsPut before (stage ch color before) (raw_row ch r c) (raw_col ch c)
        (stage-IsPut color outs cells ch r c row_in col_in inside)

  next_in : (next_row ch r c < height) × (next_col ch r c ≤ width)
  next_in = (ground arith, ground arith)

  -- For a cursor in rows 0 to 24 and columns 0 to 80, but for a backspace at the top left, `putchar`
  -- leaves it in these bounds: a line feed and a character in column 80 go to the next row, others
  -- to the next column, a backspace goes back, and row 25 becomes a fresh screen. It writes no cell
  -- past offset 2000, and sends the low and the high byte of the new place to the cursor ports.
  pub putchar-IsPut :
      let after = putchar ch color before in
      (next_row ch r c < height)
      × (next_col ch r c ≤ width)
      × (after.row ≡ pos (next_row ch r c))
      × (after.col ≡ pos (next_col ch r c))
      × ((x : ℕ) → 2000 < x → after.cells x ≡ cells x)
      × (after.outs
          ≡ (cursor_port_data, (next_row ch r c * width + next_col ch r c) / 256)
            ∷ (cursor_port_cmd, 0x0E)
            ∷ (cursor_port_data, (next_row ch r c * width + next_col ch r c) % 256)
            ∷ (cursor_port_cmd, 0x0F)
            ∷ outs)
  unfolding putchar set_cursor framebuffer_set_cursor stage
  putchar-IsPut = (
    next_in.0,
    next_in.1,
    wrapped.row,
    wrapped.col,
    wrapped.cells,
    subst
        (λ (o : List (ℕ × ℕ)).
          (set_cursor (wrap_screen (stage ch color before))).outs
          ≡ (cursor_port_data, (next_row ch r c * width + next_col ch r c) / 256)
            ∷ (cursor_port_cmd, 0x0E)
            ∷ (cursor_port_data, (next_row ch r c * width + next_col ch r c) % 256)
            ∷ (cursor_port_cmd, 0x0F)
            ∷ o)
        wrapped.outs
        (set_cursor_outs (wrap_screen (stage ch color before)) (next_row ch r c) (next_col ch r c)
          wrapped.row wrapped.col next_in.0 next_in.1),
  )
