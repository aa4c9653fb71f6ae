-- ===== src/Terminal/Puts.antt =====
-- Where `puts` of src/interrupt.c and a backspace at the top left leave the screen.
use os_2024_operatingsalsa.Base.{
  refl, zero, suc, pos, negsuc, ℕ, Array, Bytes, ◌≡◌, List, ◌+◌, ◌≢◌, ◌<◌, arith, ne→==, ℕ_discrete,
  inl, eq→==, Bool-cases, inr, int_eq, int_suc, ap,
}
use os_2024_operatingsalsa.Terminal.{
  putchar, put_visible, put_newline, put_backspace, wrap_screen, set_cursor, framebuffer_write,
  framebuffer_set_cursor, puts, puts_loop, puts_char, Terminal, height, width,
}
use os_2024_operatingsalsa.Terminal.Cells.{framebuffer_clear-blank, cell_of_ascii}

-- A backspace at the top left leaves the screen: the row is -1 and the column 80, which cast to
-- bytes give the cell 20480, and that is blanked.
putchar-backspace_at_top :
    (color : ℕ) (cells : Array ℕ) (outs : List (ℕ × ℕ))
    → let before : Terminal = record { cells = cells; row = pos 0; col = pos 0; outs = outs } in
      let after = putchar 8 color before in
      (after.row ≡ negsuc 0) × (after.col ≡ pos 80) × (after.cells 20480 ≡ 0xF00)
unfolding putchar put_visible put_newline put_backspace wrap_screen set_cursor framebuffer_write
    framebuffer_set_cursor
putchar-backspace_at_top color cells outs = (refl, refl, cell_of_ascii 0 15 (omega arith))

-- The cursor is below the screen.
abbrev pub IsBelow : Terminal → Type 0
IsBelow t = (r : ℕ) × (t.row ≡ pos r) × (height < r)

puts_char-IsBelow : (ch color : ℕ) (t : Terminal) → IsBelow t → IsBelow (puts_char ch color t)
unfolding puts_char wrap_screen
puts_char-IsBelow ch color t (r, e, h) =
    let here = ne→== r height (omega arith) in
    let next = ne→== (suc r) height (omega arith) in
    elim (ℕ_discrete ch 10) [
      | yes z ↦ rw (eq→== ch 10 z, e) (rw next (suc r, refl, omega arith))
      | no n ↦ elim (Bool-cases (int_eq (int_suc t.col) width)) [
        | inl w ↦ rw (ne→== ch 10 n, e) (rw here (rw w (suc r, refl, omega arith)))
        | inr w ↦ rw (ne→== ch 10 n, e) (rw here (rw w (r, refl, omega arith)))
      ]
    ]

puts_loop-IsBelow :
    (left i : ℕ) (ram : Bytes) (str color : ℕ) (t : Terminal)
    → IsBelow t
    → IsBelow (puts_loop left i ram str color t)
unfolding puts_loop
puts_loop-IsBelow zero i ram str color t v = v
puts_loop-IsBelow (suc left) i ram str color t v =
    puts_loop-IsBelow left (i + 1) ram str color (puts_char (ram (str + i)) color t)
      (puts_char-IsBelow (ram (str + i)) color t v)

module _ (color ch : ℕ) (cells : Array ℕ) (outs : List (ℕ × ℕ)) where
  -- The cursor in the last column of the last row.
  abbrev pub last_place : Terminal
  last_place = record { cells = cells; row = pos 24; col = pos 79; outs = outs }

  abbrev after : ℕ → Terminal
  after next = puts_char next color (puts_char ch color last_place)

  line_feed : ch ≢ 10 → IsBelow (after 10)
  unfolding puts_char wrap_screen
  line_feed n = rw (ne→== ch 10 n) (26, refl, omega arith)

  -- A character other than a line feed that `puts` sets in the last column of the last row takes the
  -- cursor to row 25. Of two such characters the second is lost: it is written below the screen,
  -- and the whole screen is blanked right after, with the cursor at the top.
  puts_char-last_place :
      (next : ℕ)
      → ch ≢ 10
      → next ≢ 10
      → ((after next).row ≡ pos 0)
        × ((after next).col ≡ pos 0)
        × ((x : ℕ) → x < 2000 → (after next).cells x ≡ 0xF00)
  unfolding puts_char wrap_screen
  puts_char-last_place next n m =
      rw (ne→== ch 10 n, ne→== next 10 m) (refl, refl, λ x h. framebuffer_clear-blank _ x h)

-- Where a text sets a character other than a line feed in the last cell of the screen and goes on with
-- a line feed, `puts` leaves the cursor below the screen, whatever follows in the text: the test
-- for row 25 is passed over.
pub puts-last_place :
    (ram : Bytes) (str left color : ℕ) (cells : Array ℕ) (outs : List (ℕ × ℕ))
    → ram str ≢ 10
    → ram (str + 1) ≡ 10
    → IsBelow (
        puts ram str
          (suc (suc left))
          color
          (record { cells = cells; row = pos 24; col = pos 79; outs = outs }))
unfolding puts puts_loop set_cursor framebuffer_set_cursor
puts-last_place ram str left color cells outs n e =
    let start : ram (str + 0) ≡ ram str = ap ram (omega arith) in
    puts_loop-IsBelow left 2 ram str color
      (puts_char (ram (str + 1)) color (
        puts_char (ram (str + 0)) color
          (record { cells = cells; row = pos 24; col = pos 79; outs = outs })))
      (rw (e, start) (line_feed color (ram str) cells outs n))

-- Once the cursor is below the screen, no text that `puts` shows brings it back.
puts-IsBelow :
    (ram : Bytes) (str count color : ℕ) (t : Terminal)
    → IsBelow t
    → IsBelow (puts ram str count color t)
unfolding puts set_cursor framebuffer_set_cursor
puts-IsBelow ram str count color t v = puts_loop-IsBelow count 0 ram str color t v
