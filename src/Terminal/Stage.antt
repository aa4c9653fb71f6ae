-- ===== src/Terminal/Stage.antt =====
-- The first three steps of `putchar` in src/interrupt.c: where they put the cursor, and which cells they
-- write.
use os_2024_operatingsalsa.Base.{
  refl, zero, suc, pos, ℕ, ◌≡◌, ◌<◌, ◌≤◌, ◌⊎◌, arith, Bool, if◌then◌else◌, List, not, Array, ◌==◌,
  ◌+◌, ◌&&◌, leb, ◌-◌, ◌≢◌, ℕ_discrete, dec_le, ne→==, le→leb, lt→leb,
}
use os_2024_operatingsalsa.Terminal.{
  put_visible, put_newline, put_backspace, framebuffer_write, Terminal, height, width,
}

-- Where a character puts the cursor before the test for the last row.
abbrev pub is_visible : ℕ → Bool
is_visible ch = not (ch == 0) && not (ch == 10) && not (ch == 8)

abbrev pub raw_row : ℕ → ℕ → ℕ → ℕ
raw_row ch r c =
    if ch == 10
    then r + 1
    else if is_visible ch && leb width c
    then r + 1
    else if (ch == 8) && (c == 0)
    then r - 1
    else r

abbrev pub raw_col : ℕ → ℕ → ℕ
raw_col ch c =
    if ch == 10
    then 0
    else if is_visible ch
    then (if leb width c then 0 else c + 1)
    else if ch == 8
    then (if c == 0 then width else c - 1)
    else c

-- The cursor of `u` stands in row `r` and column `c`, and no cell past the screen's last place differs
-- from those of `t`.
pub record IsPut (t u : Terminal) (r c : ℕ) : Type 0 where
  pub row : u.row ≡ pos r
  pub col : u.col ≡ pos c
  pub cells : (x : ℕ) → 2000 < x → u.cells x ≡ t.cells x
  pub outs : u.outs ≡ t.outs

unfoldable pub stage : ℕ → ℕ → Terminal → Terminal
unfolding put_visible put_newline put_backspace
stage ch color t = put_backspace ch (put_newline ch (put_visible ch color t))

module _ (color : ℕ) (outs : List (ℕ × ℕ)) (cells : Array ℕ) where
  abbrev at : ℕ → ℕ → Terminal
  at r c = record { cells = cells; row = pos r; col = pos c; outs = outs }

  stage-backspace :
      (r c : ℕ)
      → r < height
      → c ≤ width
      → (0 < r) ⊎ (0 < c)
      → IsPut (at r c) (stage 8 color (at r c)) (raw_row 8 r c) (raw_col 8 c)
  unfolding stage put_visible put_newline put_backspace framebuffer_write
  stage-backspace zero zero h l p = absurd (omega arith)
  stage-backspace (suc r) zero h l p = record {
    row = ground arith;
    col = ground arith;
    cells = λ x q. ground arith;
    outs = refl;
  }
  stage-backspace r (suc c) h l p = record {
    row = ground arith;
    col = ground arith;
    cells = λ x q. ground arith;
    outs = refl;
  }

  stage-visible :
      (ch r c : ℕ)
      → ch ≢ 0
      → ch ≢ 10
      → ch ≢ 8
      → r < height
      → c ≤ width
      → IsPut (at r c) (stage ch color (at r c)) (raw_row ch r c) (raw_col ch c)
  unfolding stage put_visible put_newline put_backspace framebuffer_write
  stage-visible ch r c a b d h l = elim (dec_le width c) [
    | yes p ↦
        rw (ne→== ch 0 a, ne→== ch 10 b, ne→== ch 8 d, le→leb width c p)
          (record {
            row = ground arith;
            col = ground arith;
            cells = λ x q. ground arith;
            outs = refl;
          })
    | no p ↦
        rw (ne→== ch 0 a, ne→== ch 10 b, ne→== ch 8 d, lt→leb width c p)
          (record {
            row = ground arith;
            col = ground arith;
            cells = λ x q. ground arith;
            outs = refl;
          })
  ]

  pub stage-IsPut :
      (ch r c : ℕ)
      → r < height
      → c ≤ width
      → ((ch ≡ 8) → (0 < r) ⊎ (0 < c))
      → IsPut (at r c) (stage ch color (at r c)) (raw_row ch r c) (raw_col ch c)
  unfolding stage put_visible put_newline put_backspace
  stage-IsPut ch r c h l p = elim (ℕ_discrete ch 8) [
    | yes e ↦ rw e (stage-backspace r c h l (p e))
    | no n8 ↦ elim (ℕ_discrete ch 10) [
      | yes e ↦
          rw e (record { row = ground arith; col = ground arith; cells = λ x q. refl; outs = refl })
      | no n10 ↦ elim (ℕ_discrete ch 0) [
        | yes e ↦
            rw e
              (record { row = ground arith; col = ground arith; cells = λ x q. refl; outs = refl })
        | no n0 ↦ stage-visible ch r c n0 n10 n8 h l
      ]
    ]
  ]
