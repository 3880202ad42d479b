-- ===== src/Screen/Seen.antt =====
-- A newline as it is seen: it turns the picture of the text into that of the text with a line more.
use mikanos_m1mac.Base.{
  ℕ, ◌+◌, ◌-◌, ◌*◌, ◌/◌, ◌%◌, ◌<◌, ◌≡◌, refl, sym, ap, ◌∙◌, ltb, ◌&&◌, if◌then◌else◌, Bool-cases,
  List, [], ◌∷◌, get_or, length, inl, inr, arith,
}
use mikanos_m1mac.Screen.Paint.{paint, paint-append}
use mikanos_m1mac.Screen.Ink.{string_ink}
use mikanos_m1mac.Screen.Console.{Console, rows, columns, clear, draw_rows, shift_rows, newline}
use mikanos_m1mac.Screen.Laws.{shift_rows_inside}
use mikanos_m1mac.Screen.Lines.{
  Text, row_of, line_at, line_at-next, line_at-scrolled, line_at-bottom, Shows,
}
use mikanos_m1mac.Screen.Display.{
  IsText, line_at-HasNoNull, length-row_of, row_ink, line_color, text_color, paint-clear,
  paint-draw_rows,
}

module _ (font_data : List ℕ) where
  module _ (px py : ℕ) (px_in : px < 8 * columns) (py_in : py < 16 * rows) where
    -- The row that moves up shows what the longer text has there.
    moved_row :
        (t : Text) (c : Console) (i : ℕ)
        → Shows t c
        → c.cursor_row ≡ rows - 1
        → i < rows - 1
        → get_or (shift_rows 0 (rows - 1) c.buffer) i []
          ≡ row_of
              (columns - 1)
              (line_at (record { current = []; older = t.current ∷ t.older }) c.cursor_row i)
    moved_row t c i v last h =
        shift_rows_inside 0 (rows - 1) i c.buffer (omega arith) (omega arith)
          (omega (arith, v.size))
        ∙ v.shown (i + 1) (omega arith)
        ∙ ap (row_of (columns - 1))
            (sym (line_at-scrolled t.current t.older c.cursor_row i (omega (arith, last))))

    scrolled_color :
        (t : Text) (c : Console)
        → Shows t c
        → IsText t
        → c.cursor_row ≡ rows - 1
        → (if ltb (py / 16) (rows - 1)
              && string_ink font_data
                  (get_or (shift_rows 0 (rows - 1) c.buffer) (py / 16) [])
                  (px / 8)
                  (py % 16)
                  (px % 8)
            then c.fg_color
            else c.bg_color)
          ≡ text_color font_data
              (record { current = []; older = t.current ∷ t.older })
              c.cursor_row
              c.fg_color
              c.bg_color
              px
              py
    scrolled_color t c v text last = elim (Bool-cases (ltb (py / 16) (rows - 1))) [
      | inl upper ↦
          rw
            (
              upper,
              moved_row t c (py / 16) v last (ground arith),
              row_ink font_data (columns - 1)
                  (line_at (record { current = []; older = t.current ∷ t.older }) c.cursor_row
                    (py / 16))
                  (px / 8) (py % 16) (px % 8)
                  (line_at-HasNoNull (record { current = []; older = t.current ∷ t.older })
                    c.cursor_row (py / 16)
                    (record { current = tt; older = (text.current, text.older) })),
            )
            refl
      | inr lowest ↦
          let e : py / 16 ≡ c.cursor_row = ground arith in
          rw
            (
              lowest,
              e,
              line_at-bottom (record { current = []; older = t.current ∷ t.older }) c.cursor_row,
            )
            (ground arith)
    ]

    -- The lines above move up on the screen as they do in the text.
    pub newline-seen :
        (t : Text) (c : Console)
        → Shows t c
        → IsText t
        → paint
            (newline font_data c).0
            px
            py
            (text_color font_data t c.cursor_row c.fg_color c.bg_color px py)
          ≡ text_color font_data
              (record { current = []; older = t.current ∷ t.older })
              (newline font_data c).1.cursor_row
              c.fg_color
              c.bg_color
              px
              py
    unfolding newline
    newline-seen t c v text = elim (Bool-cases (ltb c.cursor_row (rows - 1))) [
      | inl inner ↦ rw inner (
          ap (λ line. line_color font_data line c.fg_color c.bg_color px py)
            (sym (line_at-next t.current t.older c.cursor_row (py / 16))))
      | inr last ↦
          let at_end : c.cursor_row ≡ rows - 1 = ground (arith, v.bottom) in
          rw last (
            paint-append px py (omega arith) (omega arith) (clear c.bg_color)
              (draw_rows font_data (shift_rows 0 (rows - 1) c.buffer) c.fg_color) _
            ∙ ap (paint (draw_rows font_data (shift_rows 0 (rows - 1) c.buffer) c.fg_color) px py)
                (paint-clear font_data px py px_in py_in c.bg_color _)
            ∙ paint-draw_rows font_data px py px_in py_in (shift_rows 0 (rows - 1) c.buffer)
                c.fg_color c.bg_color
                (λ i h. omega (
                  arith,
                  ap length (moved_row t c i v at_end h),
                  length-row_of (columns - 1) (
                      line_at (record { current = []; older = t.current ∷ t.older }) c.cursor_row
                        i),
                ))
            ∙ scrolled_color t c v text at_end)
    ]
