-- ===== src/Terminal/Paint.antt =====
-- Painting: `paintCharacter`, `paintVisibleBuffer`, `clearViewport`, and the `write`, `scrollDown`
-- and `clear` of `Terminal`. Loops with bounds that do not change are counted loops.
pub mod Bounds
use dav_os.Base.{
  ℕ, zero, suc, ◌+◌, ◌-◌, ◌*◌, ◌/◌, ◌^◌, bit_and, Bool, true, false, not, ◌&&◌, ltb, leb, ◌==◌,
  if◌then◌else◌, List, [], ◌∷◌,
}
use dav_os.Base.Int.{ℤ}
use dav_os.Base.Run.{Run, ok, panic, out_of_fuel, ◌>>=◌, loop}
use dav_os.Terminal.Framebuffer.{
  Framebuffer, set_pixel, white, black, BitmapFont, total_width, total_height, character_bitmap,
  blacken,
}
use dav_os.Terminal.LineBuffer
use dav_os.Terminal.LineBuffer.{
  LineBuffer, WriteResult, automatic, newline, nul, max_columns, max_lines, get_line,
  first_visible_line_index, last_visible_line_index, set_line_size, set_num_visible_lines,
}

pub record Terminal : Type 0 where
  pub framebuffer : Framebuffer
  pub font : BitmapFont
  pub cursor_x : ℕ
  pub cursor_y : ℕ
  pub line_buffer : LineBuffer

-- The constructor. The fonts of the kernel are not of width or height 0.
unfoldable pub terminal_init : Framebuffer → BitmapFont → Terminal
terminal_init f font = record {
  framebuffer = f;
  font = font;
  cursor_x = 0;
  cursor_y = 0;
  line_buffer =
      set_num_visible_lines (f.height / total_height font)
        (set_line_size (f.width / total_width font) LineBuffer.init);
}

unfoldable pub glyph_pixel : BitmapFont → ℕ → ℕ → ℕ → ℕ
glyph_pixel font c line bit =
    if bit_and (character_bitmap font c line) (2 ^ (font.character_width - bit - 1)) == 0
    then black
    else white

unfoldable pub paint_glyph : BitmapFont → ℕ → ℕ → ℕ → Framebuffer → Run Framebuffer
paint_glyph font c left top = loop font.character_height 0 (λ line.
    loop font.character_width 0
      (λ bit. set_pixel (left + bit) (top + line) (glyph_pixel font c line bit)))

unfoldable pub paint_newline : Terminal → Run Terminal
paint_newline t =
    blacken t.cursor_x (t.framebuffer.width - t.cursor_x) t.cursor_y (total_height t.font)
      t.framebuffer
    >>= λ f. ok (record t {
      framebuffer = f;
      cursor_x = 0;
      cursor_y =
          if ltb (t.cursor_y + total_height t.font) t.framebuffer.height
          then t.cursor_y + total_height t.font
          else t.cursor_y;
    })

unfoldable pub paint_character : ℕ → Terminal → Run Terminal
paint_character c t =
    if c == newline
    then paint_newline t
    else (paint_glyph t.font c (t.cursor_x + t.font.left_padding) (t.cursor_y + t.font.top_padding)
          t.framebuffer
        >>= λ f. ok (record t {
          framebuffer = f;
          cursor_x =
              t.cursor_x + (t.font.character_width + t.font.left_padding + t.font.right_padding);
        }))

-- The characters of a line up to its first '\0'.
unfoldable pub paint_line : ℕ → (ℕ → ℕ) → Terminal → Run Terminal
paint_line zero line t = ok t
paint_line (suc k) line t =
    let c = line (max_columns - suc k) in
    if c == nul then ok t else (paint_character c t >>= paint_line k line)

-- `for (line = first; line <= last; ++line)`, `fuel` rounds at most.
unfoldable pub paint_lines : ℕ → ℕ → Terminal → Run Terminal
paint_lines zero line t = out_of_fuel
paint_lines (suc fuel) line t =
    let last = last_visible_line_index t.line_buffer in
    if ltb last line
    then ok t
    else (paint_line max_columns (get_line t.line_buffer line) t >>= λ u.
        (if line == last
          then (blacken u.cursor_x (u.framebuffer.width - u.cursor_x) u.cursor_y
                (total_height u.font) u.framebuffer
              >>= λ f. ok (record u { framebuffer = f }))
          else paint_newline u)
        >>= paint_lines fuel (suc line))

unfoldable pub clear_rows : ℕ → Framebuffer → Run Framebuffer
clear_rows y f = loop (f.height - y) y (λ j. loop f.width 0 (λ i. set_pixel i j black)) f

unfoldable pub paint_visible_buffer : Terminal → Run Terminal
paint_visible_buffer t =
    paint_lines (suc max_lines) (first_visible_line_index t.line_buffer)
      (record t { cursor_x = 0; cursor_y = 0 })
    >>= λ u. clear_rows (u.cursor_y + total_height u.font) u.framebuffer >>= λ f.
        ok (record u { framebuffer = f })

unfoldable pub clear_viewport : Terminal → Run Terminal
clear_viewport t = clear_rows 0 t.framebuffer >>= λ f.
    ok (record t { framebuffer = f; cursor_x = 0; cursor_y = 0 })

-- `Terminal::write` passes the default scroll mode, not `m_scrollMode`, to the buffer.
unfoldable pub write : ℕ → Terminal → Run Terminal
write c t =
    let (result, b) = LineBuffer.write c automatic t.line_buffer in
    let u : Terminal = record t { line_buffer = b } in
    if result.needs_viewport_redraw
    then paint_visible_buffer u
    else ((if result.line_wrapped && not (c == newline) then paint_character newline u else ok u)
        >>= paint_character c)

unfoldable pub write_string : List ℕ → Terminal → Run Terminal
write_string [] t = ok t
write_string (c ∷ cs) t = write c t >>= write_string cs

pub scroll_down : ℤ → Terminal → Run Terminal
scroll_down n t =
    paint_visible_buffer (record t { line_buffer = LineBuffer.scroll_down n t.line_buffer })

unfoldable pub clear : Terminal → Run Terminal
clear t = clear_viewport t >>= λ u. ok (record u { line_buffer = LineBuffer.clear u.line_buffer })
