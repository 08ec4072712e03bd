-- ===== src/Terminal/Paint/Bounds.antt =====
-- Painting inside the framebuffer never stops in `kernel_assert`.
use dav_os.Base.{
  ℕ, ◌+◌, ◌-◌, ◌≤◌, ◌≡◌, ◌≢◌, refl, false, ◌&&◌, Bool-cases, inl, inr, ltb, ◌==◌, if◌then◌else◌,
  arith,
}
use dav_os.Base.Run.{ok, loop, loop-ok}
use dav_os.Terminal.Framebuffer.{
  Framebuffer, BitmapFont, total_width, total_height, HasSize, set_pixel, set_pixel-ok, blacken-ok,
}
use dav_os.Terminal.LineBuffer.{newline}
use dav_os.Terminal.Paint.{Terminal, glyph_pixel, paint_glyph, paint_newline, paint_character}

pub paint_glyph-ok :
    (font : BitmapFont) (c left top w h : ℕ) (f : Framebuffer)
    → left + font.character_width ≤ w
    → top + font.character_height ≤ h
    → HasSize w h f
    → (r : Framebuffer) × (paint_glyph font c left top f ≡ ok r) × HasSize w h r
unfolding paint_glyph
paint_glyph-ok font c left top w h f inx iny s =
    loop-ok (HasSize w h) font.character_height 0
      (λ line.
        loop font.character_width 0
          (λ bit. set_pixel (left + bit) (top + line) (glyph_pixel font c line bit)))
      (λ line g lo hi t.
        loop-ok (HasSize w h) font.character_width 0
          (λ bit. set_pixel (left + bit) (top + line) (glyph_pixel font c line bit))
          (λ bit e l k u.
            set_pixel-ok w h (left + bit) (top + line) (glyph_pixel font c line bit) e (omega arith)
              (omega arith) u)
          g t)
      f s

-- Where the cursor goes: a glyph's width to the right, or to the start of the next line, which stays
-- the same line where no pixel row is left below it.
abbrev pub Painted : ℕ → Terminal → Terminal → Type 0
Painted c t u =
    (u.cursor_x ≡ (if c == newline then 0 else t.cursor_x + total_width t.font))
    × (u.cursor_y ≡ (
        if c == newline && ltb (t.cursor_y + total_height t.font) t.framebuffer.height
        then t.cursor_y + total_height t.font
        else t.cursor_y))
    × (u.font ≡ t.font)
    × (u.line_buffer ≡ t.line_buffer)
    × HasSize t.framebuffer.width t.framebuffer.height u.framebuffer

paint_newline-ok :
    (t : Terminal)
    → t.cursor_x ≤ t.framebuffer.width
    → t.cursor_y + total_height t.font ≤ t.framebuffer.height
    → (u : Terminal) × (paint_newline t ≡ ok u) × Painted newline t u
unfolding paint_newline
paint_newline-ok t inx iny =
    let b =
      blacken-ok t.framebuffer.width t.framebuffer.height t.cursor_x
        (t.framebuffer.width - t.cursor_x) t.cursor_y (total_height t.font) t.framebuffer
        (omega arith) iny (refl, refl) in
    (
      record t {
        framebuffer = b.0;
        cursor_x = 0;
        cursor_y =
            if ltb (t.cursor_y + total_height t.font) t.framebuffer.height
            then t.cursor_y + total_height t.font
            else t.cursor_y;
      },
      rw b.1 refl,
      (refl, refl, refl, refl, b.2),
    )

paint_other-ok :
    (c : ℕ) (t : Terminal)
    → c ≢ newline
    → t.cursor_x + total_width t.font ≤ t.framebuffer.width
    → t.cursor_y + total_height t.font ≤ t.framebuffer.height
    → (u : Terminal) × (paint_character c t ≡ ok u) × Painted c t u
unfolding paint_character
paint_other-ok c t other inx iny =
    let no : (c == newline) ≡ false = ground (arith, other) in
    let g =
      paint_glyph-ok t.font c (t.cursor_x + t.font.left_padding) (t.cursor_y + t.font.top_padding)
        t.framebuffer.width t.framebuffer.height t.framebuffer (omega arith) (omega arith)
        (refl, refl) in
    (
      record t {
        framebuffer = g.0;
        cursor_x =
            t.cursor_x + (t.font.character_width + t.font.left_padding + t.font.right_padding);
      },
      rw (no, g.1) refl,
      rw no (refl, refl, refl, refl, g.2),
    )

-- Where a cell of the font fits into the bitmap at the cursor, painting any character passes every
-- bounds check: the cursor moves right by a cell, or for a newline to the start of the next line
-- (of the same line, where no pixel row is left below it), and the font, the line buffer and the
-- size of the bitmap stay.
pub paint_character-ok :
    (c : ℕ) (t : Terminal)
    → t.cursor_x + total_width t.font ≤ t.framebuffer.width
    → t.cursor_y + total_height t.font ≤ t.framebuffer.height
    → (u : Terminal) × (paint_character c t ≡ ok u) × Painted c t u
unfolding paint_character
paint_character-ok c t inx iny = elim (Bool-cases (c == newline)) [
  | inl same ↦ rw same (paint_newline-ok t (omega arith) iny)
  | inr other ↦ paint_other-ok c t (ground (arith, other)) inx iny
]
