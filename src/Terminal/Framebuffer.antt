-- ===== src/Terminal/Framebuffer.antt =====
-- `Framebuffer` of kernel/include/kernel/Terminal.hpp and `BitmapFont` of
-- kernel/include/kernel/BitmapFont.hpp. The pixels are a function of the offset into the bitmap. The
-- sums of coordinates stay far below 2 ^ 64 and are not reduced.
use dav_os.Base.{ℕ, ◌+◌, ◌*◌, ◌&&◌, ltb, ◌==◌, if◌then◌else◌, ◌≤◌, ◌<◌, ◌≡◌, arith}
use dav_os.Base.Run.{Run, ok, panic, loop, loop-ok}

pub record Framebuffer : Type 0 where
  pub pixels : ℕ → ℕ
  pub width : ℕ
  pub height : ℕ

abbrev pub white : ℕ
white = 0xffff_ffff

abbrev pub black : ℕ
black = 0

-- `kernel_assert` stops the kernel at a cursor outside the bitmap.
unfoldable pub set_pixel : ℕ → ℕ → ℕ → Framebuffer → Run Framebuffer
set_pixel x y value f =
    if ltb y f.height && ltb x f.width
    then ok (record f { pixels = λ o. if o == f.width * y + x then value else f.pixels o })
    else panic

pub record BitmapFont : Type 0 where
  pub character_width : ℕ
  pub character_height : ℕ
  pub left_padding : ℕ
  pub top_padding : ℕ
  pub right_padding : ℕ
  pub bottom_padding : ℕ
  pub data_bytes : ℕ → ℕ

abbrev pub total_width : BitmapFont → ℕ
total_width f = f.character_width + f.left_padding + f.right_padding

abbrev pub total_height : BitmapFont → ℕ
total_height f = f.character_height + f.top_padding + f.bottom_padding

-- The byte of a line of a character's bitmap; characters are taken as not negative.
abbrev pub character_bitmap : BitmapFont → ℕ → ℕ → ℕ
character_bitmap f c line = f.data_bytes (c * f.character_height + line)

-- Blacken the columns `x .. x + columns` on the lines `y .. y + rows`, column by column.
unfoldable pub blacken : ℕ → ℕ → ℕ → ℕ → Framebuffer → Run Framebuffer
blacken x columns y rows = loop columns x (λ i. loop rows y (λ j. set_pixel i j black))

abbrev pub HasSize : ℕ → ℕ → Framebuffer → Type 0
HasSize w h f = (f.width ≡ w) × (f.height ≡ h)

pub set_pixel-ok :
    (w h x y value : ℕ) (f : Framebuffer)
    → x < w
    → y < h
    → HasSize w h f
    → (r : Framebuffer) × (set_pixel x y value f ≡ ok r) × HasSize w h r
unfolding set_pixel
set_pixel-ok w h x y value f inx iny s = (
  record f { pixels = λ o. if o == f.width * y + x then value else f.pixels o },
  ground (arith, s, inx, iny),
  s,
)

pub blacken-ok :
    (w h x columns y rows : ℕ) (f : Framebuffer)
    → x + columns ≤ w
    → y + rows ≤ h
    → HasSize w h f
    → (r : Framebuffer) × (blacken x columns y rows f ≡ ok r) × HasSize w h r
unfolding blacken
blacken-ok w h x columns y rows f inx iny s =
    loop-ok (HasSize w h) columns x (λ i. loop rows y (λ j. set_pixel i j black))
      (λ i g lo hi t.
        loop-ok (HasSize w h) rows y (λ j. set_pixel i j black)
          (λ j e l k u. set_pixel-ok w h i j black e (omega arith) (omega arith) u) g t)
      f s
