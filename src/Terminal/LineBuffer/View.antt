-- ===== src/Terminal/LineBuffer/View.antt =====
-- The part of the buffer that is visible, and the buffer that `clear` leaves.
use dav_os.Base.{ℕ, ◌+◌, ◌≤◌, ◌<◌, ◌≡◌, ap, arith}
use dav_os.Base.Int.{ℤ, pos, negsuc}
use dav_os.Terminal.LineBuffer.{LineBuffer, get_line, scroll_down, first_visible_line_index}
use dav_os.Terminal.LineBuffer.Write.{IsValid}

-- In a valid buffer the index of the first visible line names the line that the buffer shows first
-- when that line is at or above the front in the array, and the line before it when it is below
-- the front.
pub first_visible_line_index_lem :
    (b : LineBuffer) (col : ℕ)
    → IsValid b
    → ((b.front ≤ b.first_visible_line)
        → get_line b (first_visible_line_index b) col ≡ b.lines b.first_visible_line col)
      × ((b.first_visible_line < b.front)
          → get_line b (first_visible_line_index b + 1) col ≡ b.lines b.first_visible_line col)
unfolding get_line first_visible_line_index
first_visible_line_index_lem b col v = (
  λ straight. ap (λ k. b.lines k col) (ground (arith, straight, v)),
  λ around. ap (λ k. b.lines k col) (ground (arith, around, v)),
)

-- Scrolling a valid buffer by any number of lines, down or up, keeps it valid.
pub scroll_down-IsValid : (n : ℤ) (b : LineBuffer) → IsValid b → IsValid (scroll_down n b)
unfolding scroll_down
scroll_down-IsValid (pos n) b v = (v.0, v.1, v.2, v.3, v.4, v.5, ground (arith, v), v.7)
scroll_down-IsValid (negsuc n) b v = (v.0, v.1, v.2, v.3, v.4, v.5, ground (arith, v), v.7)
