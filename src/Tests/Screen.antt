-- ===== src/Tests/Screen.antt =====
-- The terminal at concrete inputs.
use dav_os.Base.{◌+◌, ◌-◌, ◌≡◌, refl, arith}
use dav_os.Base.Run.{ok}
use dav_os.Terminal.LineBuffer.{
  LineBuffer, automatic, manual, newline, get_line, write, wraps, wrap_line, follow, advance,
  is_automatic, put_char,
}
use dav_os.Terminal.LineBuffer.Write.{IsValid, dropped, write-IsValid, write-lines, write-stale}
use dav_os.Terminal.Paint.{Terminal, paint_character}
use dav_os.Terminal.Paint.Bounds.{Painted, paint_character-ok}

-- A window of 80 by 25 whose 256 lines are used, the oldest at index 3 and the cursor at the end.
abbrev full_buffer : LineBuffer
full_buffer = record {
  line_size = 80;
  visible_lines = 25;
  lines = λ row col. 65 + row;
  front = 3;
  size = 256;
  first_visible_line = 1;
  current_column = 80;
}

full_buffer-IsValid : IsValid full_buffer
full_buffer-IsValid = (
  omega arith,
  omega arith,
  omega arith,
  omega arith,
  omega arith,
  omega arith,
  omega arith,
  omega arith,
)

write-IsValid_example : IsValid (write 66 automatic full_buffer).1
write-IsValid_example = write-IsValid 66 automatic full_buffer full_buffer-IsValid

write-lines_example :
    get_line (write 66 manual full_buffer).1 10 7
    ≡ get_line full_buffer (10 + dropped 66 full_buffer) 7
write-lines_example =
    write-lines 66 manual full_buffer 10 7 full_buffer-IsValid
      (unfold write wraps wrap_line follow advance is_automatic put_char in omega arith)

write-stale_example :
    let b' = (write newline automatic full_buffer).1 in
    get_line b' (b'.size - 1) 5 ≡ get_line full_buffer 0 5
write-stale_example = write-stale automatic full_buffer 5 full_buffer-IsValid refl

abbrev small_screen : Terminal
small_screen = record {
  framebuffer = record { pixels = λ o. 0; width = 16; height = 40 };
  font = record {
    character_width = 8;
    character_height = 16;
    left_padding = 0;
    top_padding = 0;
    right_padding = 0;
    bottom_padding = 0;
    data_bytes = λ o. 0x55;
  };
  cursor_x = 8;
  cursor_y = 16;
  line_buffer = full_buffer;
}

paint_character-ok_example :
    (u : Terminal) × (paint_character 66 small_screen ≡ ok u) × Painted 66 small_screen u
paint_character-ok_example = paint_character-ok 66 small_screen (omega arith) (omega arith)
