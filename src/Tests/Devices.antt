-- ===== src/Tests/Devices.antt =====
-- Runs of the terminal, the keyboard, the selectors and the paging calls at fixed inputs.
use dav_os.Base.{ℕ, ◌≡◌, refl, false, [], ◌∷◌}
use dav_os.Base.Run.{Run, ok}
use dav_os.Kpp.CircularQueue.{is_empty, enqueue, dequeue, init}
use dav_os.Keyboard.{new_buffer, get, has_data, put}
use dav_os.Descriptors.Gdt.{
  to_uint16_t, segment_index, table_index, privilege_index, kernel, global, user_data,
}
use dav_os.Terminal.LineBuffer.{
  write, wraps, wrap_line, follow, advance, is_automatic, put_char, set_line_size,
  set_num_visible_lines, last_visible_line_index, first_visible_line_index, get_line, current_line,
}
use dav_os.Terminal.LineBuffer
use dav_os.Terminal.Framebuffer.{set_pixel, blacken}
use dav_os.Terminal.Paint
use dav_os.Terminal.Paint.{
  Terminal, terminal_init, glyph_pixel, paint_glyph, paint_newline, paint_character, paint_line,
  paint_lines, clear_rows, paint_visible_buffer, clear_viewport, write_string,
}

-- A screen of four by two pixels, with characters of one pixel.
abbrev tiny : Terminal
tiny =
    terminal_init (record { pixels = λ o. 7; width = 4; height = 2 })
      (record {
        character_width = 1;
        character_height = 1;
        left_padding = 0;
        top_padding = 0;
        right_padding = 0;
        bottom_padding = 0;
        data_bytes = λ o. o;
      })

abbrev pixel : ℕ → Run Terminal → ℕ
pixel o (ok t) = t.framebuffer.pixels o
pixel o _ = 1

write_string_run : pixel 0 (write_string (65 ∷ 66 ∷ []) tiny) ≡ 0xffff_ffff
unfolding terminal_init set_line_size set_num_visible_lines write_string Paint.write write wraps
    wrap_line follow advance is_automatic put_char paint_character paint_glyph glyph_pixel set_pixel
    paint_newline blacken paint_visible_buffer paint_lines paint_line clear_rows
write_string_run = refl

clear_run : pixel 5 (Paint.clear tiny) ≡ 0
unfolding Paint.clear clear_viewport clear_rows set_pixel terminal_init LineBuffer.clear
clear_run = refl

has_data_run : has_data (get (put 97 new_buffer)).1 ≡ false
unfolding has_data get put new_buffer is_empty enqueue dequeue init
has_data_run = refl

to_uint16_t_run :
    to_uint16_t
      (record { requested_privilege_level = kernel; table_type = global; gdt_segment = user_data })
    ≡ 32
unfolding to_uint16_t segment_index table_index privilege_index
to_uint16_t_run = refl
