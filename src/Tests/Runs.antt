-- ===== src/Tests/Runs.antt =====
-- Runs of the model at fixed inputs.
use dav_os.Base.{ℕ, ◌≡◌, refl, ◌==◌, if◌then◌else◌, [], ◌∷◌}
use dav_os.Base.Int.{pos, negsuc}
use dav_os.Base.Run.{Run, ok}
use dav_os.Kpp.Printf.{
  int, unsigned_long_long, vprintf, vprintf_round, convert, until_percent, to_unsigned_char,
  print_int, print_number, digits, digit_char,
}
use dav_os.Kpp.CString.{memset, fill, memcmp, compare_from, strncmp, strncmp_from, difference}
use dav_os.Descriptors.Gdt.{global_descriptor_table, make_segment_descriptor}
use dav_os.Shell.{echo, handle_command, is_zero}
use dav_os.Heap.{
  Heap, allocate, take_block, first_fit, can_fit, perfect_fit, reserve_end, deallocate, find_spot,
  link_block, link, freed_size, coalesce_next, coalesce_prev, real_size, add_memory,
}

-- "%d%%%x%c" with 42, 255 and -1 (as a character).
vprintf_run :
    vprintf 9
      (37 ∷ 100 ∷ 37 ∷ 37 ∷ 37 ∷ 120 ∷ 37 ∷ 99 ∷ [])
      (int (pos 42) ∷ unsigned_long_long 255 ∷ int (negsuc 0) ∷ [])
    ≡ ok (52 ∷ 50 ∷ 37 ∷ 102 ∷ 102 ∷ 255 ∷ [])
unfolding vprintf vprintf_round convert until_percent to_unsigned_char print_int print_number digits
    digit_char
vprintf_run = refl

global_descriptor_table_run :
    global_descriptor_table
    ≡ 0 ∷ 0xaf_9b00_0000_ffff ∷ 0xcf_9300_0000_ffff ∷ 0xaf_fb00_0000_ffff ∷ 0xcf_f300_0000_ffff ∷ []
unfolding global_descriptor_table make_segment_descriptor
global_descriptor_table_run = refl

memset_run : memcmp 10 20 3 (memset 10 0x141 3 (λ x. 0x41)) ≡ pos 0
unfolding memset fill memcmp compare_from
memset_run = refl

-- "echo hi" at 100; the four words elsewhere.
abbrev letters : ℕ → ℕ
letters x =
    if x == 100
    then 101
    else if x == 101
    then 99
    else if x == 102
    then 104
    else if x == 103
    then 111
    else if x == 104
    then 32
    else if x == 200
    then 104
    else 0

handle_command_run :
    handle_command
      (record { help_at = 200; echo_at = 100; exit_at = 300; clear_at = 300 })
      letters
      100
      7
    ≡ echo 105
unfolding handle_command is_zero strncmp strncmp_from difference
handle_command_run = refl

-- What a request of 20 bytes takes from a block of 100 goes back into it.
abbrev one_block : Heap
one_block = record { head = 0x1000; mem = λ x. if x == 0x1000 then 100 else 0 }

abbrev size_of_head : Run Heap → ℕ
size_of_head (ok h) = h.mem h.head
size_of_head _ = 0

abbrev after : Run (ℕ × Heap) → Run Heap
after (ok (p, h)) = deallocate 3 p h
after _ = ok one_block

deallocate_run : size_of_head (after (allocate 2 20 one_block)) ≡ 100
unfolding allocate take_block first_fit can_fit perfect_fit reserve_end deallocate find_spot
    link_block link freed_size coalesce_next coalesce_prev real_size
deallocate_run = refl

add_memory_run :
    size_of_head (add_memory 2 0x1000 0x2000 (record { head = 0; mem = λ x. 0 })) ≡ 0x1ff8
unfolding add_memory deallocate find_spot link_block link freed_size coalesce_next coalesce_prev
    real_size
add_memory_run = refl
