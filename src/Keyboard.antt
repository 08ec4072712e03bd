-- ===== src/Keyboard.antt =====
-- The keyboard: `isr_keyboard` of kernel/src/idt.cpp and `KeyboardBuffer` of
-- kernel/include/kernel/KeyboardBuffer.hpp. A `Key` is its number, since the code casts characters to
-- keys and back. The `static bool extended` of the conversion is passed along.
pub mod Key
pub mod Codes
use dav_os.Base.{
  ℕ, zero, suc, ◌+◌, ◌^◌, bit_and, Bool, true, false, not, ltb, ◌==◌, if◌then◌else◌, List, [], ◌∷◌,
  get_or,
}
use dav_os.Keyboard.Key
use dav_os.Kpp.CircularQueue
use dav_os.Kpp.CircularQueue.{CircularQueue}

abbrev pub max_size : ℕ
max_size = 256

unfoldable pub new_buffer : CircularQueue ℕ
new_buffer = CircularQueue.init max_size Key.none

unfoldable pub put : ℕ → CircularQueue ℕ → CircularQueue ℕ
put c b = CircularQueue.enqueue max_size c b

unfoldable pub get : CircularQueue ℕ → ℕ × CircularQueue ℕ
get b = CircularQueue.dequeue max_size Key.none b

unfoldable pub has_data : CircularQueue ℕ → Bool
has_data b = not (CircularQueue.is_empty b)

-- The first 64 entries of the table; the others are 0.
abbrev pub scancode_to_ascii : List ℕ
scancode_to_ascii =
    0 ∷ 27 ∷ 49 ∷ 50 ∷ 51 ∷ 52 ∷ 53 ∷ 54 ∷ 55 ∷ 56 ∷ 57 ∷ 48 ∷ 45 ∷ 61 ∷ 8 ∷ 9 ∷ 113 ∷ 119 ∷ 101
    ∷ 114 ∷ 116 ∷ 121 ∷ 117 ∷ 105 ∷ 111 ∷ 112 ∷ 91 ∷ 93 ∷ 10 ∷ 0 ∷ 97 ∷ 115 ∷ 100 ∷ 102 ∷ 103 ∷ 104
    ∷ 106 ∷ 107 ∷ 108 ∷ 59 ∷ 39 ∷ 96 ∷ 0 ∷ 92 ∷ 122 ∷ 120 ∷ 99 ∷ 118 ∷ 98 ∷ 110 ∷ 109 ∷ 44 ∷ 46 ∷ 47
    ∷ 0 ∷ 42 ∷ 0 ∷ 32 ∷ 0 ∷ 0 ∷ 0 ∷ 0 ∷ 0 ∷ 0 ∷ []

-- The second byte of a sequence that 0xE0 begins.
unfoldable pub extended_key : ℕ → ℕ
extended_key scancode =
    if scancode == 0x48
    then Key.up_arrow
    else if scancode == 0x50
    then Key.down_arrow
    else if scancode == 0x4b
    then Key.left_arrow
    else if scancode == 0x4d
    then Key.right_arrow
    else Key.none

pub scancode_to_key : ℕ → Bool → ℕ × Bool
scancode_to_key scancode extended =
    if extended
    then (extended_key scancode, false)
    else if scancode == 0xe0
    then (Key.none, true)
    else if not (bit_and scancode 0x80 == 0)
    then (Key.none, false)
    else if ltb scancode 128
    then (get_or scancode_to_ascii scancode 0, false)
    else (Key.none, false)

-- The key of a scan code goes into the buffer, `Key::None` included.
pub isr_keyboard : ℕ → Bool → CircularQueue ℕ → Bool × CircularQueue ℕ
isr_keyboard scan_code extended b =
    let (key, extended') = scancode_to_key scan_code extended in (extended', put key b)
