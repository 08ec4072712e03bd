-- ===== src/Keyboard/Key.antt =====
-- The `KeyboardBuffer::Key`s that the code names.
use dav_os.Base.{ℕ}

abbrev pub none : ℕ
none = 0

abbrev pub enter : ℕ
enter = 10

abbrev pub backspace : ℕ
backspace = 8

abbrev pub up_arrow : ℕ
up_arrow = 0x100

abbrev pub down_arrow : ℕ
down_arrow = 0x101

abbrev pub left_arrow : ℕ
left_arrow = 0x102

abbrev pub right_arrow : ℕ
right_arrow = 0x103
