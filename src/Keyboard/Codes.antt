-- ===== src/Keyboard/Codes.antt =====
-- The scan codes.
use dav_os.Base.{
  ℕ, ◌+◌, ◌≤◌, ◌<◌, ◌≡◌, refl, bit_and, Bool, true, false, ltb, ◌==◌, if◌then◌else◌, ◌*◌, ◌/◌, ◌%◌,
  List, [], ◌∷◌, get_or, map, arith, ◌++◌, length, ap, ◌∙◌, sym,
}
use mathlib.Core.List.{append-nil, append_assoc}
use dav_os.Base.Words.{bit_and_field}
use dav_os.Kpp.CircularQueue.{CircularQueue, enqueue}
use dav_os.Kpp.CircularQueue.Inv.{IsValid, enqueue-IsValid}
use dav_os.Kpp.CircularQueue.Refine.{contents, contents-enqueue, length-items, spec_put}
use dav_os.Keyboard.Key
use Prim.Native.String.{String}
use dav_os.Base.Text.{codes}
use dav_os.Keyboard.{max_size, put, scancode_to_ascii, extended_key, scancode_to_key, isr_keyboard}

high_bit : (c : ℕ) → c < 256 → (bit_and c 0x80 == 0) ≡ ltb c 128
high_bit c small =
    let field : bit_and c 0x80 ≡ c / 128 % 2 * 128 = bit_and_field 7 1 c in rw field (ground arith)

-- The arrow that a code behind 0xE0 names, or no key.
abbrev pub arrow : ℕ → ℕ
arrow c =
    if c == 72
    then 256
    else if c == 80
    then 257
    else if c == 75
    then 258
    else if c == 77
    then 259
    else 0

-- The characters of a keyboard with the US layout by their codes from 1 on, `~` where there is none.
abbrev pub us_layout : String
us_layout = "\u{1b}1234567890-=\u{8}\tqwertyuiop[]\n~asdfghjkl;'`~\\zxcvbnm,./~*~ ~~~~~~"

-- The character of a key that is pressed, or no key.
abbrev pub typed : ℕ → ℕ
typed c = get_or (0 ∷ map (λ k. if k == 126 then 0 else k) (codes us_layout)) c 0

-- The keys of a sequence of scan codes: 0xE0 begins a sequence of two, whose second code names an
-- arrow; of the other codes only those below 128, which are presses, name a key.
abbrev pub keys_of : List ℕ → Bool → List ℕ
keys_of [] extended = []
keys_of (c ∷ cs) true = arrow c ∷ keys_of cs false
keys_of (c ∷ cs) false =
    if c == 0xe0
    then Key.none ∷ keys_of cs true
    else (if ltb c 128 then typed c else Key.none) ∷ keys_of cs false

typed_lem : (c : ℕ) → get_or scancode_to_ascii c 0 ≡ typed c
typed_lem c = refl

arrow_lem : (c : ℕ) → extended_key c ≡ arrow c
unfolding extended_key
arrow_lem c = refl

abbrev pub AreBytes : List ℕ → Type 0
AreBytes [] = Unit {0}
AreBytes (c ∷ cs) = (c < 256) × AreBytes cs

-- The interrupts of a sequence of scan codes.
pub receive : List ℕ → Bool → CircularQueue ℕ → CircularQueue ℕ
receive [] extended b = b
receive (c ∷ cs) extended b =
    let (extended', b') = isr_keyboard c extended b in receive cs extended' b'

-- One code: the state and the key that the specification reads.
scancode_to_key-keys_of :
    (c : ℕ) (cs : List ℕ) (extended : Bool)
    → c < 256
    → keys_of (c ∷ cs) extended
      ≡ (scancode_to_key c extended).0 ∷ keys_of cs (scancode_to_key c extended).1
unfolding scancode_to_key
scancode_to_key-keys_of c cs true small = ap (λ k. k ∷ keys_of cs false) (sym (arrow_lem c))
scancode_to_key-keys_of c cs false small = rw (high_bit c small, sym (typed_lem c)) (ground arith)

spec_put-room :
    (key : ℕ) (l : List ℕ) → length l < max_size → spec_put max_size key l ≡ l ++ (key ∷ [])
unfolding spec_put
spec_put-room key l room = ground (arith, room)

put-contents :
    (key : ℕ) (b : CircularQueue ℕ)
    → IsValid max_size b
    → b.size < max_size
    → contents max_size Key.none (put key b) ≡ contents max_size Key.none b ++ (key ∷ [])
unfolding put
put-contents key b v room =
    let size : length (contents max_size Key.none b) ≡ b.size =
      length-items max_size Key.none b.cells b.front b.size in
    contents-enqueue max_size Key.none key v
    ∙ spec_put-room key (contents max_size Key.none b) (omega (arith, size, room))

put-IsValid : (key : ℕ) {b : CircularQueue ℕ} → IsValid max_size b → IsValid max_size (put key b)
unfolding put
put-IsValid key v = enqueue-IsValid max_size key v

put-size : (key : ℕ) (b : CircularQueue ℕ) → b.size < max_size → (put key b).size ≡ b.size + 1
unfolding put enqueue
put-size key b room = ground (arith, room)

-- While a valid key buffer has room for all of them, the interrupts of a sequence of scan codes
-- put exactly its keys behind those already there, in order: the code 0xE0 names nothing and makes
-- the next code name the up, down, left or right arrow, if it is 0x48, 0x50, 0x4B or 0x4D, or else
-- nothing; a code of 128 or more names nothing, and any other code the character of the US layout
-- or nothing.
pub receive-contents :
    (cs : List ℕ) (extended : Bool) (b : CircularQueue ℕ)
    → IsValid max_size b
    → AreBytes cs
    → b.size + length cs ≤ max_size
    → contents max_size Key.none (receive cs extended b)
      ≡ contents max_size Key.none b ++ keys_of cs extended
unfolding receive isr_keyboard
receive-contents [] extended b v bytes room = sym (append-nil (contents max_size Key.none b))
receive-contents (c ∷ cs) extended b v bytes room =
    let key = (scancode_to_key c extended).0 in
    let extended' = (scancode_to_key c extended).1 in
    let here : b.size < max_size = omega (arith, room) in
    let size = put-size key b here in
    let ih =
      receive-contents cs extended' (put key b) (put-IsValid key v) bytes.1
        (omega (arith, size, room)) in
    ih
    ∙ ap (λ l. l ++ keys_of cs extended') (put-contents key b v here)
    ∙ append_assoc (contents max_size Key.none b) (key ∷ []) (keys_of cs extended')
    ∙ ap (λ l. contents max_size Key.none b ++ l)
        (sym (scancode_to_key-keys_of c cs extended bytes.0))
