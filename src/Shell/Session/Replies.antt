-- ===== src/Shell/Session/Replies.antt =====
-- What the shell answers to a line that is typed.
use dav_os.Base.{
  ℕ, zero, suc, ◌+◌, ◌≤◌, ◌<◌, ◌≡◌, ◌≢◌, refl, sym, ap, ◌∙◌, Bool, true, false, inl, inr, ◌&&◌,
  ◌==◌, if◌then◌else◌, Bool-cases, List, [], ◌∷◌, ◌++◌, length, drop, arith,
}
use dav_os.Base.Text.{codes}
use dav_os.Base.Run.{ok, ◌>>=◌}
use dav_os.Kpp.CString.{Bytes, strncmp, strncmp_from, difference}
use dav_os.Kpp.CString.Compare.{strlen-ends}
use dav_os.Kpp.Printf.{vprintf, vprintf_round, convert, until_percent, string}
use dav_os.Shell.{
  input_size, Command, nothing, help, exit, clear, echo, unknown, Words, handle_command, is_zero,
}
use dav_os.Shell.Session.{Event, clear_screen, print, characters, c_string, printf, run_command}

-- A list of characters stands at an address, with a zero byte behind it.
abbrev pub IsString : Bytes → ℕ → List ℕ → Type 0
IsString mem a [] = mem a ≡ 0
IsString mem a (k ∷ ks) = (mem a ≡ k) × (k ≢ 0) × IsString mem (a + 1) ks

-- The characters of a word stand at an address, none of them zero.
abbrev pub IsWord : Bytes → ℕ → List ℕ → Type 0
IsWord mem b [] = Unit {0}
IsWord mem b (c ∷ w) = (mem b ≡ c) × (c ≢ 0) × IsWord mem (b + 1) w

abbrev pub is_prefix : List ℕ → List ℕ → Bool
is_prefix [] ks = true
is_prefix (c ∷ w) [] = false
is_prefix (c ∷ w) (k ∷ ks) = k == c && is_prefix w ks

printf_echo : (s : List ℕ) → printf "%s\n" (string s ∷ []) ≡ ok (print (s ++ codes "\n") ∷ [])
unfolding printf vprintf vprintf_round convert until_percent
printf_echo s = refl

printf_unknown :
    (s : List ℕ)
    → printf "Unknown command: %s\n" (string s ∷ [])
      ≡ ok (print (codes "Unknown command: " ++ (s ++ codes "\n")) ∷ [])
unfolding printf vprintf vprintf_round convert until_percent
printf_unknown s = refl

difference-ne : (x y : ℕ) → x ≢ y → is_zero (difference x y) ≡ false
unfolding is_zero difference
difference-ne x y h = ground arith

-- The comparison with a command word says whether the word begins the line.
strncmp_from-prefix :
    (w ks : List ℕ) (i a b : ℕ) (mem : Bytes)
    → IsString mem (a + i) ks
    → IsWord mem (b + i) w
    → is_zero (strncmp_from (length w) i a b mem) ≡ is_prefix w ks
unfolding strncmp_from is_zero
strncmp_from-prefix [] ks i a b mem line word = refl
strncmp_from-prefix (c ∷ w) [] i a b mem line word =
    let differ : (mem (a + i) == mem (b + i)) ≡ false = ground arith in
    rw differ (difference-ne (mem (a + i)) (mem (b + i)) (ground arith))
strncmp_from-prefix (c ∷ w) (k ∷ ks) i a b mem line word =
    let next : (x : ℕ) → x + i + 1 ≡ x + suc i = λ x. omega arith in
    elim (Bool-cases (k == c)) [
      | inl same ↦
          let equal : (mem (a + i) == mem (b + i)) ≡ true = ground arith in
          rw (equal, same)
            (strncmp_from-prefix w ks (suc i) a b mem (rw (next a) at line.2)
              (rw (next b) at word.2))
      | inr other ↦
          let differ : (mem (a + i) == mem (b + i)) ≡ false = ground arith in
          rw (differ, other) (difference-ne (mem (a + i)) (mem (b + i)) (ground arith))
    ]

strncmp-prefix :
    (w ks : List ℕ) (a b : ℕ) (mem : Bytes)
    → IsString mem a ks
    → IsWord mem b w
    → is_zero (strncmp a b (length w) mem) ≡ is_prefix w ks
unfolding strncmp
strncmp-prefix w ks a b mem line word =
    let zero_a : a ≡ a + 0 = omega arith in
    let zero_b : b ≡ b + 0 = omega arith in
    strncmp_from-prefix w ks 0 a b mem (rw zero_a at line) (rw zero_b at word)

-- The command words in memory.
abbrev pub HasWords : Words → Bytes → Type 0
HasWords words mem =
    IsWord mem words.help_at (codes "help")
    × IsWord mem words.echo_at (codes "echo ")
    × IsWord mem words.exit_at (codes "exit")
    × IsWord mem words.clear_at (codes "clear")

-- The command that a line names, by its first characters.
abbrev pub command_of : ℕ → List ℕ → Command
command_of input ks =
    if length ks == 0
    then nothing
    else if is_prefix (codes "help") ks
    then help
    else if is_prefix (codes "echo ") ks
    then echo (input + 5)
    else if is_prefix (codes "exit") ks
    then exit
    else if is_prefix (codes "clear") ks
    then clear
    else unknown input

pub handle_command-of :
    (words : Words) (mem : Bytes) (input : ℕ) (ks : List ℕ)
    → HasWords words mem
    → IsString mem input ks
    → handle_command words mem input (length ks) ≡ command_of input ks
unfolding handle_command
handle_command-of words mem input ks w line = rw (
  strncmp-prefix (codes "help") ks input words.help_at mem line w.0,
  strncmp-prefix (codes "echo ") ks input words.echo_at mem line w.1,
  strncmp-prefix (codes "exit") ks input words.exit_at mem line w.2,
  strncmp-prefix (codes "clear") ks input words.clear_at mem line w.3,
)

-- Reading a string.
IsString-nonzero :
    (ks : List ℕ) (a i : ℕ) (mem : Bytes) → IsString mem a ks → i < length ks → mem (a + i) ≢ 0
IsString-nonzero [] a i mem line inside = absurd (omega arith)
IsString-nonzero (k ∷ ks) a zero mem line inside =
    λ h. line.1 (sym line.0 ∙ ap mem (omega arith) ∙ h)
IsString-nonzero (k ∷ ks) a (suc i) mem line inside =
    λ h. IsString-nonzero ks (a + 1) i mem line.2 (omega arith) (ap mem (omega arith) ∙ h)

IsString-end : (ks : List ℕ) (a : ℕ) (mem : Bytes) → IsString mem a ks → mem (a + length ks) ≡ 0
IsString-end [] a mem line = ap mem (omega arith) ∙ line
IsString-end (k ∷ ks) a mem line = ap mem (omega arith) ∙ IsString-end ks (a + 1) mem line.2

characters-string :
    (ks : List ℕ) (a : ℕ) (mem : Bytes) → IsString mem a ks → characters (length ks) a mem ≡ ks
unfolding characters
characters-string [] a mem line = refl
characters-string (k ∷ ks) a mem line = rw (line.0, characters-string ks (a + 1) mem line.2)

c_string-text :
    (ks : List ℕ) (a : ℕ) (mem : Bytes)
    → IsString mem a ks
    → length ks ≤ input_size
    → c_string a mem ≡ ok ks
unfolding c_string
c_string-text ks a mem line short =
    rw
      (
        strlen-ends (length ks) (suc input_size) a mem (λ i h. IsString-nonzero ks a i mem line h)
            (IsString-end ks a mem line) (omega arith),
        ◌>>=◌,
        characters-string ks a mem line,
      )
      refl

-- The rest of a line behind a word that begins it.
IsString-drop :
    (n : ℕ) (ks : List ℕ) (a : ℕ) (mem : Bytes)
    → IsString mem a ks
    → n ≤ length ks
    → IsString mem (a + n) (drop n ks)
IsString-drop zero ks a mem line inside = let e : a ≡ a + 0 = omega arith in rw e at line
IsString-drop (suc n) [] a mem line inside = absurd (omega arith)
IsString-drop (suc n) (k ∷ ks) a mem line inside =
    let e : a + 1 + n ≡ a + suc n = omega arith in
    rw e at (IsString-drop n ks (a + 1) mem line.2 (omega arith))

length-is_prefix : (w ks : List ℕ) → is_prefix w ks ≡ true → length w ≤ length ks
length-is_prefix [] ks h = omega arith
length-is_prefix (c ∷ w) [] h = cc
length-is_prefix (c ∷ w) (k ∷ ks) h = ground (arith, length-is_prefix w ks)

length-drop-le : (n : ℕ) (ks : List ℕ) → length (drop n ks) ≤ length ks
length-drop-le zero ks = omega arith
length-drop-le (suc n) [] = omega arith
length-drop-le (suc n) (k ∷ ks) = omega (arith, length-drop-le n ks)

-- What the shell prints for a line, and whether it hangs.
pub reply_of : List ℕ → List Event × Bool
reply_of ks =
    if length ks == 0
    then ([], false)
    else if is_prefix (codes "help") ks
    then (
      print (codes "Available commands:\n")
          ∷ print (codes "  help - Show this help message\n")
          ∷ print (codes "  echo <message> - Echo the message back\n")
          ∷ print (codes "  exit - Exit the shell\n")
          ∷ [],
      false,
    )
    else if is_prefix (codes "echo ") ks
    then (print (drop 5 ks ++ codes "\n") ∷ [], false)
    else if is_prefix (codes "exit") ks
    then (print (codes "Exiting shell...\n") ∷ [], true)
    else if is_prefix (codes "clear") ks
    then (clear_screen ∷ [], false)
    else (print (codes "Unknown command: " ++ (ks ++ codes "\n")) ∷ [], false)

pub run_command-reply_of :
    (input : ℕ) (mem : Bytes) (ks : List ℕ)
    → IsString mem input ks
    → length ks ≤ input_size
    → run_command input mem (command_of input ks) ≡ ok (reply_of ks)
unfolding run_command reply_of
run_command-reply_of input mem ks line short = elim (Bool-cases (length ks == 0)) [
  | inl nil ↦ rw nil refl
  | inr some_key ↦ elim (Bool-cases (is_prefix (codes "help") ks)) [
    | inl h ↦ rw (some_key, h) (unfold vprintf vprintf_round convert until_percent in refl)
    | inr h ↦ elim (Bool-cases (is_prefix (codes "echo ") ks)) [
      | inl e ↦
          let inside : 5 ≤ length ks = length-is_prefix (codes "echo ") ks e in
          let rest = IsString-drop 5 ks input mem line inside in
          let small : length (drop 5 ks) ≤ input_size = omega (arith, length-drop-le 5 ks) in
          rw
            (
              some_key,
              h,
              e,
              c_string-text (drop 5 ks) (input + 5) mem rest small,
              ◌>>=◌,
              printf_echo (drop 5 ks),
            )
            refl
      | inr e ↦ elim (Bool-cases (is_prefix (codes "exit") ks)) [
        | inl x ↦
            rw (some_key, h, e, x) (unfold vprintf vprintf_round convert until_percent in refl)
        | inr x ↦ elim (Bool-cases (is_prefix (codes "clear") ks)) [
          | inl c ↦ rw (some_key, h, e, x, c) refl
          | inr c ↦
              rw
                (
                  some_key,
                  h,
                  e,
                  x,
                  c,
                  c_string-text ks input mem line short,
                  ◌>>=◌,
                  printf_unknown ks,
                )
                refl
        ]
      ]
    ]
  ]
]
