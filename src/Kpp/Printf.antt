-- ===== src/Kpp/Printf.antt =====
-- `kpp::vprintf` of kernel/lib/kpp/stdio/printf.cpp. The format is the list of its characters before
-- the '\0', the arguments are a list of values of the three types that `va_arg` reads, and the output is
-- the list of characters that `putchar` receives, which always succeeds (kernel/lib/kpp/stdio/putchar.cpp).
-- `written` is the length of the output; a conversion that finds no argument of its type is undefined
-- behaviour in C++ and is `panic` here. A digit is put in front of those already there, as the source
-- fills its array from the end; it has 65 rounds for a 64-bit number.
pub mod Digits
pub mod Typing
use dav_os.Base.{
  ℕ, zero, suc, ◌+◌, ◌-◌, ◌*◌, ◌/◌, ◌%◌, ◌^◌, Bool, true, false, not, ◌&&◌, ◌||◌, ltb, ◌==◌,
  if◌then◌else◌, List, [], ◌∷◌, ◌++◌, length,
}
use dav_os.Base.Int.{ℤ, pos, negsuc}
use dav_os.Base.Run.{Run, ok, panic, out_of_fuel, ◌>>=◌}

pub data Argument : Type 0 where
  int : ℤ → Argument
  string : List ℕ → Argument
  unsigned_long_long : ℕ → Argument

-- `digit + '0'` and `hex[digit]`
unfoldable pub digit_char : ℕ → ℕ
digit_char d = if ltb d 10 then 48 + d else 87 + d

-- `while (num > 0)`
unfoldable pub digits : ℕ → ℕ → ℕ → List ℕ → Run (List ℕ)
digits zero base num str = out_of_fuel
digits (suc fuel) base num str =
    let rest = digits fuel base (num / base) (digit_char (num % base) ∷ str) in
    if num == 0 then ok str else rest

unfoldable pub print_number : ℕ → ℕ → Run (List ℕ)
print_number base num = if num == 0 then ok (digit_char 0 ∷ []) else digits 65 base num []

-- `%d`: the loop of a negative number does not run.
unfoldable pub print_int : ℤ → Run (List ℕ)
print_int (pos n) = print_number 10 n
print_int (negsuc n) = ok []

-- `(char)` of an `int`, as `print` reads it.
unfoldable pub to_unsigned_char : ℤ → ℕ
to_unsigned_char (pos n) = n % 256
to_unsigned_char (negsuc n) = 255 - n % 256

abbrev pub percent : ℕ
percent = 37

-- The characters up to the next '%', and what is left.
unfoldable pub until_percent : List ℕ → List ℕ × List ℕ
until_percent [] = ([], [])
until_percent (c ∷ cs) =
    let rest = until_percent cs in if c == percent then ([], c ∷ cs) else (c ∷ rest.0, rest.1)

-- One conversion after the '%': the output, the format and the arguments that are left. An unknown
-- specifier prints nothing, and is itself left in the format.
unfoldable pub convert : List ℕ → List Argument → Run (List ℕ × List ℕ × List Argument)
convert [] args = ok ([], [], args)
convert (f ∷ format) args =
    if f == 99
    then convert_char format args
    else if f == 115
    then convert_string format args
    else if f == 100
    then convert_int format args
    else if f == 120 || f == 112
    then convert_hex format args
    else ok ([], f ∷ format, args)
  where
    convert_char : List ℕ → List Argument → Run (List ℕ × List ℕ × List Argument)
    convert_char format (int c ∷ args) = ok (to_unsigned_char c ∷ [], format, args)
    convert_char format _ = panic

    convert_string : List ℕ → List Argument → Run (List ℕ × List ℕ × List Argument)
    convert_string format (string s ∷ args) = ok (s, format, args)
    convert_string format _ = panic

    convert_int : List ℕ → List Argument → Run (List ℕ × List ℕ × List Argument)
    convert_int format (int n ∷ args) = print_int n >>= λ s. ok (s, format, args)
    convert_int format _ = panic

    convert_hex : List ℕ → List Argument → Run (List ℕ × List ℕ × List Argument)
    convert_hex format (unsigned_long_long n ∷ args) =
        print_number 16 n >>= λ s. ok (s, format, args)
    convert_hex format _ = panic

-- One round of the loop on a format that is not at its end.
unfoldable pub vprintf_round : ℕ → List ℕ → List Argument → Run (List ℕ × List ℕ × List Argument)
vprintf_round c [] args = if c == percent then convert [] args else ok (c ∷ [], [], args)
vprintf_round c (d ∷ format) args =
    if not (c == percent)
    then (let s = until_percent (d ∷ format) in ok (c ∷ s.0, s.1, args))
    else if d == percent
    then (let s = until_percent format in ok (d ∷ s.0, s.1, args))
    else convert (d ∷ format) args

unfoldable pub vprintf : ℕ → List ℕ → List Argument → Run (List ℕ)
vprintf fuel [] args = ok []
vprintf zero (c ∷ format) args = out_of_fuel
vprintf (suc fuel) (c ∷ format) args = vprintf_round c format args >>= λ (out, format', args').
    vprintf fuel format' args' >>= λ rest. ok (out ++ rest)
