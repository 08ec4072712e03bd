-- ===== src/Kpp/Printf/Typing.antt =====
-- The types of the arguments that a format of `kpp::vprintf` (kernel/lib/kpp/stdio/printf.cpp) asks for.
use dav_os.Base.{
  ℕ, zero, suc, ◌^◌, ◌≤◌, ◌<◌, ◌≡◌, ◌↔◌, refl, ap, sym, ◌∙◌, Bool, true, false, inl, inr, ◌==◌,
  ◌||◌, if◌then◌else◌, Bool-cases, List, [], ◌∷◌, ◌++◌, length, arith,
}
use dav_os.Base.Int.{abs}
use dav_os.Base.Run.{Run, ok, panic, hang, out_of_fuel, ◌>>=◌}
use dav_os.Kpp.Printf.{
  Argument, int, string, unsigned_long_long, percent, until_percent, convert, vprintf_round,
  vprintf,
}
use dav_os.Kpp.Printf.Digits.{print_number-read, print_int-read, sixteen-IsBase}

pub data ArgumentType : Type 0 where
  int_type string_type unsigned_long_long_type : ArgumentType

abbrev pub type_of : Argument → ArgumentType
type_of (int n) = int_type
type_of (string s) = string_type
type_of (unsigned_long_long n) = unsigned_long_long_type

-- The type that a conversion reads, if it reads one.
abbrev pub conversion_types : ℕ → List ArgumentType
conversion_types f =
    if f == b'c'
    then int_type ∷ []
    else if f == b's'
    then string_type ∷ []
    else if f == b'd'
    then int_type ∷ []
    else if f == b'x' || f == b'p'
    then unsigned_long_long_type ∷ []
    else []

-- The types that a format asks for, one character at a time; the flag is set behind a '%'.
pub wanted : Bool → List ℕ → List ArgumentType
wanted after [] = []
wanted false (c ∷ cs) = wanted (c == percent) cs
wanted true (f ∷ cs) = conversion_types f ++ wanted false cs

-- The arguments begin with values of these types.
abbrev pub HaveTypes : List ArgumentType → List Argument → Type 0
HaveTypes [] args = Unit {0}
HaveTypes (t ∷ ts) [] = ⊥
HaveTypes (t ∷ ts) (a ∷ args) = (type_of a ≡ t) × HaveTypes ts args

-- The values lie in their types.
abbrev pub InRange : List Argument → Type 0
InRange [] = Unit {0}
InRange (int n ∷ args) = (abs n < 2 ^ 31) × InRange args
InRange (string s ∷ args) = InRange args
InRange (unsigned_long_long n ∷ args) = (n < 2 ^ 64) × InRange args

until_percent-wanted :
    (cs : List ℕ)
    → (wanted false (until_percent cs).1 ≡ wanted false cs)
      × (length (until_percent cs).1 ≤ length cs)
unfolding wanted until_percent
until_percent-wanted [] = (refl, omega arith)
until_percent-wanted (c ∷ cs) =
    let ih = until_percent-wanted cs in
    elim (Bool-cases (c == percent)) [
      | inl stop ↦ rw stop (rw stop refl, omega arith)
      | inr go ↦ rw go (ih.0, omega (arith, ih.1))
    ]

-- What a round may do: read on with the rest of the arguments, or stop at a wrong type.
abbrev Outcome :
    ℕ → List ArgumentType → List Argument → Run (List ℕ × List ℕ × List Argument) → Type 0
Outcome n ts args (ok (out, format, rest)) =
    (length format ≤ n) × (HaveTypes ts args ↔ HaveTypes (wanted false format) rest) × InRange rest
Outcome n ts args panic = HaveTypes ts args → ⊥
Outcome n ts args hang = ⊥
Outcome n ts args out_of_fuel = ⊥

-- The five kinds of specifiers.
data Specifier (f : ℕ) : Type 0 where
  char_specifier : (f == b'c') ≡ true → Specifier f
  string_specifier : (f == b'c') ≡ false → (f == b's') ≡ true → Specifier f
  decimal_specifier : (f == b'c') ≡ false → (f == b's') ≡ false → (f == b'd') ≡ true → Specifier f
  hex_specifier :
      (f == b'c') ≡ false
      → (f == b's') ≡ false
      → (f == b'd') ≡ false
      → (f == b'x' || f == b'p') ≡ true
      → Specifier f
  unknown :
      (f == b'c') ≡ false
      → (f == b's') ≡ false
      → (f == b'd') ≡ false
      → (f == b'x' || f == b'p') ≡ false
      → Specifier f

specifier : (f : ℕ) → Specifier f
specifier f = elim (Bool-cases (f == b'c')) [
  | inl c ↦ char_specifier c
  | inr c ↦ elim (Bool-cases (f == b's')) [
    | inl s ↦ string_specifier c s
    | inr s ↦ elim (Bool-cases (f == b'd')) [
      | inl d ↦ decimal_specifier c s d
      | inr d ↦ elim (Bool-cases (f == b'x' || f == b'p')) [
        | inl x ↦ hex_specifier c s d x
        | inr x ↦ unknown c s d x
      ]
    ]
  ]
]

-- A conversion that takes an argument of its type.
takes :
    (format : List ℕ) (t : ArgumentType) (a : Argument) (args : List Argument)
    → type_of a ≡ t
    → InRange args
    → (length format ≤ suc (length format))
      × (HaveTypes (t ∷ wanted false format) (a ∷ args) ↔ HaveTypes (wanted false format) args)
      × InRange args
takes format t a args e range = (omega arith, (λ h. h.1, λ h. (e, h)), range)

convert-Outcome :
    (f : ℕ) (format : List ℕ) (args : List Argument)
    → Specifier f
    → InRange args
    → (f == percent) ≡ false
    → Outcome (suc (length format)) (wanted true (f ∷ format)) args (convert (f ∷ format) args)
unfolding convert wanted
convert-Outcome f format [] (char_specifier c) range plain = rw c (λ h. h)
convert-Outcome f format (int n ∷ args) (char_specifier c) range plain =
    rw c (takes format int_type (int n) args refl range.1)
convert-Outcome f format (string s ∷ args) (char_specifier c) range plain = rw c (λ h. cc)
convert-Outcome f format (unsigned_long_long n ∷ args) (char_specifier c) range plain =
    rw c (λ h. cc)
convert-Outcome f format [] (string_specifier c s) range plain = rw (c, s) (λ h. h)
convert-Outcome f format (int n ∷ args) (string_specifier c s) range plain = rw (c, s) (λ h. cc)
convert-Outcome f format (string text ∷ args) (string_specifier c s) range plain =
    rw (c, s) (takes format string_type (string text) args refl range)
convert-Outcome f format (unsigned_long_long n ∷ args) (string_specifier c s) range plain =
    rw (c, s) (λ h. cc)
convert-Outcome f format [] (decimal_specifier c s d) range plain = rw (c, s, d) (λ h. h)
convert-Outcome f format (int n ∷ args) (decimal_specifier c s d) range plain =
    rw (c, s, d, (print_int-read n range.0).1) (takes format int_type (int n) args refl range.1)
convert-Outcome f format (string text ∷ args) (decimal_specifier c s d) range plain =
    rw (c, s, d) (λ h. cc)
convert-Outcome f format (unsigned_long_long n ∷ args) (decimal_specifier c s d) range plain =
    rw (c, s, d) (λ h. cc)
convert-Outcome f format [] (hex_specifier c s d x) range plain = rw (c, s, d, x) (λ h. h)
convert-Outcome f format (int n ∷ args) (hex_specifier c s d x) range plain =
    rw (c, s, d, x) (λ h. cc)
convert-Outcome f format (string text ∷ args) (hex_specifier c s d x) range plain =
    rw (c, s, d, x) (λ h. cc)
convert-Outcome f format (unsigned_long_long n ∷ args) (hex_specifier c s d x) range plain =
    rw (c, s, d, x, (print_number-read 16 n sixteen-IsBase range.0).1)
      (takes format unsigned_long_long_type (unsigned_long_long n) args refl range.1)
convert-Outcome f format [] (unknown c s d x) range plain =
    rw (c, s, d, x, plain) (omega arith, (λ h. h, λ h. h), range)
convert-Outcome f format (a ∷ args) (unknown c s d x) range plain =
    rw (c, s, d, x, plain) (omega arith, (λ h. h, λ h. h), range)

percent_types : (d : ℕ) → (d == percent) ≡ true → conversion_types d ≡ []
percent_types d h = ground arith

same_types :
    {ts us : List ArgumentType} (args : List Argument)
    → ts ≡ us
    → HaveTypes ts args ↔ HaveTypes us args
same_types args e = rw e (λ h. h, λ h. h)

-- One round, on a format that is not at its end.
round-Outcome :
    (c : ℕ) (format : List ℕ) (args : List Argument)
    → InRange args
    → Outcome (length format) (wanted false (c ∷ format)) args (vprintf_round c format args)
unfolding vprintf_round wanted convert
round-Outcome c [] args range = elim (Bool-cases (c == percent)) [
  | inl spec ↦ rw spec (omega arith, (λ h. h, λ h. h), range)
  | inr plain ↦ rw plain (omega arith, (λ h. h, λ h. h), range)
]
round-Outcome c (d ∷ format) args range = elim (Bool-cases (c == percent)) [
  | inr plain ↦
      let u = until_percent-wanted (d ∷ format) in
      rw (wanted, plain) (u.1, same_types args (sym u.0), range)
  | inl spec ↦ elim (Bool-cases (d == percent)) [
    | inl escaped ↦
        let u = until_percent-wanted format in
        let none_here = ap (λ ts. ts ++ wanted false format) (percent_types d escaped) in
        rw (wanted, spec, escaped)
          (omega (arith, u.1), same_types args (none_here ∙ sym u.0), range)
    | inr plain ↦ rw (wanted, spec, plain) (convert-Outcome d format args (specifier d) range plain)
  ]
]

-- A run that prints something before it goes on.
>>=-printed :
    (m : Run (List ℕ)) (out : List ℕ)
    → ((all : List ℕ) × ((m >>= λ rest. ok (out ++ rest)) ≡ ok all))
      ↔ ((rest : List ℕ) × (m ≡ ok rest))
>>=-printed (ok rest) out = (λ h. (rest, refl), λ h. (out ++ rest, refl))
>>=-printed panic out = (λ h. cc, λ h. cc)
>>=-printed hang out = (λ h. cc, λ h. cc)
>>=-printed out_of_fuel out = (λ h. cc, λ h. cc)

abbrev pub Returns : Run (List ℕ) → Type 0
Returns m = (out : List ℕ) × (m ≡ ok out)

-- A round, and then the rest.
after_round :
    (fuel n : ℕ) (ts : List ArgumentType) (args : List Argument)
    (r : Run (List ℕ × List ℕ × List Argument))
    → Outcome n ts args r
    → ((format : List ℕ) (rest : List Argument)
        → InRange rest
        → length format ≤ n
        → Returns (vprintf fuel format rest) ↔ HaveTypes (wanted false format) rest)
    → Returns
        (r >>= λ (out, format, rest). vprintf fuel format rest >>= λ printed. ok (out ++ printed))
      ↔ HaveTypes ts args
after_round fuel n ts args (ok (out, format, rest)) o ih =
    let (there, back) = >>=-printed (vprintf fuel format rest) out in
    let (types, returns) = ih format rest o.2 o.0 in
    (λ h. o.1.1 (types (there h)), λ h. back (returns (o.1.0 h)))
after_round fuel n ts args panic o ih = (λ h. cc, λ h. absurd (o h))
after_round fuel n ts args hang o ih = absurd o
after_round fuel n ts args out_of_fuel o ih = absurd o

-- For arguments whose values lie in their types and a round for each character of the format,
-- vprintf returns exactly when the arguments begin with values of the types that the format's
-- conversions ask for, in order.
pub vprintf-HaveTypes :
    (fuel : ℕ) (format : List ℕ) (args : List Argument)
    → InRange args
    → length format ≤ fuel
    → Returns (vprintf fuel format args) ↔ HaveTypes (wanted false format) args
unfolding vprintf wanted
vprintf-HaveTypes fuel [] args range enough = (λ h. tt, λ h. ([], refl))
vprintf-HaveTypes zero (c ∷ format) args range enough = absurd (omega arith)
vprintf-HaveTypes (suc fuel) (c ∷ format) args range enough =
    after_round fuel (length format) (wanted (c == percent) format) args
      (vprintf_round c format args) (round-Outcome c format args range)
      λ rest left in_range short. vprintf-HaveTypes fuel rest left in_range (omega arith)
