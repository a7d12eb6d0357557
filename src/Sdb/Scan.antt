-- ===== src/Sdb/Scan.antt =====
-- The text functions of the C++ library that the debugger uses: words split by `>>`, `stoul` and
-- `stoi`, `sscanf` with "0x%lx" and `fscanf` with "%lu".
pub mod Ranges
use Prim.Native.Char.{code}
use advanced_programmin.Prelude.{
  ℕ, zero, suc, ◌+◌, ◌-◌, ◌*◌, ◌%◌, ◌^◌, String, Bool, true, false, ◌&&◌, ◌||◌, Option, none, some,
  List, [], ◌∷◌, ltb, leb, ◌==◌, if◌then◌else◌,
}
use advanced_programmin.Prelude.Int.{ℤ, pos, negsuc}

-- `isspace` in the C locale: blank, and tab to carriage return.
abbrev pub is_space : ℕ → Bool
is_space c = c == 32 || leb 9 c && leb c 13

abbrev pub word_first : String → List String → List String
word_first String.[] rest = rest
word_first w rest = w ∷ rest

-- `ss >> word` until it fails. `scan` returns what is left of the word at the head, and the words
-- behind it.
scan : String → String × List String
scan String.[] = (String.[], [])
scan (String.◌∷◌ c s) =
    let (w, rest) = scan s in
    if is_space (code c) then (String.[], word_first w rest) else (String.◌∷◌ c w, rest)

unfoldable pub words : String → List String
unfolding scan
words s = let (w, rest) = scan s in word_first w rest

abbrev pub digit_value : ℕ → ℕ → Option ℕ
digit_value base c =
    if leb b'0' c && leb c b'9' && ltb (c - b'0') base
    then some (c - b'0')
    else if base == 16 && leb b'a' c && leb c b'f'
    then some (c - b'a' + 10)
    else if base == 16 && leb b'A' c && leb c b'F'
    then some (c - b'A' + 10)
    else none

-- The digits at the head of the text, most significant first.
read_digits : ℕ → ℕ → String → ℕ
read_digits base acc String.[] = acc
read_digits base acc (String.◌∷◌ c s) = elim (digit_value base (code c)) [
  | none ↦ acc
  | some d ↦ read_digits base (acc * base + d) s
]

abbrev starts_number : ℕ → String → Bool
starts_number base String.[] = false
starts_number base (String.◌∷◌ c s) = elim (digit_value base (code c)) [
  | none ↦ false
  | some d ↦ true
]

-- A "0x" or "0X" before a hexadecimal digit is skipped.
after_prefix : ℕ → String → Option String
after_prefix base (String.◌∷◌ z (String.◌∷◌ x s)) =
    if base == 16 && code z == b'0' && (code x == b'x' || code x == b'X') && starts_number 16 s
    then some s
    else none
after_prefix base s = none

magnitude : ℕ → String → Option ℕ
unfolding read_digits after_prefix
magnitude base s = elim (after_prefix base s) [
  | some t ↦ some (read_digits base 0 t)
  | none ↦ if starts_number base s then some (read_digits base 0 s) else none
]

unfoldable pub skip_spaces : String → String
skip_spaces String.[] = String.[]
skip_spaces (String.◌∷◌ c s) =
    let rest = skip_spaces s in if is_space (code c) then rest else String.◌∷◌ c s

-- `strtoul` and `strtol` before the range is looked at: blanks, a sign, a magnitude. Whether the
-- sign was a minus, and the magnitude; `none` where there is no number.
signed : ℕ → String → Option (Bool × ℕ)
unfolding magnitude
signed base String.[] = none
signed base (String.◌∷◌ c s) =
    if code c == b'-'
    then elim (magnitude base s) [ none ↦ none | some n ↦ some (true, n) ]
    else if code c == b'+'
    then elim (magnitude base s) [ none ↦ none | some n ↦ some (false, n) ]
    else elim (magnitude base (String.◌∷◌ c s)) [ none ↦ none | some n ↦ some (false, n) ]

-- The value of an unsigned conversion: a negative number wraps.
abbrev pub unsigned : Bool × ℕ → ℕ
unsigned (true, n) = (2 ^ 64 - n % 2 ^ 64) % 2 ^ 64
unsigned (false, n) = n % 2 ^ 64

-- `std::stoul` and `std::stoi`: a number, or an exception.
pub data Converted (A : Type 0) : Type 0 where
  value : A → Converted A
  invalid_argument : Converted A
  out_of_range : Converted A

abbrev to_unsigned : Option (Bool × ℕ) → Converted ℕ
to_unsigned none = invalid_argument
to_unsigned (some (neg, n)) = if ltb n (2 ^ 64) then value (unsigned (neg, n)) else out_of_range

-- `stoul(s, nullptr, 16)`
unfoldable pub stoul16 : String → Converted ℕ
unfolding signed skip_spaces
stoul16 s = to_unsigned (signed 16 (skip_spaces s))

abbrev to_signed : Option (Bool × ℕ) → Converted ℤ
to_signed none = invalid_argument
to_signed (some (true, zero)) = value (pos 0)
to_signed (some (true, suc n)) = if ltb n (2 ^ 31) then value (negsuc n) else out_of_range
to_signed (some (false, n)) = if ltb n (2 ^ 31) then value (pos n) else out_of_range

-- `stoi(s)`
unfoldable pub stoi : String → Converted ℤ
unfolding signed skip_spaces
stoi s = to_signed (signed 10 (skip_spaces s))

-- What "%lx" and "%lu" store: beyond the range it is the greatest `unsigned long`.
abbrev stored : Option (Bool × ℕ) → Option ℕ
stored none = none
stored (some (neg, n)) = if ltb n (2 ^ 64) then some (unsigned (neg, n)) else some (2 ^ 64 - 1)

-- `sscanf(s, "0x%lx", &x)`: `none` where nothing is stored.
unfoldable pub sscanf_0x : String → Option ℕ
unfolding signed skip_spaces
sscanf_0x (String.◌∷◌ z (String.◌∷◌ x s)) =
    if code z == b'0' && code x == b'x' then stored (signed 16 (skip_spaces s)) else none
sscanf_0x s = none

-- `fscanf(f, "%lu", &x)` at a word.
unfoldable pub scan_lu : String → Option ℕ
unfolding signed skip_spaces
scan_lu s = stored (signed 10 (skip_spaces s))
