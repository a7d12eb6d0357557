-- ===== src/Mini/Text.antt =====
-- HW3/libmini.c: the functions on memory and text, and `perror`. A pointer is the bytes of its
-- object from there on; a step past the object's end is a fault, `none`.
pub mod Messages
use advanced_programmin.Prelude.{
  false, ℕ, zero, suc, ◌+◌, ◌%◌, String, Bool, Option, none, some, List, [], ◌∷◌, length, get_elem?,
  ◌==◌, leb, if◌then◌else◌,
}
use Prim.Native.Char.{code}
use advanced_programmin.Prelude.Int.{ℤ, pos, negsuc, bits}
use advanced_programmin.Mini.{System, World}
use advanced_programmin.Mini.Calls.{write}

-- The loop of `memset`, with the rounds that are left.
unfoldable pub fill : ℕ → ℕ → List ℕ → Option (List ℕ)
fill val zero object = some object
fill val (suc n) [] = none
fill val (suc n) (b ∷ object) = elim (fill val n object) [
  | none ↦ none
  | some rest ↦ some (val ∷ rest)
]

-- `while (size--)`: a negative size does not come to 0 before the object's end.
unfoldable pub memset : List ℕ → ℤ → ℤ → Option (List ℕ)
memset object val (pos n) = fill (bits 8 val) n object
memset object val (negsuc n) = none

-- `while (size-- > 0)`
unfoldable pub bzero : List ℕ → ℤ → Option (List ℕ)
bzero object (pos n) = fill 0 n object
bzero object (negsuc n) = some object

unfoldable pub strlen : List ℕ → Option ℕ
strlen [] = none
strlen (b ∷ s) =
    let rest = strlen s in
    if b == 0 then some 0 else elim rest [ none ↦ none | some n ↦ some (suc n) ]

-- The bytes of a literal, with the zero at its end.
abbrev pub literal : String → List ℕ
literal String.[] = 0 ∷ []
literal (String.◌∷◌ c s) = code c ∷ literal s

abbrev pub errmsg : List String
errmsg =
    "Success" ∷ "Operation not permitted" ∷ "No such file or directory" ∷ "No such process"
    ∷ "Interrupted system call" ∷ "I/O error" ∷ "No such device or address"
    ∷ "Argument list too long" ∷ "Exec format error" ∷ "Bad file number" ∷ "No child processes"
    ∷ "Try again" ∷ "Out of memory" ∷ "Permission denied" ∷ "Bad address" ∷ "Block device required"
    ∷ "Device or resource busy" ∷ "File exists" ∷ "Cross-device link" ∷ "No such device"
    ∷ "Not a directory" ∷ "Is a directory" ∷ "Invalid argument" ∷ "File table overflow"
    ∷ "Too many open files" ∷ "Not a typewriter" ∷ "Text file busy" ∷ "File too large"
    ∷ "No space left on device" ∷ "Illegal seek" ∷ "Read-only file system" ∷ "Too many links"
    ∷ "Broken pipe" ∷ "Math argument out of domain of func" ∷ "Math result not representable" ∷ []

-- `errmsg[i]`, where a number outside the table is no index
abbrev pub message : ℤ → Option String
message (pos i) = get_elem? errmsg i
message (negsuc i) = none

-- `errno < PERRMSG_MIN || errno > PERRMSG_MAX`, negated
abbrev pub in_table : ℤ → Bool
in_table (pos i) = leb i 34
in_table (negsuc i) = false

module _ (sys : System) where
  -- `write(2, s, strlen(s))`, its result thrown away
  unfoldable pub put : List ℕ → World sys.Kernel → Option (World sys.Kernel)
  put s w = elim (strlen s) [ none ↦ none | some n ↦ some (write sys (pos 2) s (pos n) w).1 ]

  infixl 5 ◌>=>◌
  -- one step after another, up to a fault
  abbrev pub ◌>=>◌ :
      Option (World sys.Kernel)
      → (World sys.Kernel → Option (World sys.Kernel))
      → Option (World sys.Kernel)
  none >=> f = none
  some w >=> f = f w

  unfoldable pub put_prefix : Option (List ℕ) → World sys.Kernel → Option (World sys.Kernel)
  put_prefix none w = some w
  put_prefix (some prefix) w = put prefix w >=> put (literal ": ")

  -- `errno` is tested as the writes before have left it; the message is that of its first value.
  unfoldable pub put_message : ℤ → World sys.Kernel → Option (World sys.Kernel)
  put_message backup w =
      if in_table w.errno
      then elim (message backup) [ none ↦ none | some text ↦ put (literal text) w ]
      else put (literal "Unknown") w

  -- A prefix is a text, or the null pointer.
  unfoldable pub perror : Option (List ℕ) → World sys.Kernel → Option (World sys.Kernel)
  perror prefix w = put_prefix prefix w >=> put_message w.errno >=> put (literal "\n")
