-- ===== src/Lsof/File/Types.antt =====
-- HW1/file_info.cpp, `gettype`, against the kernel's numbers of the file types, and against the
-- types that HW1/filter.cpp knows.
use advanced_programmin.Prelude.{
  ◌∙◌, ap, ◌+◌, ◌*◌, ℕ, ◌<◌, ◌≡◌, refl, arith, String, Bool, true, false, [], ◌∷◌, ◌++◌,
  if◌then◌else◌, Option, none, some, ◌==◌,
}
use advanced_programmin.Lsof.{Stat, System}
use advanced_programmin.Lsof.File.{mode_type, gettype, format_of}
use advanced_programmin.Lsof.Filter.{find, valid_types}

-- What a file is; `untyped` is an inode without a file type, as those of `anon_inode` are.
pub data Format : Type 0 where
  fifo character directory block regular link socket untyped : Format

-- The four highest digits of a mode, by the table of inode(7).
abbrev pub format_number : Format → ℕ
format_number fifo = 1
format_number character = 2
format_number directory = 4
format_number block = 6
format_number regular = 8
format_number link = 10
format_number socket = 12
format_number untyped = 0

abbrev pub format_name : Format → ℕ → String
format_name fifo permissions = "FIFO"
format_name character permissions = "CHR"
format_name directory permissions = "DIR"
format_name block permissions = "unknown"
format_name regular permissions = "REG"
format_name link permissions = "unknown"
format_name socket permissions = "SOCK"
format_name untyped permissions = if permissions == 384 then "a_inode" else "unknown"

abbrev pub IsType : String → Type 0
IsType s = find (valid_types ++ ("a_inode" ∷ [])) s ≡ true

format_of-small :
    (f permissions : ℕ) → permissions < 4096 → f < 16 → format_of (f * 4096 + permissions) ≡ f
format_of-small f permissions lt small = omega arith

mode_type_lem :
    (f : Format) (permissions : ℕ)
    → permissions < 4096
    → mode_type (format_number f * 4096 + permissions) ≡ format_name f permissions
unfolding mode_type
mode_type_lem fifo permissions lt = rw (format_of-small 1 permissions lt (omega arith)) refl
mode_type_lem character permissions lt = rw (format_of-small 2 permissions lt (omega arith)) refl
mode_type_lem directory permissions lt = rw (format_of-small 4 permissions lt (omega arith)) refl
mode_type_lem block permissions lt =
    let other : (6 * 4096 + permissions == 384) ≡ false = ground arith in
    rw (format_of-small 6 permissions lt (omega arith), other) refl
mode_type_lem regular permissions lt = rw (format_of-small 8 permissions lt (omega arith)) refl
mode_type_lem link permissions lt =
    let other : (10 * 4096 + permissions == 384) ≡ false = ground arith in
    rw (format_of-small 10 permissions lt (omega arith), other) refl
mode_type_lem socket permissions lt = rw (format_of-small 12 permissions lt (omega arith)) refl
mode_type_lem untyped permissions lt =
    let same : (0 * 4096 + permissions == 384) ≡ (permissions == 384) =
      ap (λ n. n == 384) (omega arith) in
    rw (format_of-small 0 permissions lt (omega arith), same) refl

IsType-anon : (b : Bool) → IsType (if b then "a_inode" else "unknown")
unfolding find
IsType-anon true = refl
IsType-anon false = refl

format_name-IsType : (f : Format) (permissions : ℕ) → IsType (format_name f permissions)
unfolding find
format_name-IsType fifo permissions = refl
format_name-IsType character permissions = refl
format_name-IsType directory permissions = refl
format_name-IsType block permissions = refl
format_name-IsType regular permissions = refl
format_name-IsType link permissions = refl
format_name-IsType socket permissions = refl
format_name-IsType untyped permissions = IsType-anon (permissions == 384)

-- what is to be shown of a path that stat does not find, or finds with a type and with the twelve
-- other digits of its mode
abbrev pub kind_of : Option (Format × ℕ) → String
kind_of none = "unknown"
kind_of (some (f, permissions)) = format_name f permissions

-- what stat gives for it
abbrev pub Describes : Option (Format × ℕ) → Option Stat → Type 0
Describes none o = o ≡ none
Describes (some (f, permissions)) o =
    (permissions < 4096)
    × ((s : Stat) × (o ≡ some s) × (s.mode ≡ format_number f * 4096 + permissions))

-- The type that is shown of a path is "unknown" where stat fails; where stat has one of the seven
-- types of files, it is the name of the type for a directory, a regular file, a character device, a
-- pipe and a socket, and "unknown" for the other two; an inode without a type is "a_inode" with the
-- permissions 0600, and else "unknown". In all cases it is one of the six that the option -t
-- accepts, or "a_inode".
pub gettype_lem :
    (sys : System) (path : String) (file : Option (Format × ℕ))
    → Describes file (sys.stat path)
    → (gettype sys path ≡ kind_of file) × IsType (gettype sys path)
unfolding gettype find
gettype_lem sys path none h = rw h (refl, refl)
gettype_lem sys path (some (f, permissions)) (lt, (s, found, shape)) =
    let named : mode_type s.mode ≡ format_name f permissions =
      ap mode_type shape ∙ mode_type_lem f permissions lt in
    rw found (rw named (refl, format_name-IsType f permissions))
