-- ===== src/Lsof/File.antt =====
-- HW1/file_info.cpp: what is shown of a file.
pub mod Types
use advanced_programmin.Prelude.{
  ℕ, zero, suc, ◌/◌, ◌%◌, String, Option, none, some, [], ◌∷◌, get_or, ◌==◌, str_eq, if◌then◌else◌,
}
use advanced_programmin.Prelude.Strings.{append}
use advanced_programmin.Lsof.{Stat, Link, target, eacces, enoent, other_error, System}
use Prim.Native.Char.{code}

pub record FileInfo : Type 0 where
  pub path : String
  pub error : String
  pub name : String
  pub fd : String
  pub kind : String  -- `type`
  pub node : String

-- What is behind `t` in a text that starts with it.
unfoldable pub behind : String → String → Option String
behind String.[] s = some s
behind (String.◌∷◌ a t) String.[] = none
behind (String.◌∷◌ a t) (String.◌∷◌ b s) =
    let rest = behind t s in if code a == code b then rest else none

abbrev pub or_keep : Option String → String → String
or_keep none kept = kept
or_keep (some s) kept = s

-- `mainStr.find` and `mainStr.erase`: the first occurrence goes.
unfoldable pub erase_sub_str : String → String → String
unfolding behind
erase_sub_str String.[] t = or_keep (behind t String.[]) String.[]
erase_sub_str (String.◌∷◌ c s) t =
    or_keep (behind t (String.◌∷◌ c s)) (String.◌∷◌ c (erase_sub_str s t))

abbrev pub digit : ℕ → String
digit d = get_or ("0" ∷ "1" ∷ "2" ∷ "3" ∷ "4" ∷ "5" ∷ "6" ∷ "7" ∷ "8" ∷ "9" ∷ []) d ""

abbrev pub shown_by : ℕ → ℕ → String → String
shown_by zero n acc = acc
shown_by (suc fuel) n acc =
    let rest = shown_by fuel (n / 10) (append (digit (n % 10)) acc) in
    if n / 10 == 0 then append (digit (n % 10)) acc else rest

-- Decimal digits, as `<<` prints an `ino_t`: twenty are enough for 64 bits.
unfoldable pub shown : ℕ → String
shown n = shown_by 20 n ""

abbrev pub fresh_info : String → FileInfo
fresh_info fd = record { path = ""; error = ""; name = ""; fd = fd; kind = ""; node = "" }

-- the format of an `st_mode`
abbrev pub format_of : ℕ → ℕ
format_of mode = mode / 4096 % 16

unfoldable pub mode_type : ℕ → String
mode_type mode =
    if format_of mode == 4
    then "DIR"
    else if format_of mode == 8
    then "REG"
    else if format_of mode == 2
    then "CHR"
    else if format_of mode == 1
    then "FIFO"
    else if format_of mode == 12
    then "SOCK"
    else if mode == 384
    then "a_inode"
    else "unknown"

abbrev pub type_of : Option Stat → String
type_of none = "unknown"
type_of (some s) = mode_type s.mode

-- The inode 2 ^ 64 - 1 is the error's -1.
abbrev pub node_of : Option Stat → String
node_of none = ""
node_of (some s) = if s.ino == 0xffff_ffff_ffff_ffff then "" else shown s.ino

-- A name after `readlink`; `none` is the result false.
unfoldable pub named : Link → Option Stat → FileInfo → Option FileInfo
named (target name) found info = some (record info { name = erase_sub_str name "(deleted)" })
named eacces found info = some (record info { error = " (Permission denied)" })
named enoent (some s) info = some info
named enoent none info = none
named other_error found info = none

module _ (sys : System) where
  unfoldable pub getname : String → FileInfo → Option FileInfo
  getname path info =
      named (sys.readlink path) (sys.lstat path)
        (record info { path = path; name = erase_sub_str path "(deleted)" })

  unfoldable pub gettype : String → String
  gettype path = type_of (sys.stat path)

  unfoldable pub getinode : String → String
  getinode path = node_of (sys.stat path)

  abbrev pub with_stat : Option FileInfo → Option FileInfo
  with_stat none = none
  with_stat (some info) = some (record info { kind = gettype info.path; node = getinode info.path })

  -- `none` is the null pointer
  unfoldable pub getfileinfo : String → String → Option FileInfo
  getfileinfo fd path =
      if str_eq fd "NOFD"
      then some (record (fresh_info fd) {
        name = erase_sub_str path "(deleted)";
        error = " (Permission denied)";
      })
      else with_stat (getname path (fresh_info fd))
