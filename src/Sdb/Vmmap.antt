-- ===== src/Sdb/Vmmap.antt =====
-- HW4/ins.cpp: the command vmmap, which reads /proc/PID/maps with `fscanf` and `fgets`. The text
-- of the file is the stream; lines are taken to fit the 4097 bytes of the buffers.
pub mod Fuel
use Prim.Native.Char.{code}
use advanced_programmin.Prelude.{
  ℕ, zero, suc, ◌+◌, ◌*◌, ◌%◌, ◌^◌, String, Option, none, some, List, [], ◌∷◌, ◌==◌, if◌then◌else◌,
}
use advanced_programmin.Prelude.Strings.{append, chars}
use advanced_programmin.Sdb.Os.{Os}
use advanced_programmin.Sdb.Exec.{
  case_option, err, map_line, undefined, Exec, pure, stop, get_program, get_kernel, say, ◌>>=◌,
  ◌>>◌,
}
use advanced_programmin.Sdb.Scan.{is_space, digit_value, skip_spaces}
use advanced_programmin.Sdb.Breakpoints.{Status, success, fail, is_running}

-- The hexadecimal digits at the head, and what is behind them.
unfoldable pub hex_run : ℕ → String → ℕ × String
hex_run acc String.[] = (acc, String.[])
hex_run acc (String.◌∷◌ c s) = elim (digit_value 16 (code c)) [
  | none ↦ (acc, String.◌∷◌ c s)
  | some d ↦ hex_run (acc * 16 + d) s
]

abbrev hex_at : String → Option (ℕ × String)
hex_at String.[] = none
hex_at (String.◌∷◌ c s) = elim (digit_value 16 (code c)) [
  | none ↦ none
  | some d ↦ some (hex_run d s)
]

-- "%llx". The numbers of the file fit 64 bits, and have no sign and no prefix.
unfoldable pub scan_hex : String → Option (ℕ × String)
unfolding hex_run skip_spaces
scan_hex s = hex_at (skip_spaces s)

-- The word at the head, up to a blank, and what is behind it.
unfoldable pub word_run : String → String × String
word_run String.[] = (String.[], String.[])
word_run (String.◌∷◌ c s) =
    let (w, rest) = word_run s in
    if is_space (code c) then (String.[], String.◌∷◌ c s) else (String.◌∷◌ c w, rest)

abbrev word_at : String → Option (String × String)
word_at String.[] = none
word_at (String.◌∷◌ c s) = some (word_run (String.◌∷◌ c s))

-- "%s": blanks are skipped, those at a line's end too.
unfoldable pub scan_word : String → Option (String × String)
unfolding word_run skip_spaces
scan_word s = word_at (skip_spaces s)

-- The character '-' of the format.
abbrev dash_at : String → Option String
dash_at String.[] = none
dash_at (String.◌∷◌ c s) = if code c == b'-' then some s else none

-- `fgets`: the rest of the line, less its '\n'.
unfoldable pub line_run : String → String × String
line_run String.[] = (String.[], String.[])
line_run (String.◌∷◌ c s) =
    let (l, rest) = line_run s in if code c == 10 then (String.[], s) else (String.◌∷◌ c l, rest)

-- The variables of the loop; `filename` is `none` until it is written.
pub record Row : Type 0 where
  pub addr : ℕ
  pub endaddr : ℕ
  pub premission : String
  pub offset : ℕ
  pub device : String
  pub inode : ℕ
  pub filename : Option String

-- The conversions behind the first, each made only if the one before it was.
scan_inode : Row → String → Row × String
scan_inode row s = elim (scan_hex s) [
  | none ↦ (row, s)
  | some (n, rest) ↦ (record row { inode = n }, rest)
]

scan_device : Row → String → Row × String
scan_device row s = elim (scan_word s) [
  | none ↦ (row, s)
  | some (w, rest) ↦ scan_inode (record row { device = w }) rest
]

scan_offset : Row → String → Row × String
scan_offset row s = elim (scan_hex s) [
  | none ↦ (row, s)
  | some (n, rest) ↦ scan_device (record row { offset = n }) rest
]

scan_premission : Row → String → Row × String
scan_premission row s = elim (scan_word s) [
  | none ↦ (row, s)
  | some (w, rest) ↦ scan_offset (record row { premission = w }) rest
]

scan_endaddr : Row → String → Row × String
scan_endaddr row s = elim (dash_at s) [
  | none ↦ (row, s)
  | some t ↦ elim (scan_hex t) [
    | none ↦ (row, t)
    | some (n, rest) ↦ scan_premission (record row { endaddr = n }) rest
  ]
]

-- The first `fscanf` of a round: `none` where it returns 0 or EOF, and the loop ends.
unfoldable pub scan_row : Row → String → Option (Row × String)
unfolding scan_endaddr scan_premission scan_offset scan_device scan_inode
scan_row row s = elim (scan_hex s) [
  | none ↦ none
  | some (n, rest) ↦ some (scan_endaddr (record row { addr = n }) rest)
]

-- The second `fscanf` and the `fgets`: a word, from the next line if this one has no more, and
-- then the rest of its line.
unfoldable pub scan_filename : Row → String → Row × String
unfolding line_run
scan_filename row s = elim (scan_word s) [
  | none ↦ (row, String.[])
  | some (w, rest) ↦
      let (l, below) = line_run rest in (record row { filename = some (append w l) }, below)
]

abbrev pub first_three : String → String
first_three (String.◌∷◌ a (String.◌∷◌ b (String.◌∷◌ c s))) =
    String.◌∷◌ a (String.◌∷◌ b (String.◌∷◌ c String.[]))
first_three s = s

-- Variables that the first conversions leave unwritten are taken as 0.
abbrev unset_row : Row
unset_row = record {
  addr = 0;
  endaddr = 0;
  premission = "";
  offset = 0;
  device = "";
  inode = 0;
  filename = none;
}

module _ (os : Os) where
  -- One round for each unit of fuel; a round takes a character at least.
  unfoldable pub print_maps : ℕ → Row → String → Exec os.Kernel Unit
  print_maps zero row s = pure tt
  print_maps (suc fuel) row s = case_option (scan_row row s) (pure tt) (λ scanned.
      let (full, below) = scan_filename scanned.0 scanned.1 in
      case_option full.filename (stop undefined) (λ name. do
        say (map_line full.addr full.endaddr (first_three full.premission) full.offset name)
        print_maps fuel full below))

  unfoldable pub insvmmap : List String → Exec os.Kernel Status
  insvmmap [] = do
    state ← get_program (λ p. p.state)
    if is_running state
        then (do
          pid ← get_program (λ p. p.pid)
          maps ← get_kernel (os.proc_maps pid)
          case_option maps (fail os "** fopen error: ")
              (λ content. print_maps (suc (chars content)) unset_row content >> pure success))
        else fail os "** program is NOT running.\n"
  insvmmap (_ ∷ _) = fail os "** Instruction Error: vmmap\n"
