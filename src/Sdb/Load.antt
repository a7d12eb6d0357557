-- ===== src/Sdb/Load.antt =====
-- HW4/load.cpp and the command load of HW4/ins.cpp: the text section of an ELF file. The file is
-- its bytes; <elf.h> gives the offsets of the fields.
pub mod Section
pub mod Contents
pub mod Arguments
use advanced_programmin.Prelude.{
  ℕ, zero, suc, ◌+◌, ◌*◌, ◌-◌, String, Bool, true, false, ◌&&◌, Option, none, some, List, [], ◌∷◌,
  ◌%◌, length, get_elem?, take, drop, ltb, leb, ◌==◌, if◌then◌else◌,
}
use advanced_programmin.Sdb.Types.{State, loaded, rank, Argv, of_frame, Text}
use advanced_programmin.Sdb.Os.{Os}
use advanced_programmin.Sdb.Exec.{
  case_option, err, loaded_line, undefined, Exec, pure, stop, get_program, get_kernel, set_program,
  say, ◌>>=◌, ◌>>◌,
}
use advanced_programmin.Sdb.Breakpoints.{Status, success, failure, fail}

-- The little-endian number in the bytes.
abbrev pub number_of : List ℕ → ℕ
number_of [] = 0
number_of (b ∷ bs) = b + 256 * number_of bs

-- `n` bytes at an offset.
abbrev pub field : List ℕ → ℕ → ℕ → ℕ
field bytes offset n = number_of (take n (drop offset bytes))

abbrev header_size : ℕ
header_size = 64

-- `Elf64_Ehdr` and `Elf64_Shdr`
pub record Ehdr : Type 0 where
  pub e_type : ℕ
  pub e_shoff : ℕ
  pub e_shnum : ℕ
  pub e_shstrndx : ℕ

pub record Shdr : Type 0 where
  pub sh_name : ℕ
  pub sh_addr : ℕ
  pub sh_offset : ℕ
  pub sh_size : ℕ

abbrev pub ehdr : List ℕ → Ehdr
ehdr file = record {
  e_type = field file 16 2;
  e_shoff = field file 40 8;
  e_shnum = field file 60 2;
  e_shstrndx = field file 62 2;
}

abbrev pub shdr : List ℕ → Shdr
shdr bytes = record {
  sh_name = field bytes 0 4;
  sh_addr = field bytes 16 8;
  sh_offset = field bytes 24 8;
  sh_size = field bytes 32 8;
}

-- The section headers, one after the other.
abbrev pub shdrs : ℕ → List ℕ → List Shdr
shdrs zero bytes = []
shdrs (suc n) bytes = shdr bytes ∷ shdrs n (drop header_size bytes)

-- `strcmp(s, ".text") == 0`: the name and the zero behind it.
abbrev pub dot_text : List ℕ
dot_text = 46 ∷ 116 ∷ 101 ∷ 120 ∷ 116 ∷ 0 ∷ []

-- Whether the text at the head is `cs`, up to the first difference; `none` where the buffer ends
-- before it is known.
unfoldable pub strcmp_eq : List ℕ → List ℕ → Option Bool
strcmp_eq [] s = some true
strcmp_eq (c ∷ cs) [] = none
strcmp_eq (c ∷ cs) (d ∷ s) = let rest = strcmp_eq cs s in if c == d then rest else some false

pub data Search : Type 0 where
  found : Shdr → Search
  absent : Search
  overrun : Search

-- One round of the loop: the section, or what the rest of the loop finds.
abbrev pub picked : Option Bool → Shdr → Search → Search
picked none sh rest = overrun
picked (some true) sh rest = found sh
picked (some false) sh rest = rest

-- The loop over the sections: the first that is named ".text".
unfoldable pub find_text : List ℕ → List Shdr → Search
find_text strsec [] = absent
find_text strsec (sh ∷ shs) =
    let rest = find_text strsec shs in picked (strcmp_eq dot_text (drop sh.sh_name strsec)) sh rest

abbrev pub et_dyn : ℕ
et_dyn = 3

-- `size` bytes, where those that the file does not have are never written.
abbrev pub filled : ℕ → ℕ → List ℕ → List ℕ
filled zero unset bytes = []
filled (suc n) unset [] = unset ∷ filled n unset []
filled (suc n) unset (b ∷ bs) = b ∷ filled n unset bs

module _ (os : Os) where
  -- `lseek` and `read` into a variable; where the file is too short its value is not known
  abbrev pub read_at : List ℕ → ℕ → ℕ → Exec os.Kernel (List ℕ)
  read_at file offset n =
      if leb (offset + n) (length file) then pure (take n (drop offset file)) else stop undefined

  unfoldable pub take_text : List ℕ → Search → Exec os.Kernel Status
  take_text file absent = pure failure
  take_text file overrun = stop undefined
  take_text file (found sh) = do
    unset ← get_kernel os.indeterminate
    set_program (λ p. record p {
      text = record p.text {
        size = sh.sh_size;
        entry = sh.sh_addr;
        bytes = filled sh.sh_size (unset % 256) (drop sh.sh_offset file);
      };
    })
    pure success

  -- `parse_elf` with the file open
  unfoldable pub parse_bytes : List ℕ → Exec os.Kernel Status
  parse_bytes file = do
    first ← read_at file 0 header_size
    let header = ehdr first
    set_program (λ p. record p { dynamic = header.e_type == et_dyn })
    table ← read_at file header.e_shoff (header_size * header.e_shnum)
    case_option (get_elem? (shdrs header.e_shnum table) header.e_shstrndx) (stop undefined)
        (λ strtab. do
          strsec ← read_at file strtab.sh_offset strtab.sh_size
          take_text file (find_text strsec (shdrs header.e_shnum table)))

  unfoldable pub parse_elf : String → Exec os.Kernel Status
  parse_elf path = do
    opened ← get_kernel (os.open_file path)
    case_option opened (pure failure) parse_bytes

  unfoldable pub loaded_with : Status → Exec os.Kernel Unit
  loaded_with failure = say (err "** Load error ")
  loaded_with success = do
    set_program (λ p. record p { state = loaded })
    path ← get_program (λ p. p.path)
    entry ← get_program (λ p. p.text.entry)
    say (loaded_line path entry)

  unfoldable pub load_file : Exec os.Kernel Unit
  load_file = do path ← get_program (λ p. p.path); parsed ← parse_elf path; loaded_with parsed

  unfoldable pub load : Exec os.Kernel Unit
  load = do
    state ← get_program (λ p. p.state)
    if ltb (rank State.none) (rank state)
        then say (err "** Program had been loaded! ")
        else load_file

  -- `argv` gets an array of two null pointers in this frame: the copies of the arguments are not
  -- stored in it.
  unfoldable pub insload : List String → Exec os.Kernel Status
  insload (arg ∷ []) = do
    state ← get_program (λ p. p.state)
    if leb (rank loaded) (rank state) then fail os "** program is loaded.\n" else do
      set_program (λ p. record p { path = arg; argv = of_frame (none ∷ none ∷ []) })
      load
      pure success
  insload _ = fail os "** Instruction Error: load\n"
