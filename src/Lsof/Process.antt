-- ===== src/Lsof/Process.antt =====
-- HW1/hw1.cpp and HW1/proc_info.cpp: the rows of a process, and of all processes.
pub mod Maps
pub mod Rows
pub mod Complete
pub mod Order
use advanced_programmin.Prelude.{
  ℕ, zero, suc, ◌/◌, ◌%◌, String, Bool, true, false, ◌&&◌, ◌||◌, Option, none, some, List, [], ◌∷◌,
  ◌++◌, map, ◌==◌, leb, str_eq, if◌then◌else◌,
}
use advanced_programmin.Prelude.Strings.{append}
use advanced_programmin.Sdb.Scan.{words}
use advanced_programmin.Lsof.{Stat, System}
use advanced_programmin.Lsof.File.{FileInfo, fresh_info, getfileinfo}
use advanced_programmin.Lsof.Filter.{Filter, valid_param, valid_finfo}
use Prim.Native.Char.{code}

pub record ProcInfo : Type 0 where
  pub pid : String
  pub command : String
  pub username : String
  pub file_info : List FileInfo

unfoldable pub all_digits : String → Bool
all_digits String.[] = true
all_digits (String.◌∷◌ c s) = leb b'0' (code c) && leb (code c) b'9' && all_digits s

abbrev pub is_process : String × Bool → Bool
is_process (d_name, is_dir) = is_dir && all_digits d_name

-- the search of `parse_maps`: whether a row has the inode
unfoldable pub has_node : String → List FileInfo → Bool
has_node inode [] = false
has_node inode (info ∷ infos) = str_eq info.node inode || has_node inode infos

-- a word of a line, empty where it has fewer
abbrev pub nth_word : List String → ℕ → String
nth_word [] n = ""
nth_word (w ∷ ws) zero = w
nth_word (w ∷ ws) (suc n) = nth_word ws n

abbrev pub mapped : List String → FileInfo
mapped ws = record (fresh_info (if str_eq (nth_word ws 6) "" then "mem" else "DEL")) {
  name = nth_word ws 5;
  kind = "REG";
  node = nth_word ws 4;
}

-- a round of the loop of `parse_maps`
unfoldable pub map_line : List FileInfo → List String → List FileInfo
map_line infos ws =
    if str_eq (nth_word ws 4) "0" || has_node (nth_word ws 4) infos
    then infos
    else infos ++ (mapped ws ∷ [])

unfoldable pub parse_lines : List FileInfo → List String → List FileInfo
parse_lines infos [] = infos
parse_lines infos (line ∷ lines) = parse_lines (map_line infos (words line)) lines

-- the letter behind a descriptor, from the mode of its link
abbrev pub access : ℕ → Option String
access mode =
    if mode / 256 % 2 == 1 && mode / 128 % 2 == 1
    then some "u"
    else if mode / 256 % 2 == 1
    then some "r"
    else if mode / 128 % 2 == 1
    then some "w"
    else none

abbrev pub letter_of : Option Stat → Option String
letter_of none = none
letter_of (some s) = access s.mode

abbrev pub is_dots : String → Bool
is_dots name = str_eq name "." || str_eq name ".."

module _ (sys : System) where
  unfoldable pub parse_maps : String → List FileInfo → List FileInfo
  parse_maps pid infos = parse_lines infos (sys.lines (append "/proc/" (append pid "/maps")))

  abbrev pub add_info : Option FileInfo → List FileInfo → Option (List FileInfo)
  add_info none infos = none
  add_info (some info) infos = some (infos ++ (info ∷ []))

  -- the row of a descriptor, with its letter; without one there is none
  abbrev pub fd_row : String → String → Option String → List FileInfo → Option (List FileInfo)
  fd_row dir name none infos = some infos
  fd_row dir name (some letter) infos =
      add_info (getfileinfo sys (append name letter) (append dir (append "/" name))) infos

  abbrev pub fd_entry : String → String → List FileInfo → Option (List FileInfo)
  fd_entry dir name infos =
      if is_dots name
      then some infos
      else fd_row dir name (letter_of (sys.lstat (append dir (append "/" name)))) infos

  -- The loop over the descriptors; `none` is the result false.
  unfoldable pub fd_rows :
      String → List (String × Bool) → Option (List FileInfo) → Option (List FileInfo)
  fd_rows dir entries none = none
  fd_rows dir [] (some infos) = some infos
  fd_rows dir (entry ∷ entries) (some infos) = fd_rows dir entries (fd_entry dir entry.0 infos)

  -- a directory that cannot be opened, or has no entry, is one row
  abbrev pub fd_dir :
      String → Option (List (String × Bool)) → List FileInfo → Option (List FileInfo)
  fd_dir dir none infos = add_info (getfileinfo sys "NOFD" dir) infos
  fd_dir dir (some []) infos = add_info (getfileinfo sys "NOFD" dir) infos
  fd_dir dir (some (e ∷ es)) infos = fd_rows dir (e ∷ es) (some infos)

  unfoldable pub traverse_fd : String → List FileInfo → Option (List FileInfo)
  traverse_fd pid infos =
      let dir = append "/proc/" (append pid "/fd") in fd_dir dir (sys.opendir dir) infos

  -- The rows of cwd, rtd and txt, of the mappings and of the descriptors; `none` where
  -- `traverse_proc` gives the process up.
  abbrev pub and_then : {A B : Type 0} → Option A → (A → Option B) → Option B
  and_then none f = none
  and_then (some a) f = f a

  unfoldable pub all_infos : String → Option (List FileInfo)
  all_infos pid =
      let dir = append "/proc/" pid in
      and_then (getfileinfo sys "cwd" (append dir "/cwd")) (λ cwd.
        and_then (getfileinfo sys "rtd" (append dir "/root")) (λ rtd.
          and_then (getfileinfo sys "txt" (append dir "/exe"))
            (λ txt. traverse_fd pid (parse_maps pid (cwd ∷ rtd ∷ txt ∷ [])))))

  -- `dump_info`: the rows printed
  unfoldable pub dump_info : Filter → List FileInfo → List FileInfo
  dump_info filter [] = []
  dump_info filter (info ∷ infos) =
      let rest = dump_info filter infos in if valid_finfo sys filter info then info ∷ rest else rest

  abbrev pub username_of : Option Stat → String
  username_of none = ""
  username_of (some s) = sys.getpwuid s.uid

  abbrev pub word_or_empty : Option String → String
  word_or_empty none = ""
  word_or_empty (some w) = w

  -- `getprocinfo`; `none` is the null pointer
  unfoldable pub getprocinfo : String → Option ProcInfo
  getprocinfo pid =
      let dir = append "/proc/" pid in
      let command = word_or_empty (sys.first_word (append dir "/comm")) in
      let username = username_of (sys.stat dir) in
      if str_eq pid "" || str_eq command "" || str_eq username ""
      then none
      else some (record { pid = pid; command = command; username = username; file_info = [] })

  abbrev pub dumped : Filter → ProcInfo → Option (List FileInfo) → List (ProcInfo × FileInfo)
  dumped filter proc none = []
  dumped filter proc (some infos) =
      map (λ info. (record proc { file_info = infos }, info)) (dump_info filter infos)

  abbrev pub traverse_with : Filter → String → Option ProcInfo → List (ProcInfo × FileInfo)
  traverse_with filter pid none = []
  traverse_with filter pid (some proc) =
      if valid_param sys proc.command filter.command then dumped filter proc (all_infos pid) else []

  -- the lines that a process prints
  unfoldable pub traverse_proc : Filter → String → List (ProcInfo × FileInfo)
  traverse_proc filter pid = traverse_with filter pid (getprocinfo pid)

  -- the loop of `main` over the entries of /proc
  unfoldable pub listing : Filter → List (String × Bool) → List (ProcInfo × FileInfo)
  listing filter [] = []
  listing filter (entry ∷ entries) =
      let rest = listing filter entries in
      if is_process entry then traverse_proc filter entry.0 ++ rest else rest
