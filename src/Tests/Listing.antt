-- ===== src/Tests/Listing.antt =====
-- HW1 on a small system.
use advanced_programmin.Lsof.Process.Complete.{listing_lem}
use advanced_programmin.Prelude.{
  none, inl, refl, arith, ◌≡◌, ◌⊎◌, ◌↔◌, String, true, false, some, List, [], ◌∷◌, All, str_eq,
  if◌then◌else◌,
}
use advanced_programmin.Lsof.Process.{
  ProcInfo, getprocinfo, all_digits, traverse_fd, fd_rows, parse_maps, map_line, has_node,
  all_infos, parse_lines, listing,
}
use advanced_programmin.Lsof.Process.Rows.{In, Listed, listing-Shown}
use advanced_programmin.Lsof.File.{
  getfileinfo, getname, named, getinode, shown, mode_type, behind, erase_sub_str, FileInfo,
  fresh_info, gettype,
}
use advanced_programmin.Lsof.Filter.{
  any_match, valid_finfo, Filter, opt_t, opt_c, no_filter, parse_filter, valid_param,
}
use advanced_programmin.Sdb.Scan.{words}
use advanced_programmin.Lsof.{Stat, target, System}
use advanced_programmin.Lsof.File.Types.{Format, IsType, gettype_lem}
use advanced_programmin.Lsof.Filter.Accepted.{
  TypedResult, Matched, parse_filter-Typed, valid_param_iff,
}
use advanced_programmin.Lsof.Process.Order.{Ordered, all_infos-Ordered}
use advanced_programmin.Lsof.Process.Maps.{Read, parse_lines_lem}

abbrev map_lines : List String
map_lines =
    "1000-2000 r-xp 0 08:01 9 /lib/b" ∷ "2000-3000 r--p 0 08:01 9 /lib/b"
    ∷ "3000-4000 rw-p 0 00:00 0" ∷ []

-- one process, 42, whose files are all one regular file
abbrev regular : Stat
regular = record { mode = 0x8180; ino = 7; uid = 0 }

abbrev system : System
system = record {
  stat = λ path. some regular;
  lstat = λ path. some regular;
  readlink =
      λ path. if str_eq path "/proc/42/cwd" then target "/tmp/a (deleted)" else target "/bin/a";
  getpwuid = λ uid. "root";
  first_word = λ path. some "a";
  lines = λ path. map_lines;
  opendir = λ path. some ((".", true) ∷ ("3", false) ∷ []);
  regex_search = λ value pattern. str_eq value pattern;
}

abbrev start : List FileInfo
start = record (fresh_info "cwd") { node = "7" } ∷ []

parse_lines_example : Read start map_lines (parse_lines start map_lines)
parse_lines_example = parse_lines_lem start map_lines

abbrev reg_filter : Filter
reg_filter = record no_filter { kind = "REG" ∷ [] }

abbrev row : FileInfo
row = record (fresh_info "3u") { kind = "REG"; name = "/bin/a" }

listing-Shown_example :
    All
      (Listed system reg_filter (("42", true) ∷ ("self", true) ∷ []))
      (listing system reg_filter (("42", true) ∷ ("self", true) ∷ []))
listing-Shown_example = listing-Shown system reg_filter (("42", true) ∷ ("self", true) ∷ [])

parse_filter-Typed_example : TypedResult (parse_filter (opt_t "REG" ∷ opt_c "a" ∷ []))
parse_filter-Typed_example = parse_filter-Typed (opt_t "REG" ∷ opt_c "a" ∷ [])

abbrev patterns : List String
patterns = "DIR" ∷ "REG" ∷ []

valid_param_iff_example :
    (valid_param system "REG" patterns ≡ true) ↔ ((patterns ≡ []) ⊎ Matched system "REG" patterns)
valid_param_iff_example = valid_param_iff system "REG" patterns

gettype_example : (gettype system "/proc/42/exe" ≡ "REG") × IsType (gettype system "/proc/42/exe")
gettype_example =
    gettype_lem system "/proc/42/exe" (some (Format.regular, 384))
      (omega arith, (regular, refl, refl))

all_infos-Ordered_example : Ordered system "42" (all_infos system "42")
all_infos-Ordered_example = all_infos-Ordered system "42"

abbrev proc : ProcInfo
proc = record { pid = "42"; command = "a"; username = "root"; file_info = [] }

abbrev rows : List FileInfo
rows = elim (all_infos system "42") [ none ↦ [] | some infos ↦ infos ]

abbrev cwd : FileInfo
cwd = elim rows [ [] ↦ fresh_info "" | info ∷ infos ↦ info ]

listing_example :
    In
      (record proc { file_info = rows }, cwd)
      (listing system reg_filter (("42", true) ∷ ("self", true) ∷ []))
unfolding getprocinfo all_infos getfileinfo all_digits valid_param any_match getname named
    traverse_fd fd_rows parse_maps parse_lines map_line words has_node getinode shown valid_finfo
    gettype mode_type behind erase_sub_str
listing_example =
    listing_lem system reg_filter (("42", true) ∷ ("self", true) ∷ []) ("42", true) proc rows cwd
      (inl refl) refl refl refl refl (inl refl, refl)
