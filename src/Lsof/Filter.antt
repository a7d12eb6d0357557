-- ===== src/Lsof/Filter.antt =====
-- HW1/filter.cpp: the options and the rows that they let through.
pub mod Accepted
use advanced_programmin.Prelude.{
  String, Bool, true, false, ◌&&◌, List, [], ◌∷◌, ◌++◌, str_eq, if◌then◌else◌,
}
use advanced_programmin.Lsof.{System}
use advanced_programmin.Lsof.File.{FileInfo}

pub record Filter : Type 0 where
  pub command : List String
  pub kind : List String  -- `type`
  pub filename : List String

-- What `getopt` with "c:t:f:" returns at each call.
pub data Opt : Type 0 where
  opt_c opt_t opt_f : String → Opt
  opt_error : Opt

pub data Parsed : Type 0 where
  parsed : Filter → Parsed
  invalid_type usage : Parsed

abbrev pub valid_types : List String
valid_types = "REG" ∷ "CHR" ∷ "DIR" ∷ "FIFO" ∷ "SOCK" ∷ "unknown" ∷ []

unfoldable pub find : List String → String → Bool
find [] s = false
find (x ∷ xs) s = let rest = find xs s in if str_eq x s then true else rest

-- The loop of `parse_filter`, with the filter so far.
unfoldable pub parse_opts : Filter → List Opt → Parsed
parse_opts filter [] = parsed filter
parse_opts filter (opt_c arg ∷ opts) =
    parse_opts (record filter { command = filter.command ++ (arg ∷ []) }) opts
parse_opts filter (opt_t arg ∷ opts) =
    let rest = parse_opts (record filter { kind = filter.kind ++ (arg ∷ []) }) opts in
    if find valid_types arg then rest else invalid_type
parse_opts filter (opt_f arg ∷ opts) =
    parse_opts (record filter { filename = filter.filename ++ (arg ∷ []) }) opts
parse_opts filter (opt_error ∷ opts) = usage

abbrev pub no_filter : Filter
no_filter = record { command = []; kind = []; filename = [] }

unfoldable pub parse_filter : List Opt → Parsed
parse_filter opts = parse_opts no_filter opts

-- `filter->size() == 0`
abbrev pub is_empty : List String → Bool
is_empty [] = true
is_empty (_ ∷ _) = false

module _ (sys : System) where
  -- the loop of `valid_param`
  unfoldable pub any_match : String → List String → Bool
  any_match value [] = false
  any_match value (p ∷ ps) =
      let rest = any_match value ps in if sys.regex_search value p then true else rest

  unfoldable pub valid_param : String → List String → Bool
  valid_param value filter = if any_match value filter then true else is_empty filter

  unfoldable pub valid_finfo : Filter → FileInfo → Bool
  valid_finfo filter info =
      valid_param info.kind filter.kind && valid_param info.name filter.filename
