-- ===== src/Lsof/Process/Order.antt =====
-- HW1/hw1.cpp, `traverse_proc`: the order of a process's rows.
use advanced_programmin.Prelude.{
  ◌≡◌, ◌∙◌, ap, String, Bool, Option, none, some, List, [], ◌∷◌, ◌++◌, inl, inr, Bool-cases,
  Option-cases,
}
use advanced_programmin.Lsof.{System}
use advanced_programmin.Lsof.File.{FileInfo, getfileinfo}
use advanced_programmin.Prelude.Strings.{append}
use advanced_programmin.Lsof.Process.{
  add_info, fd_row, fd_entry, fd_rows, fd_dir, traverse_fd, parse_maps, all_infos, is_dots,
}
use advanced_programmin.Lsof.Process.Maps.{parse_lines_lem, append_assoc}

-- Rows that were there, and more behind them.
abbrev pub Extends : List FileInfo → Option (List FileInfo) → Type 0
Extends infos none = Unit
Extends infos (some out) = (added : List FileInfo) × (out ≡ infos ++ added)

module _ (sys : System) where
  add_info-Extends :
      (o : Option FileInfo) (infos mid : List FileInfo)
      → Extends infos (some mid)
      → Extends infos (add_info sys o mid)
  add_info-Extends none infos mid h = tt
  add_info-Extends (some info) infos mid (added, e) =
      (added ++ (info ∷ []), ap (λ l. l ++ (info ∷ [])) e ∙ append_assoc infos added (info ∷ []))

  fd_row-Extends :
      (dir name : String) (letter : Option String) (infos mid : List FileInfo)
      → Extends infos (some mid)
      → Extends infos (fd_row sys dir name letter mid)
  fd_row-Extends dir name none infos mid h = h
  fd_row-Extends dir name (some letter) infos mid h = add_info-Extends _ infos mid h

  fd_entry-Extends :
      (dir name : String) (infos mid : List FileInfo)
      → Extends infos (some mid)
      → Extends infos (fd_entry sys dir name mid)
  fd_entry-Extends dir name infos mid h = elim (Bool-cases (is_dots name)) [
    | inl e ↦ rw e h
    | inr e ↦ rw e (fd_row-Extends dir name _ infos mid h)
  ]

  fd_rows-Extends :
      (dir : String) (entries : List (String × Bool)) (o : Option (List FileInfo))
      (infos : List FileInfo)
      → Extends infos o
      → Extends infos (fd_rows sys dir entries o)
  unfolding fd_rows
  fd_rows-Extends dir [] none infos h = tt
  fd_rows-Extends dir (entry ∷ entries) none infos h = tt
  fd_rows-Extends dir [] (some mid) infos h = h
  fd_rows-Extends dir (entry ∷ entries) (some mid) infos h =
      fd_rows-Extends dir entries (fd_entry sys dir entry.0 mid) infos
        (fd_entry-Extends dir entry.0 infos mid h)

  fd_dir-Extends :
      (dir : String) (o : Option (List (String × Bool))) (infos mid : List FileInfo)
      → Extends infos (some mid)
      → Extends infos (fd_dir sys dir o mid)
  fd_dir-Extends dir none infos mid h = add_info-Extends _ infos mid h
  fd_dir-Extends dir (some []) infos mid h = add_info-Extends _ infos mid h
  fd_dir-Extends dir (some (e ∷ es)) infos mid h = fd_rows-Extends dir (e ∷ es) (some mid) infos h

  traverse_fd-Extends :
      (pid : String) (infos mid : List FileInfo)
      → Extends infos (some mid)
      → Extends infos (traverse_fd sys pid mid)
  unfolding traverse_fd
  traverse_fd-Extends pid infos mid h = fd_dir-Extends _ _ infos mid h

  parse_maps-Extends :
      (pid : String) (infos : List FileInfo) → Extends infos (some (parse_maps sys pid infos))
  unfolding parse_maps
  parse_maps-Extends pid infos = let (added, e, new, all) = parse_lines_lem infos _ in (added, e)

  -- What the rows of a process are: there are none, or they begin with those of its working
  -- directory, its root and its program, in this order.
  abbrev pub Ordered : String → Option (List FileInfo) → Type 0
  Ordered pid none = Unit
  Ordered pid (some infos) =
      (cwd rtd txt : FileInfo) × (rest : List FileInfo) × (infos ≡ cwd ∷ rtd ∷ txt ∷ rest)
      × (getfileinfo sys "cwd" (append (append "/proc/" pid) "/cwd") ≡ some cwd)
      × (getfileinfo sys "rtd" (append (append "/proc/" pid) "/root") ≡ some rtd)
      × (getfileinfo sys "txt" (append (append "/proc/" pid) "/exe") ≡ some txt)

  Extends-Ordered :
      (pid : String) (cwd rtd txt : FileInfo) (o : Option (List FileInfo))
      → getfileinfo sys "cwd" (append (append "/proc/" pid) "/cwd") ≡ some cwd
      → getfileinfo sys "rtd" (append (append "/proc/" pid) "/root") ≡ some rtd
      → getfileinfo sys "txt" (append (append "/proc/" pid) "/exe") ≡ some txt
      → Extends (cwd ∷ rtd ∷ txt ∷ []) o
      → Ordered pid o
  Extends-Ordered pid cwd rtd txt none c r t h = tt
  Extends-Ordered pid cwd rtd txt (some infos) c r t (rest, e) = (cwd, rtd, txt, rest, e, c, r, t)

  -- The rows of a process begin with those of its working directory, its root and its program, in
  -- this order, as `getfileinfo` gives them; the mappings and the descriptors only add rows behind.
  pub all_infos-Ordered : (pid : String) → Ordered pid (all_infos sys pid)
  unfolding all_infos
  all_infos-Ordered pid =
      let dir = append "/proc/" pid in
      elim (Option-cases (getfileinfo sys "cwd" (append dir "/cwd"))) [
        | inl c ↦ rw c tt
        | inr (cwd, c) ↦ elim (Option-cases (getfileinfo sys "rtd" (append dir "/root"))) [
          | inl r ↦ rw (c, r) tt
          | inr (rtd, r) ↦ elim (Option-cases (getfileinfo sys "txt" (append dir "/exe"))) [
            | inl t ↦ rw (c, r, t) tt
            | inr (txt, t) ↦
                rw (c, r, t)
                  (Extends-Ordered pid cwd rtd txt _ c r t (
                    traverse_fd-Extends pid (cwd ∷ rtd ∷ txt ∷ []) _
                      (parse_maps-Extends pid (cwd ∷ rtd ∷ txt ∷ []))))
          ]
        ]
      ]
