-- ===== src/Lsof/Process/Rows.antt =====
-- HW1/hw1.cpp: the lines printed, against the filters.
use advanced_programmin.Prelude.{
  ◌≡◌, ◌⊎◌, refl, ap, true, some, none, List, [], ◌∷◌, ◌++◌, All, map, inl, inr, Bool, Bool-cases,
  sym, ◌∙◌, arith, String, Option,
}
use advanced_programmin.Lsof.{System}
use advanced_programmin.Lsof.File.{FileInfo}
use advanced_programmin.Lsof.Filter.{Filter, valid_param, valid_finfo}
use advanced_programmin.Lsof.Process.{
  ProcInfo, dump_info, all_infos, is_process, traverse_with, traverse_proc, dumped, listing,
  getprocinfo,
}

abbrev pub In : {A : Type 0} → A → List A → Type 0
In x [] = ⊥
In x (y ∷ ys) = (x ≡ y) ⊎ In x ys

All-append : {A : Type 0} (P : A → Type 0) (xs ys : List A) → All P xs → All P ys → All P (xs ++ ys)
All-append P [] ys h g = g
All-append P (x ∷ xs) ys h g = (h.0, All-append P xs ys h.1 g)

module _ (sys : System) (filter : Filter) where
  -- A row that passes, of a list.
  abbrev pub Passes : List FileInfo → FileInfo → Type 0
  Passes infos info = In info infos × (valid_finfo sys filter info ≡ true)

  Passes-later :
      (infos rows : List FileInfo) (info : FileInfo)
      → All (Passes infos) rows
      → All (Passes (info ∷ infos)) rows
  Passes-later infos [] info h = tt
  Passes-later infos (row ∷ rows) info h = ((inr h.0.0, h.0.1), Passes-later infos rows info h.1)

  dump_info-Passes : (infos : List FileInfo) → All (Passes infos) (dump_info sys filter infos)
  unfolding dump_info
  dump_info-Passes [] = tt
  dump_info-Passes (info ∷ infos) = elim (Bool-cases (valid_finfo sys filter info)) [
    | inl e ↦ rw e (
      (inl refl, e),
      Passes-later infos (dump_info sys filter infos) info (dump_info-Passes infos),
    )
    | inr e ↦ rw e (Passes-later infos (dump_info sys filter infos) info (dump_info-Passes infos))
  ]

  -- Every row of a process that passes the filter by its type and its name is printed.
  pub dump_info_lem :
      (infos : List FileInfo) (info : FileInfo)
      → Passes infos info
      → In info (dump_info sys filter infos)
  unfolding dump_info
  dump_info_lem [] info h = absurd h.0
  dump_info_lem (x ∷ xs) info (inl p, v) =
      let e : valid_finfo sys filter x ≡ true = ap (valid_finfo sys filter) (sym p) ∙ v in
      rw e (inl p)
  dump_info_lem (x ∷ xs) info (inr i, v) = elim (Bool-cases (valid_finfo sys filter x)) [
    | inl e ↦ rw e (inr (dump_info_lem xs info (i, v)))
    | inr e ↦ rw e (dump_info_lem xs info (i, v))
  ]

  -- What holds of a line of the process `pid`.
  pub record Shown (pid : String) (line : ProcInfo × FileInfo) : Type 0 where
    pub own : line.0.pid ≡ pid
    pub command : valid_param sys line.0.command filter.command ≡ true
    pub passes : Passes line.0.file_info line.1
    pub complete : all_infos sys pid ≡ some line.0.file_info

  map-Shown :
      (pid : String) (proc : ProcInfo) (rows : List FileInfo)
      → proc.pid ≡ pid
      → valid_param sys proc.command filter.command ≡ true
      → all_infos sys pid ≡ some proc.file_info
      → All (Passes proc.file_info) rows
      → All (Shown pid) (map (λ info. (proc, info)) rows)
  map-Shown pid proc [] own c a h = tt
  map-Shown pid proc (row ∷ rows) own c a h = (
    record { own = own; command = c; passes = h.0; complete = a },
    map-Shown pid proc rows own c a h.1,
  )

  dumped-Shown :
      (pid : String) (proc : ProcInfo) (o : Option (List FileInfo))
      → proc.pid ≡ pid
      → valid_param sys proc.command filter.command ≡ true
      → all_infos sys pid ≡ o
      → All (Shown pid) (dumped sys filter proc o)
  dumped-Shown pid proc none own c a = tt
  dumped-Shown pid proc (some infos) own c a =
      map-Shown pid (record proc { file_info = infos }) (dump_info sys filter infos) own c a
        (dump_info-Passes infos)

  traverse_with-Shown :
      (pid : String) (o : Option ProcInfo)
      → getprocinfo sys pid ≡ o
      → All (Shown pid) (traverse_with sys filter pid o)
  unfolding getprocinfo
  traverse_with-Shown pid none e = tt
  traverse_with-Shown pid (some proc) e =
      let own : proc.pid ≡ pid = ground (arith, e) in
      elim (Bool-cases (valid_param sys proc.command filter.command)) [
        | inl c ↦ rw c (dumped-Shown pid proc (all_infos sys pid) own c refl)
        | inr c ↦ rw c tt
      ]

  -- A line of one of the entries of /proc that are processes.
  pub record Listed (entries : List (String × Bool)) (line : ProcInfo × FileInfo) : Type 0 where
    pub entry : String × Bool
    pub found : In entry entries
    pub process : is_process entry ≡ true
    pub shown : Shown entry.0 line

  Listed-here :
      (entry : String × Bool) (entries : List (String × Bool)) (lines : List (ProcInfo × FileInfo))
      → is_process entry ≡ true
      → All (Shown entry.0) lines
      → All (Listed (entry ∷ entries)) lines
  Listed-here entry entries [] e h = tt
  Listed-here entry entries (line ∷ lines) e h = (
    record { entry = entry; found = inl refl; process = e; shown = h.0 },
    Listed-here entry entries lines e h.1,
  )

  Listed-later :
      (entry : String × Bool) (entries : List (String × Bool)) (lines : List (ProcInfo × FileInfo))
      → All (Listed entries) lines
      → All (Listed (entry ∷ entries)) lines
  Listed-later entry entries [] h = tt
  Listed-later entry entries (line ∷ lines) h = (
    record { entry = h.0.entry; found = inr h.0.found; process = h.0.process; shown = h.0.shown },
    Listed-later entry entries lines h.1,
  )

  -- Whatever is in /proc, a line is printed only for an entry that `is_process` takes for a process,
  -- under that process's number, where the process's command passes the filter, and for a row of that
  -- process whose type and name pass it; the rows are those of the whole process, so nothing is
  -- printed of a process that `traverse_proc` gives up.
  pub listing-Shown :
      (entries : List (String × Bool)) → All (Listed entries) (listing sys filter entries)
  unfolding listing traverse_proc
  listing-Shown [] = tt
  listing-Shown (entry ∷ entries) =
      let rest = Listed-later entry entries (listing sys filter entries) (listing-Shown entries) in
      elim (Bool-cases (is_process entry)) [
        | inl e ↦ rw e (
            All-append (Listed (entry ∷ entries)) (traverse_proc sys filter entry.0)
              (listing sys filter entries)
              (Listed-here entry entries (traverse_proc sys filter entry.0) e
                (traverse_with-Shown entry.0 (getprocinfo sys entry.0) refl))
              rest)
        | inr e ↦ rw e rest
      ]
