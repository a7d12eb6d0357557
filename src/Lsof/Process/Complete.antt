-- ===== src/Lsof/Process/Complete.antt =====
-- HW1/hw1.cpp: the rows that the filter lets pass, in what is printed.
use advanced_programmin.Prelude.{
  ◌≡◌, ap, true, some, List, [], ◌∷◌, ◌++◌, map, inl, inr, Bool, Bool-cases, String, sym, ◌∙◌,
}
use advanced_programmin.Lsof.{System}
use advanced_programmin.Lsof.File.{FileInfo}
use advanced_programmin.Lsof.Filter.{Filter, valid_param}
use advanced_programmin.Lsof.Process.{
  ProcInfo, all_infos, is_process, traverse_proc, listing, getprocinfo,
}
use advanced_programmin.Lsof.Process.Rows.{In, Passes, dump_info_lem}

In-left : {A : Type 0} (x : A) (xs ys : List A) → In x xs → In x (xs ++ ys)
In-left x [] ys h = absurd h
In-left x (y ∷ xs) ys (inl e) = inl e
In-left x (y ∷ xs) ys (inr h) = inr (In-left x xs ys h)

In-right : {A : Type 0} (x : A) (xs ys : List A) → In x ys → In x (xs ++ ys)
In-right x [] ys h = h
In-right x (y ∷ xs) ys h = inr (In-right x xs ys h)

In-map : {A B : Type 0} (f : A → B) (x : A) (xs : List A) → In x xs → In (f x) (map f xs)
In-map f x [] h = absurd h
In-map f x (y ∷ xs) (inl e) = inl (ap f e)
In-map f x (y ∷ xs) (inr h) = inr (In-map f x xs h)

module _ (sys : System) (filter : Filter) where
  -- the rows of a process that is not given up
  traverse_proc_lem :
      (pid : String) (proc : ProcInfo) (infos : List FileInfo) (info : FileInfo)
      → getprocinfo sys pid ≡ some proc
      → valid_param sys proc.command filter.command ≡ true
      → all_infos sys pid ≡ some infos
      → Passes sys filter infos info
      → In (record proc { file_info = infos }, info) (traverse_proc sys filter pid)
  unfolding traverse_proc
  traverse_proc_lem pid proc infos info known command all h = rw known (
      rw command (
        rw all (
          In-map (λ i. (record proc { file_info = infos }, i)) info _
            (dump_info_lem sys filter infos info h))))

  -- Where an entry of /proc is a process that can be read, whose command passes the filter, each of
  -- its rows whose type and name pass it is printed, with the process.
  pub listing_lem :
      (entries : List (String × Bool)) (entry : String × Bool) (proc : ProcInfo)
      (infos : List FileInfo) (info : FileInfo)
      → In entry entries
      → is_process entry ≡ true
      → getprocinfo sys entry.0 ≡ some proc
      → valid_param sys proc.command filter.command ≡ true
      → all_infos sys entry.0 ≡ some infos
      → Passes sys filter infos info
      → In (record proc { file_info = infos }, info) (listing sys filter entries)
  unfolding listing
  listing_lem [] entry proc infos info at process known command all h = absurd at
  listing_lem (first ∷ entries) entry proc infos info (inl e) process known command all h =
      let here : is_process first ≡ true = ap is_process (sym e) ∙ process in
      let name : first.0 ≡ entry.0 = ap (λ x. x.0) (sym e) in
      rw here (
        In-left _ (traverse_proc sys filter first.0) (listing sys filter entries) (
          traverse_proc_lem first.0 proc infos info (ap (getprocinfo sys) name ∙ known) command
            (ap (all_infos sys) name ∙ all) h))
  listing_lem (first ∷ entries) entry proc infos info (inr later) process known command all h =
      let rest = listing_lem entries entry proc infos info later process known command all h in
      elim (Bool-cases (is_process first)) [
        | inl e ↦
            rw e (In-right _ (traverse_proc sys filter first.0) (listing sys filter entries) rest)
        | inr e ↦ rw e rest
      ]
