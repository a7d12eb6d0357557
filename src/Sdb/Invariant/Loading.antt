-- ===== src/Sdb/Invariant/Loading.antt =====
-- HW4/load.cpp and the command load of HW4/ins.cpp keep the invariant.
use advanced_programmin.Sdb.Invariant.Writes.{
  dynamic-WellFormed, loaded-WellFormed, path-WellFormed,
}
use advanced_programmin.Prelude.{ℕ, zero, suc, ◌≡◌, refl, String, List, [], ◌∷◌, length, ap}
use advanced_programmin.Sdb.Os.{Os}
use advanced_programmin.Sdb.Exec.{set_program}
use advanced_programmin.Sdb.Exec.Maintains.{Maintains, Maintains-set_program, maintains_rules}
use advanced_programmin.Sdb.Breakpoints.{Status, success, failure}
use advanced_programmin.Sdb.Load.{
  Search, found, absent, overrun, filled, take_text, parse_bytes, parse_elf, loaded_with, load_file,
  load, insload, Shdr,
}
use advanced_programmin.Sdb.Invariant.{WellFormed}

length-filled : (n u : ℕ) (bs : List ℕ) → length (filled n u bs) ≡ n
length-filled zero u bs = refl
length-filled (suc n) u [] = ap suc (length-filled n u [])
length-filled (suc n) u (b ∷ bs) = ap suc (length-filled n u bs)

module _ (os : Os) where
  text-WellFormed :
      (sh : Shdr) (unset : ℕ) (bs : List ℕ)
      → Maintains {K = os.Kernel} WellFormed (
          set_program (λ p. record p {
            text = record p.text {
              size = sh.sh_size;
              entry = sh.sh_addr;
              bytes = filled sh.sh_size unset bs;
            };
          }))
  text-WellFormed sh unset bs = Maintains-set_program _ (λ p h. record {
    distinct = h.distinct;
    in_range = h.in_range;
    text_size = length-filled sh.sh_size unset bs;
    unloaded = h.unloaded;
  })

  take_text-WellFormed : (file : List ℕ) (s : Search) → Maintains WellFormed (take_text os file s)
  unfolding take_text
  take_text-WellFormed file (found sh) = search (maintains_rules, text-WellFormed) depth 8
  take_text-WellFormed file absent = search maintains_rules
  take_text-WellFormed file overrun = search maintains_rules

  parse_bytes-WellFormed : (file : List ℕ) → Maintains WellFormed (parse_bytes os file)
  unfolding parse_bytes
  parse_bytes-WellFormed file =
      search (maintains_rules, dynamic-WellFormed, take_text-WellFormed) depth 24

  parse_elf-WellFormed : (path : String) → Maintains WellFormed (parse_elf os path)
  unfolding parse_elf
  parse_elf-WellFormed path = search (maintains_rules, parse_bytes-WellFormed) depth 9

  loaded_with-WellFormed : (s : Status) → Maintains WellFormed (loaded_with os s)
  unfolding loaded_with
  loaded_with-WellFormed success = search (maintains_rules, loaded-WellFormed) depth 9
  loaded_with-WellFormed failure = search maintains_rules

  load_file-WellFormed : Maintains WellFormed (load_file os)
  unfolding load_file
  load_file-WellFormed =
      search (maintains_rules, parse_elf-WellFormed, loaded_with-WellFormed) depth 9

  pub load-WellFormed : Maintains WellFormed (load os)
  unfolding load
  load-WellFormed = search (maintains_rules, load_file-WellFormed) depth 9

  pub insload-WellFormed : (args : List String) → Maintains WellFormed (insload os args)
  unfolding insload
  insload-WellFormed [] = search maintains_rules
  insload-WellFormed (arg ∷ []) = search (maintains_rules, load-WellFormed, path-WellFormed) depth 9
  insload-WellFormed (_ ∷ _ ∷ _) = search maintains_rules
