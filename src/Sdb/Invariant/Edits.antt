-- ===== src/Sdb/Invariant/Edits.antt =====
-- HW4/ins.cpp: what break, delete and the functions behind cont and si keep.
use advanced_programmin.Sdb.Exec.Maintains.{
  Maintains-stop, Maintains-set_program, Maintains, after, Maintains-continue, Maintains-pure,
  maintains_rules,
}
use advanced_programmin.Prelude.Int.{ℤ, pos, negsuc}
use advanced_programmin.Sdb.Frames.{Maintains-nth_bp}
use advanced_programmin.Prelude.{
  erase_at, ℕ, ◌^◌, ◌<◌, ◌≡◌, refl, arith, true, inl, inr, String, List, [], ◌∷◌, Bool-cases,
}
use advanced_programmin.Sdb.Breakpoints.{
  delete_at, success, is_running, has_addr, setbreak, break_at, insbreak, remove_bp, delete_nth,
  delete_bp, insdelete,
}
use advanced_programmin.Sdb.Exec.{set_program, World, pure, ◌>>=◌}
use advanced_programmin.Sdb.Types.{State, running}
use advanced_programmin.Sdb.Os.{Os}
use advanced_programmin.Sdb.Scan.{Converted, value, invalid_argument, out_of_range, stoul16}
use advanced_programmin.Sdb.Scan.Ranges.{stoul16-lt}
use advanced_programmin.Sdb.Memory.{add64}
use advanced_programmin.Sdb.Memory.Frame.{change_byte-Changed, Maintains-change_byte}
use advanced_programmin.Sdb.Invariant.{WellFormed}
use advanced_programmin.Sdb.Invariant.Lists.{Distinct-append, Distinct-erase, All-append, All-erase}

erase-WellFormed :
    {K : Type 0} (i : ℕ)
    → Maintains {K = K} WellFormed (set_program (λ p. record p { bplist = erase_at p.bplist i }))
erase-WellFormed i = Maintains-set_program _ (λ p h. record {
  distinct = Distinct-erase p.bplist i h.distinct;
  in_range = All-erase _ p.bplist i h.in_range;
  text_size = h.text_size;
  unloaded = λ n. rw (h.unloaded n) refl;
})

module _ (os : Os) where
  setbreak-WellFormed :
      (addr : ℕ) (w : World os.Kernel)
      → addr < 2 ^ 64
      → w.program.state ≡ running
      → WellFormed w.program
      → WellFormed (after (setbreak os addr w)).program
  unfolding setbreak ◌>>=◌
  setbreak-WellFormed addr w lt run h = elim (Bool-cases (has_addr addr w.program.bplist)) [
    | inl e ↦ rw e h
    | inr e ↦ rw e (elim (change_byte-Changed os (add64 w.program.base_address addr) 0xcc w) [
      | inl (o, k, o_lt, q) ↦ rw q (record {
        distinct = Distinct-append w.program.bplist _ h.distinct e;
        in_range = All-append _ w.program.bplist _ h.in_range (lt, o_lt);
        text_size = h.text_size;
        unloaded = λ n. cc;
      })
      | inr q ↦ rw q h
    ])
  ]

  is_running-eq : (s : State) → is_running s ≡ true → s ≡ running
  is_running-eq s e = ground arith

  break_at-WellFormed :
      (c : Converted ℕ) (w : World os.Kernel)
      → ((n : ℕ) → c ≡ value n → n < 2 ^ 64)
      → w.program.state ≡ running
      → WellFormed w.program
      → WellFormed (after (break_at os c w)).program
  unfolding break_at ◌>>=◌
  break_at-WellFormed (value n) w lt run h =
      Maintains-continue {P = WellFormed} (setbreak os n w) (λ _. pure success)
        (λ _. Maintains-pure success) (setbreak-WellFormed n w (lt n refl) run h)
  break_at-WellFormed invalid_argument w lt run h = h
  break_at-WellFormed out_of_range w lt run h = h

  pub insbreak-WellFormed : (args : List String) → Maintains WellFormed (insbreak os args)
  unfolding insbreak ◌>>=◌
  insbreak-WellFormed [] = record { at = λ w h. h }
  insbreak-WellFormed (arg ∷ []) = record {
    at = λ w h. elim (Bool-cases (is_running w.program.state)) [
      | inl e ↦
          rw e (
            break_at-WellFormed (stoul16 arg) w (stoul16-lt arg) (is_running-eq w.program.state e)
              h)
      | inr e ↦ rw e h
    ];
  }
  insbreak-WellFormed (_ ∷ _ ∷ _) = record { at = λ w h. h }

  remove_bp-WellFormed : (i : ℕ) → Maintains WellFormed (remove_bp os i)
  unfolding remove_bp
  remove_bp-WellFormed i =
      search (maintains_rules, Maintains-nth_bp os, Maintains-change_byte os, erase-WellFormed)
        depth 12

  delete_nth-WellFormed : (bpid : ℤ) → Maintains WellFormed (delete_nth os bpid)
  unfolding delete_nth
  delete_nth-WellFormed (pos i) = remove_bp-WellFormed i
  delete_nth-WellFormed (negsuc n) = Maintains-stop _

  delete_bp-WellFormed : (bpid : ℤ) → Maintains WellFormed (delete_bp os bpid)
  unfolding delete_bp
  delete_bp-WellFormed bpid = search (maintains_rules, delete_nth-WellFormed) depth 8

  delete_at-WellFormed : (c : Converted ℤ) → Maintains WellFormed (delete_at os c)
  unfolding delete_at
  delete_at-WellFormed (value bpid) = delete_bp-WellFormed bpid
  delete_at-WellFormed _ = Maintains-stop _

  pub insdelete-WellFormed : (args : List String) → Maintains WellFormed (insdelete os args)
  unfolding insdelete
  insdelete-WellFormed [] = search maintains_rules
  insdelete-WellFormed (arg ∷ []) = search (maintains_rules, delete_at-WellFormed) depth 8
  insdelete-WellFormed (_ ∷ _ ∷ _) = search maintains_rules
