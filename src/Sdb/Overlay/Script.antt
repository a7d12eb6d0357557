-- ===== src/Sdb/Overlay/Script.antt =====
-- HW4/ins.cpp: any sequence of the commands break and delete and of `checkbp`, over the memory
-- that the breakpoints shadow.
use advanced_programmin.Prelude.{
  ℕ, ◌^◌, ◌<◌, ◌≡◌, refl, arith, inl, inr, String, List, [], ◌∷◌, length, get_elem?, Bool-cases,
  Option-cases,
}
use advanced_programmin.Prelude.Int.{ℤ, pos, negsuc, to_int, lebℤ}
use advanced_programmin.Sdb.Types.{Regs}
use advanced_programmin.Sdb.Os.{Os, Ptrace}
use advanced_programmin.Sdb.Exec.{Out, World, Outcome, done, stopped, ◌>>=◌}
use advanced_programmin.Sdb.Scan.{Converted, value, stoul16, stoi}
use advanced_programmin.Sdb.Scan.Ranges.{stoul16-lt}
use advanced_programmin.Sdb.Memory.{add64}
use advanced_programmin.Sdb.Breakpoints.{
  is_running, has_addr, setbreak, break_at, insbreak, nth_bp, remove_bp, delete_nth, delete_bp,
  delete_at, insdelete, checkbp,
}
use advanced_programmin.Sdb.Invariant.{WellFormed, InRange}
use advanced_programmin.Sdb.Overlay.{Shadows}
use advanced_programmin.Sdb.Overlay.Cover.{All-nth}
use advanced_programmin.Sdb.Overlay.Edits.{
  All-map, setbreak_lem, setbreak-Shadows, remove_bp_lem, remove_bp-Shadows,
}
use advanced_programmin.Sdb.Overlay.Arm.{checkbp_lem, Armed}

-- A property of the world in which an action returns.
abbrev pub Ends : {K A : Type 0} → (World K → Type 0) → Outcome K A → Type 0
Ends Q (done a w) = Q w
Ends Q (stopped s w) = Unit

module _ (os : Os) (pt : Ptrace os) (orig : ℕ → ℕ) where
  -- What is printed does not matter.
  pub same_memory :
      (w : World os.Kernel) (o : List Out)
      → Shadows os pt orig w
      → Shadows os pt orig (record w { out = o })
  same_memory w o s = record {
    saved = s.saved;
    mapped = s.mapped;
    outside = s.outside;
    inside = s.inside;
  }

  setbreak-Ends :
      (addr : ℕ) (w : World os.Kernel)
      → addr < 2 ^ 64
      → pt.Mapped w.program.pid w.kernel (add64 w.program.base_address addr)
      → WellFormed w.program
      → Shadows os pt orig w
      → Ends (Shadows os pt orig) (break_at os (value addr) w)
  unfolding break_at ◌>>=◌
  setbreak-Ends addr w lt m h s = elim (Bool-cases (has_addr addr w.program.bplist)) [
    | inl e ↦ unfold setbreak in rw e s
    | inr e ↦
        let (k, q, written) = setbreak_lem os pt orig addr w e m in
        rw q (setbreak-Shadows os pt orig addr w k lt e m h written s)
  ]

  break_at-Ends :
      (c : Converted ℕ) (w : World os.Kernel)
      → ((n : ℕ) → c ≡ value n → n < 2 ^ 64)
      → ((n : ℕ) → c ≡ value n → pt.Mapped w.program.pid w.kernel (add64 w.program.base_address n))
      → WellFormed w.program
      → Shadows os pt orig w
      → Ends (Shadows os pt orig) (break_at os c w)
  break_at-Ends (value n) w lt m h s = setbreak-Ends n w (lt n refl) (m n refl) h s
  break_at-Ends _ w lt m h s = unfold break_at ◌>>=◌ in tt

  pub insbreak-Ends :
      (arg : String) (w : World os.Kernel)
      → ((n : ℕ)
          → stoul16 arg ≡ value n
          → pt.Mapped w.program.pid w.kernel (add64 w.program.base_address n))
      → WellFormed w.program
      → Shadows os pt orig w
      → Ends (Shadows os pt orig) (insbreak os (arg ∷ []) w)
  unfolding insbreak ◌>>=◌
  insbreak-Ends arg w m h s = elim (Bool-cases (is_running w.program.state)) [
    | inl e ↦ rw e (break_at-Ends (stoul16 arg) w (stoul16-lt arg) m h s)
    | inr e ↦ rw e (same_memory w _ s)
  ]

  remove_bp-Ends :
      (i : ℕ) (w : World os.Kernel)
      → WellFormed w.program
      → Shadows os pt orig w
      → Ends (Shadows os pt orig) (remove_bp os i w)
  remove_bp-Ends i w h s = elim (Option-cases (get_elem? w.program.bplist i)) [
    | inl e ↦ unfold remove_bp nth_bp ◌>>=◌ in rw e tt
    | inr (bp, e) ↦
        let (k, q, written) =
          remove_bp_lem os pt orig i w bp e (All-nth InRange w.program.bplist i h.in_range e).1
            (All-nth _ w.program.bplist i s.mapped e) in
        rw q (remove_bp-Shadows os pt orig i w k bp e h written s)
  ]

  delete_nth-Ends :
      (n : ℤ) (w : World os.Kernel)
      → WellFormed w.program
      → Shadows os pt orig w
      → Ends (Shadows os pt orig) (delete_nth os n w)
  unfolding delete_nth ◌>>=◌
  delete_nth-Ends (pos i) w h s = remove_bp-Ends i w h s
  delete_nth-Ends (negsuc n) w h s = tt

  delete_bp-Ends :
      (n : ℤ) (w : World os.Kernel)
      → WellFormed w.program
      → Shadows os pt orig w
      → Ends (Shadows os pt orig) (delete_bp os n w)
  unfolding delete_bp ◌>>=◌
  delete_bp-Ends n w h s = elim (Bool-cases (lebℤ (to_int (length w.program.bplist)) n)) [
    | inl e ↦ rw e s
    | inr e ↦ rw e (delete_nth-Ends n w h s)
  ]

  delete_at-Ends :
      (c : Converted ℤ) (w : World os.Kernel)
      → WellFormed w.program
      → Shadows os pt orig w
      → Ends (Shadows os pt orig) (delete_at os c w)
  unfolding delete_at ◌>>=◌
  delete_at-Ends (value n) w h s = delete_bp-Ends n w h s
  delete_at-Ends _ w h s = tt

  pub insdelete-Ends :
      (arg : String) (w : World os.Kernel)
      → WellFormed w.program
      → Shadows os pt orig w
      → Ends (Shadows os pt orig) (insdelete os (arg ∷ []) w)
  unfolding insdelete ◌>>=◌
  insdelete-Ends arg w h s = elim (Bool-cases (is_running w.program.state)) [
    | inl e ↦ rw e (delete_at-Ends (stoi arg) w h s)
    | inr e ↦ rw e (same_memory w _ s)
  ]

  Armed-Shadows :
      (w : World os.Kernel) (r : Regs) (k : os.Kernel)
      → Armed os pt w.program.pid w.program.base_address w.program.bplist w.kernel k
      → Shadows os pt orig w
      → Shadows os pt orig (record w { program = record w.program { regs = r }; kernel = k })
  Armed-Shadows w r k armed s = record {
    saved = s.saved;
    mapped = All-map w.program.bplist (λ bp q. armed.mapped _ q) s.mapped;
    outside = λ b c. ground (arith, armed.bytes b, s.outside b);
    inside = λ b c. ground (arith, armed.bytes b, s.inside b);
  }

  pub checkbp-Ends :
      (w : World os.Kernel) → Shadows os pt orig w → Ends (Shadows os pt orig) (checkbp os w)
  checkbp-Ends w s = elim (Option-cases (os.getregs w.program.pid w.kernel)) [
    | inl e ↦ unfold checkbp ◌>>=◌ in rw e tt
    | inr (r, e) ↦
        let (hit, k, q, verdict, armed) = checkbp_lem os pt w r e s.mapped in
        rw q (Armed-Shadows w r k armed s)
  ]
