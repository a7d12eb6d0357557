-- ===== src/Sdb/Overlay/Resume.antt =====
-- HW4/ins.cpp: `restore`, at a breakpoint that was met, keeps the view of the memory.
use advanced_programmin.Prelude.{ℕ, ◌≡◌, ◌∙◌, arith, some, get_elem?, inl, inr, Option-cases}
use advanced_programmin.Sdb.Types.{Bp, Regs}
use advanced_programmin.Sdb.Os.{Os, Ptrace}
use advanced_programmin.Sdb.Exec.{World, ◌>>=◌}
use advanced_programmin.Sdb.Memory.{add64}
use advanced_programmin.Sdb.Memory.Writes.{ByteWritten, change_byte_lem}
use advanced_programmin.Sdb.Breakpoints.{pred64, nth_bp, restore_at, restore}
use advanced_programmin.Sdb.Invariant.{WellFormed, InRange}
use advanced_programmin.Sdb.Overlay.{Shadows}
use advanced_programmin.Sdb.Overlay.Cover.{All-nth}
use advanced_programmin.Sdb.Overlay.Edits.{All-map}
use advanced_programmin.Sdb.Overlay.Script.{Ends, same_memory}

module _ (os : Os) (pt : Ptrace os) (orig : ℕ → ℕ) where
  -- the saved byte is back under its breakpoint
  abbrev put_back : World os.Kernel → os.Kernel → Regs → World os.Kernel
  put_back w k r = record w { program = record w.program { regs = r }; kernel = k }

  put_back-Shadows :
      (i : ℕ) (w : World os.Kernel) (k : os.Kernel) (bp : Bp) (r : Regs)
      → get_elem? w.program.bplist i ≡ some bp
      → ByteWritten os pt w.program.pid w.kernel k (add64 w.program.base_address bp.addr) bp.ovalue
      → Shadows os pt orig w
      → Shadows os pt orig (put_back w k r)
  put_back-Shadows i w k bp r e written s =
      let own = All-nth _ w.program.bplist i s.saved e in
      record {
        saved = s.saved;
        mapped = All-map w.program.bplist (λ b q. written.mapped _ q) s.mapped;
        outside = λ b c. ground (arith, written.bytes b, s.outside b, own);
        inside = λ b c. ground (arith, written.bytes b, s.inside b, own);
      }

  setregs-Shadows :
      (w : World os.Kernel) (r : Regs) (k : os.Kernel)
      → os.setregs w.program.pid r w.kernel ≡ some k
      → Shadows os pt orig w
      → Shadows os pt orig (record w { kernel = k })
  setregs-Shadows w r k e s =
      let same = pt.setregs_byte w.program.pid r w.kernel k e in
      record {
        saved = s.saved;
        mapped =
            All-map w.program.bplist (λ b q. pt.setregs_mapped w.program.pid r w.kernel k e _ q)
              s.mapped;
        outside = λ b c. same b ∙ s.outside b c;
        inside = λ b c. rw (same b) (s.inside b c);
      }

  pub restore-Ends :
      (i : ℕ) (w : World os.Kernel)
      → WellFormed w.program
      → Shadows os pt orig w
      → Ends (Shadows os pt orig) (restore os i w)
  unfolding restore restore_at nth_bp ◌>>=◌
  restore-Ends i w h s = elim (Option-cases (os.getregs w.program.pid w.kernel)) [
    | inl e ↦ rw e (same_memory os pt orig w _ s)
    | inr (r, e) ↦ elim (Option-cases (get_elem? w.program.bplist i)) [
      | inl q ↦ rw e (rw q tt)
      | inr (bp, q) ↦
          let a = add64 w.program.base_address bp.addr in
          let back = record r { rip = pred64 r.rip } in
          let (k, p, written) =
            change_byte_lem os pt a bp.ovalue (record w { program = record w.program { regs = r } })
              (All-nth InRange w.program.bplist i h.in_range q).1
              (All-nth _ w.program.bplist i s.mapped q) in
          let kept = put_back-Shadows i w k bp back q written s in
          elim (Option-cases (os.setregs w.program.pid back k)) [
            | inl z ↦ rw e (rw q (rw p (rw z (same_memory os pt orig (put_back w k back) _ kept))))
            | inr (k', z) ↦
                rw e (rw q (rw p (rw z (setregs-Shadows (put_back w k back) back k' z kept))))
          ]
    ]
  ]
