-- ===== src/Sdb/Overlay/Restart.antt =====
-- HW4/start.cpp: the breakpoints written into the memory of a new process.
use advanced_programmin.Prelude.{sym, subst, ℕ, ◌≡◌, ◌∙◌, refl, arith, false, List, [], ◌∷◌, All}
use advanced_programmin.Sdb.Types.{Bp}
use advanced_programmin.Sdb.Os.{Os, Ptrace}
use advanced_programmin.Sdb.Exec.{World, done, pid_line, ◌>>=◌}
use advanced_programmin.Sdb.Memory.{add64}
use advanced_programmin.Sdb.Memory.Writes.{ByteWritten, change_byte_lem}
use advanced_programmin.Sdb.Breakpoints.{success}
use advanced_programmin.Sdb.Exec.Maintains.{after}
use advanced_programmin.Sdb.Invariant.Rearm.{rearm-WellFormed}
use advanced_programmin.Sdb.Overlay.Script.{Ends}
use advanced_programmin.Sdb.Overlay.Sessions.{Session, Session-Holds, memory}
use advanced_programmin.Sdb.Run.{arm_fresh, rearm_with, rearm}
use advanced_programmin.Sdb.Invariant.{Distinct, InRange, WellFormed}
use advanced_programmin.Sdb.Overlay.{covered, Shadows}
use advanced_programmin.Sdb.Overlay.Arm.{Armed, AllMapped, AllMapped-later}
use advanced_programmin.Sdb.Overlay.Cover.{covered-has_addr}

-- The memory of a new process under its breakpoints: what each has saved is the process's own byte.
pub record Fresh (os : Os) (pt : Ptrace os) (pid base : ℕ) (bps saved_bps : List Bp)
    (k k' : os.Kernel) : Type 0 where
  pub armed : Armed os pt pid base bps k k'
  pub same : (b : ℕ) → covered base b saved_bps ≡ covered base b bps
  pub saved : All (λ bp. bp.ovalue ≡ pt.byte pid k (add64 base bp.addr)) saved_bps
  pub reached : AllMapped os pt pid k' base saved_bps

module _ (os : Os) (pt : Ptrace os) where
  saved-earlier :
      (pid base a v : ℕ) (k k' : os.Kernel) (bps : List Bp)
      → covered base a bps ≡ false
      → ByteWritten os pt pid k k' a v
      → All (λ bp. bp.ovalue ≡ pt.byte pid k' (add64 base bp.addr)) bps
      → All (λ bp. bp.ovalue ≡ pt.byte pid k (add64 base bp.addr)) bps
  unfolding covered
  saved-earlier pid base a v k k' [] c one h = tt
  saved-earlier pid base a v k k' (bp ∷ bps) c one h = (
    ground (arith, h.0, one.bytes (add64 base bp.addr)),
    saved-earlier pid base a v k k' bps (ground arith) one h.1,
  )

  pub arm_fresh_lem :
      (base : ℕ) (bps : List Bp) (w : World os.Kernel)
      → Distinct bps
      → All InRange bps
      → AllMapped os pt w.program.pid w.kernel base bps
      → (armed : List Bp) × (k : os.Kernel) × (arm_fresh os base bps w
          ≡ done armed (record w { kernel = k }))
        × Fresh os pt w.program.pid base bps armed w.kernel k
  unfolding arm_fresh ◌>>=◌ covered
  arm_fresh_lem base [] w d r m = (
    [],
    w.kernel,
    refl,
    record {
      armed = record { bytes = λ b. refl; mapped = λ b q. q; regs = refl };
      same = λ b. refl;
      saved = tt;
      reached = tt;
    },
  )
  arm_fresh_lem base (bp ∷ bps) w d r m =
      let pid = w.program.pid in
      let a = add64 base bp.addr in
      let (k, e, one) = change_byte_lem os pt a 0xcc w (omega arith) m.0 in
      let (armed, k', e', rest) =
        arm_fresh_lem base bps (record w { kernel = k }) d.1 r.1
          (AllMapped-later os pt pid base w.kernel k bps one.mapped m.1) in
      (
        record bp { ovalue = pt.byte pid w.kernel a } ∷ armed,
        k',
        rw e (rw e' refl),
        record {
          armed = record {
            bytes = λ b. ground (arith, one.bytes b, rest.armed.bytes b);
            mapped = λ b q. rest.armed.mapped b (one.mapped b q);
            regs = rest.armed.regs ∙ one.regs;
          };
          same = λ b. rw (rest.same b) refl;
          saved = (
            refl,
            saved-earlier pid base a 0xcc w.kernel k armed
                (rest.same a ∙ covered-has_addr base bp.addr bps r.0.0 r.1 d.0) one rest.saved,
          );
          reached = (rest.armed.mapped a (one.mapped a m.0), rest.reached);
        },
      )

  pub rearm_lem :
      (w : World os.Kernel)
      → WellFormed w.program
      → AllMapped os pt w.program.pid w.kernel w.program.base_address w.program.bplist
      → (w' : World os.Kernel) × (rearm os w.program.base_address w ≡ done success w')
        × ((b : ℕ)
            → covered w.program.base_address b w'.program.bplist
              ≡ covered w.program.base_address b w.program.bplist)
        × Shadows os pt (pt.byte w.program.pid w.kernel) w'
  unfolding rearm rearm_with ◌>>=◌
  rearm_lem w h m =
      let base = w.program.base_address in
      let (armed, k, e, fresh) = arm_fresh_lem base w.program.bplist w h.distinct h.in_range m in
      (
        record w {
          program = record w.program { bplist = armed };
          kernel = k;
          out = pid_line w.program.pid ∷ w.out;
        },
        rw e refl,
        fresh.same,
        record {
          saved = fresh.saved;
          mapped = fresh.reached;
          outside = λ b c. ground (arith, fresh.same b, fresh.armed.bytes b);
          inside = λ b c. ground (arith, fresh.same b, fresh.armed.bytes b);
        },
      )

  -- The breakpoints that `start` writes into a new process, where it has memory under each and the
  -- debugger's data are well formed, and every session of break, delete, `checkbp` and `restore`
  -- from there, leave no trace: once the last breakpoint is deleted, each byte of the process's
  -- memory is what it was before `start` wrote the first trap.
  pub rearm-Session :
      (w u v : World os.Kernel)
      → WellFormed w.program
      → AllMapped os pt w.program.pid w.kernel w.program.base_address w.program.bplist
      → rearm os w.program.base_address w ≡ done success u
      → Session os pt u v
      → v.program.bplist ≡ []
      → (b : ℕ) → memory os pt v b ≡ memory os pt w b
  unfolding covered
  rearm-Session w u v h m e r none_after b =
      let orig = memory os pt w in
      let (w', e', same, shadows) = rearm_lem w h m in
      let fresh : Shadows os pt orig u = subst (Ends (Shadows os pt orig)) (sym e' ∙ e) shadows in
      let kept : WellFormed u.program =
        subst (λ x. WellFormed (after x).program) e
          ((rearm-WellFormed os w.program.base_address).at w h) in
      (Session-Holds os pt orig r (kept, fresh)).1.outside b (rw none_after refl)
