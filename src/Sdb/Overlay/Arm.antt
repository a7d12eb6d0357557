-- ===== src/Sdb/Overlay/Arm.antt =====
-- HW4/ins.cpp, `checkbp` and `restore`, over the memory that the breakpoints shadow.
use mathlib.Core.Path.{subst}
use advanced_programmin.Prelude.{
  ◌≢◌, ℕ, ◌<◌, ◌%◌, ◌≡◌, refl, arith, false, ◌⊎◌, inl, inr, Option, none, some, List, [], ◌∷◌, All,
  get_elem?, ◌==◌, Bool-cases, if◌then◌else◌, ◌∙◌,
}
use advanced_programmin.Sdb.Breakpoints.{
  hit_of, success, find_bp, arm_all, check_at, checkbp, pred64, nth_bp, restore_at, restore,
}
use advanced_programmin.Sdb.Types.{Bp, Regs}
use advanced_programmin.Sdb.Os.{Os, Ptrace}
use advanced_programmin.Sdb.Exec.{World, done, ◌>>=◌}
use advanced_programmin.Sdb.Memory.{add64}
use advanced_programmin.Sdb.Memory.Writes.{change_byte_lem}
use advanced_programmin.Sdb.Overlay.{covered}
use advanced_programmin.Sdb.Overlay.Cover.{All-nth, find_bp-some, find_bp-none}

-- The kernel once every breakpoint is written: those bytes are 0xcc, the others as before.
pub record Armed (os : Os) (pt : Ptrace os) (pid base : ℕ) (bps : List Bp) (k k' : os.Kernel)
    : Type 0 where
  pub bytes : (b : ℕ) → pt.byte pid k' b ≡ (if covered base b bps then 0xcc else pt.byte pid k b)
  pub mapped : (b : ℕ) → pt.Mapped pid k b → pt.Mapped pid k' b
  pub regs : os.getregs pid k' ≡ os.getregs pid k

module _ (os : Os) (pt : Ptrace os) where
  abbrev pub AllMapped : ℕ → os.Kernel → ℕ → List Bp → Type 0
  AllMapped pid k base = All (λ bp. pt.Mapped pid k (add64 base bp.addr))

  pub AllMapped-later :
      (pid base : ℕ) (k k' : os.Kernel) (bps : List Bp)
      → ((b : ℕ) → pt.Mapped pid k b → pt.Mapped pid k' b)
      → AllMapped pid k base bps
      → AllMapped pid k' base bps
  AllMapped-later pid base k k' [] f m = tt
  AllMapped-later pid base k k' (bp ∷ bps) f m = (f _ m.0, AllMapped-later pid base k k' bps f m.1)

  pub arm_all_lem :
      (base : ℕ) (bps : List Bp) (w : World os.Kernel)
      → AllMapped w.program.pid w.kernel base bps
      → (k : os.Kernel) × (arm_all os base bps w ≡ done tt (record w { kernel = k }))
        × Armed os pt w.program.pid base bps w.kernel k
  unfolding arm_all ◌>>=◌ covered
  arm_all_lem base [] w m =
      (w.kernel, refl, record { bytes = λ b. refl; mapped = λ b q. q; regs = refl })
  arm_all_lem base (bp ∷ bps) w m =
      let (k, e, one) = change_byte_lem os pt (add64 base bp.addr) 0xcc w (omega arith) m.0 in
      let (k', e', rest) =
        arm_all_lem base bps (record w { kernel = k })
          (AllMapped-later w.program.pid base w.kernel k bps one.mapped m.1) in
      (
        k',
        rw e e',
        record {
          bytes = λ b. ground (arith, one.bytes b, rest.bytes b);
          mapped = λ b q. rest.mapped b (one.mapped b q);
          regs = rest.regs ∙ one.regs;
        },
      )

  -- What the result of `checkbp` says of the memory before it.
  abbrev pub Verdict : World os.Kernel → ℕ → Option ℕ → Type 0
  Verdict w target (some i) =
      (bp : Bp) × (get_elem? w.program.bplist i ≡ some bp)
      × (add64 w.program.base_address bp.addr ≡ target)
      × (pt.byte w.program.pid w.kernel target ≡ 0xcc)
  Verdict w target none =
      (covered w.program.base_address target w.program.bplist ≡ false)
      ⊎ (pt.byte w.program.pid w.kernel target ≢ 0xcc)

  low_byte :
      (pid a : ℕ) (k : os.Kernel) → pt.Mapped pid k a → os.peek pid a k % 256 ≡ pt.byte pid k a
  low_byte pid a k m = rw (pt.peek_word pid k a m) (omega (arith, pt.byte_lt pid k a))

  hit_of-Verdict :
      (w : World os.Kernel) (target : ℕ) (found : Option ℕ)
      → AllMapped w.program.pid w.kernel w.program.base_address w.program.bplist
      → find_bp w.program.base_address target w.program.bplist ≡ found
      → Verdict w target (hit_of (os.peek w.program.pid target w.kernel) found)
  hit_of-Verdict w target none m e = inl (find_bp-none _ target w.program.bplist e)
  hit_of-Verdict w target (some i) m e =
      let (bp, nth, at_target) = find_bp-some w.program.base_address target w.program.bplist i e in
      let reach : pt.Mapped w.program.pid w.kernel target =
        subst (pt.Mapped w.program.pid w.kernel) at_target (
          All-nth (λ b. pt.Mapped w.program.pid w.kernel (add64 w.program.base_address b.addr))
            w.program.bplist i m nth) in
      let low = low_byte w.program.pid target w.kernel reach in
      elim (Bool-cases (os.peek w.program.pid target w.kernel % 256 == 0xcc)) [
        | inl q ↦ rw q (bp, nth, at_target, ground (arith, low))
        | inr q ↦ rw q (inr (λ z. ground (arith, low)))
      ]

  -- Where the registers can be read and the process has memory under each breakpoint, `checkbp`
  -- returns. It reports the number of a breakpoint only where that stands just before the
  -- instruction pointer and the trap was there; it reports none only where no breakpoint stands
  -- there or the byte there was not the trap. Every breakpoint is then written, and no other byte
  -- has changed.
  pub checkbp_lem :
      (w : World os.Kernel) (r : Regs)
      → os.getregs w.program.pid w.kernel ≡ some r
      → AllMapped w.program.pid w.kernel w.program.base_address w.program.bplist
      → (hit : Option ℕ) × (k : os.Kernel) × (checkbp os w
          ≡ done hit (record w { program = record w.program { regs = r }; kernel = k }))
        × Verdict w (pred64 r.rip) hit
        × Armed os pt w.program.pid w.program.base_address w.program.bplist w.kernel k
  unfolding checkbp check_at ◌>>=◌
  checkbp_lem w r e m =
      let base = w.program.base_address in
      let bps = w.program.bplist in
      let (k, q, armed) =
        arm_all_lem base bps (record w { program = record w.program { regs = r } }) m in
      (
        hit_of (os.peek w.program.pid (pred64 r.rip) w.kernel) (find_bp base (pred64 r.rip) bps),
        k,
        rw e (rw q refl),
        hit_of-Verdict w (pred64 r.rip) (find_bp base (pred64 r.rip) bps) m refl,
        armed,
      )

  -- For a breakpoint in the list, with memory under it, in a process whose registers can be read
  -- and written, `restore` succeeds: it puts the saved byte back, over that byte alone, and sets
  -- the instruction pointer of the process back by one.
  pub restore_lem :
      (i : ℕ) (w : World os.Kernel) (r : Regs) (bp : Bp)
      → os.getregs w.program.pid w.kernel ≡ some r
      → get_elem? w.program.bplist i ≡ some bp
      → bp.ovalue < 256
      → pt.Mapped w.program.pid w.kernel (add64 w.program.base_address bp.addr)
      → ((k : os.Kernel) (x : Regs) → (k' : os.Kernel) × (os.setregs w.program.pid x k ≡ some k'))
      → let back = record r { rip = pred64 r.rip } in
        (k : os.Kernel) × (restore os i w
          ≡ done success (record w { program = record w.program { regs = back }; kernel = k }))
        × (os.getregs w.program.pid k ≡ some back)
        × ((b : ℕ)
            → pt.byte w.program.pid k b ≡ (
                if b == add64 w.program.base_address bp.addr
                then bp.ovalue
                else pt.byte w.program.pid w.kernel b))
  unfolding restore restore_at nth_bp ◌>>=◌
  restore_lem i w r bp e nth lt m sets =
      let pid = w.program.pid in
      let back = record r { rip = pred64 r.rip } in
      let a = add64 w.program.base_address bp.addr in
      let w' = record w { program = record w.program { regs = r } } in
      let (k, q, written) = change_byte_lem os pt a bp.ovalue w' lt m in
      let (k', set) = sets k back in
      (
        k',
        rw e (rw nth (rw q (rw set refl))),
        pt.setregs_regs pid back k k' (pt.rip_taken pid r k (pred64 r.rip) (written.regs ∙ e)) set,
        λ b. pt.setregs_byte pid back k k' set b ∙ written.bytes b,
      )
