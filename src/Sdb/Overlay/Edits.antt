-- ===== src/Sdb/Overlay/Edits.antt =====
-- HW4/ins.cpp: `setbreak`, `remove_bp` (the end of delete) and `restore` over the memory that the
-- breakpoints shadow.
use advanced_programmin.Prelude.{
  ℕ, ◌<◌, ◌^◌, ◌≡◌, refl, arith, false, some, List, [], ◌∷◌, ◌++◌, All, get_elem?, erase_at,
}
use advanced_programmin.Sdb.Types.{Bp}
use advanced_programmin.Sdb.Os.{Os, Ptrace}
use advanced_programmin.Sdb.Exec.{World, done, deleted, ◌>>=◌}
use advanced_programmin.Sdb.Memory.{add64}
use advanced_programmin.Sdb.Memory.Writes.{ByteWritten, change_byte_lem}
use advanced_programmin.Sdb.Breakpoints.{success, has_addr, setbreak, nth_bp, remove_bp}
use advanced_programmin.Sdb.Invariant.{WellFormed}
use advanced_programmin.Sdb.Invariant.Lists.{All-append, All-erase}
use advanced_programmin.Sdb.Overlay.{Shadows}
use advanced_programmin.Sdb.Overlay.Cover.{
  covered-append, covered-has_addr, covered-erase, All-nth, erased-not_covered,
}

pub All-map {κ} :
    {P Q : Bp → Type κ} (bps : List Bp) → ((bp : Bp) → P bp → Q bp) → All P bps → All Q bps
All-map [] f h = tt
All-map (bp ∷ bps) f h = (f bp h.0, All-map bps f h.1)

module _ (os : Os) (pt : Ptrace os) (orig : ℕ → ℕ) where
  -- the world after a new breakpoint
  abbrev pub with_bp : World os.Kernel → os.Kernel → Bp → World os.Kernel
  with_bp w k bp = record w {
    program = record w.program { bplist = w.program.bplist ++ (bp ∷ []) };
    kernel = k;
  }

  -- At a mapped address that has no breakpoint, `setbreak` saves the program's own byte there, and
  -- writes the trap over that byte alone.
  pub setbreak_lem :
      (addr : ℕ) (w : World os.Kernel)
      → has_addr addr w.program.bplist ≡ false
      → pt.Mapped w.program.pid w.kernel (add64 w.program.base_address addr)
      → (k : os.Kernel) × (setbreak os addr w
          ≡ done success (
              with_bp w k (record {
                addr = addr;
                ovalue = pt.byte w.program.pid w.kernel (add64 w.program.base_address addr);
              })))
        × ByteWritten os pt w.program.pid w.kernel k (add64 w.program.base_address addr) 0xcc
  unfolding setbreak ◌>>=◌
  setbreak_lem addr w fresh m =
      let (k, e, written) =
        change_byte_lem os pt (add64 w.program.base_address addr) 0xcc w (omega arith) m in
      (k, rw fresh (rw e refl), written)

  pub setbreak-Shadows :
      (addr : ℕ) (w : World os.Kernel) (k : os.Kernel)
      → addr < 2 ^ 64
      → has_addr addr w.program.bplist ≡ false
      → pt.Mapped w.program.pid w.kernel (add64 w.program.base_address addr)
      → WellFormed w.program
      → ByteWritten os pt w.program.pid w.kernel k (add64 w.program.base_address addr) 0xcc
      → Shadows os pt orig w
      → Shadows os pt orig (
          with_bp w k (record {
            addr = addr;
            ovalue = pt.byte w.program.pid w.kernel (add64 w.program.base_address addr);
          }))
  setbreak-Shadows addr w k lt fresh m h written s =
      let base = w.program.base_address in
      let bps = w.program.bplist in
      let free = covered-has_addr base addr bps lt h.in_range fresh in
      record {
        saved = All-append _ bps _ s.saved (s.outside (add64 base addr) free);
        mapped =
            All-append _ bps _
              (All-map bps (λ bp q. written.mapped (add64 base bp.addr) q) s.mapped)
              (written.mapped (add64 base addr) m);
        outside = λ b c. ground (
          arith,
          covered-append base b bps
              (record { addr = addr; ovalue = pt.byte w.program.pid w.kernel (add64 base addr) }),
          written.bytes b,
          s.outside b,
        );
        inside = λ b c. ground (
          arith,
          covered-append base b bps
              (record { addr = addr; ovalue = pt.byte w.program.pid w.kernel (add64 base addr) }),
          written.bytes b,
          s.inside b,
        );
      }

  abbrev pub without_bp : World os.Kernel → os.Kernel → ℕ → World os.Kernel
  without_bp w k i = record w {
    program = record w.program { bplist = erase_at w.program.bplist i };
    kernel = k;
    out = deleted i ∷ w.out;
  }

  pub remove_bp_lem :
      (i : ℕ) (w : World os.Kernel) (bp : Bp)
      → get_elem? w.program.bplist i ≡ some bp
      → bp.ovalue < 256
      → pt.Mapped w.program.pid w.kernel (add64 w.program.base_address bp.addr)
      → (k : os.Kernel) × (remove_bp os i w ≡ done success (without_bp w k i))
        × ByteWritten os pt w.program.pid w.kernel k
            (add64 w.program.base_address bp.addr)
            bp.ovalue
  unfolding remove_bp nth_bp ◌>>=◌
  remove_bp_lem i w bp e lt m =
      let (k, q, written) =
        change_byte_lem os pt (add64 w.program.base_address bp.addr) bp.ovalue w lt m in
      (k, rw e (rw q refl), written)

  pub remove_bp-Shadows :
      (i : ℕ) (w : World os.Kernel) (k : os.Kernel) (bp : Bp)
      → get_elem? w.program.bplist i ≡ some bp
      → WellFormed w.program
      → ByteWritten os pt w.program.pid w.kernel k (add64 w.program.base_address bp.addr) bp.ovalue
      → Shadows os pt orig w
      → Shadows os pt orig (without_bp w k i)
  remove_bp-Shadows i w k bp e h written s =
      let base = w.program.base_address in
      let bps = w.program.bplist in
      record {
        saved = All-erase _ bps i s.saved;
        mapped =
            All-erase _ bps i
              (All-map bps (λ bp q. written.mapped (add64 base bp.addr) q) s.mapped);
        outside = λ b c. ground (
          arith,
          covered-erase base b bps i e,
          written.bytes b,
          s.outside b,
          All-nth _ bps i s.saved e,
        );
        inside = λ b c. ground (
          arith,
          covered-erase base b bps i e,
          erased-not_covered base bps i e h.distinct h.in_range,
          written.bytes b,
          s.inside b,
        );
      }
