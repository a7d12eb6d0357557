-- ===== src/Sdb/Overlay.antt =====
-- The traced process's memory under the breakpoints of HW4/ins.cpp: a memory `orig` that the
-- program would have without them, with bytes covered by the trap instruction 0xcc.
pub mod Cover
pub mod Edits
pub mod Arm
pub mod Restart
pub mod Script
mod Resume
pub mod Sessions
use advanced_programmin.Prelude.{
  ℕ, ◌^◌, ◌<◌, ◌≡◌, true, false, Bool, ◌||◌, ◌⊎◌, List, [], ◌∷◌, All, ◌==◌,
}
use advanced_programmin.Sdb.Types.{Bp}
use advanced_programmin.Sdb.Os.{Os, Ptrace}
use advanced_programmin.Sdb.Exec.{World}
use advanced_programmin.Sdb.Memory.{add64}

-- Whether a breakpoint stands at the address `b`.
unfoldable pub covered : ℕ → ℕ → List Bp → Bool
covered base b [] = false
covered base b (bp ∷ bps) = add64 base bp.addr == b || covered base b bps

-- Every byte is that of `orig`, but that a byte under a breakpoint may be 0xcc; each breakpoint
-- has saved the byte of `orig` that it covers, and can be reached.
pub record Shadows (os : Os) (pt : Ptrace os) (orig : ℕ → ℕ) (w : World os.Kernel) : Type 0 where
  pub saved : All (λ bp. bp.ovalue ≡ orig (add64 w.program.base_address bp.addr)) w.program.bplist
  pub mapped :
      All
        (λ bp. pt.Mapped w.program.pid w.kernel (add64 w.program.base_address bp.addr))
        w.program.bplist
  pub outside :
      (b : ℕ)
      → covered w.program.base_address b w.program.bplist ≡ false
      → pt.byte w.program.pid w.kernel b ≡ orig b
  pub inside :
      (b : ℕ)
      → covered w.program.base_address b w.program.bplist ≡ true
      → (pt.byte w.program.pid w.kernel b ≡ 0xcc) ⊎ (pt.byte w.program.pid w.kernel b ≡ orig b)
