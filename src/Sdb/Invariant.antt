-- ===== src/Sdb/Invariant.antt =====
-- What holds of the debugger's global `program` between two commands of HW4/ins.cpp.
pub mod Lists
pub mod Rearm
pub mod Edits
pub mod Writes
pub mod Process
pub mod Loading
pub mod Script
pub mod Start
use advanced_programmin.Prelude.{ℕ, ◌^◌, ◌<◌, ◌≡◌, false, List, [], ◌∷◌, All, length}
use advanced_programmin.Sdb.Types.{State, Bp, Program}
use advanced_programmin.Sdb.Breakpoints.{has_addr}

-- No two breakpoints have one address.
abbrev pub Distinct : List Bp → Type 0
Distinct [] = Unit
Distinct (bp ∷ bps) = (has_addr bp.addr bps ≡ false) × Distinct bps

abbrev pub InRange : Bp → Type 0
InRange bp = (bp.addr < 2 ^ 64) × (bp.ovalue < 256)

pub record WellFormed (p : Program) : Type 0 where
  pub distinct : Distinct p.bplist
  pub in_range : All InRange p.bplist
  pub text_size : length p.text.bytes ≡ p.text.size
  pub unloaded : p.state ≡ State.none → p.bplist ≡ []
