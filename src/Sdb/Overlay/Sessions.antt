-- ===== src/Sdb/Overlay/Sessions.antt =====
-- Sessions of break, delete, `checkbp` and `restore` (HW4/ins.cpp), as steps.
use mathlib.Core.Path.{subst}
use advanced_programmin.Prelude.{ℕ, ◌≡◌, refl, String, Option, [], ◌∷◌, inr}
use advanced_programmin.Sdb.Os.{Os, Ptrace}
use advanced_programmin.Sdb.Exec.{World, done}
use advanced_programmin.Sdb.Exec.Maintains.{after}
use advanced_programmin.Sdb.Scan.{value, stoul16}
use advanced_programmin.Sdb.Memory.{add64}
use advanced_programmin.Sdb.Breakpoints.{Status, insbreak, insdelete, checkbp, restore}
use advanced_programmin.Sdb.Invariant.{WellFormed}
use advanced_programmin.Sdb.Invariant.Writes.{regs-WellFormed}
use advanced_programmin.Sdb.Invariant.Edits.{insbreak-WellFormed, insdelete-WellFormed}
use advanced_programmin.Sdb.Frames.{Maintains-checkbp, Maintains-restore}
use advanced_programmin.Sdb.Overlay.{covered, Shadows}
use advanced_programmin.Sdb.Overlay.Resume.{restore-Ends}
use advanced_programmin.Sdb.Overlay.Script.{Ends, insbreak-Ends, insdelete-Ends, checkbp-Ends}

-- One command that returns. A breakpoint is set where the process has memory.
pub data Edit (os : Os) (pt : Ptrace os) (w : World os.Kernel) : World os.Kernel → Type 0 where
  broke :
      (arg : String) (s : Status) {w' : World os.Kernel}
      → ((n : ℕ)
          → stoul16 arg ≡ value n
          → pt.Mapped w.program.pid w.kernel (add64 w.program.base_address n))
      → insbreak os (arg ∷ []) w ≡ done s w'
      → Edit os pt w w'
  removed :
      (arg : String) (s : Status) {w' : World os.Kernel}
      → insdelete os (arg ∷ []) w ≡ done s w'
      → Edit os pt w w'
  restored :
      (i : ℕ) (s : Status) {w' : World os.Kernel} → restore os i w ≡ done s w' → Edit os pt w w'
  checked : (hit : Option ℕ) {w' : World os.Kernel} → checkbp os w ≡ done hit w' → Edit os pt w w'

pub data Session (os : Os) (pt : Ptrace os) (w : World os.Kernel) : World os.Kernel → Type 0 where
  here : Session os pt w w
  next : {u v : World os.Kernel} → Session os pt w u → Edit os pt u v → Session os pt w v

abbrev pub Holds : (os : Os) (pt : Ptrace os) (orig : ℕ → ℕ) → World os.Kernel → Type 0
Holds os pt orig w = WellFormed w.program × Shadows os pt orig w

module _ (os : Os) (pt : Ptrace os) (orig : ℕ → ℕ) where
  Edit-Holds : {u v : World os.Kernel} → Edit os pt u v → Holds os pt orig u → Holds os pt orig v
  Edit-Holds {u} (broke arg s m e) h = (
    subst (λ r. WellFormed (after r).program) e ((insbreak-WellFormed os (arg ∷ [])).at u h.0),
    subst (Ends (Shadows os pt orig)) e (insbreak-Ends os pt orig arg u m h.0 h.1),
  )
  Edit-Holds {u} (removed arg s e) h = (
    subst (λ r. WellFormed (after r).program) e ((insdelete-WellFormed os (arg ∷ [])).at u h.0),
    subst (Ends (Shadows os pt orig)) e (insdelete-Ends os pt orig arg u h.0 h.1),
  )
  Edit-Holds {u} (checked hit e) h = (
    subst (λ r. WellFormed (after r).program) e
        ((Maintains-checkbp os WellFormed regs-WellFormed).at u h.0),
    subst (Ends (Shadows os pt orig)) e (checkbp-Ends os pt orig u h.1),
  )
  Edit-Holds {u} (restored i s e) h = (
    subst (λ r. WellFormed (after r).program) e
        ((Maintains-restore os WellFormed regs-WellFormed i).at u h.0),
    subst (Ends (Shadows os pt orig)) e (restore-Ends os pt orig i u h.0 h.1),
  )

  -- A session of break, delete, `checkbp` and `restore` keeps the view of the process's memory: outside the breakpoints it is the program's
  -- own, under them it is the trap or the program's own byte, and what is saved is the latter.
  pub Session-Holds :
      {w v : World os.Kernel} → Session os pt w v → Holds os pt orig w → Holds os pt orig v
  Session-Holds here h = h
  Session-Holds (next r e) h = Edit-Holds e (Session-Holds r h)

module _ (os : Os) (pt : Ptrace os) where
  abbrev pub memory : World os.Kernel → ℕ → ℕ
  memory w = pt.byte w.program.pid w.kernel

  unset-Shadows : (w : World os.Kernel) → w.program.bplist ≡ [] → Shadows os pt (memory w) w
  unfolding covered
  unset-Shadows w e = record {
    saved = rw e tt;
    mapped = rw e tt;
    outside = λ b c. refl;
    inside = λ b c. inr refl;
  }

  -- A session of break, delete, `checkbp` and `restore` that starts with no breakpoint and ends
  -- with none, however many were set, met, resumed and deleted between, leaves every byte of the
  -- process's memory as it was. The process itself writes nothing in a session, and breakpoints
  -- are set where it has memory.
  pub Session-memory :
      (w v : World os.Kernel)
      → WellFormed w.program
      → w.program.bplist ≡ []
      → Session os pt w v
      → v.program.bplist ≡ []
      → (b : ℕ) → memory v b ≡ memory w b
  unfolding covered
  Session-memory w v h none_before r none_after b =
      (Session-Holds os pt (memory w) r (h, unset-Shadows w none_before)).1.outside b
        (rw none_after refl)
