-- ===== src/Sdb/Invariant/Rearm.antt =====
-- HW4/start.cpp: the loop that writes the breakpoints into a new process keeps their addresses.
use advanced_programmin.Sdb.Exec.{pure, continue, World, Outcome, done, stopped, ◌>>=◌}
use advanced_programmin.Sdb.Run.{rearm_with, arm_fresh, rearm}
use advanced_programmin.Prelude.{ℕ, ◌<◌, ◌≡◌, refl, arith, false, inl, inr, List, [], ◌∷◌, All}
use advanced_programmin.Sdb.Types.{Bp}
use advanced_programmin.Sdb.Os.{Os}
use advanced_programmin.Sdb.Exec.Maintains.{Maintains, after}
use advanced_programmin.Sdb.Memory.{add64}
use advanced_programmin.Sdb.Memory.Frame.{change_byte-Changed}
use advanced_programmin.Sdb.Breakpoints.{has_addr}
use advanced_programmin.Sdb.Invariant.{Distinct, InRange, WellFormed}

-- The same addresses in the same order, each with a byte.
abbrev pub Rearmed : List Bp → List Bp → Type 0
Rearmed [] [] = Unit
Rearmed (b ∷ bs) (a ∷ as') = (a.addr ≡ b.addr) × (a.ovalue < 256) × Rearmed bs as'
Rearmed _ _ = ⊥

has_addr-Rearmed :
    (x : ℕ) (bs as' : List Bp) → Rearmed bs as' → has_addr x bs ≡ false → has_addr x as' ≡ false
unfolding has_addr
has_addr-Rearmed x [] [] r h = refl
has_addr-Rearmed x [] (a ∷ as') r h = absurd r
has_addr-Rearmed x (b ∷ bs) [] r h = absurd r
has_addr-Rearmed x (b ∷ bs) (a ∷ as') r h = ground (arith, has_addr-Rearmed x bs as')

pub Distinct-Rearmed : (bs as' : List Bp) → Rearmed bs as' → Distinct bs → Distinct as'
Distinct-Rearmed [] [] r d = tt
Distinct-Rearmed [] (a ∷ as') r d = absurd r
Distinct-Rearmed (b ∷ bs) [] r d = absurd r
Distinct-Rearmed (b ∷ bs) (a ∷ as') r d =
    (rw r.0 (has_addr-Rearmed b.addr bs as' r.2 d.0), Distinct-Rearmed bs as' r.2 d.1)

pub InRange-Rearmed : (bs as' : List Bp) → Rearmed bs as' → All InRange bs → All InRange as'
InRange-Rearmed [] [] r d = tt
InRange-Rearmed [] (a ∷ as') r d = absurd r
InRange-Rearmed (b ∷ bs) [] r d = absurd r
InRange-Rearmed (b ∷ bs) (a ∷ as') r d = ((rw r.0 d.0.0, r.1), InRange-Rearmed bs as' r.2 d.1)

pub Rearmed-nil : (bs as' : List Bp) → Rearmed bs as' → bs ≡ [] → as' ≡ []
Rearmed-nil [] [] r e = refl
Rearmed-nil [] (a ∷ as') r e = absurd r
Rearmed-nil (b ∷ bs) as' r e = cc

module _ (os : Os) where
  abbrev pub ArmedOutcome : World os.Kernel → List Bp → Outcome os.Kernel (List Bp) → Type 0
  ArmedOutcome w bps (done armed w') = (w'.program ≡ w.program) × Rearmed bps armed
  ArmedOutcome w bps (stopped s w') = w'.program ≡ w.program

  ArmedOutcome-cons :
      (bp : Bp) (bps : List Bp) (o : ℕ) (w : World os.Kernel) (r : Outcome os.Kernel (List Bp))
      → o < 256
      → ArmedOutcome w bps r
      → ArmedOutcome w (bp ∷ bps) (continue r (λ rest. pure (record bp { ovalue = o } ∷ rest)))
  unfolding ◌>>=◌
  ArmedOutcome-cons bp bps o w (done armed w') lt h = (h.0, (refl, lt, h.1))
  ArmedOutcome-cons bp bps o w (stopped s w') lt h = h

  pub arm_fresh-Rearmed :
      (base : ℕ) (bps : List Bp) (w : World os.Kernel)
      → ArmedOutcome w bps (arm_fresh os base bps w)
  unfolding arm_fresh ◌>>=◌
  arm_fresh-Rearmed base [] w = (refl, tt)
  arm_fresh-Rearmed base (bp ∷ bps) w = elim (change_byte-Changed os (add64 base bp.addr) 0xcc w) [
    | inr e ↦ rw e refl
    | inl (o, k, o_lt, e) ↦
        rw e (
          ArmedOutcome-cons bp bps o w _ o_lt
            (arm_fresh-Rearmed base bps (record w { kernel = k })))
  ]

  rearmed-WellFormed :
      (w : World os.Kernel) (r : Outcome os.Kernel (List Bp))
      → WellFormed w.program
      → ArmedOutcome w w.program.bplist r
      → WellFormed (after (continue r (rearm_with os))).program
  unfolding rearm_with ◌>>=◌
  rearmed-WellFormed w (done armed w') h r = rw r.0 (record {
    distinct = Distinct-Rearmed w.program.bplist armed r.1 h.distinct;
    in_range = InRange-Rearmed w.program.bplist armed r.1 h.in_range;
    text_size = h.text_size;
    unloaded = λ n. Rearmed-nil w.program.bplist armed r.1 (h.unloaded n);
  })
  rearmed-WellFormed w (stopped s w') h r = rw r h

  pub rearm-WellFormed : (base : ℕ) → Maintains WellFormed (rearm os base)
  unfolding rearm ◌>>=◌
  rearm-WellFormed base = record {
    at = λ w h.
        rearmed-WellFormed w (arm_fresh os base w.program.bplist w) h
          (arm_fresh-Rearmed base w.program.bplist w);
  }
