-- ===== src/Sdb/Breakpoints/Twice.antt =====
-- HW4/ins.cpp, `insbreak` at an address that has a breakpoint.
use advanced_programmin.Sdb.Breakpoints.{
  pure, Status, success, failure, is_running, has_addr, setbreak, break_at, insbreak,
}
use advanced_programmin.Sdb.Exec.{continue, World, Outcome, done, stopped, ◌>>=◌}
use advanced_programmin.Prelude.{
  ℕ, ◌≡◌, refl, subst, arith, true, String, List, [], ◌∷◌, ◌++◌, inl, inr, Bool-cases,
}
use advanced_programmin.Sdb.Types.{Bp}
use advanced_programmin.Sdb.Os.{Os}
use advanced_programmin.Sdb.Scan.{Converted, value, invalid_argument, out_of_range, stoul16}
use advanced_programmin.Sdb.Memory.{add64}
use advanced_programmin.Sdb.Memory.Frame.{change_byte-Changed}

has_addr-append :
    (a : ℕ) (bps : List Bp) (bp : Bp) → bp.addr ≡ a → has_addr a (bps ++ (bp ∷ [])) ≡ true
unfolding has_addr
has_addr-append a [] bp e = ground (arith, e)
has_addr-append a (c ∷ bps) bp e = ground (arith, has_addr-append a bps bp e)

module _ (os : Os) where
  -- Whatever a first `setbreak` made, a second one at the address finds it and changes nothing.
  abbrev Settled : ℕ → Outcome os.Kernel Status → Type 0
  Settled addr (done s w) =
      (setbreak os addr w ≡ done failure w) × (is_running w.program.state ≡ true)
  Settled addr (stopped s w) = Unit

  setbreak-Settled :
      (addr : ℕ) (w : World os.Kernel)
      → is_running w.program.state ≡ true
      → Settled addr (setbreak os addr w)
  unfolding setbreak ◌>>=◌
  setbreak-Settled addr w r = elim (Bool-cases (has_addr addr w.program.bplist)) [
    | inl e ↦ rw e (rw e (refl, r))
    | inr e ↦ elim (change_byte-Changed os (add64 w.program.base_address addr) 0xcc w) [
      | inr q ↦ rw e (rw q tt)
      | inl (o, k, lt, q) ↦
          let again =
            has_addr-append addr w.program.bplist (record { addr = addr; ovalue = o }) refl in
          rw e (rw q (rw again (refl, r)))
    ]
  ]

  abbrev Again : String → Outcome os.Kernel Status → Type 0
  Again arg (done s w) = insbreak os (arg ∷ []) w ≡ done success w
  Again arg (stopped s w) = Unit

  Settled-Again :
      (arg : String) (n : ℕ) (o : Outcome os.Kernel Status)
      → stoul16 arg ≡ value n
      → Settled n o
      → Again arg (continue o (λ _. pure success))
  unfolding insbreak break_at ◌>>=◌
  Settled-Again arg n (done s w) e h = rw h.1 (rw e (rw h.0 refl))
  Settled-Again arg n (stopped s w) e h = tt

  insbreak-Again :
      (arg : String) (w : World os.Kernel) (c : Converted ℕ)
      → stoul16 arg ≡ c
      → is_running w.program.state ≡ true
      → Again arg (insbreak os (arg ∷ []) w)
  unfolding insbreak break_at ◌>>=◌
  insbreak-Again arg w (value n) e r =
      rw r (rw e (Settled-Again arg n (setbreak os n w) e (setbreak-Settled n w r)))
  insbreak-Again arg w invalid_argument e r = rw r (rw e tt)
  insbreak-Again arg w out_of_range e r = rw r (rw e tt)

  -- A breakpoint is set once: where break has returned for an address while a process runs, break
  -- at the same address again succeeds, and changes neither the list nor the process.
  pub insbreak-insbreak :
      (arg : String) (s : Status) (w w' : World os.Kernel)
      → is_running w.program.state ≡ true
      → insbreak os (arg ∷ []) w ≡ done s w'
      → insbreak os (arg ∷ []) w' ≡ done success w'
  insbreak-insbreak arg s w w' r e = subst (Again arg) e (insbreak-Again arg w (stoul16 arg) refl r)
