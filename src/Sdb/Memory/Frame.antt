-- ===== src/Sdb/Memory/Frame.antt =====
-- HW4/util.cpp, `change_byte`, over any kernel: it returns a byte or ends the debugger, and the
-- debugger's variables stay as they were.
use Prim.Native.Nat.{bit_and, bit_or}
use advanced_programmin.Prelude.{ℕ, ◌<◌, ◌≡◌, refl, arith, ◌⊎◌, inl, inr, Option-cases, ◌∷◌, ◌%◌}
use advanced_programmin.Sdb.Os.{Os}
use advanced_programmin.Sdb.Exec.{World, Outcome, done, stopped, exited, err, ◌>>=◌}
use advanced_programmin.Sdb.Types.{Program}
use advanced_programmin.Sdb.Exec.Maintains.{Maintains}
use advanced_programmin.Sdb.Memory.{change_byte}

module _ (os : Os) where
  -- what `change_byte` can do to a world
  abbrev pub Changed : World os.Kernel → Outcome os.Kernel ℕ → Type 0
  Changed w r =
      ((o : ℕ) × (k : os.Kernel) × (o < 256) × (r ≡ done o (record w { kernel = k })))
      ⊎ (r ≡ stopped (exited 255) (record w { out = err "** ptrace(POKETEXT)" ∷ w.out }))

  pub change_byte-Changed : (a v : ℕ) (w : World os.Kernel) → Changed w (change_byte os a v w)
  unfolding change_byte ◌>>=◌
  change_byte-Changed a v w =
      let x = os.peek w.program.pid a w.kernel in
      let y = bit_or (bit_and x 0xffff_ffff_ffff_ff00) v in
      elim (Option-cases (os.poke w.program.pid a y w.kernel)) [
        | inl e ↦ rw e (inr refl)
        | inr (k, e) ↦ rw e (inl (x % 256, k, omega arith, refl))
      ]

  pub Maintains-change_byte : {P : Program → Type 0} (a v : ℕ) → Maintains P (change_byte os a v)
  Maintains-change_byte a v = record {
    at = λ w h. elim (change_byte-Changed a v w) [ inl (o, k, lt, e) ↦ rw e h | inr e ↦ rw e h ];
  }
