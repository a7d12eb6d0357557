-- ===== src/Sdb/Breakpoints/Numbers.antt =====
-- HW4/ins.cpp, `insdelete`: what the command makes of a number.
use advanced_programmin.Prelude.{
  zero, suc, List, Option, ℕ, ◌≡◌, ◌<◌, ◌^◌, refl, arith, subst, true, false, some, none, String,
  [], ◌∷◌, length, leb, All, get_elem?,
}
use advanced_programmin.Prelude.Int.{ℤ, pos, negsuc, to_int}
use advanced_programmin.Sdb.Types.{Bp}
use advanced_programmin.Sdb.Os.{Os, Ptrace}
use advanced_programmin.Sdb.Exec.{World, Outcome, done, stopped, undefined, ◌>>=◌}
use advanced_programmin.Sdb.Scan.{value, stoi}
use advanced_programmin.Sdb.Memory.{add64}
use advanced_programmin.Sdb.Memory.Writes.{ByteWritten}
use advanced_programmin.Sdb.Invariant.{WellFormed}
use advanced_programmin.Sdb.Overlay.Cover.{All-nth}
use advanced_programmin.Sdb.Overlay.Edits.{remove_bp_lem, without_bp}
use advanced_programmin.Sdb.Breakpoints.{
  Status, success, failure, is_running, delete_nth, delete_bp, delete_at, insdelete,
}

to_int-small : (n : ℕ) → n < 2 ^ 31 → to_int n ≡ pos n
to_int-small n lt = ground arith

-- what a position says of the bound
abbrev Bound : {A : Type 0} → List A → ℕ → Option A → Type 0
Bound xs i (some x) = leb (length xs) i ≡ false
Bound xs i none = leb (length xs) i ≡ true

shifted :
    {A : Type 0} (x : A) (xs : List A) (i : ℕ) (o : Option A)
    → Bound xs i o
    → Bound (x ∷ xs) (suc i) o
shifted x xs i (some y) h = ground arith
shifted x xs i none h = ground arith

get_elem?-Bound : {A : Type 0} (xs : List A) (i : ℕ) → Bound xs i (get_elem? xs i)
get_elem?-Bound [] i = ground arith
get_elem?-Bound (x ∷ xs) zero = ground arith
get_elem?-Bound (x ∷ xs) (suc i) = shifted x xs i (get_elem? xs i) (get_elem?-Bound xs i)

module _ (os : Os) (pt : Ptrace os) where
  -- The end of delete with what stands at a number: the saved byte of the breakpoint written over
  -- that byte alone, and the breakpoint, and no other, gone from the list; or nothing.
  abbrev pub Erased : Option Bp → ℕ → World os.Kernel → Outcome os.Kernel Status → Type 0
  Erased (some bp) i w o =
      (k : os.Kernel) × (o ≡ done success (without_bp os pt (λ a. 0) w k i))
      × ByteWritten os pt w.program.pid w.kernel k (add64 w.program.base_address bp.addr) bp.ovalue
  Erased none i w o = o ≡ done failure w

  abbrev pub Deleted : ℤ → World os.Kernel → Outcome os.Kernel Status → Type 0
  Deleted (pos i) w o = Erased (get_elem? w.program.bplist i) i w o
  Deleted (negsuc k) w o = o ≡ stopped undefined w

  numbered :
      (arg : String) (i : ℕ) (w : World os.Kernel) (found : Option Bp)
      → get_elem? w.program.bplist i ≡ found
      → is_running w.program.state ≡ true
      → length w.program.bplist < 2 ^ 31
      → stoi arg ≡ value (pos i)
      → WellFormed w.program
      → All
          (λ bp. pt.Mapped w.program.pid w.kernel (add64 w.program.base_address bp.addr))
          w.program.bplist
      → Erased found i w (insdelete os (arg ∷ []) w)
  unfolding insdelete delete_at delete_bp delete_nth ◌>>=◌
  numbered arg i w (some bp) at r lt e h m =
      let len = to_int-small (length w.program.bplist) lt in
      let out : leb (length w.program.bplist) i ≡ false =
        subst (Bound w.program.bplist i) at (get_elem?-Bound w.program.bplist i) in
      let (k, q, written) =
        remove_bp_lem os pt (λ a. 0) i w bp at (All-nth _ w.program.bplist i h.in_range at).1
          (All-nth _ w.program.bplist i m at) in
      (k, rw r (rw e (rw len (rw out q))), written)
  numbered arg i w none at r lt e h m =
      let len = to_int-small (length w.program.bplist) lt in
      let out : leb (length w.program.bplist) i ≡ true =
        subst (Bound w.program.bplist i) at (get_elem?-Bound w.program.bplist i) in
      rw r (rw e (rw len (rw out refl)))

  -- While a process runs, the data are well formed, every breakpoint is mapped and the list is
  -- shorter than 2 ^ 31, delete with the number of a breakpoint succeeds, writes the saved byte of
  -- that breakpoint back over that byte alone, and takes that entry and no other from the list; with
  -- a number that no breakpoint has it fails and changes nothing, and with a negative number it reads
  -- the list outside its bounds.
  pub insdelete_lem :
      (arg : String) (n : ℤ) (w : World os.Kernel)
      → is_running w.program.state ≡ true
      → length w.program.bplist < 2 ^ 31
      → stoi arg ≡ value n
      → WellFormed w.program
      → All
          (λ bp. pt.Mapped w.program.pid w.kernel (add64 w.program.base_address bp.addr))
          w.program.bplist
      → Deleted n w (insdelete os (arg ∷ []) w)
  unfolding insdelete delete_at delete_bp delete_nth ◌>>=◌
  insdelete_lem arg (pos i) w r lt e h m =
      numbered arg i w (get_elem? w.program.bplist i) refl r lt e h m
  insdelete_lem arg (negsuc k) w r lt e h m =
      let len = to_int-small (length w.program.bplist) lt in rw r (rw e (rw len refl))
