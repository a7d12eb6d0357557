-- ===== src/Logger/Calls/Faults.antt =====
-- HW2/logger.c: the calls that the library makes undefined, and the mode that `open` loses.
use advanced_programmin.Prelude.{
  ℕ, ◌^◌, ◌<◌, ◌≡◌, inl, inr, refl, ap, ◌∙◌, Bool, true, false, Option, none, some, List, ◌==◌, ltb,
  ltb→lt, if◌then◌else◌, Bool-cases, arith,
}
use advanced_programmin.Prelude.Int.{ℤ, pos, negsuc, to_i32}
use advanced_programmin.Logger.{
  Libc, World, s_fclose, s_fread, s_fwrite, s_open, s_read, s_tmpfile, ◌>>=◌, getfilename, excerpt,
}
use advanced_programmin.Logger.Hooks
use advanced_programmin.Logger.Calls.{
  Call, chmod, chown, close, creat, fclose, fopen, fread, fwrite, open_file, read, remove, rename,
  tmpfile, write, Answer, int, size, stream, filled, answers, filled_pair, items_pair, hook, real,
  Ready,
}
use advanced_programmin.Logger.Calls.Output.{taken, bound, log_lem}

bound_none : {A B : Type 0} {o : Option A} (f : A → Option B) → o ≡ none → (o >>= f) ≡ none
bound_none f e = ap (λ o. o >>= f) e

passed : {A : Type 0} {b : Bool} {y : A} (x : A) → b ≡ false → (if b then x else y) ≡ y
passed x e = rw e refl

below : (n : ℕ) → n < 2 ^ 31 → to_i32 (negsuc n) ≡ negsuc n
below n h = ground arith

-- the same end whatever the first result is
all_none :
    {A B : Type 0} (o : Option A) (f : A → Option B) → ((x : A) → f x ≡ none) → (o >>= f) ≡ none
all_none none f h = refl
all_none (some x) f h = h x

-- either way there is no result
both_none : {A : Type 0} (b : Bool) (o : Option A) → o ≡ none → (if b then o else none) ≡ none
both_none true o h = h
both_none false o h = refl

module _ (c : Libc) where
  -- A null stream, for the functions that ask for its name, `tmpfile` without a file, and an error of
  -- `read`.
  abbrev pub faulty : Call → Answer → Bool
  faulty (fclose file) a = file == 0
  faulty (fread n nmemb file) a = file == 0
  faulty (fwrite object n nmemb file) a = file == 0
  faulty (read fd count) (filled (negsuc n) object) = ltb n (2 ^ 31)
  faulty tmpfile (stream re) = re == 0
  faulty call a = false

  no_name : (file : ℕ) (k : c.Kernel) → (file == 0) ≡ true → getfilename c file k ≡ none
  unfolding getfilename
  no_name file k h = rw (getfilename, h) refl

  read_fault :
      (fd : ℤ) (count n : ℕ) (w : World c.Kernel)
      → n < 2 ^ 31
      → (c.read fd count w.kernel).0.0 ≡ negsuc n
      → hook c (Call.read fd count) w ≡ none
  unfolding hook Hooks.read excerpt
  read_fault fd count n w small failed =
      let ((ret, object), k) = c.read fd count w.kernel in
      let once : to_i32 ret ≡ negsuc n = ap (to_i32) failed ∙ below n small in
      let twice : to_i32 (to_i32 ret) ≡ negsuc n = ap (to_i32) once ∙ below n small in
      elim (Bool-cases (c.dlsym s_read)) [
        | inl found ↦
            ap (answers filled_pair)
              (taken _ found ∙ bound_none _ (ap (λ z. excerpt c z object) twice))
        | inr missing ↦ ap (answers filled_pair) (passed _ missing)
      ]

  read_faulty :
      (fd z : ℤ) (count : ℕ) (object : List ℕ)
      → faulty (read fd count) (filled z object) ≡ true
      → (n : ℕ) × (z ≡ negsuc n) × (n < 2 ^ 31)
  read_faulty fd (pos n) count object h = absurd (ground arith)
  read_faulty fd (negsuc n) count object h = (n, refl, ltb→lt n (2 ^ 31) h)

  -- With a null stream `fclose`, `fread` and `fwrite` are not defined, nor is `tmpfile` where the real
  -- one has no file, nor `read` where the real one fails with a number that an `int` holds, whatever
  -- the program would do with the error.
  pub fault_lem :
      (call : Call) (w : World c.Kernel)
      → faulty call (real c call w.kernel).0 ≡ true
      → hook c call w ≡ none
  unfolding hook Hooks.fclose Hooks.fread Hooks.fwrite Hooks.tmpfile
  fault_lem (fclose file) w h =
      ap (answers int) (both_none (c.dlsym s_fclose) _ (bound_none _ (no_name file w.kernel h)))
  fault_lem (fread n nmemb file) w h = ap (answers items_pair) (
      both_none (c.dlsym s_fread) _
        (all_none _ _ (λ str. bound_none _ (no_name file (c.fread n nmemb file w.kernel).1 h))))
  fault_lem (fwrite object n nmemb file) w h = ap (answers size) (
      both_none (c.dlsym s_fwrite) _ (
        all_none _ _
          (λ str. bound_none _ (no_name file (c.fwrite object n nmemb file w.kernel).1 h))))
  fault_lem (read fd count) w h =
      let (n, e, small) =
        read_faulty fd (c.read fd count w.kernel).0.0 count (c.read fd count w.kernel).0.1 h in
      read_fault fd count n w small e
  fault_lem tmpfile w h = ap (answers stream) (
      both_none (c.dlsym s_tmpfile) _
        (bound_none _ (no_name (c.tmpfile w.kernel).0 (c.tmpfile w.kernel).1 h)))
  fault_lem (chmod pathname mode) w h = absurd (ground arith)
  fault_lem (chown pathname owner group) w h = absurd (ground arith)
  fault_lem (close fd) w h = absurd (ground arith)
  fault_lem (creat pathname mode) w h = absurd (ground arith)
  fault_lem (fopen pathname mode) w h = absurd (ground arith)
  fault_lem (open_file pathname flags mode) w h = absurd (ground arith)
  fault_lem (remove pathname) w h = absurd (ground arith)
  fault_lem (rename oldpath newpath) w h = absurd (ground arith)
  fault_lem (write fd object count) w h = absurd (ground arith)

  -- `open`, ready for the log behind it, makes the file without the mode that the call has, and any mode gives
  -- the same result and kernel.
  open_file_lem :
      (pathname : List ℕ) (flags : ℤ) (mode : ℕ) (w : World c.Kernel)
      → Ready c w (c.open_file pathname flags none w.kernel).1
      → (after : World c.Kernel) × (Hooks.open_file c pathname flags mode w
          ≡ some ((c.open_file pathname flags none w.kernel).0, after))
        × (after.kernel ≡ (c.open_file pathname flags none w.kernel).1)
  unfolding Hooks.open_file Hooks.told
  open_file_lem pathname flags mode w h =
      let k = (c.open_file pathname flags none w.kernel).1 in
      let (after, e, logged) =
        log_lem c _ (record w { kernel = k }) (record { found = h.found; output = h.output }) in
      (after, taken _ (h.found s_open) ∙ bound _ e, logged.kernel)
