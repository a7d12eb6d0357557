-- ===== src/Logger/Calls/Output.antt =====
-- HW2/logger.c: what a call's line needs, the buffer's excerpt, the stream's name and the file for
-- the log.
use advanced_programmin.Prelude.{
  ℕ, zero, suc, ◌^◌, ◌≡◌, ◌≢◌, inl, inr, refl, ap, sym, ◌∙◌, Bool, true, false, Option, none, some,
  List, [], ◌∷◌, ◌++◌, length, ◌==◌, leb, ltb, if◌then◌else◌, Bool-cases, arith,
}
use advanced_programmin.Prelude.Int.{ℤ, pos, negsuc, bits, to_int, to_i32}
use advanced_programmin.Logger.{
  Libc, World, Line, memcpy, getoutputfile, log, getfilename, getfilename_fd, getstring, excerpt,
  ◌>>=◌,
}
use advanced_programmin.Logger.Calls.{readable, small, Ready}

memcpy_lem :
    (n : ℕ) (object : List ℕ)
    → leb n (length object) ≡ true
    → (str : List ℕ) × (memcpy n object ≡ some str)
memcpy_lem zero object h = ([], refl)
memcpy_lem (suc n) [] h = absurd (ground arith)
memcpy_lem (suc n) (b ∷ object) h =
    let (str, e) = memcpy_lem n object (ground arith) in (b ∷ str, rw e refl)

pub to_i32_lem : (n : ℕ) → ltb n (2 ^ 31) ≡ true → to_i32 (pos n) ≡ pos n
to_i32_lem n h = ground arith

pub to_int_lem : (n : ℕ) → ltb n (2 ^ 31) ≡ true → to_int n ≡ pos n
to_int_lem n h = ground arith

pub small_lem : (z : ℤ) → small z ≡ true → to_i32 z ≡ z
small_lem (pos n) h = ground arith
small_lem (negsuc n) h = ground arith

pub wide : (n : ℕ) → ltb n (2 ^ 31) ≡ true → bits 64 (to_int n) ≡ n
wide n h = ground arith

pub taken : {A : Type 0} {b : Bool} {x : A} (y : A) → b ≡ true → (if b then x else y) ≡ x
taken y e = rw e refl

pub bound : {A B : Type 0} {o : Option A} {x : A} (f : A → Option B) → o ≡ some x → (o >>= f) ≡ f x
bound f e = ap (λ o. o >>= f) e

module _ (c : Libc) where
  pub small_readable : (n : ℕ) (object : List ℕ) → readable n object ≡ true → ltb n (2 ^ 31) ≡ true
  small_readable n object h = ground arith

  pub excerpt_lem :
      (n : ℕ) (object : List ℕ)
      → readable n object ≡ true
      → (str : List ℕ) × (excerpt c (pos n) object ≡ some str)
  unfolding excerpt
  excerpt_lem n object h =
      let (str, e) = memcpy_lem (if ltb 32 n then 32 else n) object (ground arith) in
      (getstring c str, rw (excerpt, e) refl)

  pub filename_lem :
      (file : ℕ) (k : c.Kernel)
      → (file == 0) ≡ false
      → (name : List ℕ) × (getfilename c file k ≡ some name)
  unfolding getfilename
  filename_lem file k h = (getfilename_fd c (c.fileno file k) k, rw (getfilename, h) refl)

  -- What a line adds to the world.
  pub record Logged (line : Line) (w after : World c.Kernel) : Type 0 where
    pub kernel : after.kernel ≡ w.kernel
    pub lines : after.lines ≡ w.lines ++ (line ∷ [])
    pub still : (x : c.Kernel) → Ready c after x

  nonzero : (n : ℕ) → n ≢ 0 → (n == 0) ≡ false
  nonzero n h = ground arith

  nonzero_iff : (n : ℕ) → (n == 0) ≡ false → n ≢ 0
  nonzero_iff n h e = ground arith

  -- an open file, and the world that has it
  Opened : World c.Kernel → ℕ × World c.Kernel → Type 0
  Opened w (file, after) = ((file == 0) ≡ false) × (after ≡ record w { output_file = file })

  output_lem :
      (w : World c.Kernel)
      → Ready c w w.kernel
      → (out : ℕ × World c.Kernel) × (getoutputfile c w ≡ some out) × Opened w out
  unfolding getoutputfile Opened
  output_lem w h = elim (Bool-cases (w.output_file == 0)) [
    | inr e ↦ ((w.output_file, w), rw (getoutputfile, e) refl, (e, refl))
    | inl e ↦ elim h.output [
      | inl n ↦ absurd (ground arith)
      | inr (fd, efd, open_) ↦ (
        (c.fdopen fd w.kernel, record w { output_file = c.fdopen fd w.kernel }),
        rw (getoutputfile, e)
            (ap {A = Option ℤ} {B = Option (ℕ × World c.Kernel)}
              (λ o. elim o [
                | none ↦ none
                | some d ↦
                    some (c.fdopen d w.kernel, record w { output_file = c.fdopen d w.kernel })
              ])
              efd),
        (nonzero (c.fdopen fd w.kernel) open_, refl),
      )
    ]
  ]

  pub log_lem :
      (line : Line) (w : World c.Kernel)
      → Ready c w w.kernel
      → (after : World c.Kernel) × (log c line w ≡ some after) × Logged line w after
  unfolding log Opened
  log_lem line w h =
      let ((file, next), e, (set, changed)) = output_lem w h in
      (
        record next { lines = next.lines ++ (line ∷ []) },
        rw (log, e, set) refl,
        record {
          kernel = ap (λ x. x.kernel) changed;
          lines = ap (λ x. x.lines ++ (line ∷ [])) changed;
          still = λ x. record {
            found = h.found;
            output = inl (λ z. nonzero_iff file set (sym (ap (λ x. x.output_file) changed) ∙ z));
          };
        },
      )
