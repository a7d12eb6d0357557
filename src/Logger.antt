-- ===== src/Logger.antt =====
-- HW2/logger.c: the library that stands before the C library in a traced program, its state and its
-- helpers. Text is bytes without the zero at its end, and a `FILE *` is a number, 0 for null.
-- `none` is a run that the code does not define: a crash, or a result that nothing has set.
pub mod Hooks
pub mod Calls
pub mod Excerpts
pub mod Trace
pub mod Main
use advanced_programmin.Prelude.{
  ℕ, zero, suc, ◌+◌, ◌≤◌, ◌≡◌, Bool, true, false, String, Option, none, some, List, [], ◌∷◌, ◌++◌,
  length, take, map, ◌==◌, ltb, if◌then◌else◌,
}
use advanced_programmin.Prelude.Int.{ℤ, pos, negsuc}

-- The functions that the library takes the place of.
pub data Symbol : Type 0 where
  s_chmod s_chown s_close s_creat s_fclose s_fopen s_fread s_fwrite s_open s_read s_remove : Symbol
  s_rename s_tmpfile s_write : Symbol

-- The C library, and what it does to the system. `read` and `fread` come with the bytes of the
-- buffer afterwards. `open` has its third argument, or none; `realpath` and `readlink` fail with none.
pub record Libc : Type 1 where
  pub Kernel : Type 0
  pub dlsym : Symbol → Bool
  pub chmod : List ℕ → ℕ → Kernel → ℤ × Kernel
  pub chown : List ℕ → ℕ → ℕ → Kernel → ℤ × Kernel
  pub close : ℤ → Kernel → ℤ × Kernel
  pub creat : List ℕ → ℕ → Kernel → ℤ × Kernel
  pub fclose : ℕ → Kernel → ℤ × Kernel
  pub fopen : List ℕ → List ℕ → Kernel → ℕ × Kernel
  pub fread : ℕ → ℕ → ℕ → Kernel → (ℕ × List ℕ) × Kernel
  pub fwrite : List ℕ → ℕ → ℕ → ℕ → Kernel → ℕ × Kernel
  pub open_file : List ℕ → ℤ → Option ℕ → Kernel → ℤ × Kernel
  pub read : ℤ → ℕ → Kernel → (ℤ × List ℕ) × Kernel
  pub remove : List ℕ → Kernel → ℤ × Kernel
  pub rename : List ℕ → List ℕ → Kernel → ℤ × Kernel
  pub tmpfile : Kernel → ℕ × Kernel
  pub write : ℤ → List ℕ → ℕ → Kernel → ℤ × Kernel
  pub realpath : List ℕ → Kernel → Option (List ℕ)
  pub fileno : ℕ → Kernel → ℤ
  pub readlink : ℤ → Kernel → Option (List ℕ)
  pub fdopen : ℤ → Kernel → ℕ
  pub isprint : ℕ → Bool
  pub needs_mode : ℤ → Bool

-- An argument of `fprintf` with its conversion. A path is none where `realpath` has failed, and the
-- text is then whatever the buffer holds.
pub data Field : Type 0 where
  path : Option (List ℕ) → Field
  text : List ℕ → Field
  decimal : ℤ → Field
  unsigned : ℕ → Field
  octal : ℤ → Field
  pointer : ℕ → Field

-- A line of the log.
pub record Line : Type 0 where
  pub function : Symbol
  pub arguments : List Field
  pub result : Field

pub record World (K : Type 0) : Type 0 where
  pub kernel : K
  pub output_file : ℕ
  pub output_fd : Option ℤ
  pub lines : List Line

module _ {ℓ κ} {A : Type ℓ} {B : Type κ} where
  infixl 5 ◌>>=◌
  abbrev pub ◌>>=◌ : Option A → (A → Option B) → Option B
  none >>= f = none
  some x >>= f = f x

-- the first bytes of an object that has so many
abbrev pub memcpy : ℕ → List ℕ → Option (List ℕ)
memcpy zero object = some []
memcpy (suc n) [] = none
memcpy (suc n) (b ∷ object) = elim (memcpy n object) [ none ↦ none | some bs ↦ some (b ∷ bs) ]

module _ (c : Libc) where
  -- The static variable is set by the first call, and a null one is tried again. `atoi` of no text,
  -- and `fprintf` to a null file, are not defined.
  unfoldable pub getoutputfile : World c.Kernel → Option (ℕ × World c.Kernel)
  getoutputfile w =
      if w.output_file == 0
      then (elim w.output_fd [
        | none ↦ none
        | some fd ↦ let file = c.fdopen fd w.kernel in some (file, record w { output_file = file })
      ])
      else some (w.output_file, w)

  -- `fprintf(getoutputfile(), ...)`
  unfoldable pub log : Line → World c.Kernel → Option (World c.Kernel)
  log line w = getoutputfile w >>= λ out.
      if out.0 == 0 then none else some (record out.1 { lines = out.1.lines ++ (line ∷ []) })

  -- The name's buffer is 4096 zeros before, and `readlink` has 4095 of them.
  unfoldable pub getfilename_fd : ℤ → c.Kernel → List ℕ
  getfilename_fd fd k = elim (c.readlink fd k) [ none ↦ [] | some name ↦ take 4095 name ]

  unfoldable pub getfilename : ℕ → c.Kernel → Option (List ℕ)
  getfilename stream k = if stream == 0 then none else some (getfilename_fd (c.fileno stream k) k)

  unfoldable pub getstring : List ℕ → List ℕ
  getstring [] = []
  getstring (b ∷ str) = (if c.isprint b then b else 46) ∷ getstring str

  -- `str_size` is an `int`; as the size of a copy, a negative one is beyond every object.
  unfoldable pub excerpt : ℤ → List ℕ → Option (List ℕ)
  excerpt (negsuc n) object = none
  excerpt (pos n) object =
      memcpy (if ltb 32 n then 32 else n) object >>= λ str. some (getstring str)
