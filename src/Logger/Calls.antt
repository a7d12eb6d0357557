-- ===== src/Logger/Calls.antt =====
-- HW2/logger.c: the calls of a traced program, with the library and without.
pub mod Output
pub mod Faithful
pub mod Faults
use advanced_programmin.Prelude.{
  ℕ, zero, suc, ◌*◌, ◌^◌, ◌≤◌, ◌<◌, ◌≡◌, ◌≢◌, ◌⊎◌, inl, inr, refl, Bool, true, false, ◌&&◌, not,
  Option, none, some, List, [], ◌∷◌, ◌++◌, length, ◌==◌, leb, ltb, if◌then◌else◌, arith,
}
use advanced_programmin.Prelude.Int.{ℤ, pos, negsuc, bits, to_int, to_i32}
use advanced_programmin.Logger.{
  Libc, World, Field, decimal, unsigned, pointer, Symbol, s_chmod, s_chown, s_close, s_creat,
  s_fclose, s_fopen, s_fread, s_fwrite, s_open, s_read, s_remove, s_rename, s_tmpfile, s_write,
  Line, ◌>>=◌, memcpy, getoutputfile, log, getfilename, excerpt,
}
use advanced_programmin.Logger.Hooks

-- A call, with what its arguments point to; the third argument of `open` is there if the flags ask for it.
pub data Call : Type 0 where
  chmod : List ℕ → ℕ → Call
  chown : List ℕ → ℕ → ℕ → Call
  close : ℤ → Call
  creat : List ℕ → ℕ → Call
  fclose : ℕ → Call
  fopen : List ℕ → List ℕ → Call
  fread : ℕ → ℕ → ℕ → Call
  fwrite : List ℕ → ℕ → ℕ → ℕ → Call
  open_file : List ℕ → ℤ → ℕ → Call
  read : ℤ → ℕ → Call
  remove : List ℕ → Call
  rename : List ℕ → List ℕ → Call
  tmpfile : Call
  write : ℤ → List ℕ → ℕ → Call

-- What the program gets: a result, with the buffer where there is one.
pub data Answer : Type 0 where
  int : ℤ → Answer
  size : ℕ → Answer
  stream : ℕ → Answer
  filled : ℤ → List ℕ → Answer
  items : ℕ → List ℕ → Answer

abbrev pub symbol : Call → Symbol
symbol (chmod pathname mode) = s_chmod
symbol (chown pathname owner group) = s_chown
symbol (close fd) = s_close
symbol (creat pathname mode) = s_creat
symbol (fclose file) = s_fclose
symbol (fopen pathname mode) = s_fopen
symbol (fread n nmemb file) = s_fread
symbol (fwrite object n nmemb file) = s_fwrite
symbol (open_file pathname flags mode) = s_open
symbol (read fd count) = s_read
symbol (remove pathname) = s_remove
symbol (rename oldpath newpath) = s_rename
symbol tmpfile = s_tmpfile
symbol (write fd object count) = s_write

-- The last field of a line, from what the program gets.
abbrev pub result_of : Answer → Field
result_of (int n) = decimal n
result_of (size n) = unsigned n
result_of (stream n) = pointer n
result_of (filled n object) = unsigned (bits 64 n)
result_of (items n object) = unsigned n

abbrev pub answer {ℓ} : {A : Type 0} {K : Type ℓ} → (A → Answer) → A × K → Answer × K
answer f (a, k) = (f a, k)

abbrev pub answers {ℓ} :
    {A : Type 0} {K : Type ℓ} → (A → Answer) → Option (A × K) → Option (Answer × K)
answers f none = none
answers f (some r) = some (answer f r)

abbrev pub filled_pair : ℤ × List ℕ → Answer
filled_pair (n, object) = filled n object

abbrev pub items_pair : ℕ × List ℕ → Answer
items_pair (n, object) = items n object

-- The excerpt of so many bytes can be taken from the object.
abbrev pub readable : ℕ → List ℕ → Bool
readable n object =
    if ltb n (2 ^ 31) then leb (if ltb 32 n then 32 else n) (length object) else false

abbrev pub small : ℤ → Bool
small (pos n) = ltb n (2 ^ 31)
small (negsuc n) = ltb n (2 ^ 31)

module _ (c : Libc) where
  -- The call with the library, and as the system has it.
  unfoldable pub hook : Call → World c.Kernel → Option (Answer × World c.Kernel)
  hook (chmod pathname mode) w = answers int (Hooks.chmod c pathname mode w)
  hook (chown pathname owner group) w = answers int (Hooks.chown c pathname owner group w)
  hook (close fd) w = answers int (Hooks.close c fd w)
  hook (creat pathname mode) w = answers int (Hooks.creat c pathname mode w)
  hook (fclose file) w = answers int (Hooks.fclose c file w)
  hook (fopen pathname mode) w = answers stream (Hooks.fopen c pathname mode w)
  hook (fread n nmemb file) w = answers items_pair (Hooks.fread c n nmemb file w)
  hook (fwrite object n nmemb file) w = answers size (Hooks.fwrite c object n nmemb file w)
  hook (open_file pathname flags mode) w = answers int (Hooks.open_file c pathname flags mode w)
  hook (read fd count) w = answers filled_pair (Hooks.read c fd count w)
  hook (remove pathname) w = answers int (Hooks.remove c pathname w)
  hook (rename oldpath newpath) w = answers int (Hooks.rename c oldpath newpath w)
  hook tmpfile w = answers stream (Hooks.tmpfile c w)
  hook (write fd object count) w = answers int (Hooks.write c fd object count w)

  abbrev pub real : Call → c.Kernel → Answer × c.Kernel
  real (chmod pathname mode) k = answer int (c.chmod pathname mode k)
  real (chown pathname owner group) k = answer int (c.chown pathname owner group k)
  real (close fd) k = answer int (c.close fd k)
  real (creat pathname mode) k = answer int (c.creat pathname mode k)
  real (fclose file) k = answer int (c.fclose file k)
  real (fopen pathname mode) k = answer stream (c.fopen pathname mode k)
  real (fread n nmemb file) k = answer items_pair (c.fread n nmemb file k)
  real (fwrite object n nmemb file) k = answer size (c.fwrite object n nmemb file k)
  real (open_file pathname flags mode) k =
      answer int (c.open_file pathname flags (if c.needs_mode flags then some mode else none) k)
  real (read fd count) k = answer filled_pair (c.read fd count k)
  real (remove pathname) k = answer int (c.remove pathname k)
  real (rename oldpath newpath) k = answer int (c.rename oldpath newpath k)
  real tmpfile k = answer stream (c.tmpfile k)
  real (write fd object count) k = answer int (c.write fd object count k)

  -- Where the library is out of the way: no mode for `open`, results that an `int` holds, streams
  -- that are there, and bytes for the excerpt, which an error of `read` does not have.
  abbrev pub safe : Call → Answer → Bool
  safe (fclose file) a = not (file == 0)
  safe (fread n nmemb file) (items re object) = if file == 0 then false else readable re object
  safe (fwrite object n nmemb file) (size re) =
      if file == 0 then false else if ltb re (2 ^ 31) then readable (n * nmemb) object else false
  safe (open_file pathname flags mode) a = not (c.needs_mode flags)
  safe (read fd count) (filled (pos re) object) = readable re object
  safe (read fd count) (filled (negsuc re) object) = false
  safe tmpfile (stream re) = not (re == 0)
  safe (write fd object count) (int re) = if small re then readable count object else false
  safe c' a = true

  -- Every function is found, and there is a file for the log, or the descriptor for it can be opened
  -- at the kernel `k`.
  pub record Ready (w : World c.Kernel) (k : c.Kernel) : Type 0 where
    pub found : (s : Symbol) → c.dlsym s ≡ true
    pub output : (w.output_file ≢ 0) ⊎ ((fd : ℤ) × (w.output_fd ≡ some fd) × (c.fdopen fd k ≢ 0))

  -- The answer and the kernel of the real call, one more line, under the function's name, and the
  -- library ready again.
  pub record Transparent (call : Call) (w : World c.Kernel) (r : Option (Answer × World c.Kernel))
      : Type 0 where
    pub after : World c.Kernel
    pub line : Line
    pub returned : r ≡ some ((real call w.kernel).0, after)
    pub same_kernel : after.kernel ≡ (real call w.kernel).1
    pub logged : after.lines ≡ w.lines ++ (line ∷ [])
    pub named : line.function ≡ symbol call
    pub shown : line.result ≡ result_of (real call w.kernel).0
    pub still : (x : c.Kernel) → Ready after x
