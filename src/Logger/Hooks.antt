-- ===== src/Logger/Hooks.antt =====
-- HW2/logger.c: the functions that are called in place of the C library's. Each calls the function that
-- `dlsym` has found, and writes a line; where `dlsym` finds none, its result is not set.
use advanced_programmin.Prelude.{ℕ, ◌*◌, Option, none, some, List, [], ◌∷◌, if◌then◌else◌}
use advanced_programmin.Prelude.Int.{ℤ, pos, bits, to_int, to_i32}
use advanced_programmin.Logger.{
  Libc, World, Symbol, s_chmod, s_chown, s_close, s_creat, s_fclose, s_fopen, s_fread, s_fwrite,
  s_open, s_read, s_remove, s_rename, s_tmpfile, s_write, Field, path, text, decimal, unsigned,
  octal, pointer, ◌>>=◌, log, getfilename, getfilename_fd, excerpt,
}

module _ (c : Libc) where
  -- the line, and the result
  unfoldable pub told :
      {A : Type 0} → Symbol → List Field → Field → A → World c.Kernel → Option (A × World c.Kernel)
  told s fields result re w =
      log c (record { function = s; arguments = fields; result = result }) w >>= λ w'. some (re, w')

  unfoldable pub chmod : List ℕ → ℕ → World c.Kernel → Option (ℤ × World c.Kernel)
  chmod pathname mode w =
      if c.dlsym s_chmod
      then (let (re, k) = c.chmod pathname mode w.kernel in
          told s_chmod (path (c.realpath pathname k) ∷ octal (pos mode) ∷ []) (decimal re) re
            (record w { kernel = k }))
      else none

  unfoldable pub chown : List ℕ → ℕ → ℕ → World c.Kernel → Option (ℤ × World c.Kernel)
  chown pathname owner group w =
      if c.dlsym s_chown
      then (let (re, k) = c.chown pathname owner group w.kernel in
          told s_chown (path (c.realpath pathname k) ∷ unsigned owner ∷ unsigned group ∷ [])
            (decimal re) re (record w { kernel = k }))
      else none

  unfoldable pub close : ℤ → World c.Kernel → Option (ℤ × World c.Kernel)
  close fd w =
      if c.dlsym s_close
      then (let name = getfilename_fd c fd w.kernel in
          let (re, k) = c.close fd w.kernel in
          told s_close (text name ∷ []) (decimal re) re (record w { kernel = k }))
      else none

  unfoldable pub creat : List ℕ → ℕ → World c.Kernel → Option (ℤ × World c.Kernel)
  creat pathname mode w =
      if c.dlsym s_creat
      then (let (re, k) = c.creat pathname mode w.kernel in
          told s_creat (path (c.realpath pathname k) ∷ octal (pos mode) ∷ []) (decimal re) re
            (record w { kernel = k }))
      else none

  unfoldable pub fclose : ℕ → World c.Kernel → Option (ℤ × World c.Kernel)
  fclose stream w =
      if c.dlsym s_fclose
      then (getfilename c stream w.kernel >>= λ name.
          let (re, k) = c.fclose stream w.kernel in
          told s_fclose (text name ∷ []) (decimal re) re (record w { kernel = k }))
      else none

  unfoldable pub fopen : List ℕ → List ℕ → World c.Kernel → Option (ℕ × World c.Kernel)
  fopen pathname mode w =
      if c.dlsym s_fopen
      then (let (re, k) = c.fopen pathname mode w.kernel in
          told s_fopen (path (c.realpath pathname k) ∷ text mode ∷ []) (pointer re) re
            (record w { kernel = k }))
      else none

  -- The real function is called as one that returns an `int`. The excerpt has as many bytes as there
  -- are items.
  unfoldable pub fread : ℕ → ℕ → ℕ → World c.Kernel → Option ((ℕ × List ℕ) × World c.Kernel)
  fread size nmemb stream w =
      if c.dlsym s_fread
      then (let ((items, object), k) = c.fread size nmemb stream w.kernel in
          let re = bits 64 (to_int items) in
          excerpt c (to_int re) object >>= λ str. getfilename c stream k >>= λ name.
          told s_fread (text str ∷ unsigned size ∷ unsigned nmemb ∷ text name ∷ []) (unsigned re)
            (re, object) (record w { kernel = k }))
      else none

  unfoldable pub fwrite : List ℕ → ℕ → ℕ → ℕ → World c.Kernel → Option (ℕ × World c.Kernel)
  fwrite object size nmemb stream w =
      if c.dlsym s_fwrite
      then (let (items, k) = c.fwrite object size nmemb stream w.kernel in
          let re = bits 64 (to_int items) in
          excerpt c (to_int (size * nmemb)) object >>= λ str. getfilename c stream k >>= λ name.
          told s_fwrite (text str ∷ unsigned size ∷ unsigned nmemb ∷ text name ∷ []) (unsigned re)
            re (record w { kernel = k }))
      else none

  -- The mode is read for the line, and not passed on.
  unfoldable pub open_file : List ℕ → ℤ → ℕ → World c.Kernel → Option (ℤ × World c.Kernel)
  open_file pathname flags argument w =
      if c.dlsym s_open
      then (let mode = if c.needs_mode flags then argument else 0 in
          let (re, k) = c.open_file pathname flags none w.kernel in
          told s_open (path (c.realpath pathname k) ∷ octal flags ∷ octal (pos mode) ∷ [])
            (decimal re) re (record w { kernel = k }))
      else none

  unfoldable pub read : ℤ → ℕ → World c.Kernel → Option ((ℤ × List ℕ) × World c.Kernel)
  read fd count w =
      if c.dlsym s_read
      then (let ((ret, object), k) = c.read fd count w.kernel in
          let re = to_i32 ret in
          let name = getfilename_fd c fd k in
          excerpt c (to_i32 re) object >>= λ str.
          told s_read (text name ∷ text str ∷ unsigned count ∷ []) (unsigned (bits 64 re))
            (re, object) (record w { kernel = k }))
      else none

  unfoldable pub remove : List ℕ → World c.Kernel → Option (ℤ × World c.Kernel)
  remove pathname w =
      if c.dlsym s_remove
      then (let (re, k) = c.remove pathname w.kernel in
          told s_remove (path (c.realpath pathname k) ∷ []) (decimal re) re
            (record w { kernel = k }))
      else none

  unfoldable pub rename : List ℕ → List ℕ → World c.Kernel → Option (ℤ × World c.Kernel)
  rename oldpath newpath w =
      if c.dlsym s_rename
      then (let (re, k) = c.rename oldpath newpath w.kernel in
          told s_rename (path (c.realpath oldpath k) ∷ path (c.realpath newpath k) ∷ [])
            (decimal re) re (record w { kernel = k }))
      else none

  -- The file's name is asked for, and not shown.
  unfoldable pub tmpfile : World c.Kernel → Option (ℕ × World c.Kernel)
  tmpfile w =
      if c.dlsym s_tmpfile
      then (let (re, k) = c.tmpfile w.kernel in
          getfilename c re k >>= λ name.
          told s_tmpfile [] (pointer re) re (record w { kernel = k }))
      else none

  unfoldable pub write : ℤ → List ℕ → ℕ → World c.Kernel → Option (ℤ × World c.Kernel)
  write fd object count w =
      if c.dlsym s_write
      then (let (ret, k) = c.write fd object count w.kernel in
          let re = to_i32 ret in
          let name = getfilename_fd c fd k in
          excerpt c (to_int count) object >>= λ str.
          told s_write (text name ∷ text str ∷ unsigned count ∷ []) (decimal re) re
            (record w { kernel = k }))
      else none
