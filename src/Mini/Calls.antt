-- ===== src/Mini/Calls.antt =====
-- HW3/libmini.c, the wrappers of the system calls, and the stubs of HW3/libmini64.asm that they call:
-- a stub puts its number in rax, and moves the fourth argument to r10.
pub mod Table
pub mod Convention
use advanced_programmin.Prelude.{ℕ, suc, List, [], ◌∷◌}
use advanced_programmin.Prelude.Int.{ℤ, pos, negsuc, bits, to_i32}
use advanced_programmin.Mini.{Arg, num, bytes, System, World}

-- `ssize_t` and `off_t` are as wide as the result.
abbrev pub to_ssize : ℤ → ℤ
to_ssize ret = ret

abbrev pub to_uint : ℤ → ℤ
to_uint ret = pos (bits 32 ret)

module _ {K : Type 0} where
  -- `WRAPPER_RETval`, with the conversions to the type of the result
  abbrev pub retval : (ℤ → ℤ) → ℤ × K → World K → ℤ × World K
  retval cast (pos n, k) w = (cast (pos n), record w { errno = pos 0; kernel = k })
  retval cast (negsuc n, k) w = (cast (negsuc 0), record w { errno = pos (suc n); kernel = k })

  -- `WRAPPER_RETptr`
  abbrev pub retptr : ℤ × K → World K → ℤ × World K
  retptr (pos n, k) w = (pos n, record w { errno = pos 0; kernel = k })
  retptr (negsuc n, k) w = (pos 0, record w { errno = pos (suc n); kernel = k })

module _ (sys : System) where
  -- what a wrapper returns, from the library as it is called
  abbrev pub Wrapper : Type 0
  Wrapper = World sys.Kernel → ℤ × World sys.Kernel

  abbrev pub returns : (ℤ → ℤ) → ℕ → List Arg → Wrapper
  returns cast n args w = retval cast (sys.syscall n args w.kernel) w

  abbrev pub returns_ptr : ℕ → List Arg → Wrapper
  returns_ptr n args w = retptr (sys.syscall n args w.kernel) w

  unfoldable pub read : ℤ → ℤ → ℤ → Wrapper
  read fd buf count = returns to_ssize 0 (num fd ∷ num buf ∷ num count ∷ [])

  unfoldable pub write : ℤ → List ℕ → ℤ → Wrapper
  write fd buf count = returns to_ssize 1 (num fd ∷ bytes buf ∷ num count ∷ [])

  unfoldable pub close : ℤ → Wrapper
  close fd = returns to_i32 3 (num fd ∷ [])

  unfoldable pub mmap : ℤ → ℤ → ℤ → ℤ → ℤ → ℤ → Wrapper
  mmap addr len prot flags fd off =
      returns_ptr 9 (num addr ∷ num len ∷ num prot ∷ num flags ∷ num fd ∷ num off ∷ [])

  unfoldable pub mprotect : ℤ → ℤ → ℤ → Wrapper
  mprotect addr len prot = returns to_i32 10 (num addr ∷ num len ∷ num prot ∷ [])

  unfoldable pub munmap : ℤ → ℤ → Wrapper
  munmap addr len = returns to_i32 11 (num addr ∷ num len ∷ [])

  unfoldable pub pipe : ℤ → Wrapper
  pipe filedes = returns to_i32 22 (num filedes ∷ [])

  unfoldable pub dup : ℤ → Wrapper
  dup filedes = returns to_i32 32 (num filedes ∷ [])

  unfoldable pub dup2 : ℤ → ℤ → Wrapper
  dup2 oldfd newfd = returns to_i32 33 (num oldfd ∷ num newfd ∷ [])

  unfoldable pub pause : Wrapper
  pause = returns to_i32 34 ([])

  unfoldable pub nanosleep : List ℕ → ℤ → Wrapper
  nanosleep rqtp rmtp = returns to_i32 35 (bytes rqtp ∷ num rmtp ∷ [])

  unfoldable pub fork : Wrapper
  fork = returns to_i32 57 ([])

  unfoldable pub getcwd : ℤ → ℤ → Wrapper
  getcwd buf size = returns_ptr 79 (num buf ∷ num size ∷ [])

  unfoldable pub chdir : List ℕ → Wrapper
  chdir pathname = returns to_i32 80 (bytes pathname ∷ [])

  unfoldable pub rename : List ℕ → List ℕ → Wrapper
  rename oldname newname = returns to_i32 82 (bytes oldname ∷ bytes newname ∷ [])

  unfoldable pub mkdir : List ℕ → ℤ → Wrapper
  mkdir pathname mode = returns to_i32 83 (bytes pathname ∷ num mode ∷ [])

  unfoldable pub rmdir : List ℕ → Wrapper
  rmdir pathname = returns to_i32 84 (bytes pathname ∷ [])

  unfoldable pub creat : List ℕ → ℤ → Wrapper
  creat pathname mode = returns to_i32 85 (bytes pathname ∷ num mode ∷ [])

  unfoldable pub link : List ℕ → List ℕ → Wrapper
  link oldname newname = returns to_i32 86 (bytes oldname ∷ bytes newname ∷ [])

  unfoldable pub unlink : List ℕ → Wrapper
  unlink pathname = returns to_i32 88 (bytes pathname ∷ [])

  unfoldable pub readlink : List ℕ → ℤ → ℤ → Wrapper
  readlink path buf bufsz = returns to_ssize 89 (bytes path ∷ num buf ∷ num bufsz ∷ [])

  unfoldable pub chmod : List ℕ → ℤ → Wrapper
  chmod filename mode = returns to_i32 90 (bytes filename ∷ num mode ∷ [])

  unfoldable pub chown : List ℕ → ℤ → ℤ → Wrapper
  chown filename user group = returns to_i32 92 (bytes filename ∷ num user ∷ num group ∷ [])

  unfoldable pub umask : ℤ → Wrapper
  umask mask = returns to_i32 95 (num mask ∷ [])

  unfoldable pub gettimeofday : ℤ → ℤ → Wrapper
  gettimeofday tv tz = returns to_i32 96 (num tv ∷ num tz ∷ [])

  unfoldable pub getuid : Wrapper
  getuid = returns to_i32 102 ([])

  unfoldable pub getgid : Wrapper
  getgid = returns to_i32 104 ([])

  unfoldable pub setuid : ℤ → Wrapper
  setuid uid = returns to_i32 105 (num uid ∷ [])

  unfoldable pub setgid : ℤ → Wrapper
  setgid gid = returns to_i32 106 (num gid ∷ [])

  unfoldable pub geteuid : Wrapper
  geteuid = returns to_i32 107 ([])

  unfoldable pub getegid : Wrapper
  getegid = returns to_i32 108 ([])

  unfoldable pub alarm : ℤ → Wrapper
  alarm seconds = returns to_uint 37 (num seconds ∷ [])

  -- There is nothing behind the call: what is left is the kernel.
  unfoldable pub exit : ℤ → World sys.Kernel → sys.Kernel
  exit error_code w = (sys.syscall 60 (num error_code ∷ []) w.kernel).1

  -- `open`, in assembly: it does not look at the flags, so the third argument is always passed on.
  unfoldable pub open_file : List ℕ → ℤ → ℤ → Wrapper
  open_file filename flags mode = returns to_i32 2 (bytes filename ∷ num flags ∷ num mode ∷ [])
