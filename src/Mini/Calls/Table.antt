-- ===== src/Mini/Calls/Table.antt =====
-- HW3/libmini.c: the calls of the library, the system call behind each, and the convention on results.
use advanced_programmin.Prelude.{ℕ, suc, ◌-◌, ◌^◌, List, [], ◌∷◌}
use advanced_programmin.Prelude.Int.{ℤ, pos, negsuc, bits, to_i32}
use advanced_programmin.Mini.{Arg, num, bytes, World}

-- A call of the library.
pub data Call : Type 0 where
  read : ℤ → ℤ → ℤ → Call
  write : ℤ → List ℕ → ℤ → Call
  close : ℤ → Call
  mmap : ℤ → ℤ → ℤ → ℤ → ℤ → ℤ → Call
  mprotect : ℤ → ℤ → ℤ → Call
  munmap : ℤ → ℤ → Call
  pipe : ℤ → Call
  dup : ℤ → Call
  dup2 : ℤ → ℤ → Call
  pause : Call
  nanosleep : List ℕ → ℤ → Call
  fork : Call
  getcwd : ℤ → ℤ → Call
  chdir : List ℕ → Call
  rename : List ℕ → List ℕ → Call
  mkdir : List ℕ → ℤ → Call
  rmdir : List ℕ → Call
  creat : List ℕ → ℤ → Call
  link : List ℕ → List ℕ → Call
  unlink : List ℕ → Call
  readlink : List ℕ → ℤ → ℤ → Call
  chmod : List ℕ → ℤ → Call
  chown : List ℕ → ℤ → ℤ → Call
  umask : ℤ → Call
  gettimeofday : ℤ → ℤ → Call
  getuid : Call
  getgid : Call
  setuid : ℤ → Call
  setgid : ℤ → Call
  geteuid : Call
  getegid : Call
  alarm : ℤ → Call
  open_file : List ℕ → ℤ → ℤ → Call

-- The system call of that name in the kernel's table for x86-64, where `symlink`, that the library
-- does not have, is 88; and what is passed.
abbrev pub symlink : ℕ
symlink = 88

abbrev pub number : Call → ℕ
number (read fd buf count) = 0
number (write fd buf count) = 1
number (close fd) = 3
number (mmap addr len prot flags fd off) = 9
number (mprotect addr len prot) = 10
number (munmap addr len) = 11
number (pipe filedes) = 22
number (dup filedes) = 32
number (dup2 oldfd newfd) = 33
number pause = 34
number (nanosleep rqtp rmtp) = 35
number fork = 57
number (getcwd buf size) = 79
number (chdir pathname) = 80
number (rename oldname newname) = 82
number (mkdir pathname mode) = 83
number (rmdir pathname) = 84
number (creat pathname mode) = 85
number (link oldname newname) = 86
number (unlink pathname) = 87
number (readlink path buf bufsz) = 89
number (chmod filename mode) = 90
number (chown filename user group) = 92
number (umask mask) = 95
number (gettimeofday tv tz) = 96
number getuid = 102
number getgid = 104
number (setuid uid) = 105
number (setgid gid) = 106
number geteuid = 107
number getegid = 108
number (alarm seconds) = 37
number (open_file filename flags mode) = 2

-- The system call that is made: that of the name, but for `unlink`, which makes `symlink`.
abbrev pub made : Call → ℕ
made (unlink pathname) = symlink
made c = number c

abbrev pub arguments : Call → List Arg
arguments (read fd buf count) = num fd ∷ num buf ∷ num count ∷ []
arguments (write fd buf count) = num fd ∷ bytes buf ∷ num count ∷ []
arguments (close fd) = num fd ∷ []
arguments (mmap addr len prot flags fd off) =
    num addr ∷ num len ∷ num prot ∷ num flags ∷ num fd ∷ num off ∷ []
arguments (mprotect addr len prot) = num addr ∷ num len ∷ num prot ∷ []
arguments (munmap addr len) = num addr ∷ num len ∷ []
arguments (pipe filedes) = num filedes ∷ []
arguments (dup filedes) = num filedes ∷ []
arguments (dup2 oldfd newfd) = num oldfd ∷ num newfd ∷ []
arguments pause = []
arguments (nanosleep rqtp rmtp) = bytes rqtp ∷ num rmtp ∷ []
arguments fork = []
arguments (getcwd buf size) = num buf ∷ num size ∷ []
arguments (chdir pathname) = bytes pathname ∷ []
arguments (rename oldname newname) = bytes oldname ∷ bytes newname ∷ []
arguments (mkdir pathname mode) = bytes pathname ∷ num mode ∷ []
arguments (rmdir pathname) = bytes pathname ∷ []
arguments (creat pathname mode) = bytes pathname ∷ num mode ∷ []
arguments (link oldname newname) = bytes oldname ∷ bytes newname ∷ []
arguments (unlink pathname) = bytes pathname ∷ []
arguments (readlink path buf bufsz) = bytes path ∷ num buf ∷ num bufsz ∷ []
arguments (chmod filename mode) = bytes filename ∷ num mode ∷ []
arguments (chown filename user group) = bytes filename ∷ num user ∷ num group ∷ []
arguments (umask mask) = num mask ∷ []
arguments (gettimeofday tv tz) = num tv ∷ num tz ∷ []
arguments getuid = []
arguments getgid = []
arguments (setuid uid) = num uid ∷ []
arguments (setgid gid) = num gid ∷ []
arguments geteuid = []
arguments getegid = []
arguments (alarm seconds) = num seconds ∷ []
arguments (open_file filename flags mode) = bytes filename ∷ num flags ∷ num mode ∷ []

-- How the result is read: as it is, as an `int`, as an `unsigned int`, or as a pointer, which has
-- no negative values.
pub data Kind : Type 0 where
  long int uint pointer : Kind

abbrev pub kind : Call → Kind
kind (read fd buf count) = long
kind (write fd buf count) = long
kind (mmap addr len prot flags fd off) = pointer
kind (getcwd buf size) = pointer
kind (readlink path buf bufsz) = long
kind (alarm seconds) = uint
kind (open_file filename flags mode) = int
kind _ = int

abbrev pub success : Kind → ℕ → ℤ
success long n = pos n
success int n = to_i32 (pos n)
success uint n = pos (bits 32 (pos n))
success pointer n = pos n

abbrev pub failure : Kind → ℤ
failure pointer = pos 0
failure uint = pos (2 ^ 32 - 1)
failure _ = negsuc 0

module _ {K : Type 0} where
  -- The convention: with a result from 0 on, `errno` is 0 and the result is the system call's in
  -- the type of the wrapper; with one below 0, `errno` is its opposite.
  abbrev pub expected : Kind → ℤ × K → World K → ℤ × World K
  expected kd (pos n, k) w = (success kd n, record w { errno = pos 0; kernel = k })
  expected kd (negsuc n, k) w = (failure kd, record w { errno = pos (suc n); kernel = k })
