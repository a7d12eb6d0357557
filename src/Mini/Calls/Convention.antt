-- ===== src/Mini/Calls/Convention.antt =====
-- HW3/libmini.c: every wrapper keeps one convention on results and `errno`.
use advanced_programmin.Prelude.{◌≡◌, refl}
use advanced_programmin.Prelude.Int.{ℤ, pos, negsuc, to_i32}
use advanced_programmin.Mini.{System, World}
use advanced_programmin.Mini.Calls
use advanced_programmin.Mini.Calls.Table.{
  Call, made, arguments, kind, long, int, uint, pointer, expected, read, write, close, mmap,
  mprotect, munmap, pipe, dup, dup2, pause, nanosleep, fork, getcwd, chdir, rename, mkdir, rmdir,
  creat, link, unlink, readlink, chmod, chown, umask, gettimeofday, getuid, getgid, setuid, setgid,
  geteuid, getegid, alarm, open_file,
}
use advanced_programmin.Mini.Calls.{to_ssize, to_uint, retval, retptr}

module _ {K : Type 0} where
  long_lem : (r : ℤ × K) (w : World K) → retval to_ssize r w ≡ expected long r w
  long_lem (pos n, k) w = refl
  long_lem (negsuc n, k) w = refl

  int_lem : (r : ℤ × K) (w : World K) → retval to_i32 r w ≡ expected int r w
  int_lem (pos n, k) w = refl
  int_lem (negsuc n, k) w = refl

  uint_lem : (r : ℤ × K) (w : World K) → retval to_uint r w ≡ expected uint r w
  uint_lem (pos n, k) w = refl
  uint_lem (negsuc n, k) w = refl

  pointer_lem : (r : ℤ × K) (w : World K) → retptr r w ≡ expected pointer r w
  pointer_lem (pos n, k) w = refl
  pointer_lem (negsuc n, k) w = refl

module _ (sys : System) where
  -- the wrapper that a call runs
  unfoldable pub perform : Call → World sys.Kernel → ℤ × World sys.Kernel
  unfolding Calls.read Calls.write Calls.close Calls.mmap Calls.mprotect Calls.munmap Calls.pipe
      Calls.dup Calls.dup2 Calls.pause Calls.nanosleep Calls.fork Calls.getcwd Calls.chdir
      Calls.rename Calls.mkdir Calls.rmdir Calls.creat Calls.link Calls.unlink Calls.readlink
      Calls.chmod Calls.chown Calls.umask Calls.gettimeofday Calls.getuid Calls.getgid Calls.setuid
      Calls.setgid Calls.geteuid Calls.getegid Calls.alarm Calls.open_file
  perform (read fd buf count) = Calls.read sys fd buf count
  perform (write fd buf count) = Calls.write sys fd buf count
  perform (close fd) = Calls.close sys fd
  perform (mmap addr len prot flags fd off) = Calls.mmap sys addr len prot flags fd off
  perform (mprotect addr len prot) = Calls.mprotect sys addr len prot
  perform (munmap addr len) = Calls.munmap sys addr len
  perform (pipe filedes) = Calls.pipe sys filedes
  perform (dup filedes) = Calls.dup sys filedes
  perform (dup2 oldfd newfd) = Calls.dup2 sys oldfd newfd
  perform pause = Calls.pause sys
  perform (nanosleep rqtp rmtp) = Calls.nanosleep sys rqtp rmtp
  perform fork = Calls.fork sys
  perform (getcwd buf size) = Calls.getcwd sys buf size
  perform (chdir pathname) = Calls.chdir sys pathname
  perform (rename oldname newname) = Calls.rename sys oldname newname
  perform (mkdir pathname mode) = Calls.mkdir sys pathname mode
  perform (rmdir pathname) = Calls.rmdir sys pathname
  perform (creat pathname mode) = Calls.creat sys pathname mode
  perform (link oldname newname) = Calls.link sys oldname newname
  perform (unlink pathname) = Calls.unlink sys pathname
  perform (readlink path buf bufsz) = Calls.readlink sys path buf bufsz
  perform (chmod filename mode) = Calls.chmod sys filename mode
  perform (chown filename user group) = Calls.chown sys filename user group
  perform (umask mask) = Calls.umask sys mask
  perform (gettimeofday tv tz) = Calls.gettimeofday sys tv tz
  perform getuid = Calls.getuid sys
  perform getgid = Calls.getgid sys
  perform (setuid uid) = Calls.setuid sys uid
  perform (setgid gid) = Calls.setgid sys gid
  perform geteuid = Calls.geteuid sys
  perform getegid = Calls.getegid sys
  perform (alarm seconds) = Calls.alarm sys seconds
  perform (open_file filename flags mode) = Calls.open_file sys filename flags mode

  -- what the kernel answers to a call
  abbrev pub called : Call → World sys.Kernel → ℤ × sys.Kernel
  called c w = sys.syscall (made c) (arguments c) w.kernel

  -- Every call but `unlink` makes the system call that the kernel's table has under its name, with
  -- its own arguments in order; `unlink`, which is 87 there, makes call 88, `symlink`, with its one
  -- argument. Each keeps the convention: with a result from 0 on, `errno` is 0 and the result is
  -- returned, in the type of the function; with one below 0, `errno` is its opposite, and what is
  -- returned is -1, which an unsigned result holds as its greatest number, or the null pointer.
  pub perform_lem :
      (c : Call) (w : World sys.Kernel) → perform c w ≡ expected (kind c) (called c w) w
  unfolding perform
  perform_lem (read fd buf count) w = long_lem (called (read fd buf count) w) w
  perform_lem (write fd buf count) w = long_lem (called (write fd buf count) w) w
  perform_lem (close fd) w = int_lem (called (close fd) w) w
  perform_lem (mmap addr len prot flags fd off) w =
      pointer_lem (called (mmap addr len prot flags fd off) w) w
  perform_lem (mprotect addr len prot) w = int_lem (called (mprotect addr len prot) w) w
  perform_lem (munmap addr len) w = int_lem (called (munmap addr len) w) w
  perform_lem (pipe filedes) w = int_lem (called (pipe filedes) w) w
  perform_lem (dup filedes) w = int_lem (called (dup filedes) w) w
  perform_lem (dup2 oldfd newfd) w = int_lem (called (dup2 oldfd newfd) w) w
  perform_lem pause w = int_lem (called pause w) w
  perform_lem (nanosleep rqtp rmtp) w = int_lem (called (nanosleep rqtp rmtp) w) w
  perform_lem fork w = int_lem (called fork w) w
  perform_lem (getcwd buf size) w = pointer_lem (called (getcwd buf size) w) w
  perform_lem (chdir pathname) w = int_lem (called (chdir pathname) w) w
  perform_lem (rename oldname newname) w = int_lem (called (rename oldname newname) w) w
  perform_lem (mkdir pathname mode) w = int_lem (called (mkdir pathname mode) w) w
  perform_lem (rmdir pathname) w = int_lem (called (rmdir pathname) w) w
  perform_lem (creat pathname mode) w = int_lem (called (creat pathname mode) w) w
  perform_lem (link oldname newname) w = int_lem (called (link oldname newname) w) w
  perform_lem (unlink pathname) w = int_lem (called (unlink pathname) w) w
  perform_lem (readlink path buf bufsz) w = long_lem (called (readlink path buf bufsz) w) w
  perform_lem (chmod filename mode) w = int_lem (called (chmod filename mode) w) w
  perform_lem (chown filename user group) w = int_lem (called (chown filename user group) w) w
  perform_lem (umask mask) w = int_lem (called (umask mask) w) w
  perform_lem (gettimeofday tv tz) w = int_lem (called (gettimeofday tv tz) w) w
  perform_lem getuid w = int_lem (called getuid w) w
  perform_lem getgid w = int_lem (called getgid w) w
  perform_lem (setuid uid) w = int_lem (called (setuid uid) w) w
  perform_lem (setgid gid) w = int_lem (called (setgid gid) w) w
  perform_lem geteuid w = int_lem (called geteuid w) w
  perform_lem getegid w = int_lem (called getegid w) w
  perform_lem (alarm seconds) w = uint_lem (called (alarm seconds) w) w
  perform_lem (open_file filename flags mode) w =
      int_lem (called (open_file filename flags mode) w) w
