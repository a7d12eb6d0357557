-- ===== src/Sdb/Run/Ends.antt =====
-- HW4/ins.cpp, what cont makes of the status of a process that has stopped or ended.
use advanced_programmin.Prelude.{
  inl, inr, Bool-cases, if◌then◌else◌, ◌==◌, ◌%◌, ℕ, ◌≡◌, refl, arith, true, false, ◌∷◌,
}
use advanced_programmin.Sdb.Types.{loaded}
use advanced_programmin.Sdb.Os.{Os}
use advanced_programmin.Sdb.Exec.{World, done, ended, ◌>>=◌}
use advanced_programmin.Sdb.Breakpoints.{success, checkbp}
use advanced_programmin.Sdb.Run.{wifexited, wifsignaled, report_end, report_hit, stopped_with}

wifexited-wifsignaled : (status : ℕ) → wifexited status ≡ true → wifsignaled status ≡ false
wifexited-wifsignaled status e = ground arith

-- What cont does once `waitpid` has a status: a process that has exited, by the low seven bits of
-- the status, is reported with the raw status, never by the line on a signal, and the program is
-- loaded again; any other status, that of a process that a signal has killed among them, is taken
-- for a stop.
pub stopped_with_lem :
    (os : Os) (status : ℕ) (w : World os.Kernel)
    → stopped_with os status w ≡ (
        if status % 128 == 0
        then done success (record w {
          program = record w.program { state = loaded };
          out = ended w.program.pid status ∷ w.out;
        })
        else (checkbp os >>= report_hit os) w)
unfolding stopped_with report_end ◌>>=◌
stopped_with_lem os status w = elim (Bool-cases (wifexited status)) [
  | inl e ↦ rw e (rw (wifexited-wifsignaled status e) refl)
  | inr e ↦ rw e refl
]
