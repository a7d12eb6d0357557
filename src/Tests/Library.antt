-- ===== src/Tests/Library.antt =====
-- HW3/libmini.c and HW3/libmini64.asm on a kernel that shows what is written to descriptor 2, keeps a
-- signal mask and answers every other call with an error.
use advanced_programmin.Mini.Signals.{
  siglongjmp, Sigaction, SignalSystem, signal, sigaddset, sigismember,
}
use advanced_programmin.Prelude.{
  true, inl, ◌-◌, ℕ, zero, suc, ◌+◌, ◌^◌, ◌≡◌, refl, none, some, List, [], ◌∷◌, ◌++◌, take, ◌==◌,
  if◌then◌else◌, arith,
}
use advanced_programmin.Prelude.Int.{ℤ, pos, negsuc}
use advanced_programmin.Mini.{Arg, num, bytes, System, World}
use advanced_programmin.Mini.Calls.Table
use advanced_programmin.Mini.Calls.Table.{expected, kind}
use advanced_programmin.Mini.Calls.Convention.{perform, perform_lem, called}
use advanced_programmin.Mini.Text.{perror}
use advanced_programmin.Mini.Text.Messages.{Terminal, Shows, text, ended, report, perror_lem}
use advanced_programmin.Mini.Signals.Sets.{bit_at, told, sigaddset_lem, sigismember_lem}
use advanced_programmin.Mini.Signals.Handler.{request, answered, signal_lem}
use advanced_programmin.Mini.Jump.{Regs, Cpu, Machine, setjmp, longjmp, word}
use advanced_programmin.Mini.Jump.Saved.{Apart, live}
use advanced_programmin.Mini.Jump.Restored.{nonzero, longjmp_lem}

abbrev write_all : List Arg → List ℕ → ℤ × List ℕ
write_all (num (pos (suc (suc zero))) ∷ bytes s ∷ num (pos n) ∷ []) k = (pos n, k ++ take n s)
write_all args k = (negsuc 8, k)

abbrev system : System
system = record {
  Kernel = List ℕ;
  syscall = λ n args k. if n == 1 then write_all args k else (negsuc 37, k);
}

abbrev terminal : Terminal system
terminal = record { shown = λ k. k; accepts = λ s n k. refl; shows = λ s n k. refl }

abbrev world : ℤ → World (List ℕ)
world e = record { errno = e; kernel = [] }

perform_example :
    perform system (Table.dup2 (pos 3) (pos 1)) (world (pos 0))
    ≡ expected
        (kind (Table.dup2 (pos 3) (pos 1)))
        (called system (Table.dup2 (pos 3) (pos 1)) (world (pos 0)))
        (world (pos 0))
perform_example = perform_lem system (Table.dup2 (pos 3) (pos 1)) (world (pos 0))

perror_example :
    Shows system terminal
      (perror system (ended system terminal (some (text "cat"))) (world (pos 2)))
      (report (some (text "cat")) (pos 2))
      []
perror_example = perror_lem system terminal (some (text "cat")) (world (pos 2)) refl

abbrev signals : SignalSystem
signals = record {
  Kernel = ℕ;
  rt_sigaction = λ n act k. ((pos 0, some act), k);
  rt_sigprocmask =
      λ how set k. elim set [ none ↦ ((pos 0, some k), k) | some x ↦ ((pos 0, some k), x) ];
  rt_sigpending = λ k. ((pos 0, some 0), k);
  myrt = 0x40_1000;
}

abbrev masked : World ℕ
masked = record { errno = pos 0; kernel = 6 }

sigaddset_example :
    ((sigaddset 6 (pos 5) masked).0.0 ≡ pos 0)
    × ((sigaddset 6 (pos 5) masked).1 ≡ masked)
    × ((k : ℕ) → bit_at k (sigaddset 6 (pos 5) masked).0.1 ≡ (if k == 4 then 1 else bit_at k 6))
sigaddset_example = sigaddset_lem masked 6 5 (omega arith) (omega arith)

sigismember_example : sigismember (2 ^ 40) (pos 32) masked ≡ (told 32 (2 ^ 40), masked)
sigismember_example = sigismember_lem masked (2 ^ 40) 32 (omega arith) (omega arith) (omega arith)

abbrev garbage : Sigaction
garbage = record { sa_handler = 1; sa_flags = 2; sa_restorer = 3; sa_mask = 4 }

signal_example :
    signal signals garbage (pos 2) 0x40_2000 masked
    ≡ answered signals (signals.rt_sigaction (pos 2) (request signals 2 0x40_2000) 6) masked
signal_example =
    signal_lem signals garbage 2 0x40_2000 masked (λ a. refl) (omega arith) (omega arith)

abbrev machine : Machine
machine = record {
  sys = signals;
  depth = 64;
  junk = λ f. record { di = 0; si = 0; mask = 0; stack = λ a. 7 };
}

abbrev registers : ℕ → Regs
registers val = record {
  a = 1;
  b = 2;
  sp = 0x7fff_0000;
  bp = 0x7fff_0100;
  di = 0x60_0000;
  si = val;
  e12 = 3;
  e13 = 4;
  e14 = 5;
  e15 = 6;
}

abbrev caller : Cpu ℕ
caller = record {
  regs = registers 0;
  mem = λ a. a + 1;
  rip = 0x40_1234;
  zf = true;
  skip = 0;
  world = masked;
}

-- the same stack, with what `setjmp` has left in memory
later : Cpu ℕ
later = record (setjmp machine caller) { regs = registers 9 }

abbrev frame : Apart 64 0x60_0000 0x7fff_0000
frame = record {
  room = omega arith;
  stack_end = omega arith;
  buffer_end = omega arith;
  apart = inl (omega arith);
}

longjmp_example :
    (live (longjmp machine later)
      ≡ record (live (setjmp machine caller)) { sp = (live (setjmp machine caller)).sp - 8 })
    × ((longjmp machine later).regs.a ≡ nonzero 9)
    × ((longjmp machine later).world
        ≡ (siglongjmp signals (later.mem (word (0x60_0000 + 64))) later.world).1)
unfolding later
longjmp_example = longjmp_lem machine caller later frame frame refl
