-- ===== src/Tests/Traced.antt =====
-- HW2 on a C library that counts its calls.
use advanced_programmin.Prelude.{
  ◌==◌, Bool, inr, if◌then◌else◌, ℕ, suc, ◌≡◌, ◌≢◌, refl, true, false, none, some, List, [], ◌∷◌,
  leb, arith,
}
use advanced_programmin.Logger.{Libc, World}
use advanced_programmin.Prelude.Int.{ℤ, pos, negsuc}
use advanced_programmin.Logger.Calls.{Call, Ready, hook}
use advanced_programmin.Logger.Calls.Faults.{fault_lem}
use advanced_programmin.Logger.Trace.{Followed, first_kernel, trace_lem}
use advanced_programmin.Logger.Main.{
  Starter, opt_o, opt_p, executed, main, Session, main_lem, session_lem,
}

abbrev libc : Libc
libc = record {
  Kernel = ℕ;
  dlsym = λ s. true;
  chmod = λ p m k. (pos 0, suc k);
  chown = λ p o g k. (negsuc 0, suc k);
  close = λ fd k. (pos 0, suc k);
  creat = λ p m k. (pos 5, suc k);
  fclose = λ f k. (pos 0, suc k);
  fopen = λ p m k. (77, suc k);
  fread = λ n m f k. ((2, 104 ∷ 10 ∷ []), suc k);
  fwrite = λ o n m f k. (m, suc k);
  open_file = λ p f m k. (pos 6, suc k);
  read = λ fd n k. elim fd [
    | pos d ↦ ((pos 2, 104 ∷ 105 ∷ []), suc k)
    | negsuc d ↦ ((negsuc 0, []), suc k)
  ];
  remove = λ p k. (pos 0, suc k);
  rename = λ p q k. (pos 0, suc k);
  tmpfile = λ k. (78, suc k);
  write = λ fd o n k. (pos n, suc k);
  realpath = λ p k. some p;
  fileno = λ f k. pos f;
  readlink = λ fd k. some (47 ∷ 97 ∷ []);
  fdopen = λ fd k. 1;
  isprint = λ b. if leb 32 b then leb b 126 else false;
  needs_mode = λ flags. false;
}

abbrev start : World ℕ
start = record { kernel = 0; output_file = 0; output_fd = some (pos 3); lines = [] }

abbrev calls : List Call
calls =
    Call.fopen (47 ∷ 97 ∷ []) (114 ∷ [])
    ∷ Call.fread 1 2 77
    ∷ Call.read (pos 4) 9
    ∷ Call.write (pos 1) (104 ∷ 105 ∷ 10 ∷ []) 3
    ∷ Call.fclose 77
    ∷ []

opens : (fd : ℤ) (k : ℕ) → libc.fdopen fd k ≢ 0
opens fd k e = absurd (ground arith)

abbrev ready : Ready libc start (first_kernel libc calls 0)
ready = record { found = λ s. refl; output = inr (pos 3, refl, opens (pos 3) 1) }

trace_example : Followed libc calls start
trace_example = trace_lem libc calls start ready refl

fault_example : hook libc (Call.read (negsuc 0) 9) start ≡ none
fault_example = fault_lem libc (Call.read (negsuc 0) 9) start refl

abbrev buffer : List ℕ
buffer = 104 ∷ 10 ∷ 0 ∷ []

abbrev starter : Starter
starter = record {
  Kernel = ℕ;
  getopt = λ args. (opt_o (111 ∷ []) ∷ opt_p (112 ∷ []) ∷ [], (108 ∷ 115 ∷ []) ∷ []);
  fopen = λ p k. (9, suc k);
  fileno = λ f k. pos f;
  dup = λ fd k. (fd, suc k);
  execvp = λ args env k. true;
  stderr = 2;
}

abbrev argument : List ℕ
argument = 45 ∷ 111 ∷ []

main_example :
    main starter (argument ∷ []) 0
    ≡ executed
        ((108 ∷ 115 ∷ []) ∷ [])
        (record { ld_preload = 112 ∷ []; output_fd = some (pos 9) })
        2
main_example = main_lem starter argument [] 9 0 2 refl refl refl

abbrev is_logger : List ℕ → Bool
is_logger name = elim name [ [] ↦ false | b ∷ bs ↦ b == 112 ]

session_example : Session starter libc is_logger (argument ∷ []) 0 2 0 calls
session_example =
    session_lem starter libc is_logger argument [] 9 0 2 0 calls refl refl refl refl (λ s. refl)
      (opens (pos 9) 1) refl
