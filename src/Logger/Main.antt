-- ===== src/Logger/Main.antt =====
-- HW2/hw2.c: the program that starts another one under the library.
use advanced_programmin.Prelude.{
  ℕ, ◌≡◌, ◌≢◌, refl, ap, inr, map, ◌∙◌, Bool, true, false, Option, some, List, [], ◌∷◌, ◌==◌,
  if◌then◌else◌, arith,
}
use advanced_programmin.Prelude.Int.{ℤ, pos, negsuc}
use advanced_programmin.Logger.{Libc, World, Symbol}
use advanced_programmin.Logger.Calls.{Call, Answer, symbol, result_of}
use advanced_programmin.Logger.Trace.{trace, untraced, first_kernel, all_safe, trace_lem}
use advanced_programmin.Logger.Calls.Faithful.{both}

-- The options as `getopt` has them with "o:p:".
pub data Opt : Type 0 where
  opt_o opt_p : List ℕ → Opt
  opt_bad : Opt

-- The variables that the program sets.
pub record Env : Type 0 where
  pub ld_preload : List ℕ
  pub output_fd : Option ℤ

-- How it ends: as another program, with its arguments and environment, or with a message.
pub data Outcome (K : Type 0) : Type 0 where
  executed : List (List ℕ) → Env → K → Outcome K
  no_command usage fopen_failed dup_failed execvp_failed : Outcome K

-- The C library and the system: `getopt` gives the options, and the arguments from `optind` on;
-- `execvp` fails where it comes back.
pub record Starter : Type 1 where
  pub Kernel : Type 0
  pub getopt : List (List ℕ) → List Opt × List (List ℕ)
  pub fopen : List ℕ → Kernel → ℕ × Kernel
  pub fileno : ℕ → Kernel → ℤ
  pub dup : ℤ → Kernel → ℤ × Kernel
  pub execvp : List (List ℕ) → Env → Kernel → Bool
  pub stderr : ℕ

-- "./logger.so"
abbrev pub default_preload : List ℕ
default_preload = 46 ∷ 47 ∷ 108 ∷ 111 ∷ 103 ∷ 103 ∷ 101 ∷ 114 ∷ 46 ∷ 115 ∷ 111 ∷ []

module _ (s : Starter) where
  -- the end of the program, from what `dup` has returned; then with the file for the log
  abbrev pub run_command : List (List ℕ) → List ℕ → ℤ × s.Kernel → Outcome s.Kernel
  run_command cmd_args preload (negsuc n, k) = dup_failed
  run_command cmd_args preload (pos fd, k) =
      let env : Env = record { ld_preload = preload; output_fd = some (pos fd) } in
      if s.execvp cmd_args env k then executed cmd_args env k else execvp_failed

  unfoldable pub launch : List (List ℕ) → ℕ → List ℕ → s.Kernel → Outcome s.Kernel
  launch cmd_args output preload k = run_command cmd_args preload (s.dup (s.fileno output k) k)

  -- the options in order
  unfoldable pub options : List Opt → List (List ℕ) → ℕ → List ℕ → s.Kernel → Outcome s.Kernel
  options [] cmd_args output preload k = launch cmd_args output preload k
  options (opt_o optarg ∷ opts) cmd_args output preload k =
      let (file, k') = s.fopen optarg k in
      let rest = options opts cmd_args file preload k' in if file == 0 then fopen_failed else rest
  options (opt_p optarg ∷ opts) cmd_args output preload k = options opts cmd_args output optarg k
  options (opt_bad ∷ opts) cmd_args output preload k = usage

  -- `main`, with the arguments after the program's name
  unfoldable pub main : List (List ℕ) → s.Kernel → Outcome s.Kernel
  main [] k = no_command
  main (arg ∷ args) k =
      let (opts, cmd_args) = s.getopt (arg ∷ args) in
      options opts cmd_args s.stderr default_preload k

  -- The last `-p`, and the file of the last `-o`, with the kernel after all of them.
  abbrev pub preloaded : List Opt → List ℕ → List ℕ
  preloaded [] d = d
  preloaded (opt_p optarg ∷ opts) d = preloaded opts optarg
  preloaded (opt_o optarg ∷ opts) d = preloaded opts d
  preloaded (opt_bad ∷ opts) d = preloaded opts d

  abbrev pub opened : List Opt → ℕ → s.Kernel → ℕ × s.Kernel
  opened [] file k = (file, k)
  opened (opt_o optarg ∷ opts) file k = let (file', k') = s.fopen optarg k in opened opts file' k'
  opened (opt_p optarg ∷ opts) file k = opened opts file k
  opened (opt_bad ∷ opts) file k = opened opts file k

  -- No option is unknown, and every file opens.
  abbrev pub accepted : List Opt → s.Kernel → Bool
  accepted [] k = true
  accepted (opt_o optarg ∷ opts) k =
      let (file, k') = s.fopen optarg k in
      let rest = accepted opts k' in if file == 0 then false else rest
  accepted (opt_p optarg ∷ opts) k = accepted opts k
  accepted (opt_bad ∷ opts) k = false

  options_lem :
      (opts : List Opt) (cmd_args : List (List ℕ)) (output : ℕ) (preload : List ℕ) (k : s.Kernel)
      → accepted opts k ≡ true
      → options opts cmd_args output preload k
        ≡ launch cmd_args (opened opts output k).0 (preloaded opts preload) (opened opts output k).1
  unfolding options
  options_lem [] cmd_args output preload k h = refl
  options_lem (opt_o optarg ∷ opts) cmd_args output preload k h =
      let (file, k') = s.fopen optarg k in
      let (there, rest) = both (file == 0) (accepted opts k') h in
      rw there (options_lem opts cmd_args file preload k' rest)
  options_lem (opt_p optarg ∷ opts) cmd_args output preload k h =
      options_lem opts cmd_args output optarg k h
  options_lem (opt_bad ∷ opts) cmd_args output preload k h = absurd (ground arith)

  -- With an argument, options that are all known and files that all open, where `dup` gives a
  -- descriptor and `execvp` does not come back, the program becomes the command, in an environment
  -- with the library of the last `-p`, or the default one, and with the descriptor that `dup` gives
  -- for the file of the last `-o`, or for the standard error.
  pub main_lem :
      (arg : List ℕ) (args : List (List ℕ)) (fd : ℕ) (k k' : s.Kernel)
      → accepted (s.getopt (arg ∷ args)).0 k ≡ true
      → (let (file, after) = opened (s.getopt (arg ∷ args)).0 s.stderr k in
          s.dup (s.fileno file after) after)
        ≡ (pos fd, k')
      → (let env : Env = record {
        ld_preload = preloaded (s.getopt (arg ∷ args)).0 default_preload;
        output_fd = some (pos fd);
      } in
          s.execvp (s.getopt (arg ∷ args)).1 env k')
        ≡ true
      → main (arg ∷ args) k
        ≡ executed
            (s.getopt (arg ∷ args)).1
            (record {
              ld_preload = preloaded (s.getopt (arg ∷ args)).0 default_preload;
              output_fd = some (pos fd);
            })
            k'
  unfolding main launch
  main_lem arg args fd k k' ok dup_ok exec_ok =
      let (opts, cmd_args) = s.getopt (arg ∷ args) in
      options_lem opts cmd_args s.stderr default_preload k ok
      ∙ (ap (run_command cmd_args (preloaded opts default_preload)) dup_ok ∙ rw exec_ok refl)

-- The world in which a program starts that has no library yet.
abbrev pub fresh : {K : Type 0} → Env → K → World K
fresh env k = record { kernel = k; output_file = 0; output_fd = env.output_fd; lines = [] }

-- A program's run in an environment: the loader puts the library before the C library where
-- LD_PRELOAD names it, and else the program meets the C library itself.
abbrev pub program :
    (c : Libc)
    → (List ℕ → Bool)
    → Env
    → List Call
    → c.Kernel
    → Option (List Answer × World c.Kernel)
program c is_logger env calls k =
    if is_logger env.ld_preload
    then trace c calls (fresh env k)
    else some ((untraced c calls k).0, fresh env (untraced c calls k).1)

-- The program `main` becomes the command in an environment in which the command's run comes to its
-- end with the answers and the kernel of the run without the library, and with a log of one line for
-- each call, in order, under its name and with its answer.
pub record Session (s : Starter) (c : Libc) (is_logger : List ℕ → Bool) (args : List (List ℕ))
    (k k' : s.Kernel) (start : c.Kernel) (calls : List Call) : Type 0 where
  pub env : Env
  pub ran : main s args k ≡ executed (s.getopt args).1 env k'
  pub after : World c.Kernel
  pub returned : program c is_logger env calls start ≡ some ((untraced c calls start).0, after)
  pub same_kernel : after.kernel ≡ (untraced c calls start).1
  pub named : map (λ line. line.function) after.lines ≡ map symbol calls
  pub shown : map (λ line. line.result) after.lines ≡ map result_of (untraced c calls start).0

-- With an argument, options that are all known and files that all open, where `dup` gives a
-- descriptor for the file of the last `-o` or for the standard error, `execvp` does not come back and
-- the library of the last `-p` or the default one is this logger, which finds every function and can
-- open that descriptor, and no other is asked for, behind the first call: the command runs under the
-- logger, and if all its calls are ones where the library is out of the way, the run comes to its end
-- with the answers and the kernel of the run without the library, and the log has one line for each
-- call, in order, under its name and with its answer.
pub session_lem :
    (s : Starter) (c : Libc) (is_logger : List ℕ → Bool) (arg : List ℕ) (args : List (List ℕ))
    (fd : ℕ) (k k' : s.Kernel) (start : c.Kernel) (calls : List Call)
    → accepted s (s.getopt (arg ∷ args)).0 k ≡ true
    → (let (file, after) = opened s (s.getopt (arg ∷ args)).0 s.stderr k in
        s.dup (s.fileno file after) after)
      ≡ (pos fd, k')
    → (let env : Env = record {
      ld_preload = preloaded s (s.getopt (arg ∷ args)).0 default_preload;
      output_fd = some (pos fd);
    } in
        s.execvp (s.getopt (arg ∷ args)).1 env k')
      ≡ true
    → is_logger (preloaded s (s.getopt (arg ∷ args)).0 default_preload) ≡ true
    → ((symbol : Symbol) → c.dlsym symbol ≡ true)
    → c.fdopen (pos fd) (first_kernel c calls start) ≢ 0
    → all_safe c calls start ≡ true
    → Session s c is_logger (arg ∷ args) k k' start calls
session_lem s c is_logger arg args fd k k' start calls ok dup_ok exec_ok ours found opens
      out_of_way =
    let env : Env = record {
      ld_preload = preloaded s (s.getopt (arg ∷ args)).0 default_preload;
      output_fd = some (pos fd);
    } in
    let t =
      trace_lem c calls (fresh env start)
        (record { found = found; output = inr (pos fd, refl, opens) }) out_of_way in
    record {
      env = env;
      ran = main_lem s arg args fd k k' ok dup_ok exec_ok;
      after = t.after;
      returned = rw ours t.returned;
      same_kernel = t.same_kernel;
      named = ap (map (λ line. line.function)) t.logged ∙ t.named;
      shown = ap (map (λ line. line.result)) t.logged ∙ t.shown;
    }
