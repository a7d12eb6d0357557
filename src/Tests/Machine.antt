-- ===== src/Tests/Machine.antt =====
-- A kernel with one process: its memory, its registers and the statuses that `waitpid` will give.
use mathlib.Core.Path.{subst}
use mathlib.Core.Option.{some-injective}
use advanced_programmin.Prelude.{
  ℕ, zero, suc, ◌+◌, ◌-◌, ◌%◌, ◌<◌, ◌≡◌, refl, ap, arith, true, Option, none, some, List, [], ◌∷◌,
  leb, ltb, ◌&&◌, Bool-cases, inl, inr,
}
use native.Mathlib.Nat.{mod-eq_of_lt}
use advanced_programmin.Sdb.Types.{Regs}
use advanced_programmin.Sdb.Os.{Os, Ptrace, word, nth_byte, written}

pub record Machine : Type 0 where
  pub memory : ℕ → ℕ
  pub regs : Regs
  pub statuses : List (Option ℕ)

abbrev pub byte : ℕ → Machine → ℕ → ℕ
byte pid m a = m.memory a % 256

abbrev pub poke : ℕ → ℕ → ℕ → Machine → Option Machine
poke pid a w m = some (record m { memory = written (byte pid m) a w })

abbrev next_status : Machine → List (Option ℕ) → Option ℕ × Machine
next_status m [] = (none, m)
next_status m (s ∷ ss) = (s, record m { statuses = ss })

-- Both a step and a run end one byte further on.
abbrev step : Machine → Machine
step m = record m { regs = record m.regs { rip = m.regs.rip + 1 } }

abbrev pub toy : Os
toy = record {
  Kernel = Machine;
  getregs = λ pid m. some m.regs;
  setregs = λ pid r m. some (record m { regs = record r { eflags = m.regs.eflags } });
  peek = λ pid a m. word 8 (byte pid m) a;
  poke = poke;
  singlestep = λ pid m. step m;
  cont = λ pid m. step m;
  setoptions = λ pid m. m;
  waitpid = λ pid m. next_status m m.statuses;
  fork_exec = λ path argv m. (7, m);
  proc_stat = λ pid m. none;
  proc_maps = λ pid m. some "00400000-00401000 r-xp 00000000 08:01 42\n";
  open_file = λ path m. none;
  indeterminate = λ m. 99;
  cs_open = true;
  cs_disasm = λ code size start num.
      record { address = start; size = 1; bytes = 0x90 ∷ []; mnemonic = "nop"; op_str = "" } ∷ [];
}

nth_byte-lt : (i w : ℕ) → nth_byte i w < 256
nth_byte-lt zero w = omega arith
nth_byte-lt (suc i) w = nth_byte-lt i _

pub byte-poked :
    (pid : ℕ) (m : Machine) (a w b : ℕ)
    → written (byte pid m) a w b % 256 ≡ written (byte pid m) a w b
byte-poked pid m a w b = elim (Bool-cases (leb a b && ltb b (a + 8))) [
  | inl e ↦ rw e (mod-eq_of_lt (nth_byte-lt (b - a) w))
  | inr e ↦ rw e (omega arith)
]

pub byte-lt : (pid : ℕ) (m : Machine) (a : ℕ) → byte pid m a < 256
byte-lt pid m a = omega arith

abbrev pub toy_ptrace : Ptrace toy
toy_ptrace = record {
  byte = byte;
  Mapped = λ pid m a. Unit;
  byte_lt = byte-lt;
  peek_word = λ pid m a h. refl;
  poke_total = λ pid m a w h. (record m { memory = written (byte pid m) a w }, refl);
  poke_word = λ pid m m' a w h lt e b.
      subst (λ x. byte pid x b ≡ written (byte pid m) a w b) (some-injective _ _ e)
        (byte-poked pid m a w b);
  poke_mapped = λ pid m m' a w e b h. tt;
  poke_regs = λ pid m m' a w e. subst (λ x. some x.regs ≡ some m.regs) (some-injective _ _ e) refl;
  Taken = λ pid m r. m.regs.eflags ≡ r.eflags;
  rip_taken = λ pid r m a e. ap (λ x. x.eflags) (some-injective _ _ e);
  setregs_regs = λ pid r m m' h e.
      subst (λ x. some x.regs ≡ some r) (some-injective _ _ e)
        (ap (λ f. some (record r { eflags = f })) h);
  setregs_byte =
      λ pid r m m' e b. subst (λ x. byte pid x b ≡ byte pid m b) (some-injective _ _ e) refl;
  setregs_mapped = λ pid r m m' e b h. tt;
}
