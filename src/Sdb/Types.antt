-- ===== src/Sdb/Types.antt =====
-- HW4/util.h: the debugger's global `program`, its breakpoints and the traced program's text. The
-- registers are the fields of `struct user_regs_struct` that the debugger names; `rest` stands for
-- the others, which it only copies.
use advanced_programmin.Prelude.{ℕ, String, Bool, false, Option, List, []}

pub data State : Type 0 where
  none loaded running : State

-- The value of the enumerator.
abbrev pub rank : State → ℕ
rank State.none = 0
rank loaded = 1
rank running = 2

pub record Text : Type 0 where
  pub offset : ℕ
  pub entry : ℕ
  pub size : ℕ
  pub bytes : List ℕ

pub record Bp : Type 0 where
  pub addr : ℕ
  pub ovalue : ℕ

pub record Regs : Type 0 where
  pub rax : ℕ
  pub rbx : ℕ
  pub rcx : ℕ
  pub rdx : ℕ
  pub r8 : ℕ
  pub r9 : ℕ
  pub r10 : ℕ
  pub r11 : ℕ
  pub r12 : ℕ
  pub r13 : ℕ
  pub r14 : ℕ
  pub r15 : ℕ
  pub rdi : ℕ
  pub rsi : ℕ
  pub rbp : ℕ
  pub rsp : ℕ
  pub rip : ℕ
  pub eflags : ℕ
  pub rest : List ℕ

-- `char **argv`: null, a part of the debugger's own arguments, or an array in the frame of
-- `insload`, which is gone when the function returns.
pub data Argv : Type 0 where
  null_argv : Argv
  of_main : List String → Argv
  of_frame : List (Option String) → Argv

pub record Program : Type 0 where
  pub state : State
  pub path : String
  pub argv : Argv
  pub pid : ℕ
  pub base_address : ℕ
  pub text : Text
  pub dynamic : Bool
  pub bplist : List Bp
  pub regs : Regs

abbrev pub no_text : Text
no_text = record { offset = 0; entry = 0; size = 0; bytes = [] }

abbrev pub no_regs : Regs
no_regs = record {
  rax = 0;
  rbx = 0;
  rcx = 0;
  rdx = 0;
  r8 = 0;
  r9 = 0;
  r10 = 0;
  r11 = 0;
  r12 = 0;
  r13 = 0;
  r14 = 0;
  r15 = 0;
  rdi = 0;
  rsi = 0;
  rbp = 0;
  rsp = 0;
  rip = 0;
  eflags = 0;
  rest = [];
}

-- `struct Program program;`, a global, so zero where the struct gives no value.
abbrev pub init : Program
init = record {
  state = State.none;
  path = "";
  argv = null_argv;
  pid = 0;
  base_address = 0;
  text = no_text;
  dynamic = false;
  bplist = [];
  regs = no_regs;
}
