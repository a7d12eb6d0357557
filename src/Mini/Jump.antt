-- ===== src/Mini/Jump.antt =====
-- HW3/libmini64.asm: `setjmp` and `longjmp`, as the instructions that they are. Memory is words of
-- 64 bits by their address, and every access is to an address that 8 divides. A call of a function
-- in C keeps rbx, rsp, rbp and r12 to r15; below the stack pointer it may write its
-- return address and `depth` bytes more.
pub mod Saved
pub mod Restored
use advanced_programmin.Prelude.{
  ℕ, zero, suc, ◌+◌, ◌-◌, ◌*◌, ◌%◌, ◌^◌, Bool, true, false, Option, none, some, List, [], ◌∷◌, ◌==◌,
  ltb, leb, if◌then◌else◌,
}
use advanced_programmin.Prelude.Int.{ℤ, bits}
use advanced_programmin.Mini.{World}
use advanced_programmin.Mini.Signals.{SignalSystem, sigsetjmp, siglongjmp}

pub data Reg : Type 0 where
  rax rbx rsp rbp rdi rsi r12 r13 r14 r15 : Reg

pub data Function : Type 0 where
  c_sigsetjmp c_siglongjmp : Function

-- A memory operand is a register and an offset, and a jump the number of instructions it passes.
pub data Instr : Type 0 where
  push pop : Reg → Instr
  push_at pop_at : Reg → ℕ → Instr
  store : Reg → ℕ → Reg → Instr
  load : Reg → Reg → ℕ → Instr
  copy : Reg → Reg → Instr
  set : Reg → ℕ → Instr
  test : Reg → Instr
  jne : ℕ → Instr
  call : Function → Instr
  ret : Instr

pub record Regs : Type 0 where
  pub a : ℕ
  pub b : ℕ
  pub sp : ℕ
  pub bp : ℕ
  pub di : ℕ
  pub si : ℕ
  pub e12 : ℕ
  pub e13 : ℕ
  pub e14 : ℕ
  pub e15 : ℕ

abbrev pub get : Reg → Regs → ℕ
get rax r = r.a
get rbx r = r.b
get rsp r = r.sp
get rbp r = r.bp
get rdi r = r.di
get rsi r = r.si
get r12 r = r.e12
get r13 r = r.e13
get r14 r = r.e14
get r15 r = r.e15

abbrev pub put : Reg → ℕ → Regs → Regs
put rax v r = record r { a = v }
put rbx v r = record r { b = v }
put rsp v r = record r { sp = v }
put rbp v r = record r { bp = v }
put rdi v r = record r { di = v }
put rsi v r = record r { si = v }
put r12 v r = record r { e12 = v }
put r13 v r = record r { e13 = v }
put r14 v r = record r { e14 = v }
put r15 v r = record r { e15 = v }

-- `zf` is the flag that `test` leaves, and `skip` the instructions still to pass.
pub record Cpu (K : Type 0) : Type 0 where
  pub regs : Regs
  pub mem : ℕ → ℕ
  pub rip : ℕ
  pub zf : Bool
  pub skip : ℕ
  pub world : World K

abbrev pub word : ℕ → ℕ
word a = a % 2 ^ 64

abbrev pub below : ℕ → ℕ
below a = word (a + (2 ^ 64 - 8))

abbrev pub above : ℕ → ℕ
above a = word (a + 8)

abbrev pub update : ℕ → ℕ → (ℕ → ℕ) → ℕ → ℕ
update at v m x = if x == at then v else m x

-- What a function in C leaves where it need not keep what was there.
pub record Junk : Type 0 where
  pub di : ℕ
  pub si : ℕ
  pub mask : ℕ
  pub stack : ℕ → ℕ

pub record Machine : Type 1 where
  pub sys : SignalSystem
  pub depth : ℕ
  pub junk : Function → Junk

abbrev pub mask_offset : ℕ
mask_offset = 64

-- the stack below the pointer, after a call
abbrev pub used : ℕ → ℕ → (ℕ → ℕ) → (ℕ → ℕ) → ℕ → ℕ
used depth sp stack m x = if ltb x sp then (if leb sp (x + depth) then stack x else m x) else m x

abbrev pub or_junk : Option ℕ → ℕ → ℕ
or_junk none v = v
or_junk (some x) v = x

abbrev pub setjmp_code : List Instr
setjmp_code =
    push rdi
    ∷ call c_sigsetjmp
    ∷ pop rdi
    ∷ store rdi 0 rbx
    ∷ store rdi 8 rsp
    ∷ store rdi 16 rbp
    ∷ store rdi 24 r12
    ∷ store rdi 32 r13
    ∷ store rdi 40 r14
    ∷ store rdi 48 r15
    ∷ pop_at rdi 56
    ∷ push_at rdi 56
    ∷ ret
    ∷ []

abbrev pub longjmp_code : List Instr
longjmp_code =
    pop rax
    ∷ push rdi
    ∷ push rsi
    ∷ call c_siglongjmp
    ∷ pop rsi
    ∷ pop rdi
    ∷ test rsi
    ∷ jne 1
    ∷ set rsi 1
    ∷ copy rax rsi
    ∷ load rbx rdi 0
    ∷ load rsp rdi 8
    ∷ load rbp rdi 16
    ∷ load r12 rdi 24
    ∷ load r13 rdi 32
    ∷ load r14 rdi 40
    ∷ load r15 rdi 48
    ∷ push_at rdi 56
    ∷ ret
    ∷ []

module _ (m : Machine) where
  Kernel : Type 0
  Kernel = m.sys.Kernel

  abbrev pub pushed : ℕ → Cpu m.sys.Kernel → Cpu m.sys.Kernel
  pushed v c =
      let sp = below c.regs.sp in
      record c { regs = record c.regs { sp = sp }; mem = update sp v c.mem }

  abbrev pub popped : Cpu m.sys.Kernel → ℕ × Cpu m.sys.Kernel
  popped c = (c.mem c.regs.sp, record c { regs = record c.regs { sp = above c.regs.sp } })

  -- The registers that a call does not keep, with its result.
  abbrev pub after_call : Junk → ℤ → Regs → Regs
  after_call j re r = record r { a = bits 32 re; di = j.di; si = j.si }

  abbrev pub run_function : Function → Cpu m.sys.Kernel → Cpu m.sys.Kernel
  run_function c_sigsetjmp c =
      let j = m.junk c_sigsetjmp in
      let ((re, old), w) = sigsetjmp m.sys c.world in
      record c {
        regs = after_call j re c.regs;
        mem =
            update (word (c.regs.di + mask_offset)) (or_junk old j.mask)
              (used (m.depth + 8) c.regs.sp j.stack c.mem);
        world = w;
      }
  run_function c_siglongjmp c =
      let j = m.junk c_siglongjmp in
      let (re, w) = siglongjmp m.sys (c.mem (word (c.regs.di + mask_offset))) c.world in
      record c {
        regs = after_call j re c.regs;
        mem = used (m.depth + 8) c.regs.sp j.stack c.mem;
        world = w;
      }

  abbrev pub exec : Instr → Cpu m.sys.Kernel → Cpu m.sys.Kernel
  exec (push r) c = pushed (get r c.regs) c
  exec (pop r) c = let (v, c') = popped c in record c' { regs = put r v c'.regs }
  exec (push_at r o) c = pushed (c.mem (word (get r c.regs + o))) c
  exec (pop_at r o) c =
      let (v, c') = popped c in record c' { mem = update (word (get r c'.regs + o)) v c'.mem }
  exec (store r o s) c = record c { mem = update (word (get r c.regs + o)) (get s c.regs) c.mem }
  exec (load d r o) c = record c { regs = put d (c.mem (word (get r c.regs + o))) c.regs }
  exec (copy d s) c = record c { regs = put d (get s c.regs) c.regs }
  exec (set d v) c = record c { regs = put d v c.regs }
  exec (test r) c = record c { zf = get r c.regs == 0 }
  exec (jne n) c = if c.zf then c else record c { skip = n }
  exec (call f) c = run_function f c
  exec ret c = let (v, c') = popped c in record c' { rip = v }

  abbrev pub run : List Instr → Cpu m.sys.Kernel → Cpu m.sys.Kernel
  run [] c = c
  run (i ∷ is) c = elim c.skip [ zero ↦ run is (exec i c) | suc n ↦ run is (record c { skip = n }) ]

  unfoldable pub setjmp : Cpu m.sys.Kernel → Cpu m.sys.Kernel
  setjmp c = run setjmp_code (record c { skip = 0 })

  unfoldable pub longjmp : Cpu m.sys.Kernel → Cpu m.sys.Kernel
  longjmp c = run longjmp_code (record c { skip = 0 })
