-- ===== src/Mini/Jump/Restored.antt =====
-- HW3/libmini64.asm: what `longjmp` brings back.
use advanced_programmin.Prelude.{
  Bool, true, false, List, [], ◌∷◌, ℕ, ◌+◌, ◌-◌, ◌^◌, ◌≤◌, ◌<◌, ◌≡◌, refl, ap, sym, ◌∙◌, ◌==◌,
  if◌then◌else◌, arith,
}
use advanced_programmin.Mini.{World}
use advanced_programmin.Mini.Signals.{siglongjmp}
use advanced_programmin.Mini.Jump.{
  Regs, Cpu, Machine, Instr, rax, rbx, rsp, rbp, rdi, rsi, r12, r13, r14, r15, load, copy, set,
  test, jne, push, pop, push_at, call, c_siglongjmp, ret, exec, run, setjmp, longjmp, word,
}
use advanced_programmin.Mini.Jump.Saved.{
  Context, Apart, context, context_ext, live, saved, saved-setjmp, live-setjmp,
}

abbrev load_code : List Instr
load_code =
    copy rax rsi
    ∷ load rbx rdi 0
    ∷ load rsp rdi 8
    ∷ load rbp rdi 16
    ∷ load r12 rdi 24
    ∷ load r13 rdi 32
    ∷ load r14 rdi 40
    ∷ load r15 rdi 48
    ∷ push_at rdi 56
    ∷ ret
    ∷ []

-- the value with which `setjmp` returns again
abbrev pub nonzero : ℕ → ℕ
nonzero v = if v == 0 then 1 else v

abbrev restore_code : List Instr
restore_code = test rsi ∷ jne 1 ∷ set rsi 1 ∷ load_code

module _ (m : Machine) (regs : Regs) (mem : ℕ → ℕ) (rip : ℕ) (zf : Bool)
    (w : World m.sys.Kernel) where
  start : Cpu m.sys.Kernel
  start = record { regs = regs; mem = mem; rip = rip; zf = zf; skip = 0; world = w }

  load_live : mem (word (regs.di + 8)) < 2 ^ 64 → live (run m load_code start) ≡ saved regs.di mem
  unfolding start
  load_live h = context_ext (ground arith) refl (ground arith) refl refl refl refl refl

  load_result : (run m load_code start).regs.a ≡ regs.si
  unfolding start
  load_result = refl

  tested : Cpu m.sys.Kernel
  unfolding start
  tested = record start { regs = record regs { si = nonzero regs.si }; zf = regs.si == 0 }

  branch :
      (z : Bool)
      → run m (jne 1 ∷ set rsi 1 ∷ load_code) (record start { zf = z })
        ≡ run m load_code
            (record start { regs = record regs { si = if z then 1 else regs.si }; zf = z })
  unfolding start
  branch true = refl
  branch false = refl

  test_code : run m restore_code start ≡ run m load_code tested
  unfolding start tested
  test_code = branch (regs.si == 0)

  restore_live :
      mem (word (regs.di + 8)) < 2 ^ 64 → live (run m restore_code start) ≡ saved regs.di mem
  unfolding start tested
  restore_live h =
      rw test_code (context_ext (ground arith) refl (ground arith) refl refl refl refl refl)

  restore_result : (run m restore_code start).regs.a ≡ nonzero regs.si
  unfolding start tested
  restore_result = rw test_code refl

  restore_world : (run m restore_code start).world ≡ w
  unfolding start tested
  restore_world = rw test_code refl

module _ (m : Machine) (c : Cpu m.sys.Kernel) (h : Apart m.depth c.regs.di c.regs.sp) where
  -- the machine before the registers are brought back
  entered : Cpu m.sys.Kernel
  entered = exec m (pop rdi) (
      exec m (pop rsi) (
        exec m (call c_siglongjmp)
          (exec m (push rsi) (exec m (push rdi) (exec m (pop rax) (record c { skip = 0 }))))))

  entered_buffer : entered.regs.di ≡ c.regs.di
  unfolding entered
  entered_buffer = ground (arith, h)

  entered_value : entered.regs.si ≡ c.regs.si
  unfolding entered
  entered_value = ground (arith, h)

  entered_word :
      (o : ℕ) → o ≤ 64 → entered.mem (word (c.regs.di + o)) ≡ c.mem (word (c.regs.di + o))
  unfolding entered
  entered_word o ho = ground (arith, h)

  restart : start m entered.regs entered.mem entered.rip entered.zf entered.world ≡ entered
  unfolding start entered
  restart = refl

  unrolled : longjmp m c ≡ run m restore_code entered
  unfolding entered longjmp
  unrolled = refl

  entered_saved : saved entered.regs.di entered.mem ≡ saved c.regs.di c.mem
  entered_saved = rw entered_buffer (
      context_ext (entered_word 56 (omega arith)) (entered_word 0 (omega arith))
        (entered_word 8 (omega arith)) (entered_word 16 (omega arith))
        (entered_word 24 (omega arith)) (entered_word 32 (omega arith))
        (entered_word 40 (omega arith)) (entered_word 48 (omega arith)))

  entered_stack : entered.mem (word (entered.regs.di + 8)) ≡ c.mem (word (c.regs.di + 8))
  entered_stack = rw entered_buffer (entered_word 8 (omega arith))

  -- the machine at the call
  calling : Cpu m.sys.Kernel
  calling = exec m (push rsi) (exec m (push rdi) (exec m (pop rax) (record c { skip = 0 })))

  calling_mask : calling.mem (word (calling.regs.di + 64)) ≡ c.mem (word (c.regs.di + 64))
  unfolding calling
  calling_mask = ground (arith, h)

  entered_world :
      entered.world ≡ (siglongjmp m.sys (calling.mem (word (calling.regs.di + 64))) c.world).1
  unfolding entered calling
  entered_world = refl

  longjmp_world : (longjmp m c).world ≡ (siglongjmp m.sys (c.mem (word (c.regs.di + 64))) c.world).1
  longjmp_world =
      rw (unrolled, sym restart)
        (restore_world m entered.regs entered.mem entered.rip entered.zf entered.world
          ∙ (entered_world ∙ ap (λ x. (siglongjmp m.sys x c.world).1) calling_mask))

  live-longjmp : c.mem (word (c.regs.di + 8)) < 2 ^ 64 → live (longjmp m c) ≡ saved c.regs.di c.mem
  live-longjmp hs =
      rw (unrolled, sym restart)
        (restore_live m entered.regs entered.mem entered.rip entered.zf entered.world
            (rw entered_stack hs)
          ∙ entered_saved)

  longjmp_result : (longjmp m c).regs.a ≡ nonzero c.regs.si
  longjmp_result =
      rw (unrolled, sym restart)
        (restore_result m entered.regs entered.mem entered.rip entered.zf entered.world
          ∙ ap nonzero entered_value)

-- the context that `setjmp` saves is the one with which it returns, but for the stack
behind :
    (m : Machine) (c : Cpu m.sys.Kernel)
    → Apart m.depth c.regs.di c.regs.sp
    → record (live (setjmp m c)) { sp = (live (setjmp m c)).sp - 8 }
      ≡ context (c.mem c.regs.sp) c.regs
behind m c h =
    ap {A = Context} {B = Context} (λ x. record x { sp = x.sp - 8 }) (live-setjmp m c h)
    ∙ context_ext refl refl (omega arith) refl refl refl refl refl

-- After `setjmp`, and a `longjmp` of any later machine whose `jmp_buf` has the words that `setjmp`
-- left in its own, with stacks and buffers inside the address space and apart, the instruction and
-- the registers rbx, rbp and r12 to r15 are those with which `setjmp` returned, and rsp is 8 less;
-- rax is the second argument, or 1 where that is 0; the world is that of `siglongjmp` with the
-- signal mask of the buffer.
pub longjmp_lem :
    (m : Machine) (c d : Cpu m.sys.Kernel)
    → Apart m.depth c.regs.di c.regs.sp
    → Apart m.depth d.regs.di d.regs.sp
    → saved d.regs.di d.mem ≡ saved c.regs.di (setjmp m c).mem
    → (live (longjmp m d) ≡ record (live (setjmp m c)) { sp = (live (setjmp m c)).sp - 8 })
      × ((longjmp m d).regs.a ≡ nonzero d.regs.si)
      × ((longjmp m d).world ≡ (siglongjmp m.sys (d.mem (word (d.regs.di + 64))) d.world).1)
longjmp_lem m c d hc hd same =
    let kept = same ∙ saved-setjmp m c hc in
    (
      live-longjmp m d hd (rw (ap (λ x. x.sp) kept) (omega (arith, hc.stack_end)))
          ∙ kept
          ∙ sym (behind m c hc),
      longjmp_result m d hd,
      longjmp_world m d hd,
    )
