-- ===== src/Mini/Jump/Saved.antt =====
-- HW3/libmini64.asm: what `setjmp` saves.
use advanced_programmin.Prelude.{
  Bool, List, [], ◌∷◌, ℕ, ◌+◌, ◌^◌, ◌≤◌, ◌<◌, ◌≡◌, ◌⊎◌, refl, ap, sym, ◌∙◌, arith,
}
use advanced_programmin.Prelude.Int.{bits}
use advanced_programmin.Mini.{World}
use advanced_programmin.Mini.Signals.{sigsetjmp}
use advanced_programmin.Mini.Jump.{
  Regs, Cpu, Machine, mask_offset, or_junk, Instr, exec, pop, call, push, c_sigsetjmp, rbx, rsp,
  rbp, rdi, r12, r13, r14, r15, store, pop_at, push_at, ret, run, setjmp, word,
}

-- What a jump is to bring back: the instruction, and the registers that a call keeps.
pub record Context : Type 0 where
  pub ip : ℕ
  pub b : ℕ
  pub sp : ℕ
  pub bp : ℕ
  pub e12 : ℕ
  pub e13 : ℕ
  pub e14 : ℕ
  pub e15 : ℕ

-- The one in force, and the one that a `jmp_buf` holds.
abbrev pub context : ℕ → Regs → Context
context ip r = record {
  ip = ip;
  b = r.b;
  sp = r.sp;
  bp = r.bp;
  e12 = r.e12;
  e13 = r.e13;
  e14 = r.e14;
  e15 = r.e15;
}

abbrev pub live : {K : Type 0} → Cpu K → Context
live c = context c.rip c.regs

abbrev pub saved : ℕ → (ℕ → ℕ) → Context
saved env mem = record {
  ip = mem (word (env + 56));
  b = mem (word (env + 0));
  sp = mem (word (env + 8));
  bp = mem (word (env + 16));
  e12 = mem (word (env + 24));
  e13 = mem (word (env + 32));
  e14 = mem (word (env + 40));
  e15 = mem (word (env + 48));
}

-- a return takes the address off the stack
abbrev pub past_return : Context → Context
past_return x = record x { sp = x.sp + 8 }

pub context_ext :
    {c d : Context}
    → c.ip ≡ d.ip
    → c.b ≡ d.b
    → c.sp ≡ d.sp
    → c.bp ≡ d.bp
    → c.e12 ≡ d.e12
    → c.e13 ≡ d.e13
    → c.e14 ≡ d.e14
    → c.e15 ≡ d.e15
    → c ≡ d
context_ext p0 p1 p2 p3 p4 p5 p6 p7 i = record {
  ip = p0 i;
  b = p1 i;
  sp = p2 i;
  bp = p3 i;
  e12 = p4 i;
  e13 = p5 i;
  e14 = p6 i;
  e15 = p7 i;
}

-- The `jmp_buf` and the stack that the functions use are inside the address space and apart.
pub record Apart (depth env sp : ℕ) : Type 0 where
  pub room : depth + 16 ≤ sp
  pub stack_end : sp + 16 < 2 ^ 64
  pub buffer_end : env + 72 < 2 ^ 64
  pub apart : (env + (depth + 88) ≤ sp) ⊎ (sp + 8 ≤ env)

abbrev save_code : List Instr
save_code =
    store rdi 0 rbx
    ∷ store rdi 8 rsp
    ∷ store rdi 16 rbp
    ∷ store rdi 24 r12
    ∷ store rdi 32 r13
    ∷ store rdi 40 r14
    ∷ store rdi 48 r15
    ∷ pop_at rdi 56
    ∷ push_at rdi 56
    ∷ ret
    ∷ []

module _ (m : Machine) (regs : Regs) (mem : ℕ → ℕ) (rip : ℕ) (zf : Bool)
    (w : World m.sys.Kernel) where
  start : Cpu m.sys.Kernel
  start = record { regs = regs; mem = mem; rip = rip; zf = zf; skip = 0; world = w }

  module _ (h : Apart 0 regs.di regs.sp) where
    save_lem : saved regs.di (run m save_code start).mem ≡ context (mem regs.sp) regs
    unfolding start
    save_lem =
        context_ext (ground (arith, h)) (ground (arith, h)) (ground (arith, h)) (ground (arith, h))
          (ground (arith, h)) (ground (arith, h)) (ground (arith, h)) (ground (arith, h))

    save_live : live (run m save_code start) ≡ past_return (context (mem regs.sp) regs)
    unfolding start
    save_live = ground (arith, h)

    save_mask :
        (run m save_code start).mem (word (regs.di + mask_offset))
        ≡ mem (word (regs.di + mask_offset))
    unfolding start
    save_mask = ground (arith, h)

module _ (m : Machine) (c : Cpu m.sys.Kernel) (h : Apart m.depth c.regs.di c.regs.sp) where
  -- the machine before the registers are saved
  entered : Cpu m.sys.Kernel
  entered = exec m (pop rdi) (exec m (call c_sigsetjmp) (exec m (push rdi) (record c { skip = 0 })))

  entered_buffer : entered.regs.di ≡ c.regs.di
  unfolding entered
  entered_buffer = ground (arith, h)

  entered_stack : entered.regs.sp ≡ c.regs.sp
  unfolding entered
  entered_stack = ground (arith, h)

  entered_return : entered.mem c.regs.sp ≡ c.mem c.regs.sp
  unfolding entered
  entered_return = ground (arith, h)

  narrower : Apart 0 c.regs.di c.regs.sp
  narrower = record {
    room = omega (arith, h.room);
    stack_end = h.stack_end;
    buffer_end = h.buffer_end;
    apart = ground (arith, h.apart);
  }

  entered-Apart : Apart 0 entered.regs.di entered.regs.sp
  entered-Apart = rw (entered_buffer, entered_stack) narrower

  entered_context :
      context (entered.mem entered.regs.sp) entered.regs ≡ context (c.mem c.regs.sp) c.regs
  unfolding entered
  entered_context =
      context_ext (ap (entered.mem) entered_stack ∙ entered_return) refl entered_stack refl refl
        refl refl refl

  unrolled : setjmp m c ≡ run m save_code entered
  unfolding entered setjmp
  unrolled = refl

  restart : start m entered.regs entered.mem entered.rip entered.zf entered.world ≡ entered
  unfolding start entered
  restart = refl

  pub saved-setjmp : saved c.regs.di (setjmp m c).mem ≡ context (c.mem c.regs.sp) c.regs
  saved-setjmp =
      rw (unrolled, sym restart, sym entered_buffer)
        (save_lem m entered.regs entered.mem entered.rip entered.zf entered.world entered-Apart
          ∙ entered_context)

  pub live-setjmp : live (setjmp m c) ≡ past_return (context (c.mem c.regs.sp) c.regs)
  live-setjmp =
      rw (unrolled, sym restart)
        (save_live m entered.regs entered.mem entered.rip entered.zf entered.world entered-Apart
          ∙ ap past_return entered_context)

  setjmp_result : (setjmp m c).regs.a ≡ bits 32 (sigsetjmp m.sys c.world).0.0
  unfolding setjmp
  setjmp_result = refl

  entered_mask :
      entered.mem (word (c.regs.di + mask_offset))
      ≡ or_junk (sigsetjmp m.sys c.world).0.1 (m.junk c_sigsetjmp).mask
  unfolding entered
  entered_mask = ground (arith, h)

  setjmp_mask :
      (setjmp m c).mem (word (c.regs.di + mask_offset))
      ≡ or_junk (sigsetjmp m.sys c.world).0.1 (m.junk c_sigsetjmp).mask
  setjmp_mask =
      rw (unrolled, sym restart, sym entered_buffer)
        (save_mask m entered.regs entered.mem entered.rip entered.zf entered.world entered-Apart
          ∙ rw entered_buffer entered_mask)

  -- With the stack and the buffer inside the address space and apart, `setjmp` returns to its
  -- caller with the result of `sigsetjmp`, the registers that a call keeps as they were and its
  -- address off the stack, and the buffer holds that address, those registers, rsp as it was with the
  -- address still on the stack, and the signal mask.
  setjmp_lem :
      (live (setjmp m c) ≡ past_return (context (c.mem c.regs.sp) c.regs))
      × ((setjmp m c).regs.a ≡ bits 32 (sigsetjmp m.sys c.world).0.0)
      × (saved c.regs.di (setjmp m c).mem ≡ context (c.mem c.regs.sp) c.regs)
      × ((setjmp m c).mem (word (c.regs.di + mask_offset))
          ≡ or_junk (sigsetjmp m.sys c.world).0.1 (m.junk c_sigsetjmp).mask)
  setjmp_lem = (live-setjmp, setjmp_result, saved-setjmp, setjmp_mask)
