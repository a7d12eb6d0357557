-- ===== src/Sdb/Disasm.antt =====
-- HW4/disasm.cpp, and the commands disasm and dump of HW4/ins.cpp.
pub mod Range
pub mod Dump
use advanced_programmin.Prelude.{
  ℕ, zero, suc, ◌+◌, ◌-◌, ◌*◌, ◌/◌, ◌%◌, ◌^◌, String, Bool, true, false, ◌||◌, List, [], ◌∷◌, ◌++◌,
  map, length, take, drop, ltb, leb, if◌then◌else◌,
}
use advanced_programmin.Prelude.Int.{ℤ, pos, negsuc, lebℤ}
use advanced_programmin.Sdb.Os.{Os, Insn}
use advanced_programmin.Sdb.Exec.{
  text, err, insn_line, dump_row, undefined, Exec, pure, stop, get_program, get_kernel, say,
  say_all, ◌>>=◌, ◌>>◌,
}
use advanced_programmin.Sdb.Memory.{add64}
use advanced_programmin.Sdb.Breakpoints.{Status, success, failure, is_running, fail}
use advanced_programmin.Sdb.Registers.{scan_addr}

-- `unsigned long` subtraction.
abbrev pub sub64 : ℕ → ℕ → ℕ
sub64 a b = (a + 2 ^ 64 - b % 2 ^ 64) % 2 ^ 64

-- `n` bytes of a `long`, in memory order.
abbrev pub bytes_of : ℕ → ℕ → List ℕ
bytes_of zero w = []
bytes_of (suc n) w = w % 256 ∷ bytes_of n (w / 256)

module _ (os : Os) where
  -- The instructions found and printed. Their text is a part of `code`; a pointer past its end, or
  -- a size that reaches past it, is undefined behaviour.
  unfoldable pub disasm_code : List ℕ → ℕ → ℕ → ℕ → ℕ → Exec os.Kernel ℤ
  disasm_code code offset size start num =
      if leb (offset + size) (length code)
      then (do
        let insns = os.cs_disasm (take size (drop offset code)) size start num
        if ltb 0 (length insns)
            then say_all (map insn_line insns)
            else say (text "** ERROR: Failed to disassemble given code!\n")
        pure (pos (length insns)))
      else stop undefined

  unfoldable pub capstone_disasm : ℕ → ℕ → ℕ → Exec os.Kernel ℤ
  capstone_disasm start size num =
      if os.cs_open
      then (do
        code ← get_program (λ p. p.text)
        disasm_code code.bytes (sub64 start code.entry) size start num)
      else pure (negsuc 0)

  -- `insdisasm` with the address read
  unfoldable pub disasm_at : ℕ → Exec os.Kernel Status
  disasm_at addr = do
    code ← get_program (λ p. p.text)
    if ltb addr code.entry || ltb (add64 code.entry code.size) addr
        then fail os "** the address is out of the range of the text segment.\n"
        else do
          count ← capstone_disasm addr (sub64 code.size (sub64 addr code.entry)) 10
          if lebℤ (pos 10) count
              then pure success
              else fail os "** the address is out of the range of the text segment.\n"

  unfoldable pub insdisasm : List String → Exec os.Kernel Status
  insdisasm [] = fail os "** no addr is given.\n"
  insdisasm (arg ∷ []) = do
    state ← get_program (λ p. p.state)
    if is_running state
        then scan_addr os arg >>= disasm_at
        else fail os "** program is NOT running.\n"
  insdisasm (_ ∷ _ ∷ _) = fail os "** disasm error\n"

  -- the two PTRACE_PEEKDATA of a row
  unfoldable pub read_row : ℕ → Exec os.Kernel (List ℕ)
  read_row addr = do
    pid ← get_program (λ p. p.pid)
    base ← get_program (λ p. p.base_address)
    low ← get_kernel (os.peek pid (add64 base addr))
    high ← get_kernel (os.peek pid (add64 (add64 base addr) 8))
    pure (bytes_of 8 low ++ bytes_of 8 high)

  unfoldable pub dump_rows : ℕ → ℕ → Exec os.Kernel Unit
  dump_rows zero addr = pure tt
  dump_rows (suc rows) addr = do
    row ← read_row addr
    say (dump_row addr row)
    dump_rows rows (add64 addr 16)

  unfoldable pub insdump : List String → Exec os.Kernel Status
  insdump (arg ∷ []) = do
    state ← get_program (λ p. p.state)
    if is_running state
        then (do addr ← scan_addr os arg; dump_rows 5 addr; pure success)
        else fail os "** program is NOT running.\n"
  insdump _ = fail os "** dump error\n"
