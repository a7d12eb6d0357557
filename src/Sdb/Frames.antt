-- ===== src/Sdb/Frames.antt =====
-- HW4/ins.cpp: the commands and functions that write no variable of the debugger but the copy of
-- the registers. A property that ignores this copy is kept by each of them.
use advanced_programmin.Prelude.{ℕ, zero, suc, String, List, [], ◌∷◌}
use advanced_programmin.Sdb.Types.{Bp, Regs, Program}
use advanced_programmin.Sdb.Os.{Os}
use advanced_programmin.Sdb.Exec.{set_program}
use advanced_programmin.Sdb.Exec.Maintains.{
  Maintains, maintains_rules, Maintains-pure, Maintains-bind, Maintains-set_program,
  Maintains-case_option, Maintains-stop, Maintains-say,
}
use advanced_programmin.Sdb.Memory.Frame.{Maintains-change_byte}
use advanced_programmin.Sdb.Breakpoints.{
  arm_all, check_at, checkbp, nth_bp, restore_at, restore, list_all, inslist,
}
use advanced_programmin.Sdb.Memory.{add64}
use advanced_programmin.Sdb.Disasm.{
  disasm_code, capstone_disasm, disasm_at, insdisasm, read_row, dump_rows, insdump,
}
use advanced_programmin.Sdb.Vmmap.{Row, print_maps, insvmmap}
use advanced_programmin.Sdb.Commands.{inshelp, insexit}
use advanced_programmin.Sdb.Registers.{
  print_reg, insget, scan_addr, put_regs, write_reg, insset, print_regs, insgetregs,
}

module _ (os : Os) {P : Program → Type 0} where
  pub Maintains-arm_all : (base : ℕ) (bps : List Bp) → Maintains P (arm_all os base bps)
  unfolding arm_all
  Maintains-arm_all base [] = Maintains-pure tt
  Maintains-arm_all base (bp ∷ bps) =
      Maintains-bind _ (λ _. Maintains-arm_all base bps) (Maintains-change_byte os _ _)

  pub Maintains-nth_bp : (i : ℕ) → Maintains P (nth_bp os i)
  unfolding nth_bp
  Maintains-nth_bp i = search maintains_rules

  pub Maintains-scan_addr : (s : String) → Maintains P (scan_addr os s)
  unfolding scan_addr
  Maintains-scan_addr s = search maintains_rules

module _ (os : Os) (P : Program → Type 0)
    (free : (p : Program) (r : Regs) → P p → P (record p { regs = r })) where
  Maintains-set_regs :
      (r : Regs) → Maintains {K = os.Kernel} P (set_program (λ p. record p { regs = r }))
  Maintains-set_regs r = Maintains-set_program _ (λ p h. free p r h)

  Maintains-check_at : (r : Regs) → Maintains P (check_at os r)
  unfolding check_at
  Maintains-check_at r = search (maintains_rules, Maintains-set_regs, Maintains-arm_all os) depth 12

  pub Maintains-checkbp : Maintains P (checkbp os)
  unfolding checkbp
  Maintains-checkbp = search (maintains_rules, Maintains-check_at)

  Maintains-restore_at : (i : ℕ) (r : Regs) → Maintains P (restore_at os i r)
  unfolding restore_at
  Maintains-restore_at i r =
      search (maintains_rules, Maintains-set_regs, Maintains-nth_bp os, Maintains-change_byte os)
        depth 12

  pub Maintains-restore : (i : ℕ) → Maintains P (restore os i)
  unfolding restore
  Maintains-restore i = search (maintains_rules, Maintains-restore_at) depth 8

  Maintains-print_reg : (name : String) (r : Regs) → Maintains P (print_reg os name r)
  unfolding print_reg
  Maintains-print_reg name r = search (maintains_rules, Maintains-set_regs) depth 8

  pub Maintains-insget : (args : List String) → Maintains P (insget os args)
  unfolding insget
  Maintains-insget [] = search maintains_rules
  Maintains-insget (name ∷ []) = search (maintains_rules, Maintains-print_reg) depth 9
  Maintains-insget (_ ∷ _ ∷ _) = search maintains_rules

  Maintains-put_regs : (r : Regs) → Maintains P (put_regs os r)
  unfolding put_regs
  Maintains-put_regs r = search (maintains_rules, Maintains-set_regs) depth 9

  Maintains-write_reg : (name text : String) (r : Regs) → Maintains P (write_reg os name text r)
  unfolding write_reg
  Maintains-write_reg name text r =
      search (maintains_rules, Maintains-set_regs, Maintains-scan_addr os, Maintains-put_regs) depth
        8

  pub Maintains-insset : (args : List String) → Maintains P (insset os args)
  unfolding insset
  Maintains-insset [] = search maintains_rules
  Maintains-insset (name ∷ []) = search maintains_rules
  Maintains-insset (name ∷ text ∷ []) = search (maintains_rules, Maintains-write_reg) depth 9
  Maintains-insset (_ ∷ _ ∷ _ ∷ _) = search maintains_rules

  Maintains-print_regs : (r : Regs) → Maintains P (print_regs os r)
  unfolding print_regs
  Maintains-print_regs r = search (maintains_rules, Maintains-set_regs) depth 8

  pub Maintains-insgetregs : (args : List String) → Maintains P (insgetregs os args)
  unfolding insgetregs
  Maintains-insgetregs [] = search (maintains_rules, Maintains-print_regs) depth 9
  Maintains-insgetregs (_ ∷ _) = search maintains_rules

-- The commands that write no variable at all.
module _ (os : Os) {P : Program → Type 0} where
  Maintains-list_all : Maintains P (list_all os)
  unfolding list_all
  Maintains-list_all = search maintains_rules

  pub Maintains-inslist : (args : List String) → Maintains P (inslist os args)
  unfolding inslist
  Maintains-inslist [] = Maintains-list_all
  Maintains-inslist (_ ∷ _) = search (maintains_rules, Maintains-list_all)

  Maintains-disasm_code :
      (code : List ℕ) (offset size start num : ℕ)
      → Maintains P (disasm_code os code offset size start num)
  unfolding disasm_code
  Maintains-disasm_code code offset size start num = search maintains_rules depth 9

  pub Maintains-capstone_disasm :
      (start size num : ℕ) → Maintains P (capstone_disasm os start size num)
  unfolding capstone_disasm
  Maintains-capstone_disasm start size num = search (maintains_rules, Maintains-disasm_code) depth 8

  Maintains-disasm_at : (addr : ℕ) → Maintains P (disasm_at os addr)
  unfolding disasm_at
  Maintains-disasm_at addr = search (maintains_rules, Maintains-capstone_disasm) depth 9

  pub Maintains-insdisasm : (args : List String) → Maintains P (insdisasm os args)
  unfolding insdisasm
  Maintains-insdisasm [] = search maintains_rules
  Maintains-insdisasm (arg ∷ []) =
      search (maintains_rules, Maintains-scan_addr os, Maintains-disasm_at) depth 9
  Maintains-insdisasm (_ ∷ _ ∷ _) = search maintains_rules

  Maintains-read_row : (addr : ℕ) → Maintains P (read_row os addr)
  unfolding read_row
  Maintains-read_row addr = search maintains_rules depth 9

  Maintains-dump_rows : (n addr : ℕ) → Maintains P (dump_rows os n addr)
  unfolding dump_rows
  Maintains-dump_rows zero addr = Maintains-pure tt
  Maintains-dump_rows (suc n) addr =
      Maintains-bind _
        (λ row. Maintains-bind _ (λ _. Maintains-dump_rows n (add64 addr 16)) (Maintains-say _))
        (Maintains-read_row addr)

  pub Maintains-insdump : (args : List String) → Maintains P (insdump os args)
  unfolding insdump
  Maintains-insdump [] = search maintains_rules
  Maintains-insdump (arg ∷ []) =
      search (maintains_rules, Maintains-scan_addr os, Maintains-dump_rows) depth 9
  Maintains-insdump (_ ∷ _ ∷ _) = search maintains_rules

  Maintains-print_maps : (n : ℕ) (row : Row) (s : String) → Maintains P (print_maps os n row s)
  unfolding print_maps
  Maintains-print_maps zero row s = Maintains-pure tt
  Maintains-print_maps (suc n) row s = Maintains-case_option _ _ _ (Maintains-pure tt) (λ scanned.
      Maintains-case_option _ _ _ (Maintains-stop _)
        (λ name. Maintains-bind _ (λ _. Maintains-print_maps n _ _) (Maintains-say _)))

  pub Maintains-insvmmap : (args : List String) → Maintains P (insvmmap os args)
  unfolding insvmmap
  Maintains-insvmmap [] = search (maintains_rules, Maintains-print_maps) depth 9
  Maintains-insvmmap (_ ∷ _) = search maintains_rules

  pub Maintains-inshelp : (args : List String) → Maintains P (inshelp os args)
  unfolding inshelp
  Maintains-inshelp [] = search maintains_rules
  Maintains-inshelp (_ ∷ _) = search maintains_rules

  pub Maintains-insexit : (args : List String) → Maintains P (insexit os args)
  unfolding insexit
  Maintains-insexit [] = search maintains_rules
  Maintains-insexit (_ ∷ _) = search maintains_rules
