-- ===== src/Tests/Debugger.antt =====
-- The debugger of HW4 on a small machine.
use advanced_programmin.Sdb.Breakpoints.{
  restore_at, failure, restore, success, has_addr, setbreak, break_at, insbreak, arm_all, check_at,
  checkbp, find_bp, remove_bp, nth_bp, delete_nth, delete_bp, delete_at, insdelete,
}
use advanced_programmin.Prelude.{
  str_eq, if◌then◌else◌, ◌==◌, ℕ, String, List, arith, Option, inr, ◌%◌, ◌≡◌, refl, [], ◌∷◌, some,
}
use advanced_programmin.Sdb.Exec.{done, ◌>>◌, reg_line, World, ◌>>=◌}
use advanced_programmin.Sdb.Scan.{sscanf_0x, stoul16, stoi}
use advanced_programmin.Sdb.Overlay.{Shadows}
use advanced_programmin.Sdb.Overlay.Arm.{Verdict, Armed, checkbp_lem, restore_lem}
use advanced_programmin.Sdb.Overlay.Edits.{with_bp, setbreak_lem}
use advanced_programmin.Sdb.Memory.Writes.{ByteWritten, change_byte_lem}
use advanced_programmin.Sdb.Commands.{exec_lines}
use advanced_programmin.Sdb.Invariant.Script.{exec_lines-WellFormed}
use advanced_programmin.Sdb.Load.{Shdr, find_text}
use advanced_programmin.Sdb.Load.Section.{Searched, find_text-Searched}
use advanced_programmin.Sdb.Registers.{get_reg, insset, insget, set_reg}
use advanced_programmin.Sdb.Registers.SetGet.{insget-insset}
use advanced_programmin.Sdb.Disasm.{disasm_at, read_row}
use advanced_programmin.Sdb.Disasm.Range.{TextFits, disasm_at_lem}
use advanced_programmin.Sdb.Disasm.Dump.{bytes_from, read_row_lem}
use advanced_programmin.Sdb.Types.{running, init, no_regs, Text}
use advanced_programmin.Sdb.Exec.Maintains.{after}
use advanced_programmin.Sdb.Memory.{change_byte}
use advanced_programmin.Sdb.Invariant.{WellFormed}
use advanced_programmin.Sdb.Overlay.Sessions.{
  broke, removed, restored, checked, Session, here, next, Session-memory, memory,
}
use advanced_programmin.Tests.Machine.{Machine, toy, toy_ptrace}

abbrev pub machine : Machine
machine = record {
  memory = λ a. a % 251;
  regs = record no_regs { rip = 4097 };
  statuses = some 1407 ∷ some 0 ∷ [];
}

abbrev text : Text
text = record { offset = 0; entry = 4096; size = 2; bytes = 0x90 ∷ 0x90 ∷ [] }

-- a process at its second instruction
abbrev pub fresh : World Machine
fresh = record {
  program = record init { state = running; pid = 7; text = text };
  kernel = machine;
  out = [];
}

fresh-WellFormed : WellFormed fresh.program
fresh-WellFormed = record { distinct = tt; in_range = tt; text_size = refl; unloaded = λ e. cc }

-- break, a look at the breakpoints, and delete
abbrev pub broken : World Machine
broken = after (insbreak toy ("1000" ∷ []) fresh)

abbrev looked : World Machine
looked = after (checkbp toy broken)

abbrev rewound : World Machine
rewound = after (restore toy 0 looked)

abbrev cleared : World Machine
cleared = after (insdelete toy ("0" ∷ []) rewound)

fresh-Shadows : Shadows toy toy_ptrace (memory toy toy_ptrace fresh) fresh
fresh-Shadows = record { saved = tt; mapped = tt; outside = λ b e. refl; inside = λ b e. inr refl }

fresh-TextFits : TextFits fresh
fresh-TextFits = record { size_eq = refl; end_lt = omega arith }

abbrev session_lines : List String
session_lines = "break 1000" ∷ "cont" ∷ "delete 0" ∷ []

session : Session toy toy_ptrace fresh cleared
unfolding insbreak break_at setbreak change_byte stoul16 has_addr checkbp check_at arm_all find_bp
    restore restore_at insdelete delete_at delete_bp delete_nth remove_bp nth_bp stoi ◌>>=◌
session =
    next
      (next (next (next here (broke "1000" success (λ n e. tt) refl)) (checked (some 0) refl))
        (restored 0 success refl))
      (removed "0" success refl)

Session-memory_example : memory toy toy_ptrace cleared 4096 ≡ memory toy toy_ptrace fresh 4096
unfolding insbreak break_at setbreak change_byte stoul16 has_addr checkbp check_at arm_all find_bp
    restore restore_at insdelete delete_at delete_bp delete_nth remove_bp nth_bp stoi ◌>>=◌
Session-memory_example =
    Session-memory toy toy_ptrace fresh cleared fresh-WellFormed refl session refl 4096

exec_lines-WellFormed_example : WellFormed (after (exec_lines toy session_lines fresh)).program
exec_lines-WellFormed_example = exec_lines-WellFormed toy session_lines fresh fresh-WellFormed

checkbp_example :
    (hit : Option ℕ) × (k : Machine) × (checkbp toy broken
      ≡ done hit
          (record broken { program = record broken.program { regs = machine.regs }; kernel = k }))
    × Verdict toy toy_ptrace broken 4096 hit
    × Armed toy toy_ptrace 7 0 broken.program.bplist broken.kernel k
unfolding insbreak break_at setbreak change_byte stoul16 has_addr ◌>>=◌
checkbp_example = checkbp_lem toy toy_ptrace broken machine.regs refl (tt, tt)

restore_example :
    (k : Machine) × (restore toy 0 broken
      ≡ done success (record broken {
        program = record broken.program { regs = record no_regs { rip = 4096 } };
        kernel = k;
      }))
    × (some k.regs ≡ some (record no_regs { rip = 4096 }))
    × ((b : ℕ)
        → memory toy toy_ptrace (record broken { kernel = k }) b
          ≡ (if b == 4096 then 80 else memory toy toy_ptrace broken b))
unfolding insbreak break_at setbreak change_byte stoul16 has_addr ◌>>=◌
restore_example =
    restore_lem toy toy_ptrace 0 broken machine.regs (record { addr = 4096; ovalue = 80 }) refl refl
      (omega arith) tt (λ k x. (record k { regs = record x { eflags = k.regs.eflags } }, refl))

setbreak_example :
    (k : Machine) × (setbreak toy 4096 fresh
      ≡ done success
          (with_bp toy toy_ptrace (λ a. 0) fresh k (record { addr = 4096; ovalue = 80 })))
    × ByteWritten toy toy_ptrace 7 machine k 4096 0xcc
unfolding has_addr
setbreak_example = setbreak_lem toy toy_ptrace (λ a. 0) 4096 fresh refl tt

change_byte_example :
    (k : Machine) × (change_byte toy 4096 0xcc fresh ≡ done 80 (record fresh { kernel = k }))
    × ByteWritten toy toy_ptrace 7 machine k 4096 0xcc
change_byte_example = change_byte_lem toy toy_ptrace 4096 0xcc fresh (omega arith) tt

-- ".symtab", then ".text", in a table of names
abbrev names : List ℕ
names = 0 ∷ 46 ∷ 115 ∷ 0 ∷ 46 ∷ 116 ∷ 101 ∷ 120 ∷ 116 ∷ 0 ∷ []

abbrev sections : List Shdr
sections =
    record { sh_name = 1; sh_addr = 0; sh_offset = 0; sh_size = 0 }
    ∷ record { sh_name = 4; sh_addr = 4096; sh_offset = 64; sh_size = 2 }
    ∷ []

find_text_example : Searched names sections (find_text names sections)
find_text_example = find_text-Searched names sections

insget-insset_example :
    ((insset toy ("rdx" ∷ "0x10" ∷ []) >> insget toy ("rdx" ∷ [])) fresh
      ≡ done success (record fresh {
        program = record fresh.program { regs = record machine.regs { rdx = 16 } };
        kernel = record machine { regs = record machine.regs { rdx = 16 } };
        out = reg_line "rdx" 16 ∷ [];
      }))
    × ((other : String)
        → get_reg other (record machine.regs { rdx = 16 })
          ≡ (if str_eq other "rdx" then some 16 else get_reg other machine.regs))
unfolding sscanf_0x set_reg
insget-insset_example =
    insget-insset toy toy_ptrace "rdx" "0x10" 16 machine.regs (record machine.regs { rdx = 16 })
      fresh (record machine { regs = record machine.regs { rdx = 16 } }) refl refl refl refl refl
      refl

disasm_at_example : (v : World Machine) × (disasm_at toy 4096 fresh ≡ done failure v)
disasm_at_example = disasm_at_lem toy 4096 fresh refl fresh-TextFits (omega arith)

read_row_example :
    read_row toy 4096 fresh ≡ done (bytes_from 16 (memory toy toy_ptrace fresh) 4096) fresh
read_row_example = read_row_lem toy toy_ptrace 4096 fresh (omega arith) tt tt
