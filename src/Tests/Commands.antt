-- ===== src/Tests/Commands.antt =====
-- The commands of HW4 on a small machine.
use advanced_programmin.Prelude.{
  zero, suc, ◌++◌, true, ℕ, ◌≡◌, refl, arith, List, [], ◌∷◌, none, some,
}
use advanced_programmin.Prelude.Int.{pos}
use advanced_programmin.Sdb.Types.{loaded, init}
use advanced_programmin.Sdb.Exec.{World, done, ended, pure, ◌>>=◌, ◌>>◌}
use advanced_programmin.Sdb.Exec.Maintains.{after}
use advanced_programmin.Sdb.Memory.{change_byte}
use advanced_programmin.Sdb.Scan.{stoul16, stoi, words}
use advanced_programmin.Sdb.Breakpoints.{
  success, has_addr, setbreak, break_at, insbreak, insdelete, nth_bp, remove_bp, delete_nth,
  delete_bp, delete_at,
}
use advanced_programmin.Sdb.Breakpoints.Twice.{insbreak-insbreak}
use advanced_programmin.Sdb.Breakpoints.Numbers.{insdelete_lem}
use advanced_programmin.Sdb.Run.{arm_fresh, rearm_with, rearm, stopped_with}
use advanced_programmin.Sdb.Run.Ends.{stopped_with_lem}
use advanced_programmin.Sdb.Main.{opt_s, main}
use advanced_programmin.Sdb.Invariant.Start.{main-WellFormed}
use advanced_programmin.Sdb.Load.{Shdr, parse_elf}
use advanced_programmin.Sdb.Os.{Os}
use advanced_programmin.Sdb.Memory.Writes.{ByteWritten}
use advanced_programmin.Sdb.Overlay.Edits.{without_bp}
use advanced_programmin.Sdb.Load.Contents.{HasText, parse_elf_lem}
use advanced_programmin.Sdb.Commands.{exec_lines, execins}
use advanced_programmin.Sdb.Commands.Dispatch.{execins_lem}
use advanced_programmin.Sdb.Commands.Exits.{exits, exec_lines-exit}
use advanced_programmin.Sdb.Vmmap.{Row, print_maps}
use advanced_programmin.Sdb.Vmmap.Fuel.{print_maps_lem}
use advanced_programmin.Sdb.Invariant.{WellFormed}
use advanced_programmin.Sdb.Overlay.Sessions.{here, next, removed, memory}
use advanced_programmin.Sdb.Overlay.Restart.{rearm-Session}
use advanced_programmin.Tests.Machine.{Machine, toy, toy_ptrace}
use advanced_programmin.Tests.Debugger.{machine, fresh, broken}

execins_example : execins toy "delete  1" fresh ≡ (insdelete toy ("1" ∷ []) >> pure tt) fresh
unfolding words
execins_example = execins_lem toy "delete  1" "delete" ("1" ∷ []) fresh refl

-- the debugger as it starts
abbrev idle : World Machine
idle = record { program = init; kernel = machine; out = [] }

insbreak-insbreak_example : insbreak toy ("1000" ∷ []) broken ≡ done success broken
unfolding insbreak break_at setbreak change_byte stoul16 has_addr ◌>>=◌
insbreak-insbreak_example = insbreak-insbreak toy "1000" success fresh broken refl refl

-- one breakpoint, with a trap where a byte 80 was
abbrev trapped : World Machine
trapped = record fresh {
  program = record fresh.program { bplist = record { addr = 4096; ovalue = 80 } ∷ [] };
}

trapped-WellFormed : WellFormed trapped.program
unfolding has_addr
trapped-WellFormed = record {
  distinct = (refl, tt);
  in_range = ((omega arith, omega arith), tt);
  text_size = refl;
  unloaded = λ e. cc;
}

insdelete_example :
    (k : Machine) × (insdelete toy ("0" ∷ []) trapped
      ≡ done success (without_bp toy toy_ptrace (λ a. 0) trapped k 0))
    × ByteWritten toy toy_ptrace 7 machine k 4096 80
unfolding stoi
insdelete_example =
    insdelete_lem toy toy_ptrace "0" (pos 0) trapped refl (omega arith) refl trapped-WellFormed
      (tt, tt)

stopped_with_example :
    stopped_with toy 768 fresh
    ≡ done success
        (record fresh { program = record fresh.program { state = loaded }; out = ended 7 768 ∷ [] })
stopped_with_example = stopped_with_lem toy 768 fresh

abbrev row : Row
row = record {
  addr = 0;
  endaddr = 0;
  premission = "";
  offset = 0;
  device = "";
  inode = 0;
  filename = none;
}

print_maps_example :
    print_maps toy 40 row "00400000-00401000 r-xp 0 08:01 42 /a\n" fresh
    ≡ print_maps toy 50 row "00400000-00401000 r-xp 0 08:01 42 /a\n" fresh
print_maps_example =
    print_maps_lem toy 40 50 row "00400000-00401000 r-xp 0 08:01 42 /a\n" fresh (omega arith)
      (omega arith)

-- a breakpoint kept from an earlier process
abbrev kept : World Machine
kept = record fresh {
  program = record fresh.program { bplist = record { addr = 4096; ovalue = 0 } ∷ [] };
}

kept-WellFormed : WellFormed kept.program
unfolding has_addr
kept-WellFormed = record {
  distinct = (refl, tt);
  in_range = ((omega arith, omega arith), tt);
  text_size = refl;
  unloaded = λ e. cc;
}

abbrev restarted : World Machine
restarted = after (rearm toy 0 kept)

abbrev emptied : World Machine
emptied = after (insdelete toy ("0" ∷ []) restarted)

rearm-Session_example : memory toy toy_ptrace emptied 4096 ≡ memory toy toy_ptrace kept 4096
unfolding rearm rearm_with arm_fresh change_byte insdelete delete_at delete_bp delete_nth remove_bp
    nth_bp stoi ◌>>=◌
rearm-Session_example =
    rearm-Session toy toy_ptrace kept restarted emptied kept-WellFormed (tt, tt) refl
      (next here (removed "0" success refl)) refl 4096

main-WellFormed_example :
    WellFormed (after (main toy (opt_s "script" []) (λ name. some ("list" ∷ [])) [] idle)).program
main-WellFormed_example =
    main-WellFormed toy (opt_s "script" []) (λ name. some ("list" ∷ [])) [] idle refl

exec_lines-exit_example :
    exec_lines toy ("help" ∷ "exit" ∷ "cont" ∷ []) idle ≡ exits (exec_lines toy ("help" ∷ []) idle)
unfolding words
exec_lines-exit_example = exec_lines-exit toy ("help" ∷ []) ("cont" ∷ []) "exit" idle refl

abbrev zeros : ℕ → List ℕ
zeros zero = []
zeros (suc n) = 0 ∷ zeros n

-- An ELF file: the header, which has the table at 64, two sections and the names in the first one;
-- the two section headers; the names; the section ".text", two bytes at 199.
abbrev elf : List ℕ
elf =
    zeros 16
    ++ (3 ∷ zeros 23
        ++ (64 ∷ zeros 19
            ++ (2 ∷ zeros 3
                ++ ((5 ∷ zeros 23 ++ (192 ∷ zeros 7 ++ (7 ∷ zeros 31)))
                    ++ (zeros 17 ++ (16 ∷ zeros 6 ++ (199 ∷ zeros 7 ++ (2 ∷ zeros 31))))
                    ++ (46 ∷ 116 ∷ 101 ∷ 120 ∷ 116 ∷ 0 ∷ 0 ∷ 85 ∷ 195 ∷ [])))))

abbrev strtab : Shdr
strtab = record { sh_name = 5; sh_addr = 0; sh_offset = 192; sh_size = 7 }

abbrev section : Shdr
section = record { sh_name = 0; sh_addr = 4096; sh_offset = 199; sh_size = 2 }

abbrev disk : Os
disk = record toy { open_file = λ path k. some elf }

elf-HasText : HasText elf section
elf-HasText = record {
  strtab = strtab;
  before = strtab ∷ [];
  after = [];
  rest = 0 ∷ [];
  header_fits = omega arith;
  table_fits = omega arith;
  strtab_at = refl;
  names_fit = omega arith;
  sections = refl;
  others = (
    record {
      prefix = [];
      c = 46;
      cs = 116 ∷ 101 ∷ 120 ∷ 116 ∷ 0 ∷ [];
      d = 0;
      ds = 0 ∷ [];
      left = refl;
      right = refl;
      other = refl;
    },
    tt,
  );
  named = refl;
  text_fits = omega arith;
}

parse_elf_example :
    parse_elf disk "a" idle
    ≡ done success (record idle {
      program = record init {
        dynamic = true;
        text = record { offset = 0; entry = 4096; size = 2; bytes = 85 ∷ 195 ∷ [] };
      };
    })
parse_elf_example = parse_elf_lem disk "a" elf section idle refl elf-HasText
