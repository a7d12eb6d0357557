-- ===== src/Lib.antt =====
-- Advanced Programming in the UNIX Environment, 2022: the ptrace debugger of HW4, the clone of lsof
-- of HW1, the logger of library calls of HW2, and the small C library of HW3.
--
-- The debugger. HW4 is a debugger, `sdb`. It has one global `program` (HW4/util.h): a state (none,
-- loaded, running), the program's path and arguments, the traced process, the text section of the
-- file, the breakpoints and a copy of the registers. `execins` (HW4/ins.cpp) splits a line into
-- words, looks the command up in a table of sixteen functions and calls it. The commands read and
-- change `program`, trace a process by `ptrace` and `waitpid`, and print.
--
-- How it is modelled. A function of the debugger is an action (Sdb.Exec) on a world: the global
-- `program`, the kernel, and what was printed. An action returns, or the debugger stops: it exits,
-- an exception is not caught, or the behaviour is undefined. The kernel is a parameter (Sdb.Os): a
-- type with the calls that the debugger makes, and `cs_open` and `cs_disasm` of capstone. What
-- `ptrace` documents of a process's memory and registers is the record `Ptrace` of the same file;
-- only theorems on that memory ask for it. A `long` is its 64 bits.
--   Sdb.Types: the types of HW4/util.h, and `program` as it starts
--   Sdb.Scan: the standard library's reading of numbers and words, as HW4 uses it
--   Sdb.Memory: `change_byte` of HW4/util.cpp; Bytes, Writes and Frame are its lemmas
--   Sdb.Breakpoints: HW4/ins.cpp, setbreak, checkbp, restore, break, delete and list; Twice and
--     Numbers for what break and delete do
--   Sdb.Registers: HW4/ins.cpp, get, set and getregs; SetGet for the two together
--   Sdb.Disasm: HW4/disasm.cpp, and disasm and dump of HW4/ins.cpp; Range and Dump
--   Sdb.Run: HW4/start.cpp, and cont, si, run and start of HW4/ins.cpp; Ends for the wait status
--   Sdb.Load: HW4/load.cpp, and load of HW4/ins.cpp; Section for the search of ".text",
--     Contents for its bytes, Arguments for the program's arguments
--   Sdb.Vmmap: HW4/ins.cpp, vmmap, over the text of /proc/PID/maps; Fuel for its loop
--   Sdb.Commands: HW4/ins.cpp, help, exit and `execins`, and the loop of `execscript` of
--     HW4/main.cpp; Dispatch for the table, Exits for a script
--   Sdb.Main: HW4/main.cpp, with the result of `getopt` and the lines of the files as arguments
--   Sdb.Invariant: what holds of `program` between two commands, and that every command keeps it
--   Sdb.Frames: the commands that change nothing of `program` but the registers
--   Sdb.Overlay: the process's memory under the breakpoints, as a memory with bytes covered
--
-- The listing. HW1 prints a line for each file that each process has: its directories and program,
-- what it has mapped, and its descriptors. It reads /proc; what it reads there, `stat`, `readlink`
-- and `regex_search` are a parameter (the record `System` of Lsof), so a run sees one state of the
-- system. Patterns are taken to be valid, and a link to fit the buffer of `readlink`.
--   Lsof.File: HW1/file_info.cpp; Types for what `gettype` returns
--   Lsof.Filter: HW1/filter.cpp, with what `getopt` returns as a list; Accepted for what passes
--   Lsof.Process: HW1/hw1.cpp and HW1/proc_info.cpp; Maps for `parse_maps`, Order for the rows of
--     a process, Rows for what is printed, Complete for what is not left out. `listing`
--     is the loop of `main` over the entries of /proc.
--
-- The logger. HW2/hw2.c starts a command with HW2/logger.so before the C library (LD_PRELOAD) and a
-- descriptor for the log in the environment. HW2/logger.c has fourteen functions of the C library's
-- names; each calls the one that `dlsym` finds and writes a line. The C library is a parameter (the
-- record `Libc` of Logger), with `realpath`, `readlink` and `fdopen`; what `dlsym` finds does not
-- change. A function returns, or its behaviour is undefined. `log` is the use of `fprintf`; a line
-- has its arguments with their conversions.
--   Logger: the state, `getoutputfile`, `getfilename`, `getfilename_fd`, `getstring`
--   Logger.Hooks: the fourteen functions
--   Logger.Calls: a call with the library and without, and where the library is out of the way;
--     Output for a line of the log, Faithful for the one call, Faults for the undefined
--     ones
--   Logger.Trace: a program as its calls in order; Excerpts for the shown part of a buffer
--   Logger.Main: HW2/hw2.c, with the result of `getopt` as an argument
--
-- The library. HW3/libmini.c wraps the system calls of HW3/libmini64.asm, with `errno`. The kernel is
-- a parameter: a function of a call's number and arguments (the record `System` of Mini), and the
-- calls on signals (`SignalSystem` of Mini.Signals). A text is the bytes of its object from the
-- pointer on, a step past the object's end a fault. `setjmp` and `longjmp` are run as their
-- instructions, on registers and a memory of words (Mini.Jump); addresses are taken to be multiples
-- of 8. What a C function does to the registers and the stack that it need not keep is `junk`.
--   Mini.Calls: the wrappers, and `open` of the assembly; Table for the calls, the kernel's
--     numbers of them, the one that is made for `unlink`, and the convention on results;
--     Convention for its proof
--   Mini.Text: `memset`, `bzero`, `strlen` and `perror`; Messages for what `perror` shows
--   Mini.Signals: sets of signals, `signal`, `sigaction` and its kin; Sets and Handler
--   Mini.Sleep: `sleep`
--   Mini.Jump: `setjmp` and `longjmp`; Saved and Restored for the two
--
-- Tests.Machine is a small kernel that satisfies `Ptrace`, on which the functions run.
-- The library's tests, lists, texts, signed numbers and bit operations are in Prelude.
--
-- Bounds. The loop of vmmap runs on one unit of fuel more than its file has characters; a round
-- takes a character at least. An inode is printed by twenty rounds, and a number of 64 bits has no
-- more digits. The other loops are structural. Lines of /proc are taken to fit the buffers that
-- they are read into.
--
-- Not modelled: what the prompt does behind the end of its input (HW4/main.cpp, where it goes on
-- for ever); the child's branch after `fork`, which is the kernel's `fork_exec`; the memory of
-- `malloc` and `new`, which the debugger never frees; the layout of the printed lines, of which the
-- arguments are kept; HW1's storage, and the case of a user without a name; of HW3
-- the stubs' moves between registers, start.asm, and the padding of `struct sigaction`, which the
-- kernel does not look at. `errno` is not in the model of HW2's library: an answer is the result
-- and the buffer, and the library's own calls may leave another `errno` than the call that it
-- stands before.
pub mod Prelude
pub mod Sdb
pub mod Lsof
pub mod Mini
pub mod Logger
mod Tests
