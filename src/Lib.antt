-- ===== src/Lib.antt =====
-- A verification library for the kernel under student-distrib/ and its programs under
-- syscalls/: an i386 system with three text
-- terminals, a read-only file system, and at most eight open files to a process.
--
-- How the parts interact. A key press (keyboard.c, `keyboard_handler`) edits the line of the terminal
-- that is shown, prints to the screen (lib.c, `putc2`) and acknowledges the interrupt (i8259.c,
-- `send_eoi`). A process reads the line by `terminal_read` and prints by `terminal_write`, which are
-- the `read` and `write` of its descriptors 0 and 1; `open` looks a name up in the file system
-- (filesys.c), takes a free descriptor (sys_calls.c) and ties it to the operations of a file, of the
-- directory, or of the clock (rtc.c). The timer interrupt (scheduler.c) switches the screen that a
-- function key has asked for and passes the processor on. All of them stand on the block and string
-- routines of lib.c.
--
-- Common: the names that all files share. Common.Tests has the Boolean tests on the native numbers and
--   lemmas for splitting on them, Common.Int C's signed integers and their bit patterns, Common.Bytes
--   byte memory (`Memory`, from an address to its byte, with `write` and `load32`), Common.Lists lists
--   measured by native numbers.
-- Strings: strlen, strrev, strncmp, strcpy, strncpy and itoa of student-distrib/lib.c over byte memory.
-- Block: memcpy, memset, memset_word, memset_dword and memmove of student-distrib/lib.c, as their
--   inline assembly runs: bytes up to an aligned address, double words, and the bytes that are left.
-- Filesys: student-distrib/filesys.c. The image stands in byte memory at `fs` (`filesys_addr`), and the
--   functions read their words where the source's pointer arithmetic finds them.
-- Screen: the screen of student-distrib/lib.c. `Console` has the globals of that file, the memory with
--   the displayed page and the three pages behind it, and the bytes sent to ports.
-- Pic: student-distrib/i8259.c, the masks and the bytes sent to the two controllers.
-- Keyboard: student-distrib/keyboard.c. `Keyboard` has its globals and the console; the handler is
--   `keyboard_handler`, from `modifiers` (the first chain of tests) and `key_action` (the second).
-- Rtc: student-distrib/rtc.c, the counters and rates of the three terminals.
-- Files: the descriptors of student-distrib/sys_calls.c. `System` has the keyboard with the console and
--   the memory, the clock, the directory's position, and the process control blocks; `sys_open` and
--   `sys_close` are `open` and `close`.
-- Calls: `read`, `write` and `getargs` of student-distrib/sys_calls.c (`sys_read`, `sys_write`) with
--   their dispatch through the operation tables, and `file_read` of filesys.c.
-- Scheduler: the timer interrupt of student-distrib/scheduler.c, `pit_handler`, on all its branches, and
--   `vidmap` of student-distrib/sys_calls.c. `Scheduler` has the keyboard with the console, the page
--   entries, and the registers kept for the processes.
-- Printf: `printf` and `printf2` of student-distrib/lib.c, which differ in the routine that prints a
--   character (`put`). The arguments are words of the caller's stack in memory, from `esp` on.
-- Tasks: the processes of student-distrib/sys_calls.c: the globals that `execute` and `halt` share, the slots,
--   and the pages of the programs. `Tasks` has the `System` of the files.
-- Execute, Halt: the calls `execute` and `halt` of student-distrib/sys_calls.c. Their end is a `Control`: a
--   return, the entry of a program, or the parent's `execute` that goes on.
-- Processes: sequences of `execute`, `halt` and other steps, as a step relation on `Tasks`, which says what steps
--   it leaves out.
-- Paging: student-distrib/paging.c, with the two tables and the control registers, and the entry of the page
--   of a program. Paging.Mapping reads the tables the way the processor does.
-- Idt: student-distrib/idt.c and the gates of student-distrib/x86_desc.h.
-- Support: syscalls/ece391support.c, the string routines of the user programs.
-- Programs: the user programs cat, ls, hello, testprint, shell and counter of syscalls, over an interface
--   `Kernel` of the system calls with a state of its own; a theorem about one takes the documented
--   behaviour of the calls as hypotheses.
-- Syserr, Grep, Pingpong: syscalls/ece391syserr.c, ece391grep.c and ece391pingpong.c over the same interface.
--   `Syserr.Documented` has what the calls are documented to do.
-- Fish: fish/fish.c over the same interface, with the linked routines `mp1_ioctl` and `mp1_rtc_tasklet` as a
--   record `Mp1`.
-- Multiboot, Boot: `entry` of student-distrib/kernel.c. `report_boot` prints what the boot loader says and finds
--   `filesys_addr`; `bring_up` builds the segment descriptors, fills the tables and starts the devices.
-- Interrupts: the handlers of student-distrib/idt.c with the timer's, and sequences of interrupts.
-- Each of these has children named for what they prove, and a child Tests with concrete runs.
--
-- Stateful code is a function from a state to a state, with its result beside it. A call that waits for
-- an interrupt has an outcome of its own: `none` for `terminal_read`, `waiting` for `read`. Numbers are
-- natural numbers; a 32-bit or 8-bit wrap-around is written out where the source computes with the type,
-- and pointers are taken not to wrap around the end of memory. Local variables on the stack are places
-- in memory that are passed to the function (`dentry`, `entry`, `dentry_test`).
--
-- Fuel. A loop that runs to a NUL takes the number of rounds it may run, and gives `none` when they are
-- used up; one round more than the string has bytes is enough, since each round passes one byte. `itoa` takes its fuel
-- from the number that it prints, which falls in every round. `execute` gives `endless` when the command has
-- no NUL within the fuel; more fuel than the command has bytes is enough. The loops of the programs run
-- until `read` gives 0, and take more rounds than there are bytes or names to read; the endless loop of
-- pingpong runs for a number of rounds. The loops of `entry` over modules and over the memory map take rounds, since
-- the memory that they read decides when they end. All other loops have a bound in the source
-- and are recursion on the rounds that are left.
--
-- Not modelled: `set_handler` and `sigreturn`, which return 0; the assembly of boot.S, x86_desc.S and
-- assembly_linkage.S, which enters the kernel, lays its tables out and saves the registers; the tests of tests.c,
-- run by hand in the kernel; ece391sigtest.c, a test of signals, which the kernel does not have; and the emulation of
-- the calls on Linux (ece391emulate.c), which is input and output of the host. `cli` and `sti` are left
-- out: a modelled function runs without an interrupt between its steps. The bytes that the clock's registers give back
-- are arguments of `open`. The memory of a process control block, and the globals of the keyboard, are kept
-- apart from the byte memory: a buffer of `read` that lies over them, or arguments of more than 127 bytes, which run over the
-- fields behind them in the block, do nothing to them in the model. The array that `print_withoutnull` fills on
-- the stack is a list, of any length.
pub mod Common
pub mod Strings
pub mod Block
pub mod Filesys
pub mod Screen
pub mod Pic
pub mod Keyboard
pub mod Rtc
pub mod Files
pub mod Calls
pub mod Scheduler
pub mod Printf
pub mod Tasks
pub mod Execute
pub mod Halt
pub mod Paging
pub mod Idt
pub mod Support
pub mod Programs
pub mod Processes
pub mod Multiboot
pub mod Boot
pub mod Syserr
pub mod Pingpong
pub mod Grep
pub mod Fish
pub mod Interrupts
