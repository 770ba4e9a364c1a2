-- ===== src/Lib.antt =====
-- A model of the kernel in student-distrib/, a small operating system for one x86 machine with three
-- terminals, six processes, a read-only file system and interrupts from the keyboard, the clock and
-- the timer, with theorems about its parts, and about its user programs.
--
-- The state of the kernel is one record, `Kernel` of Kernel.antt, that the functions take and
-- return: the globals of the C files, the control blocks (system_execute.h), the terminals
-- (terminal.h), the physical memory as a function of the address, the page tables, the masks of the
-- interrupt controllers, and the list of bytes written to ports. An interrupt handler and a system
-- call are functions from a state to a state. Assembly shows as its effect on this state.
--
--   Base       shared names, C's 32-bit words (bit patterns below 2 ^ 32, signed comparisons by an
--              offset), and `Outcome`: a value, or the way in which the code comes to none
--   Str        strncmp, strncpy (lib.c)
--   Memory     memset, memset_word, memset_dword, memcpy, memmove (lib.c)
--   Screen     termdata_t (terminal.h), update_cursor (lib.c)
--   Console    clear, putc, echo, puts, scroll, scroll_echo (lib.c)
--   FileSys    the image, read_dentry_by_name, read_dentry_by_index, read_data (filesys.c)
--   Files      fopen, fread, fclose, fwrite, dopen, dread, dclose, dwrite (filesys.c)
--   Rtc        rtc.c
--   Pic        i8259.c
--   Terminal   terminal.c
--   Keyboard   keyboard.c
--   Paging     init_paging (paging.c), setup_paging, undo_user_paging, undo_vmem_paging and
--              system_vidmap (system_execute.c)
--   Process    process numbers, control blocks, system_halt, system_getargs (system_execute.c)
--   Syscalls   system_open, system_close, system_read, system_write (system_execute.c)
--   Boot       entry (kernel.c), multiboot.h, the segments of x86_desc.h, the image in memory (filesys.h)
--   Number     strlen, strrev, strcpy, itoa (lib.c)
--   Printf     printf (lib.c)
--   Idt        idt/idt.c
--   Execute    system_execute (system_execute.c)
--   Schedule   schedule.c, pit.c
--   Programs   user programs of syscalls/: ece391support.c, ece391hello.c, ece391testprint.c,
--              ece391counter.c, ece391cat.c, ece391ls.c, ece391shell.c, ece391syserr.c,
--              ece391grep.c, ece391pingpong.c, ece391sigtest.c, ece391emulate.c
--   Fish       fish/: fish.c, blink.S
--   Tests      the theorems at concrete inputs
--
-- The children of each module hold its theorems and are named for what they are about. The
-- keyboard's handler fills the line that `term_read` returns; `echo` and `putc` write to the page of
-- a terminal, which `term_switch` moves; `setup_paging`, `term_switch` and `system_vidmap` keep a
-- program's page of video memory on its terminal; the system calls reach the file functions by the
-- descriptor's jump table.
--
-- Bounds and fuel. `read_data` runs on fuel, one round for each block of 4096 bytes and four more:
-- for the first copy, which may end inside a block, the last, the test that ends the loop, and one
-- to spare. The loop of `rtc_write` that halves the frequency has fuel for 1024 Hz, the highest
-- accepted. `itoa` has fuel for the 32 digits of a 32-bit number, and the loops over a string for
-- its bytes and the NUL. `ls` and `cat` take fuel as an argument, and their theorems say how much is
-- enough: more than the directory's entries, and 5. The shell has a round of fuel for each command.
-- `entry` takes fuel for its walk over the memory map, more than the map has entries. The wait of
-- `rtc_read` takes the number of the clock's interrupts to come; `waits` is the outcome when they do
-- not suffice, and of `term_read` before the enter key. The loops of C over a fixed range are
-- structural on the number of rounds left.
--
-- A user program is a function from the state to its status and the state; it makes its system calls
-- by calling the kernel's functions, and runs alone: no interrupt and no other process changes the
-- state between its calls, and a line that it reads was entered before.
--
-- `entry` runs without interrupts until the first shell is entered. While no process runs it prints on
-- the terminal whose number is the word in front of `pid_to_term`: a word that is no such number is a
-- fault of the model, and the theorems about `entry` say that it is one.
--
-- grep has fuel for the reads of a file and for the entries of the directory, and a round for each
-- byte of its buffer in the other loops. The calls that ece391emulate.c makes of Linux are a record
-- of functions. The list of blink.S has fuel, more than the list is long; a row and the rows of the
-- frames have fuel too. pingpong never ends, and is modelled by the number of its rounds.
--
-- Not modelled: the assembly of boot.S and of the linkages, the kernel's tests, and the first signal
-- handler of sigtest. What a port answers, the value of an unset variable and the addresses that the
-- linker chooses are arguments.
pub mod Base
pub mod Boot
pub mod Str
pub mod FileSys
pub mod Screen
pub mod Console
pub mod Pic
pub mod Memory
pub mod Kernel
pub mod Files
pub mod Terminal
pub mod Keyboard
pub mod Paging
pub mod Process
pub mod Rtc
pub mod Syscalls
pub mod Tests
pub mod Execute
pub mod Schedule
pub mod Number
pub mod Printf
pub mod Idt
pub mod Programs
pub mod Fish
