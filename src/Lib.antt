-- ===== src/Lib.antt =====
-- SBrocks, a small 64-bit kernel: its memory and string routines, the allocator of physical
-- pages, page tables, tasks and their scheduler, keyboard, screen, the files of its archive,
-- its system calls and interrupts, the C library of its user programs, the shell and a few more
-- of them.
--
-- Parts, from the bottom. Each is a module of the same name and a directory with its theorems;
-- paths are those of the repository.
--
-- Prelude: names, bits of words, and the monad of faults that all modules share.
--
-- Kstring (w2/sys/kstring.c): memory is a function from addresses to bytes, a `char *` is an
--   address, and the name of a definition is that of the C function. Copy is about memcpy, memset
--   and memsetw, Text about strlen, kstrcpy and strcat, Compare about kstrcmp and kstrncmp, and
--   Numbers about power, atoi and octal_to_decimal; Binary has byte_to_binary. A loop to a NUL byte
--   takes fuel; the length of the text and one is enough. Addresses do not wrap.
--
-- PhyAlloc (w2/sys/mmu/phy_alloc.c): the bitmap of groups of 64 pages and the counts of
--   references. Every routine returns the next state, or `none` where C leaves the access or the
--   shift undefined. Loops over pages take `rounds` of fuel, one for each page and one more. Word
--   is about the bits of a group, Marks about a page taken or freed, Alloc about the search, and
--   Regions about the loops over a region.
--
-- Paging (w2/sys/mmu/pt.c, virtual_mm.c, kmalloc.c): the words of physical memory, the register
--   cr3 and the kernel's own table, over a PhyAlloc state. A table is reached as the source does
--   it, through KADDR, whose addresses the one-on-one mapping leads back. Descend is about one
--   level of the walk, Lookup and Mapped about what a mapping and an unmapping leave for
--   virt_to_phy, Pages about the pages that kmalloc hands out, Bits about the flags of an entry;
--   Free has free_page_tables.
--   The loops run a number of rounds that is known before they start.
--
-- Kb (w2/sys/kb.c): the tables of key codes, the handler of the keyboard's interrupt and the line
--   that a waiting task reads; the byte of the port is an argument. Safe is about the bounds of the
--   line buffer, Line about what a task gets.
--
-- Vga (w2/sys/vgaconsole.c): the text screen as a part of memory, and the cursor. Rows is about
--   scrolling and clearing, Cursor about single characters.
--
-- Process (w2/sys/process/process.c, process_manager.c): structures at addresses, lists through
--   their `next` fields, the scheduler. Create has the operations that allocate and free, over
--   Paging. A walk takes fuel for each member of the list and one more. Prelude.Chain is about lists in
--   general, Lists about the task list, Schedule about the choice of the next task, Waiting about
--   sleeping and waiting tasks, Create.Areas about the memory areas of a task that ends.
--
-- Tarfs (w2/sys/fs/tarfs.c): the archive in memory, the list of files and their places. The walks
--   over files, headers and texts take fuel. Seek is about reading and seeking.
--   Dir sets the list of files up from the archive and reads directories, Dir.Names is about
--   names and their slashes, Dir.Next about the entry that follows.
--
-- Pipe (w2/sys/syscall.c): the pipes of a task as files in a list. Queue and Fifo are about a pipe
--   as a queue of bytes.
--
-- Elf (w2/sys/process/elf.c): loading a program into a new task. Stack is about its first stack.
--
-- Syscall (w2/sys/syscall.c): the calls of user programs. They join tasks, files, pipes, keyboard
--   and screen in the record System. Control has the calls on tasks, Io those on files, Fork and
--   Handler the copying of a task and the dispatch. A call that gives the processor away ends there.
--
-- Timer (w2/sys/timer.c): the clock and its interrupt, which gives time slices and schedules.
--
-- Interrupt (w2/sys/idt.c): the table of gates, page faults and the entry of system calls. Gates is
--   about the addresses in the table, Demand about the area that a fault is
--   served by and what the task gets.
--
-- Malloc (w2/libc/malloc.c): the allocator of user programs. Blocks is about the list of blocks, Fit
--   about the search, Extend about a new block, Alloc about allocation, Free about freeing.
--
-- Libc (w2/libc/string.c): the string routines of user programs. Search is about finding a text in
--   another one.
--
-- Format (w2/sys/kprintf.c): formatted output. A format and the text of an argument are lists of
--   bytes, and what is missing or of another type than the format says is no result. Digits is
--   about the digits of a number, Chars about their characters, Number about its field, Pieces
--   about one conversion, Loop about a whole format. The fuel of the loop is the number of its
--   rounds.
--
-- Shell (w2/bin/sbush/sbush.c): the shell. A line and its texts stand in the memory of the program;
--   Line is about reading a line, Trim about the blanks around a text, Held about texts by their
--   characters from the last one on. Command splits a line into words, which stand in blocks of the
--   allocator Malloc; Command.Word is about one of them. Path looks a command up in the path, and
--   Pipeline (with Wiring) is the processes that are started: where they read and write, as pipe and
--   dup2 of w2/sys/syscall.c set it, and what they run. Builtin is the commands that the shell
--   answers itself, Run a whole line, scripts and the prompt; the depth of Run is that of scripts
--   that name scripts.
--
-- Stdlib (w2/libc/stdlib.c), with Dir: the functions of the system calls. The entry of the kernel is
--   a parameter, which takes a number and arguments. Stdio (w2/libc/printf.c, w2/libc/scanf.c): output
--   and input over them.
--
-- Cat (w2/bin/cat/cat.c): the program that shows a file.
--   Files (w2/bin/ls/ls.c, w2/bin/cd/cd.c): the programs for directories.
--
-- Irq (w2/sys/irq.c): the handlers of the interrupts and the set-up of their controller.
--
-- Not modelled: assembly, most port access, and the programs that only try the C library. The
-- words of the tables and the bytes that programs see are two states: a byte written through a
-- mapping changes no table. get_phy_page_table is called only in code that is not built.
pub mod Prelude
pub mod Kstring
pub mod PhyAlloc
pub mod Paging
pub mod Kb
pub mod Vga
pub mod Timer
pub mod Process
pub mod Tarfs
pub mod Pipe
pub mod Syscall
pub mod Elf
pub mod Malloc
pub mod Interrupt
pub mod Libc
pub mod Format
pub mod Shell
pub mod Stdlib
pub mod Stdio
pub mod Cat
pub mod Files
pub mod Irq
