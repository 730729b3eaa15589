-- ===== src/Lib.antt =====
-- A model of the memory management of a small teaching kernel and of its user-space allocator:
-- uspace/malloc.c; the start, the exception handler, the system calls, the scheduler, the program
-- break, the page information, the consistency checks and the pictures of memory of
-- kernel/kernel.c; the page tables of kernel/vm.c; the boot loader kernel/boot.c and the program
-- loader kernel/k-loader.c; the descriptors, the devices, the keyboard and the panic messages of
-- kernel/k-hardware.c; the memory, string and number functions and the printers of shared/lib.c;
-- the system calls and the messages of uspace/process.h and uspace/process.c; the disk image
-- builder build/mkbootdisk.c.
--
-- The parts and their files
--   Base      native numbers, 64-bit words with their wrap-around, lists, the result type `Run`
--             and the sorted lists. `Returns P r` says that a run gives a value that satisfies P;
--             `Settles P r` allows a fault as well, but never a loop that does not end.
--   Clib      memcpy, memmove and memset of shared/lib.c over a byte memory (Clib/Memory), and
--             what they write (Clib/Copy); fill_numbuf (Clib/Numbers);
--             strlen, strnlen, strcpy, strcmp and strchr (Clib/Strings); rand (Clib/Random).
--             printer_vprintf: what it reads from a format (Clib/Format) and its loop over any
--             printer (Clib/Printer, with lemmas in Clib/Printed); the console's printer and
--             the string printer (Clib/Console), and what they write (Clib/Printers,
--             Clib/Snprintf).
--   Hardware  kernel/k-hardware.c. Interrupts: the interrupt controller, the timer and the cursor
--             as the list of bytes written to ports. Descriptors: segments and gates; Gates: what
--             a gate holds. Pci: the search for a device, with the configuration space as a
--             parameter; Devices: what it finds. Keyboard: keyboard_readc; Keys: what it keeps.
--             Reboot: check_keyboard, which may start the kernel again with an argument.
--             Parallel: the parallel port and the log; Panic: error_vprintf, kernel_panic and its
--             callers; Logged: what reaches the log.
--   Boot      kernel/boot.c and shared/elf.h. Elf: the headers, read from bytes. Loader: boot with
--             the disk as a parameter. Segments: what boot_readseg leaves in memory.
--   Disk      build/mkbootdisk.c. Writer: diskwrite over the results of write; Written: what it
--             appends. Image: boot sector, files and gaps; Layout: where they lie. Partition:
--             find_partition; Partitions: what it finds. Command: do_multiboot and main.
--   Malloc    uspace/malloc.c. Links: the intrusive lists. Arena: the state and append_list,
--             append_list_ordered, remove_list, search_free. Ops: malloc, calloc, realloc, free,
--             defrag, heap_info. Chain, Insert, Remove: what linking and unlinking a node do to
--             the list that the links spell out. Invariant: the well-formed heap. The other files
--             are named for the operation their theorems are about; Info, Entries, Listing and
--             Informed are about heap_info.
--   Kernel    PageTable: virtual_memory_lookup and virtual_memory_map of kernel/vm.c. Translate:
--             the walk that both make; Pages and Mapped: what a mapping writes, and what a lookup
--             finds then. Process:
--             assign_physical_page, sbrk and brk of kernel/kernel.c. Breaks: what sbrk does.
--             UserBreak: an instance of the interface `Malloc.Ops.Breaks` that malloc takes,
--             made of sbrk.
--             Schedule: the choice of the next process by schedule and run. Registers: the
--             registers of a process. System: the globals of kernel.c, pageinfo_init and
--             check_virtual_memory; Checks and Consistency: what these two mean. Syscalls: the
--             interface `Vm` to kernel/k-vm.o, set_pagetable of kernel/vm.c and the system
--             calls. Start: virtual_memory_init of kernel/vm.c and process_setup; Identity: the map
--             that the kernel starts with. First: kernel; Started: the processes that it starts;
--             Lasting: what holds from the start on.
--             Loader: kernel/k-loader.c; Loaded: the bytes of a segment; Segment and Placed: the
--             process that the loader leaves. Display: the
--             pictures of memory; Showing: which process is shown. Exception: exception with
--             its switch. Handled, Traps and Reached: what a run of exception keeps, case by
--             case, for the whole handler and over many traps.
--   Uspace    Print: app_printf and the message of kernel_panic of uspace/process.c; Panics: where
--             they write. Calls: the system calls of uspace/process.h as traps into exception;
--             Called: what they return.
--   Tests     a concrete heap and process, and theorems at concrete inputs; Tests/Boot,
--             Tests/Printers, Tests/Hardware, Tests/System, Tests/Disk, Tests/Tables (page tables
--             and messages) and Tests/Starting (loader, start, calls) for those parts.
--
-- How state is modelled
--   The struct `elt` lives in memory at the block's address. Each of its fields is a function from
--   that address to the field's value, and the payload bytes are a memory of their own: the
--   invariant keeps blocks disjoint, so that no payload write meets a header. `free_head`,
--   `free_tail` and `free_list_size` are one record `Ends`, and so are the globals of the
--   allocated list. The source repeats the list code for the two lists; the model has it once,
--   with the tests and globals of the chosen list. The counters are natural numbers without an
--   upper bound. A dereference of NULL and a failed assert are `fault`.
--   A `uint64_t` is a natural number below 2^64, with `add64`, `sub64` and `mul64` reducing; the
--   `int` that `sbrk` returns is sign-extended into the register, as the compiler does.
--   Physical memory is read by the page-table code in 8-byte entries, so it is a function from an
--   entry's address to its value. `pa | perm` is a sum under the asserts of virtual_memory_map.
--   A format is the list of its characters before the NUL, and a `va_list` is the slots of all its
--   arguments with the number of the next one: a slot holds a word and the string that the word
--   points to. Widths and precisions are natural numbers without an upper bound; a negative width
--   is 0, since only a positive one prints. A printer is a state and its `putc`.
--   An `|` of bits that do not overlap is a sum. A register is a natural number. The addresses that
--   the linker gives are the records `Image` and `Handlers`. A byte read from a port is an
--   argument of the function that reads it. The result of syscall_mapping is written as three
--   8-byte entries at an aligned address. A kernel panic is `fault`.
--   A system call of a process is a run of exception with the registers at the `int`; its result is
--   %rax of the process that runs next. The loader writes bytes through the page tables of a
--   process into a memory of physical bytes, apart from the entries of page tables; a write that
--   some level of the page table forbids is a panic. `kernel` gives the machine that it leaves: descriptor tables, control
--   register, port writes, console and processes.
--   The disk image builder takes its host as a parameter: the result of each call of write, the
--   files, the disks by sector, and strtoul. `usage`, which ends the program, is `fault`. Strings
--   are lists of characters before the NUL.
--   `refcount` is the bit pattern of an `int8_t`. `heap_info` stores the entries of the two arrays
--   in the payload, eight bytes each, the lowest first.
--
-- Loops and fuel
--   The list loops take the length of the list plus one as fuel, for a round at each node and
--   one to end. The loops over bytes, levels and pages recur on what is left. The loop of `sbrk`
--   takes a round for each page below the old break, plus two. The loop of boot_readseg takes a
--   round for each sector of the file, plus three; without the magic number boot spins, which is
--   `out_of_fuel`. The loop of diskwrite takes a round for each byte and each interrupted
--   call that the host may have; find_partition takes its depth of recursion, which no bound is
--   enough for where extended partitions form a circle. The loops of the program loader take a
--   round for each page and one to end.
--   The loop of `schedule` spins in the source while no process is runnable: its
--   fuel is the number of rounds looked at. `fill_numbuf` takes 64 rounds, the most digits that
--   a 64-bit number has; a string loop, whose source has no bound, takes its fuel as an
--   argument.
--
-- Conditions of the theorems
--   The heap lies below 2^62 and so do the sizes asked for; the break is a multiple of 8. The
--   kernel refuses every break from MEMSIZE_VIRTUAL - PAGESIZE on, far below that bound.
--   The functions of k-vm.o keep the laws of `Vm`: palloc and process_page_alloc leave the process
--   descriptors alone, and process_free frees the slots that it changes. Nothing is assumed of
--   process_fork, so a sequence of exceptions that keeps the breaks has no fork call in it. For the
--   start `OwnSlot` holds: setting up a process leaves the other descriptors alone. The linker puts the page
--   tables and the handlers into physical memory (`IsLoaded`). A mapping is looked at within one
--   region of 2 MB, whose table exists.
--
-- Not modelled
--   The code of kernel/k-vm.o (palloc, process_fork, process_free, process_page_alloc and the
--   functions that set up a process), which has no source; the assembly files,
--   build/qemu-nograb.c and the test programs. Of kernel/kernel.c: in
--   exception, schedule and run the reading of the keyboard and what is drawn. Of
--   kernel/k-hardware.c: fail, which waits for ever, and the instructions that load registers.
--   Of shared/lib.c: the variadic wrappers. Of uspace/process.c: assert_fail and the printing at
--   the end of kernel_panic; uspace/process-linux.c is a shim of the host. The waits for the
--   disk in kernel/boot.c, and messages to stderr.
pub mod Base
pub mod Boot
pub mod Clib
pub mod Disk
pub mod Hardware
pub mod Kernel
pub mod Malloc
pub mod Uspace
mod Tests
