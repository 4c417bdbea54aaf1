-- ===== src/Lib.antt =====
-- KorusOS: a kernel for x86 in C, and what its parts promise.
--
-- The files under core/ and the modules that model them. All of them run in one kernel, on i386 with
-- 32-bit pointers, and share the heap of memory.c.
--   Memory: core/kernel/memory.c. Heap is kmalloc and kfree over linked headers, Frames the bitmap of
--   physical frames, Paging the page directory and its tables (init_memory, map_page, unmap_page),
--   Bytes kmemset and kmemcpy, Store the heap together with the bytes between its headers.
--   Scheduler: core/kernel/scheduler.c. The table of 64 threads (Table); schedule, thread_sleep,
--   create_thread (which takes its stack from the heap) and terminate_thread (which gives it back).
--   Process: core/kernel/process.c. The table of processes, over the scheduler and the heap; Pids is
--   about the numbers that name its processes.
--   Vfs: core/fs/vfs.c. The files in memory (Memfs), the descriptors and the mounts.
--   Keyboard: core/drivers/keyboard.c. The ring of characters, scancodes and line input.
--   Screen: core/drivers/screen.c. The cells of the text screen and its cursor; Print is a sequence
--   of calls of it, which is what a function that prints comes to.
--   Devices: core/kernel/devices.c. The table of devices.
--   Disk: core/kernel/disk.c. The ATA driver: its registers and waits (Ata), reads
--   and writes, and its start (Identify).
--   Net: core/net/tcpip.c. Byte order, the checksum, tcp_send and tcp_receive.
--   Pci: core/drivers/pci.c. The configuration space and the scan of the bus.
--   Elf: core/loader/elf_loader.c. The format with its checks (Format), and the loading of
--   the segments, over the page tables, the heap and the files.
--   Report: the functions of the components that show their state.
--   Machine: all static variables together, and exec_program of core/kernel/process.c.
--   Syscall: core/kernel/syscall.c. The system calls of a program, over the machine.
--   Shell: core/shell/shell.c. Lines and their arguments (Args), and commands, over the machine.
--   Kernel: core/kernel/kernel.c. The start of all components.
--   Prelude: numbers, tests, lists, bits, fixed tables and texts, which all the others share.
--
-- A static variable is a field of the component's record, and a function of the source takes the
-- record and returns the next one, under the source's name. A u32 is a number below 2^32, with its
-- wrap-around written out (add32, sub32). An array of slots is a list; memory and bitmaps are
-- functions from addresses. A pointer into a static array is an index, NULL is none; a pointer into
-- the heap is its address, 0 for NULL. A C string is the list of its characters.
--
-- Fuel. The search of kmalloc takes one round for each header and has fuel for more headers than the
-- 64 MB of the heap can hold; kb_readline takes an input in each round but the last, and has one round
-- more than there are inputs. The fold of the checksum needs two rounds on 32 bits and has three. The
-- loop of map_elf_segments has 65536 rounds, more than the 16 bits of e_phnum can count, and that of
-- vfs_list one more than there are files. All other loops run over a list or a count of the source.
--
-- Invariants. The record IsValid or IsSound of a component is its invariant; that of
-- Machine puts them together, for the start of the kernel.
--
-- Inputs. What the keyboard, the drives, the serial ports and the PCI configuration space read is an
-- argument. A result none stands for a wait for a key that does not come, for a heap search without
-- fuel, for what C leaves undefined, or for a write outside the memory below.
--
-- Not modelled: the assembly of core/boot, context switches, the change to user mode, and the
-- instructions cli, hlt and invlpg.
--
-- Memory. On the machine there is one memory, and the processor does not translate its addresses. Here
-- the heap's headers (a function from addresses), the page tables, the variables of the kernel and the
-- bytes between them are separate, so a theorem holds of the kernel only while no write to one of them
-- meets another. Where a program chooses the address, in sys_read and in a segment's p_vaddr, the model
-- tests it (is_plain of Memory/Store) and comes to none. It does not test what the source's own layout
-- does: the heap begins at 1 MB over the kernel's image, and its blocks meet the page frames from 2 MB
-- on, which alloc_page clears and map_page writes to. Nor does it know a kfree of a pointer whose header
-- lies across another one.
pub mod Prelude
pub mod Memory
pub mod Scheduler
pub mod Process
pub mod Vfs
pub mod Keyboard
pub mod Screen
pub mod Devices
pub mod Disk
pub mod Net
pub mod Pci
pub mod Elf
pub mod Report
pub mod Machine
pub mod Syscall
pub mod Shell
pub mod Kernel
