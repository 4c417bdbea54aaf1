-- ===== src/Syscall.antt =====
-- core/kernel/syscall.c: the system calls and their dispatch. A handler's result is a u32; none stands
-- for what C leaves undefined, a write over the heap's headers, the page tables or the kernel, a search of
-- the heap that ran out of fuel, or a wait for a key that does not come.
pub mod Dispatch
mod Tests
use korus_os.Prelude.{
  ℕ, zero, suc, ◌+◌, true, false, ◌||◌, Bool, Option, none, some, List, [], ◌∷◌, map, ltb, leb,
  ◌==◌, if◌then◌else◌, update, u32_mod, length, get_or,
}
use korus_os.Memory.Bytes.{Bytes}
use korus_os.Memory.Store.{Store, kmalloc, kfree, is_plain}
use korus_os.Screen.Print.{Call}
use korus_os.Keyboard.{Keyboard, kb_getchar}
use korus_os.Scheduler.{thread_sleep}
use korus_os.Process.{process_at, terminate_process}
use korus_os.Elf.{store_bytes}
use korus_os.Vfs.{vfs_open, vfs_read, vfs_write, vfs_close}
use korus_os.Vfs.Memfs.{Vfs}
use korus_os.Machine.{Machine, memory, set_memory, print_calls, minus_one, exec_program}

abbrev pub syscall_count : ℕ
syscall_count = 16

-- The handlers of the table.
pub data Handler : Type 0 where
  sys_exit sys_read sys_write sys_open sys_close sys_exec sys_getpid sys_sleep sys_malloc sys_free :
      Handler

-- syscall_table after init_syscalls: SYS_FORK, 6, and the numbers from 11 on have no handler.
unfoldable pub init_syscalls : List (Option Handler)
init_syscalls =
    some Handler.sys_exit
    ∷ some Handler.sys_read
    ∷ some Handler.sys_write
    ∷ some Handler.sys_open
    ∷ some Handler.sys_close
    ∷ some Handler.sys_exec
    ∷ none
    ∷ some Handler.sys_getpid
    ∷ some Handler.sys_sleep
    ∷ some Handler.sys_malloc
    ∷ some Handler.sys_free
    ∷ none
    ∷ none
    ∷ none
    ∷ none
    ∷ none
    ∷ []

-- The C string at an address, of at most `n` characters.
unfoldable pub string_at : ℕ → Bytes → ℕ → List ℕ
string_at zero m a = []
string_at (suc n) m a = elim (m a == 0) [ true ↦ [] | false ↦ m a ∷ string_at n m (a + 1) ]

-- A path in memory; no string is longer than the memory.
abbrev pub path_at : Machine → ℕ → List ℕ
path_at m ptr = string_at u32_mod (memory m) ptr

-- `(result < 0) ? (u32)-1 : (u32)result`
abbrev pub or_minus_one : Option ℕ → ℕ
or_minus_one none = minus_one
or_minus_one (some n) = n

-- `if (proc) terminate_process(proc->pid, (s32)exit_code);`
abbrev pub end_current : Machine → ℕ → Option ℕ → Machine
end_current m exit_code none = m
end_current m exit_code (some c) = record m {
  procs = terminate_process m.procs (process_at m.procs c).pid exit_code;
}

unfoldable pub exit_call : Machine → ℕ → ℕ × Machine
exit_call m exit_code = (0, end_current m exit_code m.procs.current)

-- A write of `n` bytes to a program's buffer. sys_read does not check the address: none where it would
-- write over a header of the heap, a page table or the kernel.
abbrev pub to_buffer : Machine → ℕ → ℕ → ℕ → Bytes → Option (ℕ × Machine)
to_buffer m buf n result b =
    if is_plain m.procs.store m.paging buf n then some (result, set_memory m b) else none

-- One key from the keyboard, stored at `buf`.
abbrev pub store_key : Machine → ℕ → Option (ℕ × Keyboard × List (Option ℕ)) → Option (ℕ × Machine)
store_key m buf none = none
store_key m buf (some (c, k, keys)) =
    to_buffer (record m { keyboard = k; keys = keys }) buf 1 1 (update (memory m) buf c)

abbrev pub read_key : Machine → ℕ → Option (ℕ × Machine)
read_key m buf = store_key m buf (kb_getchar m.keyboard m.keys)

-- What vfs_read copies to `buf`, and the result.
abbrev pub store_read : Machine → ℕ → Option (List ℕ) × Vfs → Option (ℕ × Machine)
store_read m buf (none, v) = some (minus_one, record m { vfs = v })
store_read m buf (some bs, v) =
    to_buffer (record m { vfs = v }) buf (length bs) (length bs) (store_bytes (memory m) buf bs)

abbrev pub read_file : Machine → ℕ → ℕ → ℕ → Option (ℕ × Machine)
read_file m fd buf size = store_read m buf (vfs_read m.vfs fd size)

unfoldable pub read_call : Machine → ℕ → ℕ → ℕ → Option (ℕ × Machine)
read_call m fd buf size =
    if buf == 0
    then some (minus_one, m)
    else if fd == 0
    then (if ltb 0 size then read_key m buf else some (0, m))
    else read_file m fd buf size

-- The result of a call of the file system that changes it.
abbrev pub with_vfs : Machine → Option (Option ℕ × Vfs) → Option (ℕ × Machine)
with_vfs m none = none
with_vfs m (some (n, v)) = some (or_minus_one n, record m { vfs = v })

abbrev pub write_file : Machine → ℕ → ℕ → ℕ → Option (ℕ × Machine)
write_file m fd buf size = with_vfs m (vfs_write m.vfs fd (λ i. memory m (buf + i)) size)

unfoldable pub write_call : Machine → ℕ → ℕ → ℕ → Option (ℕ × Machine)
write_call m fd buf size =
    if buf == 0
    then some (minus_one, m)
    else if fd == 1 || fd == 2
    then some (size, print_calls m (map Call.char (string_at size (memory m) buf)))
    else write_file m fd buf size

unfoldable pub open_call : Machine → ℕ → ℕ → Option (ℕ × Machine)
open_call m path_ptr flags =
    let opened = with_vfs m (vfs_open m.vfs (some (path_at m path_ptr)) flags) in
    if path_ptr == 0 then some (minus_one, m) else opened

unfoldable pub close_call : Machine → ℕ → ℕ × Machine
close_call m fd = if leb fd 2 then (minus_one, m) else (0, record m { vfs = vfs_close m.vfs fd })

-- A negative result of exec_program, as its pattern, is -1.
abbrev pub exec_result : Option (ℕ × Machine) → Option (ℕ × Machine)
exec_result none = none
exec_result (some (result, m)) = some (if leb 0x8000_0000 result then minus_one else result, m)

-- The path is read when the call starts: a file that is loaded over it is left out.
unfoldable pub exec_call : Machine → ℕ → Option (ℕ × Machine)
exec_call m path_ptr =
    let done = exec_result (exec_program m (some (path_at m path_ptr))) in
    if path_ptr == 0 then some (minus_one, m) else done

unfoldable pub getpid_call : Machine → ℕ
getpid_call m = elim m.procs.current [ none ↦ 0 | some c ↦ (process_at m.procs c).pid ]

abbrev pub sleep_call : Machine → ℕ → Machine
sleep_call m ms = record m { procs = record (m.procs) { sched = thread_sleep m.procs.sched ms } }

abbrev pub with_store : Machine → Option (ℕ × Store) → Option (ℕ × Machine)
with_store m none = none
with_store m (some (ptr, st)) = some (ptr, record m { procs = record (m.procs) { store = st } })

abbrev pub malloc_call : Machine → ℕ → Option (ℕ × Machine)
malloc_call m size = with_store m (kmalloc m.procs.store size)

abbrev pub free_call : Machine → ℕ → Machine
free_call m ptr = record m { procs = record (m.procs) { store = kfree m.procs.store ptr } }

-- A handler with its first three arguments; none uses the others.
unfoldable pub run_handler : Handler → Machine → ℕ → ℕ → ℕ → Option (ℕ × Machine)
run_handler Handler.sys_exit m arg1 arg2 arg3 = some (exit_call m arg1)
run_handler Handler.sys_read m arg1 arg2 arg3 = read_call m arg1 arg2 arg3
run_handler Handler.sys_write m arg1 arg2 arg3 = write_call m arg1 arg2 arg3
run_handler Handler.sys_open m arg1 arg2 arg3 = open_call m arg1 arg2
run_handler Handler.sys_close m arg1 arg2 arg3 = some (close_call m arg1)
run_handler Handler.sys_exec m arg1 arg2 arg3 = exec_call m arg1
run_handler Handler.sys_getpid m arg1 arg2 arg3 = some (getpid_call m, m)
run_handler Handler.sys_sleep m arg1 arg2 arg3 = some (0, sleep_call m arg1)
run_handler Handler.sys_malloc m arg1 arg2 arg3 = malloc_call m arg1
run_handler Handler.sys_free m arg1 arg2 arg3 = some (0, free_call m arg1)

pub record Regs : Type 0 where
  pub syscall_num : ℕ
  pub arg1 : ℕ
  pub arg2 : ℕ
  pub arg3 : ℕ
  pub arg4 : ℕ
  pub arg5 : ℕ
  pub ret : ℕ

-- The handler of a number: none for a number out of range and for an empty entry.
abbrev pub handler_of : List (Option Handler) → ℕ → Option Handler
handler_of table num = if leb syscall_count num then none else get_or table num none

abbrev pub set_ret : Regs → Option (ℕ × Machine) → Option (Regs × Machine)
set_ret regs none = none
set_ret regs (some (ret, m)) = some (record regs { ret = ret }, m)

unfoldable pub dispatch : Option Handler → Machine → Regs → Option (Regs × Machine)
dispatch none m regs = some (record regs { ret = minus_one }, m)
dispatch (some h) m regs = set_ret regs (run_handler h m regs.arg1 regs.arg2 regs.arg3)

-- syscall_handler for registers that are there; for NULL it returns at once.
unfoldable pub syscall_handler : List (Option Handler) → Machine → Regs → Option (Regs × Machine)
syscall_handler table m regs = dispatch (handler_of table regs.syscall_num) m regs
