-- ===== src/Kernel/Tests.antt =====
-- The start of the kernel on a concrete machine, and a round of the shell.
use korus_os.Prelude.{◌≡◌, refl, xor, Option, none, some, [], ◌∷◌}
use korus_os.Prelude.Bits.{test_bit}
use korus_os.Keyboard.{
  init_keyboard, kb_readline, readline, kb_getchar, kb_getchar_noblock, kb_poll, kb_handle_scancode,
  push_key, kb_buffer_push, kb_buffer_pop,
}
use korus_os.Machine.{Machine}
use korus_os.Machine.Tests.{static_machine, hardware, info, booted}
use korus_os.Shell.{shell_round, shell_execute, find_command, run_command}
use korus_os.Shell.Args.{skip_spaces, parse_args, split_word, kstrcmp}
use korus_os.Prelude.Text.{bytes_of, utf8}
use korus_os.Kernel.{
  init_all, drop_pending, multiboot_expected_magic, mem_total_kb, Started, kernel_main,
}
use korus_os.Kernel.Boot.{IsReady, kernel_main-IsReady}
use korus_os.Process.{process_at, init_processes}
use korus_os.Syscall.{Regs, syscall_handler, init_syscalls, dispatch, run_handler, getpid_call}

memory_found : mem_total_kb info ≡ 65536
unfolding mem_total_kb
memory_found = refl

abbrev machine_after : Machine → Option Machine → Machine
machine_after m none = m
machine_after m (some m') = m'

kernel_main-IsReady_example :
    (m' : Machine) × (kernel_main multiboot_expected_magic info hardware static_machine
      ≡ Started.running m')
    × (m'.keys ≡ (some 0x32 ∷ some 0x12 ∷ some 0x32 ∷ some 0x1C ∷ []))
    × IsReady m'
unfolding drop_pending
kernel_main-IsReady_example = kernel_main-IsReady info hardware static_machine refl

starts : kernel_main multiboot_expected_magic info hardware static_machine ≡ Started.running booted
unfolding kernel_main drop_pending
starts = refl

-- The shell reads the line "mem" and runs cmd_mem.
abbrev entered : Machine
entered = machine_after booted (shell_round booted)

round_done : shell_round booted ≡ some entered
unfolding kernel_main init_all drop_pending init_keyboard shell_round kb_readline readline
    kb_getchar kb_getchar_noblock kb_poll kb_handle_scancode push_key kb_buffer_push kb_buffer_pop
    test_bit shell_execute skip_spaces parse_args split_word find_command kstrcmp
    korus_os.Vfs.Memfs.kstrcmp run_command bytes_of utf8 mathlib.Core.Bool.xor
round_done = refl

-- Then a program asks for its pid.
abbrev getpid_regs : Regs
getpid_regs = record { syscall_num = 7; arg1 = 0; arg2 = 0; arg3 = 0; arg4 = 0; arg5 = 0; ret = 5 }

call_done :
    syscall_handler init_syscalls entered getpid_regs
    ≡ some (record getpid_regs { ret = (process_at entered.procs 0).pid }, entered)
unfolding kernel_main init_all drop_pending init_keyboard shell_round kb_readline readline
    kb_getchar kb_getchar_noblock kb_poll kb_handle_scancode push_key kb_buffer_push kb_buffer_pop
    test_bit shell_execute skip_spaces parse_args split_word find_command kstrcmp
    korus_os.Vfs.Memfs.kstrcmp run_command bytes_of utf8 mathlib.Core.Bool.xor syscall_handler
    init_syscalls dispatch run_handler getpid_call init_processes
call_done = refl
