-- ===== src/Syscall/Tests.antt =====
-- The system calls on the concrete machine.
use korus_os.Prelude.{◌<◌, ◌≡◌, some, ◌⊎◌}
use korus_os.Machine.{minus_one}
use korus_os.Machine.Tests.{static_machine}
use korus_os.Syscall.{Handler, Regs, init_syscalls, run_handler, set_ret, syscall_handler}
use korus_os.Syscall.Dispatch.{number, syscall_handler-Dispatches}

-- sys_open of the string at 0x1000 with VFS_O_READ and VFS_O_CREATE.
abbrev open_regs : Regs
open_regs = record {
  syscall_num = 3;
  arg1 = 0x1000;
  arg2 = 5;
  arg3 = 0;
  arg4 = 0;
  arg5 = 0;
  ret = 0;
}

syscall_handler-Dispatches_example :
    let r = syscall_handler init_syscalls static_machine open_regs in
    ((h : Handler) × (number h ≡ open_regs.syscall_num)
      × (r
          ≡ set_ret open_regs
              (run_handler h static_machine open_regs.arg1 open_regs.arg2 open_regs.arg3)))
    ⊎ (((open_regs.syscall_num ≡ 6) ⊎ (10 < open_regs.syscall_num))
        × (r ≡ some (record open_regs { ret = minus_one }, static_machine)))
syscall_handler-Dispatches_example = syscall_handler-Dispatches static_machine open_regs
