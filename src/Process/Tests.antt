-- ===== src/Process/Tests.antt =====
-- create_process at a concrete state.
use korus_os.Prelude.{◌+◌, Returns, u32_mod, ◌-◌, ◌<◌, false, none, arith}
use korus_os.Memory.Heap.{heap_max_size, header_size, heap_magic}
use korus_os.Memory.Store.{Store}
use korus_os.Scheduler.Table.{init_scheduler}
use korus_os.Process.{Privilege, Procs, init_processes, create_process}
use korus_os.Process.{terminate_process}
use korus_os.Process.Safety.{IsSound, SoundAfter, init_processes-IsSound}
use korus_os.Process.Pids.{IsNumbered, init_processes-IsNumbered}
use korus_os.Process.Pids.Find.{Creates, create_process-Creates}
use korus_os.Process.Pids.Remove.{Removed, terminate_process-Removed}
use korus_os.Scheduler.Reach.{Reach, Reach-IsValid}
use korus_os.Memory.Heap.Linked.{init_heap-IsLinked}
use korus_os.Memory.Heap.{init_heap}

-- A heap of one block, which is in use.
abbrev full_store : Store
full_store = record {
  headers = λ a. record {
    magic = heap_magic;
    size = heap_max_size - header_size;
    free = false;
    next = 0;
  };
  bytes = λ i. 0;
  image_end = 0x12_0000;
}

-- The table after its start, over a heap that is free.
abbrev free_procs : Procs
free_procs =
    init_processes init_scheduler
      (record { headers = init_heap full_store.headers; bytes = λ i. 0; image_end = 0x12_0000 })

free-IsSound : IsSound free_procs
free-IsSound =
    let (a, b) = Reach-IsValid Reach.here in
    init_processes-IsSound init_scheduler
      (record { headers = init_heap full_store.headers; bytes = λ i. 0; image_end = 0x12_0000 })
      (record { valid = a; live = b }) (init_heap-IsLinked full_store.headers)

free-IsNumbered : IsNumbered free_procs
free-IsNumbered = init_processes-IsNumbered init_scheduler _

next_small : free_procs.next_pid + 1 < u32_mod
unfolding init_processes
next_small = omega arith

create_process-Creates_example :
    Returns
      (λ r. Creates free_procs 0x40_0000 Privilege.user r × SoundAfter r)
      (create_process free_procs none 0x40_0000 Privilege.user)
create_process-Creates_example =
    create_process-Creates free_procs none 0x40_0000 Privilege.user free-IsSound free-IsNumbered
      next_small

terminate_process-Removed_example : Removed free_procs 0 (terminate_process free_procs 0 3)
terminate_process-Removed_example = terminate_process-Removed free_procs 0 3 free-IsNumbered
