-- ===== src/Process.antt =====
-- core/kernel/process.c: the table of processes over the scheduler and the heap.
-- current_proc is an index, none for NULL. The fields page_directory, next and the bytes past a
-- string's end are left out: nothing reads them. exec_program stands with the ELF loader.
pub mod Slots
pub mod Safety
pub mod Pids
mod Tests
use korus_os.Prelude.{
  ℕ, ◌-◌, ◌*◌, Bool, true, false, ◌&&◌, not, Option, none, some, List, [], ◌∷◌, ◌++◌, ltb, leb,
  ◌==◌, if◌then◌else◌, add32, sub32, length, get_or, replicate, modify, find_index,
}
use korus_os.Memory.Store.{Store, kmalloc, kfree}
use korus_os.Scheduler.{name_or, create_thread, terminate_thread}
use korus_os.Scheduler.Table.{Sched, kstrncpy}

abbrev pub max_processes : ℕ
max_processes = 32

abbrev pub max_threads_per_proc : ℕ
max_threads_per_proc = 8

abbrev pub proc_name_len : ℕ
proc_name_len = 64

abbrev pub user_stack_size : ℕ
user_stack_size = 64 * 1024

abbrev pub user_heap_base : ℕ
user_heap_base = 0x4000_0000

pub data ProcessState : Type 0 where
  empty running waiting zombie : ProcessState

pub data Privilege : Type 0 where
  kernel user : Privilege

pub record Process : Type 0 where
  pub pid : ℕ
  pub name : List ℕ
  pub state : ProcessState
  pub privilege : Privilege
  pub thread_ids : List ℕ
  pub parent_pid : ℕ
  pub exit_code : ℕ
  pub user_stack : ℕ
  pub heap_base : ℕ
  pub heap_size : ℕ
  pub entry_point : ℕ

abbrev pub zero_process : Process
zero_process = record {
  pid = 0;
  name = [];
  state = ProcessState.empty;
  privilege = Privilege.kernel;
  thread_ids = [];
  parent_pid = 0;
  exit_code = 0;
  user_stack = 0;
  heap_base = 0;
  heap_size = 0;
  entry_point = 0;
}

-- The static variables of process.c, with the scheduler and the memory that its functions change.
-- The count of a process's threads is the length of `thread_ids`.
pub record Procs : Type 0 where
  pub table : List Process
  pub next_pid : ℕ
  pub count : ℕ
  pub current : Option ℕ
  pub sched : Sched
  pub store : Store

abbrev pub is_empty : Process → Bool
is_empty p = elim p.state [ ProcessState.empty ↦ true | _ ↦ false ]

unfoldable pub find_free_proc_slot : List Process → Option ℕ
find_free_proc_slot = find_index is_empty

-- "kernel"
abbrev kernel_name : List ℕ
kernel_name = 107 ∷ 101 ∷ 114 ∷ 110 ∷ 101 ∷ 108 ∷ []

-- "processo"
abbrev pub processo : List ℕ
processo = 112 ∷ 114 ∷ 111 ∷ 99 ∷ 101 ∷ 115 ∷ 115 ∷ 111 ∷ []

-- "thread"
abbrev pub thread_name : List ℕ
thread_name = 116 ∷ 104 ∷ 114 ∷ 101 ∷ 97 ∷ 100 ∷ []

abbrev pub kernel_process : Process → Process
kernel_process p = record p {
  state = ProcessState.running;
  privilege = Privilege.kernel;
  name = kstrncpy kernel_name proc_name_len;
}

unfoldable pub init_processes : Sched → Store → Procs
init_processes sched store = record {
  table = modify (replicate max_processes zero_process) 0 kernel_process;
  next_pid = 1;
  count = 1;
  current = some 0;
  sched = sched;
  store = store;
}

abbrev pub process_at : Procs → ℕ → Process
process_at s i = get_or s.table i zero_process

abbrev pub current_pid : Procs → ℕ
current_pid s = elim s.current [ none ↦ 0 | some c ↦ (process_at s c).pid ]

-- The fields that create_process writes before the stack.
unfoldable pub new_process : ℕ → ℕ → Option (List ℕ) → ℕ → Privilege → Process
new_process pid parent name entry_point privilege = record zero_process {
  pid = pid;
  state = ProcessState.running;
  privilege = privilege;
  entry_point = entry_point;
  parent_pid = parent;
  heap_base = user_heap_base;
  heap_size = 0;
  name = kstrncpy (name_or name processo) proc_name_len;
}

-- `kmemset(proc, 0, sizeof(process_t)); proc->pid = next_pid++;`
abbrev pub take_slot : Procs → ℕ → Procs
take_slot s slot = record s {
  table = modify s.table slot (λ p. record zero_process { pid = s.next_pid });
  next_pid = add32 s.next_pid 1;
}

-- create_process up to the stack: the slot cleared, its pid taken, and then the other fields. The
-- parent's pid is read after the slot was cleared, which may be the slot of the current process.
abbrev pub begin_process : Procs → ℕ → Option (List ℕ) → ℕ → Privilege → Procs
begin_process s slot name entry_point privilege = record s {
  table =
      modify s.table slot
        (λ p. new_process s.next_pid (current_pid (take_slot s slot)) name entry_point privilege);
  next_pid = add32 s.next_pid 1;
}

-- `if (tid >= 0 && proc->thread_count < MAX_THREADS_PER_PROC)`, with tid a signed int.
abbrev pub add_thread : Option ℕ → Process → Process
add_thread none p = p
add_thread (some tid) p =
    if ltb tid 0x8000_0000 && ltb (length p.thread_ids) max_threads_per_proc
    then record p { thread_ids = p.thread_ids ++ (tid ∷ []) }
    else p

-- The end of create_process: the main thread.
unfoldable pub start_thread : Procs → ℕ → Option (List ℕ) → ℕ → Option (Option ℕ × Procs)
start_thread s slot name entry_point =
    elim (create_thread s.sched s.store (some (kstrncpy (name_or name thread_name) 40)) entry_point
      5) [
        | none ↦ none
        | some (tid, sched, store) ↦ some (
          some (process_at s slot).pid,
          record s {
            table = modify s.table slot (add_thread tid);
            count = add32 s.count 1;
            sched = sched;
            store = store;
          },
        )
      ]

-- The stack of a process in user mode. Without memory create_process returns -1 here, and leaves the
-- slot as it is by then.
unfoldable pub alloc_stack : Procs → ℕ → Option (Bool × Procs)
alloc_stack s slot = elim (kmalloc s.store user_stack_size) [
  | none ↦ none
  | some (stack, store) ↦
      if stack == 0
      then some (false, record s { store = store })
      else some (
        true,
        record s {
          table = modify s.table slot (λ p. record p { user_stack = add32 stack user_stack_size });
          store = store;
        },
      )
]

abbrev pub after_stack : ℕ → Option (List ℕ) → ℕ → Option (Bool × Procs) → Option (Option ℕ × Procs)
after_stack slot name entry_point none = none
after_stack slot name entry_point (some (false, s)) = some (none, s)
after_stack slot name entry_point (some (true, s)) = start_thread s slot name entry_point

-- The result is the pid, none for -1. The outer none means that kmalloc ran out of fuel.
unfoldable pub create_process : Procs → Option (List ℕ) → ℕ → Privilege → Option (Option ℕ × Procs)
unfolding find_free_proc_slot alloc_stack
create_process s name entry_point privilege =
    if leb max_processes s.count then some (none, s) else elim (find_free_proc_slot s.table) [
      | none ↦ some (none, s)
      | some slot ↦
          let s' = begin_process s slot name entry_point privilege in
          after_stack slot name entry_point (elim privilege [
            | Privilege.kernel ↦ some (true, s')
            | Privilege.user ↦ alloc_stack s' slot
          ])
    ]

-- `proc->pid == pid && proc->state != PROC_EMPTY`
abbrev pub has_pid : ℕ → Process → Bool
has_pid pid p = p.pid == pid && not (is_empty p)

unfoldable pub terminate_threads : List ℕ → Sched → Store → Sched × Store
terminate_threads [] sched store = (sched, store)
terminate_threads (t ∷ ts) sched store =
    let (sched', store') = terminate_thread sched store t in terminate_threads ts sched' store'

abbrev pub end_process : ℕ → Process → Process
end_process exit_code p = record p { exit_code = exit_code; state = ProcessState.empty }

unfoldable pub terminate_process : Procs → ℕ → ℕ → Procs
unfolding terminate_threads
terminate_process s pid exit_code = elim (find_index (has_pid pid) s.table) [
  | none ↦ s
  | some i ↦
      let p = process_at s i in
      let (sched, store) = terminate_threads p.thread_ids s.sched s.store in
      record s {
        table = modify s.table i (end_process exit_code);
        count = if ltb 0 s.count then s.count - 1 else s.count;
        sched = sched;
        store =
            if p.user_stack == 0 then store else kfree store (sub32 p.user_stack user_stack_size);
      }
]

-- The index of the process, none for NULL.
unfoldable pub get_process_by_pid : Procs → ℕ → Option ℕ
get_process_by_pid s pid = find_index (has_pid pid) s.table

unfoldable pub get_current_process : Procs → Option ℕ
get_current_process s = s.current
