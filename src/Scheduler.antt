-- ===== src/Scheduler.antt =====
-- core/kernel/scheduler.c: the table of threads and the round-robin scheduler.
-- current_thread is an index into the table, none for NULL. The stack pointers are addresses of the
-- kernel heap, 0 for NULL, and an entry function is its address. switch_context has an empty body.
pub mod Table
pub mod Search
pub mod Invariant
pub mod Calls
pub mod Reach
pub mod Sleep
pub mod Safety
pub mod Create
mod Tests
use korus_os.Prelude.{
  ℕ, ◌+◌, ◌-◌, Bool, false, ◌&&◌, not, Option, none, some, List, [], ◌∷◌, map, ltb, leb, ◌==◌,
  if◌then◌else◌, add32, get_or, modify, find_index,
}
use korus_os.Memory.Bytes.{kmemset}
use korus_os.Memory.Store.{Store, kmalloc, kfree, store32}
use korus_os.Scheduler.Table.{
  Sched, Thread, ThreadState, find_free_slot, find_next_thread, is_empty, is_running, kstrncpy,
  max_threads, thread_stack_size, zero_thread,
}

-- "thread", for a name that is NULL
abbrev default_name : List ℕ
default_name = b't' ∷ b'h' ∷ b'r' ∷ b'e' ∷ b'a' ∷ b'd' ∷ []

abbrev pub name_or : Option (List ℕ) → List ℕ → List ℕ
name_or none d = d
name_or (some n) d = n

-- `(priority < 1) ? 1 : (priority > 10 ? 10 : priority)`
unfoldable pub clamp_priority : ℕ → ℕ
clamp_priority p = if ltb p 1 then 1 else if ltb 10 p then 10 else p

-- The fields that create_thread writes once it has a stack.
unfoldable pub new_thread : ℕ → ℕ → Option (List ℕ) → ℕ → ℕ → Thread → Thread
new_thread id stack name entry priority t = record t {
  id = id;
  state = ThreadState.ready;
  priority = clamp_priority priority;
  stack = stack;
  stack_size = thread_stack_size;
  ticks = 0;
  process_id = 0;
  name = kstrncpy (name_or name default_name) 32;
  context = record (t.context) { esp = stack + thread_stack_size - 4; eip = entry; eflags = 0x202 };
}

-- The rest of create_thread for a free slot. Without memory the slot stays empty, its stack NULL.
unfoldable pub fill_slot :
    Sched → Store → ℕ → Option (List ℕ) → ℕ → ℕ → Option (Option ℕ × Sched × Store)
fill_slot s m slot name entry priority = elim (kmalloc m thread_stack_size) [
  | none ↦ none
  | some (stack, m') ↦
      if stack == 0
      then some (none, record s { table = modify s.table slot (λ t. record t { stack = 0 }) }, m')
      else some (
        some s.next_id,
        record s {
          table = modify s.table slot (new_thread s.next_id stack name entry priority);
          next_id = add32 s.next_id 1;
          count = add32 s.count 1;
        },
        record m' {
          bytes =
              store32 (kmemset m'.bytes stack 0 thread_stack_size) (stack + thread_stack_size - 4)
                entry;
        },
      )
]

-- The result is the new thread's id, none for -1. The outer none means that kmalloc ran out of fuel.
unfoldable pub create_thread :
    Sched → Store → Option (List ℕ) → ℕ → ℕ → Option (Option ℕ × Sched × Store)
unfolding find_free_slot
create_thread s m name entry priority =
    if leb max_threads s.count
    then some (none, s, m)
    else if entry == 0
    then some (none, s, m)
    else elim (find_free_slot s.table) [
      | none ↦ some (none, s, m)
      | some slot ↦ fill_slot s m slot name entry priority
    ]

-- The loop of schedule that wakes threads up, for one slot.
unfoldable pub wake : Thread → Thread
wake t = elim t.state [
  | ThreadState.sleeping ↦
      if ltb 0 t.sleep_ticks
      then record t { sleep_ticks = t.sleep_ticks - 1 }
      else record t { state = ThreadState.ready }
  | _ ↦ t
]

-- `if (current_thread && current_thread->state == THREAD_RUNNING) ...`
unfoldable pub yield_current : Sched → List Thread
yield_current s = elim s.current [
  | none ↦ s.table
  | some c ↦
      modify s.table c (λ t. if is_running t then record t { state = ThreadState.ready } else t)
]

abbrev pub run_thread : Thread → Thread
run_thread t = record t { state = ThreadState.running; ticks = add32 t.ticks 1 }

abbrev is_current : Sched → ℕ → Bool
is_current s i = elim s.current [ none ↦ false | some c ↦ i == c ]

-- The end of schedule, with the thread that find_next_thread chose.
unfoldable pub switch_to : Sched → Option ℕ → Sched
unfolding yield_current
switch_to s none = s
switch_to s (some next) =
    if is_current s next
    then s
    else record s { table = modify (yield_current s) next run_thread; current = some next }

unfoldable pub schedule : Sched → Sched
unfolding wake find_next_thread switch_to
schedule s =
    let s' = record s { timer_ticks = add32 s.timer_ticks 1; table = map wake s.table } in
    switch_to s' (find_next_thread s')

unfoldable pub thread_sleep : Sched → ℕ → Sched
thread_sleep s ms = elim s.current [
  | none ↦ s
  | some c ↦ schedule (record s {
    table = modify s.table c (λ t. record t { sleep_ticks = ms; state = ThreadState.sleeping });
  })
]

abbrev pub has_id : ℕ → Thread → Bool
has_id id t = t.id == id && not (is_empty t)

abbrev pub clear_slot : Thread → Thread
clear_slot t = record t { state = ThreadState.empty; stack = 0 }

-- What terminate_thread does to the thread that it finds.
unfoldable pub end_thread : Sched → ℕ → Sched
end_thread s i = record s {
  table = modify s.table i clear_slot;
  count = if ltb 0 s.count then s.count - 1 else s.count;
}

unfoldable pub terminate_thread : Sched → Store → ℕ → Sched × Store
unfolding end_thread
terminate_thread s m id = elim (find_index (has_id id) s.table) [
  | none ↦ (s, m)
  | some i ↦
      let stack = (get_or s.table i zero_thread).stack in
      (end_thread s i, if stack == 0 then m else kfree m stack)
]

unfoldable pub get_thread_count : Sched → ℕ
get_thread_count s = s.count

unfoldable pub get_current_thread : Sched → Option ℕ
get_current_thread s = s.current
