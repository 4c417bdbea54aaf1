-- ===== src/Scheduler/Tests.antt =====
-- The scheduler's theorems at concrete states.
use korus_os.Prelude.{◌≡◌, Returns, false, none, find_index, refl, some, ◌∷◌, arith, replicate}
use korus_os.Memory.Heap.{init_heap}
use korus_os.Memory.Heap.Linked.{init_heap-IsLinked}
use korus_os.Memory.Store.{Store}
use korus_os.Memory.Store.Linked.{Linked}
use korus_os.Scheduler.Create.{Creates, create_thread-Creates}
use korus_os.Scheduler.{create_thread, schedule, thread_sleep, wake, switch_to}
use korus_os.Scheduler.Table.{
  Sched, Thread, zero_thread, ThreadState, init_scheduler, find_next_thread, thread_at,
  find_free_slot,
}
use korus_os.Scheduler.Sleep.{Sleeps, Awake, rounds, thread_sleep-Wakes}
use korus_os.Scheduler.Search.{InTurn, find_next_thread-InTurn}
use korus_os.Scheduler.Invariant.{IsValid}
use korus_os.Scheduler.Calls.{IsLive}
use korus_os.Scheduler.Reach.{Reach, Step, Reach-IsValid}

-- After the first call of schedule.
Reach-IsValid_example : IsValid (schedule init_scheduler) × IsLive (schedule init_scheduler)
Reach-IsValid_example = Reach-IsValid (Reach.next Reach.here (Step.tick init_scheduler))

abbrev thread_in : ThreadState → Thread
thread_in st = record zero_thread { state = st }

-- Thread 1 runs, thread 0 is ready.
abbrev two_threads : Sched
two_threads = record {
  table = thread_in ThreadState.ready ∷ thread_in ThreadState.running ∷ replicate 62 zero_thread;
  next_id = 2;
  current = some 1;
  count = 2;
  timer_ticks = 0;
}

find_next_thread-InTurn_example : InTurn two_threads.table 1 (find_next_thread two_threads)
find_next_thread-InTurn_example = find_next_thread-InTurn two_threads 1 refl (omega arith)

-- The idle thread runs, and goes to sleep.
idle_runs : (schedule init_scheduler).current ≡ some 0
unfolding init_scheduler find_free_slot schedule wake find_next_thread switch_to find_index
idle_runs = refl

thread_sleep-Wakes_example :
    Sleeps 2 (thread_at (rounds 7 (thread_sleep (schedule init_scheduler) 10)) 0)
    × Awake (thread_at (rounds 10 (thread_sleep (schedule init_scheduler) 10)) 0)
thread_sleep-Wakes_example =
    thread_sleep-Wakes (schedule init_scheduler) 10 7 0 Reach-IsValid_example.0
      Reach-IsValid_example.1 idle_runs (omega arith)

-- A heap of one free block.
abbrev free_store : Store
free_store = record {
  headers = init_heap (λ a. record { magic = 0; size = 0; free = false; next = 0 });
  bytes = λ i. 0;
  image_end = 0x12_0000;
}

free-Linked : Linked free_store
free-Linked = init_heap-IsLinked (λ a. record { magic = 0; size = 0; free = false; next = 0 })

create_thread-Creates_example :
    Returns
      (Creates init_scheduler free_store free-Linked 0x40_0000 20)
      (create_thread init_scheduler free_store none 0x40_0000 20)
create_thread-Creates_example =
    create_thread-Creates init_scheduler free_store free-Linked none 0x40_0000 20
      (Reach-IsValid Reach.here).0.size
