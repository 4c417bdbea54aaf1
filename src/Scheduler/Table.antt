-- ===== src/Scheduler/Table.antt =====
-- The table of threads of core/kernel/scheduler.c, and the searches in it.
use korus_os.Prelude.{
  ℕ, zero, suc, ◌+◌, ◌-◌, ◌%◌, Bool, true, false, ◌&&◌, ◌||◌, not, Option, none, some, List, [],
  ◌∷◌, ◌==◌, if◌then◌else◌, get_or, take, replicate, modify, find_index,
}

abbrev pub max_threads : ℕ
max_threads = 64

abbrev pub thread_stack_size : ℕ
thread_stack_size = 8192

pub data ThreadState : Type 0 where
  empty ready running blocked sleeping dead : ThreadState

-- The registers of cpu_context_t that the kernel writes.
pub record CpuContext : Type 0 where
  pub esp : ℕ
  pub eip : ℕ
  pub eflags : ℕ

pub record Thread : Type 0 where
  pub id : ℕ
  pub name : List ℕ
  pub state : ThreadState
  pub context : CpuContext
  pub stack : ℕ
  pub stack_size : ℕ
  pub priority : ℕ
  pub ticks : ℕ
  pub sleep_ticks : ℕ
  pub process_id : ℕ

-- A slot of zeros, as kmemset leaves it.
abbrev pub zero_thread : Thread
zero_thread = record {
  id = 0;
  name = [];
  state = ThreadState.empty;
  context = record { esp = 0; eip = 0; eflags = 0 };
  stack = 0;
  stack_size = 0;
  priority = 0;
  ticks = 0;
  sleep_ticks = 0;
  process_id = 0;
}

-- The static variables of scheduler.c.
pub record Sched : Type 0 where
  pub table : List Thread
  pub next_id : ℕ
  pub current : Option ℕ
  pub count : ℕ
  pub timer_ticks : ℕ

abbrev pub is_empty : Thread → Bool
is_empty t = elim t.state [ ThreadState.empty ↦ true | _ ↦ false ]

abbrev pub is_ready : Thread → Bool
is_ready t = elim t.state [ ThreadState.ready ↦ true | _ ↦ false ]

abbrev pub is_running : Thread → Bool
is_running t = elim t.state [ ThreadState.running ↦ true | _ ↦ false ]

-- kstrncpy with `max`: a string without its terminator, cut to `max - 1` characters.
abbrev pub kstrncpy : List ℕ → ℕ → List ℕ
kstrncpy src max = take (max - 1) src

-- none for -1
unfoldable pub find_free_slot : List Thread → Option ℕ
find_free_slot = find_index is_empty

abbrev pub thread_at : Sched → ℕ → Thread
thread_at s i = get_or s.table i zero_thread

-- `for (count = ...; count < MAX_THREADS; count++)`, with the rounds left.
unfoldable pub scan : ℕ → List Thread → ℕ → ℕ → Option ℕ
scan zero table current idx = none
scan (suc n) table current idx =
    let rest = scan n table current ((idx + 1) % max_threads) in
    if is_ready (get_or table idx zero_thread) && not (idx == current) then some idx else rest

-- The search once some thread is current; none for NULL.
unfoldable pub find_after : List Thread → ℕ → Option ℕ
find_after table current =
    let t = get_or table current zero_thread in
    elim (scan max_threads table current ((current + 1) % max_threads)) [
      | some i ↦ some i
      | none ↦ if is_running t || is_ready t then some current else none
    ]

unfoldable pub find_next_thread : Sched → Option ℕ
unfolding find_after
find_next_thread s = elim s.current [
  | none ↦ find_index is_ready s.table
  | some current ↦ find_after s.table current
]

-- "idle"
abbrev pub idle_name : List ℕ
idle_name = b'i' ∷ b'd' ∷ b'l' ∷ b'e' ∷ []

abbrev pub idle_thread : Thread → Thread
idle_thread t = record t {
  id = 0;
  state = ThreadState.ready;
  priority = 1;
  process_id = 0;
  name = kstrncpy idle_name 32;
}

unfoldable pub init_scheduler : Sched
unfolding find_free_slot
init_scheduler =
    let table = replicate max_threads zero_thread in
    let s : Sched = record {
      table = table;
      next_id = 1;
      current = none;
      count = 0;
      timer_ticks = 0;
    } in
    elim (find_free_slot table) [
      | none ↦ s
      | some slot ↦ record s { table = modify table slot idle_thread; count = 1 }
    ]
