-- ===== src/Process/Safety.antt =====
-- The process table together with the scheduler and the heap that it works on: create_process returns
-- and keeps all three sound.
use korus_os.Prelude.{
  ℕ, suc, ◌<◌, ◌≤◌, ◌≡◌, refl, Bool, true, false, Option, none, some, List, [], ◌∷◌, leb, ltb, ◌&&◌,
  ◌==◌, Bool-cases, Option-cases, inl, inr, sym, ◌∙◌, subst, modify, get_or, length, length-append,
  length-take, length-modify, get_or-modify-All, Returns, Returns-inv, arith, replicate, zero,
}
use korus_os.Memory.Store.{Store}
use korus_os.Memory.Store.Linked.{Linked, kmalloc-Linked}
use korus_os.Scheduler.{create_thread, name_or}
use korus_os.Scheduler.Table.{Sched, kstrncpy}
use korus_os.Scheduler.Safety.{Created, create_thread-Created}
use korus_os.Scheduler.Safety
use korus_os.Process.{
  proc_name_len, processo, kernel_process, Process, Privilege, Procs, zero_process, process_at,
  max_processes, max_threads_per_proc, find_free_proc_slot, new_process, begin_process, current_pid,
  take_slot, alloc_stack, after_stack, add_thread, start_thread, create_process, user_stack_size,
  init_processes, thread_name,
}

abbrev Fits : Process → Type 0
Fits p = (length p.thread_ids ≤ max_threads_per_proc) × (length p.name < proc_name_len)

-- A full table, no process with more threads than its array holds or a name that its 64 bytes do not
-- hold, a current process inside the table, a sound scheduler and a linked heap.
pub record IsSound (s : Procs) : Type 0 where
  pub size : length s.table ≡ max_processes
  pub slots_fit : (i : ℕ) → Fits (process_at s i)
  pub inside : (c : ℕ) → s.current ≡ some c → c < max_processes
  pub scheduler : Safety.IsSound s.sched
  pub heap : Linked s.store

abbrev pub SoundAfter {ℓ} : {A : Type ℓ} → A × Procs → Type 0
SoundAfter r = IsSound r.1

-- A write to one slot.
write-IsSound :
    (s : Procs) (i : ℕ) (f : Process → Process)
    → IsSound s
    → (Fits (process_at s i) → Fits (f (process_at s i)))
    → IsSound (record s { table = modify s.table i f })
write-IsSound s i f v h = record {
  size = length-modify s.table i f ∙ v.size;
  slots_fit = get_or-modify-All Fits s.table i f zero_process v.slots_fit h;
  inside = v.inside;
  scheduler = v.scheduler;
  heap = v.heap;
}

pub store-IsSound :
    (s : Procs) (store : Store) → IsSound s → Linked store → IsSound (record s { store = store })
store-IsSound s store v w = record {
  size = v.size;
  slots_fit = v.slots_fit;
  inside = v.inside;
  scheduler = v.scheduler;
  heap = w;
}

begin_process-IsSound :
    (s : Procs) (slot : ℕ) (name : Option (List ℕ)) (entry_point : ℕ) (privilege : Privilege)
    → IsSound s
    → IsSound (begin_process s slot name entry_point privilege)
unfolding new_process
begin_process-IsSound s slot name entry_point privilege v = record {
  size = length-modify s.table slot _ ∙ v.size;
  slots_fit =
      get_or-modify-All Fits s.table slot
        (λ p. new_process s.next_pid (current_pid (take_slot s slot)) name entry_point privilege)
        zero_process v.slots_fit
        (λ l. (omega arith, omega (arith, length-take 63 (name_or name processo))));
  inside = v.inside;
  scheduler = v.scheduler;
  heap = v.heap;
}

below_max : (b : Bool) (n : ℕ) → (b && ltb n max_threads_per_proc) ≡ true → n < max_threads_per_proc
below_max b n h = ground arith

add_thread-Fits : (tid : Option ℕ) (p : Process) → Fits p → Fits (add_thread tid p)
add_thread-Fits none p l = l
add_thread-Fits (some tid) p (l, n) =
    elim (Bool-cases (ltb tid 0x8000_0000 && ltb (length p.thread_ids) max_threads_per_proc)) [
      | inl e ↦ rw e (
        omega (
          arith,
          below_max (ltb tid 0x8000_0000) (length p.thread_ids) e,
          length-append p.thread_ids (tid ∷ []),
        ),
        n,
      )
      | inr e ↦ rw e (l, n)
    ]

start_thread-IsSound :
    (s : Procs) (slot : ℕ) (name : Option (List ℕ)) (entry_point : ℕ)
    → IsSound s
    → Returns SoundAfter (start_thread s slot name entry_point)
unfolding start_thread
start_thread-IsSound s slot name entry_point v =
    let n = some (kstrncpy (name_or name thread_name) 40) in
    let ((tid, sched, store), e, (a, b)) =
      Returns-inv Created (create_thread s.sched s.store n entry_point 5)
        (create_thread-Created s.sched s.store n entry_point 5 v.scheduler v.heap) in
    rw (e, start_thread)
      (record {
        size = length-modify s.table slot (add_thread tid) ∙ v.size;
        slots_fit =
            get_or-modify-All Fits s.table slot (add_thread tid) zero_process v.slots_fit
              (add_thread-Fits tid (process_at s slot));
        inside = v.inside;
        scheduler = a;
        heap = b;
      })

alloc_stack-IsSound : (s : Procs) (slot : ℕ) → IsSound s → Returns SoundAfter (alloc_stack s slot)
unfolding alloc_stack
alloc_stack-IsSound s slot v =
    let (stack, store, e, w) = kmalloc-Linked s.store user_stack_size v.heap in
    elim (Bool-cases (stack == 0)) [
      | inl z ↦ rw (e, alloc_stack, z) (store-IsSound s store v w)
      | inr z ↦
          rw (e, alloc_stack, z)
            (write-IsSound (record s { store = store }) slot _ (store-IsSound s store v w) (λ l. l))
    ]

after_stack-IsSound :
    (slot : ℕ) (name : Option (List ℕ)) (entry_point : ℕ) (o : Option (Bool × Procs))
    → Returns SoundAfter o
    → Returns SoundAfter (after_stack slot name entry_point o)
after_stack-IsSound slot name entry_point none h = absurd h
after_stack-IsSound slot name entry_point (some (false, s)) h = h
after_stack-IsSound slot name entry_point (some (true, s)) h =
    start_thread-IsSound s slot name entry_point h

begun-IsSound :
    (s : Procs) (slot : ℕ) (name : Option (List ℕ)) (entry_point : ℕ) (privilege : Privilege)
    → IsSound s
    → find_free_proc_slot s.table ≡ some slot
    → leb max_processes s.count ≡ false
    → Returns SoundAfter (create_process s name entry_point privilege)
unfolding create_process
begun-IsSound s slot name entry_point Privilege.kernel v e l =
    rw (l, create_process, e)
      (start_thread-IsSound (begin_process s slot name entry_point Privilege.kernel) slot name
        entry_point (begin_process-IsSound s slot name entry_point Privilege.kernel v))
begun-IsSound s slot name entry_point Privilege.user v e l =
    rw (l, create_process, e)
      (after_stack-IsSound slot name entry_point
        (alloc_stack (begin_process s slot name entry_point Privilege.user) slot)
        (alloc_stack-IsSound (begin_process s slot name entry_point Privilege.user) slot
          (begin_process-IsSound s slot name entry_point Privilege.user v)))

-- create_process returns, whether there is a slot, a thread and memory or not, and keeps the table, the
-- scheduler and the heap sound.
pub create_process-IsSound :
    (s : Procs) (name : Option (List ℕ)) (entry_point : ℕ) (privilege : Privilege)
    → IsSound s
    → Returns SoundAfter (create_process s name entry_point privilege)
unfolding create_process
create_process-IsSound s name entry_point privilege v =
    elim (Bool-cases (leb max_processes s.count)) [
      | inl l ↦ rw l v
      | inr l ↦ elim (Option-cases (find_free_proc_slot s.table)) [
        | inl e ↦ rw (l, create_process, e) v
        | inr (slot, e) ↦ begun-IsSound s slot name entry_point privilege v e l
      ]
    ]

pub get_or-blank : (n i : ℕ) → get_or (replicate n zero_process) i zero_process ≡ zero_process
get_or-blank zero i = refl
get_or-blank (suc n) zero = refl
get_or-blank (suc n) (suc i) = get_or-blank n i

pub init_processes-IsSound :
    (sched : Sched) (store : Store)
    → Safety.IsSound sched
    → Linked store
    → IsSound (init_processes sched store)
unfolding init_processes
init_processes-IsSound sched store v w = record {
  size = refl;
  slots_fit =
      get_or-modify-All Fits (replicate max_processes zero_process) 0 kernel_process zero_process
        (λ i. subst Fits (sym (get_or-blank max_processes i)) (omega arith, omega arith))
        (λ l. (omega arith, omega arith));
  inside = λ c e. ground arith;
  scheduler = v;
  heap = w;
}
