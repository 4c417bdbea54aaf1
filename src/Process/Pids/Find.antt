-- ===== src/Process/Pids/Find.antt =====
-- create_process hands out a new pid, and get_process_by_pid finds its process.
use korus_os.Prelude.{
  ℕ, ◌+◌, ◌<◌, ◌≡◌, ◌≢◌, refl, Bool, true, false, Option, none, some, List, Returns, Ends-both, leb,
  ◌==◌, Bool-cases, Option-cases, inl, inr, sym, ap, find_index, find_index-Found, find_index-none,
  Found, Ends, ◌∙◌, length, length-modify, add32, u32_mod, arith,
}
use mathlib.Core.Bool.{true≢false}
use korus_os.Memory.Store.{kmalloc}
use korus_os.Scheduler.{create_thread, name_or}
use korus_os.Scheduler.Table.{kstrncpy}
use korus_os.Process.{
  Process, Privilege, Procs, zero_process, is_empty, process_at, max_processes, find_free_proc_slot,
  begin_process, alloc_stack, add_thread, after_stack, start_thread, create_process,
  user_stack_size, has_pid, get_process_by_pid, thread_name,
}
use korus_os.Process.Safety.{IsSound, SoundAfter, create_process-IsSound}
use korus_os.Process.Slots.{find_free_proc_slot-Found}
use korus_os.Process.Pids.{
  core-add_thread, IsNumbered, Registered, write-Registered, begin_process-Registered,
}

pub has_pid-pid :
    (pid : ℕ) (p : Process) → has_pid pid p ≡ true → (p.pid ≡ pid) × (is_empty p ≡ false)
has_pid-pid pid p h = (ground arith, ground arith)

pid-has_pid : (pid : ℕ) (p : Process) → p.pid ≡ pid → is_empty p ≡ false → has_pid pid p ≡ true
pid-has_pid pid p e h = ground arith

-- A process in use is found by its pid.
pub get_process_by_pid-finds :
    (s : Procs) (pid i : ℕ)
    → IsNumbered s
    → i < length s.table
    → (process_at s i).pid ≡ pid
    → is_empty (process_at s i) ≡ false
    → get_process_by_pid s pid ≡ some i
unfolding get_process_by_pid
get_process_by_pid-finds s pid i v l e f = elim (Option-cases (find_index (has_pid pid) s.table)) [
  | inl n ↦ absurd (
      true≢false (
        sym (pid-has_pid pid (process_at s i) e f)
        ∙ find_index-none (has_pid pid) s.table i zero_process n l))
  | inr (j, q) ↦
      let r : Found (has_pid pid) s.table j zero_process =
        find_index-Found (has_pid pid) s.table j zero_process q in
      let (a, b) = has_pid-pid pid (process_at s j) r.passes in
      q ∙ ap some (v.distinct j i b f (a ∙ sym e))
]

-- A pid that no process in use has is not found.
pub get_process_by_pid-none :
    (s : Procs) (pid : ℕ)
    → ((i : ℕ) → is_empty (process_at s i) ≡ false → (process_at s i).pid ≢ pid)
    → get_process_by_pid s pid ≡ none
unfolding get_process_by_pid
get_process_by_pid-none s pid h = elim (Option-cases (find_index (has_pid pid) s.table)) [
  | inl n ↦ n
  | inr (j, q) ↦
      let r : Found (has_pid pid) s.table j zero_process =
        find_index-Found (has_pid pid) s.table j zero_process q in
      let (a, b) = has_pid-pid pid (process_at s j) r.passes in absurd (h j b a)
]

-- What create_process comes to: -1, the pids still in order, or a pid that named no process before and
-- now names the one in a slot that was empty, all other slots as they were.
abbrev pub Creates : Procs → ℕ → Privilege → Option ℕ × Procs → Type 0
Creates s entry_point privilege (none, s') = IsNumbered s'
Creates s entry_point privilege (some pid, s') =
    (slot : ℕ) × (get_process_by_pid s pid ≡ none)
    × (get_process_by_pid s' pid ≡ some slot)
    × Registered s entry_point privilege slot s'

module _ (s : Procs) (entry_point : ℕ) (privilege : Privilege) (slot : ℕ) (v : IsNumbered s)
    (inside : slot < length s.table) where
  found :
      (s' : Procs) (pid : ℕ)
      → length s'.table ≡ length s.table
      → pid ≡ s.next_pid
      → Registered s entry_point privilege slot s'
      → Creates s entry_point privilege (some pid, s')
  found s' pid n e r = (
    slot,
    get_process_by_pid-none s pid (λ i f q. absurd (omega (arith, v.below i f, q, e))),
    get_process_by_pid-finds s' pid slot r.numbered (omega (arith, n, inside))
        (ap (λ c. c.0) r.filled ∙ sym e) (ap (λ c. c.1) r.filled),
    r,
  )

  start_thread-Creates :
      (s' : Procs) (name : Option (List ℕ))
      → length s'.table ≡ length s.table
      → Registered s entry_point privilege slot s'
      → Ends (Unit {0}) (Creates s entry_point privilege) (start_thread s' slot name entry_point)
  unfolding start_thread
  start_thread-Creates s' name n r =
      let m = some (kstrncpy (name_or name thread_name) 40) in
      elim (Option-cases (create_thread s'.sched s'.store m entry_point 5)) [
        | inl e ↦ rw (e, start_thread) tt
        | inr ((tid, sched, store), e) ↦
            rw (e, start_thread)
              (found _ (process_at s' slot).pid (length-modify s'.table slot (add_thread tid) ∙ n)
                (ap (λ c. c.0) r.filled)
                (write-Registered s s' entry_point privilege slot (add_thread tid) sched store
                  (add32 s'.count 1) (core-add_thread tid) r))
      ]

  -- The stack of a process in user mode, with the slot registered before and after.
  abbrev StackDone : Bool × Procs → Type 0
  StackDone r = (length (r.1.table) ≡ length s.table) × Registered s entry_point privilege slot r.1

  after_stack-Creates :
      (name : Option (List ℕ)) (o : Option (Bool × Procs))
      → Ends (Unit {0}) StackDone o
      → Ends (Unit {0}) (Creates s entry_point privilege) (after_stack slot name entry_point o)
  after_stack-Creates name none h = tt
  after_stack-Creates name (some (false, s')) h = h.1.numbered
  after_stack-Creates name (some (true, s')) h = start_thread-Creates s' name h.0 h.1

  alloc_stack-Done :
      (s' : Procs)
      → length s'.table ≡ length s.table
      → Registered s entry_point privilege slot s'
      → Ends (Unit {0}) StackDone (alloc_stack s' slot)
  unfolding alloc_stack
  alloc_stack-Done s' n r = elim (Option-cases (kmalloc s'.store user_stack_size)) [
    | inl e ↦ rw (e, alloc_stack) tt
    | inr ((stack, store), e) ↦ elim (Bool-cases (stack == 0)) [
      | inl z ↦
          rw (e, alloc_stack, z)
            (
              n,
              record {
                numbered = record { below = r.numbered.below; distinct = r.numbered.distinct };
                was_empty = r.was_empty;
                filled = r.filled;
                others = r.others;
              },
            )
      | inr z ↦
          rw (e, alloc_stack, z)
            (
              length-modify s'.table slot _ ∙ n,
              write-Registered s s' entry_point privilege slot
                  (λ p. record p { user_stack = add32 stack user_stack_size }) s'.sched store
                  s'.count (λ p. refl) r,
            )
    ]
  ]

begun-Creates :
    (s : Procs) (name : Option (List ℕ)) (entry_point : ℕ) (privilege : Privilege) (slot : ℕ)
    → IsNumbered s
    → s.next_pid + 1 < u32_mod
    → find_free_proc_slot s.table ≡ some slot
    → leb max_processes s.count ≡ false
    → Ends
        (Unit {0})
        (Creates s entry_point privilege)
        (create_process s name entry_point privilege)
unfolding create_process
begun-Creates s name entry_point Privilege.kernel slot v small e l =
    let f : Found is_empty s.table slot zero_process = find_free_proc_slot-Found s.table slot e in
    let r =
      begin_process-Registered s slot name entry_point Privilege.kernel v small f.inside f.passes in
    rw (l, create_process, e)
      (start_thread-Creates s entry_point Privilege.kernel slot v f.inside _ name
        (length-modify s.table slot _) r)
begun-Creates s name entry_point Privilege.user slot v small e l =
    let f : Found is_empty s.table slot zero_process = find_free_proc_slot-Found s.table slot e in
    let r =
      begin_process-Registered s slot name entry_point Privilege.user v small f.inside f.passes in
    rw (l, create_process, e)
      (after_stack-Creates s entry_point Privilege.user slot v f.inside name
        (alloc_stack (begin_process s slot name entry_point Privilege.user) slot)
        (alloc_stack-Done s entry_point Privilege.user slot v f.inside _
          (length-modify s.table slot _) r))

create_process-Ends :
    (s : Procs) (name : Option (List ℕ)) (entry_point : ℕ) (privilege : Privilege)
    → IsNumbered s
    → s.next_pid + 1 < u32_mod
    → Ends
        (Unit {0})
        (Creates s entry_point privilege)
        (create_process s name entry_point privilege)
unfolding create_process
create_process-Ends s name entry_point privilege v small =
    elim (Bool-cases (leb max_processes s.count)) [
      | inl l ↦ rw l v
      | inr l ↦ elim (Option-cases (find_free_proc_slot s.table)) [
        | inl e ↦ rw (l, create_process, e) v
        | inr (slot, e) ↦ begun-Creates s name entry_point privilege slot v small e l
      ]
    ]

-- create_process, on a sound process table whose pids are in order, with a pid left below 2^32, returns.
-- The result, an int with the pattern of the pid, is -1, with the pids still in order; or a pid that named
-- no process before, and that get_process_by_pid finds now, in a slot that was empty, with the entry point
-- and the privilege of the call, all other slots as they were. Its parent is the current process, which is
-- the new process itself where the slot was the current one's; without a current process the parent is 0.
-- The table, the scheduler and the heap stay sound.
pub create_process-Creates :
    (s : Procs) (name : Option (List ℕ)) (entry_point : ℕ) (privilege : Privilege)
    → IsSound s
    → IsNumbered s
    → s.next_pid + 1 < u32_mod
    → Returns
        (λ r. Creates s entry_point privilege r × SoundAfter r)
        (create_process s name entry_point privilege)
create_process-Creates s name entry_point privilege sound v small =
    Ends-both (Creates s entry_point privilege) SoundAfter
      (create_process s name entry_point privilege)
      (create_process-Ends s name entry_point privilege v small)
      (create_process-IsSound s name entry_point privilege sound)
