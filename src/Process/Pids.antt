-- ===== src/Process/Pids.antt =====
-- The pids of the process table: each names one process at most, create_process hands out a new one,
-- and get_process_by_pid finds the process until terminate_process ends it.
pub mod Find
pub mod Remove
use korus_os.Prelude.{
  ℕ, zero, suc, ◌+◌, ◌<◌, ◌≡◌, ◌≢◌, refl, ℕ_discrete, Bool, true, false, Option, none, some, List,
  [], ◌∷◌, ◌==◌, ==-self, ==_of_ne, ◌&&◌, if◌then◌else◌, Option-cases, ltb, Bool-cases, inl, inr,
  subst, sym, ap, ◌∙◌, get_or, modify, length, get_or-modify_self, get_or-modify_ne, u32_mod, arith,
  replicate,
}
use mathlib.Core.Bool.{true≢false}
use korus_os.Memory.Store.{Store}
use korus_os.Scheduler.Table.{Sched}
use korus_os.Process.Safety.{get_or-blank}
use korus_os.Process.{
  kernel_process, init_processes, Process, Privilege, Procs, zero_process, is_empty, process_at,
  current_pid, take_slot, max_processes, max_threads_per_proc, new_process, begin_process,
  add_thread,
}

-- What a write to a slot may leave of its process.
abbrev pub core : Process → ℕ × Bool × ℕ × ℕ × Privilege
core p = (p.pid, is_empty p, p.entry_point, p.parent_pid, p.privilege)

-- The pids in use are below the next one, and no two processes have the same.
pub record IsNumbered (s : Procs) : Type 0 where
  pub below : (i : ℕ) → is_empty (process_at s i) ≡ false → (process_at s i).pid < s.next_pid
  pub distinct :
      (i j : ℕ)
      → is_empty (process_at s i) ≡ false
      → is_empty (process_at s j) ≡ false
      → (process_at s i).pid ≡ (process_at s j).pid
      → i ≡ j

IsNumbered-agree :
    (s s' : Procs)
    → ((j : ℕ) → core (process_at s' j) ≡ core (process_at s j))
    → s'.next_pid ≡ s.next_pid
    → IsNumbered s
    → IsNumbered s'
IsNumbered-agree s s' h n v =
    let pid : (j : ℕ) → (process_at s' j).pid ≡ (process_at s j).pid = λ j. ap (λ c. c.0) (h j) in
    let used : (j : ℕ) → is_empty (process_at s' j) ≡ false → is_empty (process_at s j) ≡ false =
      λ j e. ap (λ c. c.1) (sym (h j)) ∙ e in
    record {
      below = λ i e. omega (arith, pid i, n, v.below i (used i e));
      distinct = λ i j e f q. v.distinct i j (used i e) (used j f) (sym (pid i) ∙ q ∙ pid j);
    }

pub core-modify :
    (xs : List Process) (i j : ℕ) (f : Process → Process)
    → ((p : Process) → core (f p) ≡ core p)
    → core (get_or (modify xs i f) j zero_process) ≡ core (get_or xs j zero_process)
core-modify [] i j f h = refl
core-modify (x ∷ xs) zero zero f h = h x
core-modify (x ∷ xs) zero (suc j) f h = refl
core-modify (x ∷ xs) (suc i) zero f h = refl
core-modify (x ∷ xs) (suc i) (suc j) f h = core-modify xs i j f h

pub core-add_thread : (tid : Option ℕ) (p : Process) → core (add_thread tid p) ≡ core p
core-add_thread none p = refl
core-add_thread (some tid) p =
    elim (Bool-cases (ltb tid 0x8000_0000 && ltb (length p.thread_ids) max_threads_per_proc)) [
      | inl e ↦ rw e refl
      | inr e ↦ rw e refl
    ]

-- The parent of a process that create_process puts into a slot: the current process. Where the slot
-- was the current process's own, that is the new process itself; without a current one it is 0.
abbrev pub parent_of : Procs → ℕ → ℕ
parent_of s slot = elim s.current [
  | none ↦ 0
  | some c ↦ if c == slot then s.next_pid else (process_at s c).pid
]

current_pid-take_slot :
    (s : Procs) (slot : ℕ)
    → slot < length s.table
    → current_pid (take_slot s slot) ≡ parent_of s slot
current_pid-take_slot s slot l = elim (Option-cases s.current) [
  | inl e ↦ rw e refl
  | inr (c, e) ↦ elim (ℕ_discrete c slot) [
    | yes q ↦
        rw (e, q, ==-self slot)
          (ap (λ p. p.pid) (get_or-modify_self s.table slot cleared zero_process l))
    | no n ↦
        rw (e, ==_of_ne c slot n)
          (ap (λ p. p.pid) (get_or-modify_ne s.table slot c cleared zero_process (λ q. n (sym q))))
  ]
]
  where
    cleared : Process → Process
    cleared p = record zero_process { pid = s.next_pid }

-- The process of `s'` in a slot that was empty in `s`, as create_process makes it.
pub record Registered (s : Procs) (entry_point : ℕ) (privilege : Privilege) (slot : ℕ) (s' : Procs)
    : Type 0 where
  pub numbered : IsNumbered s'
  pub was_empty : is_empty (process_at s slot) ≡ true
  pub filled :
      core (process_at s' slot) ≡ (s.next_pid, false, entry_point, parent_of s slot, privilege)
  pub others : (j : ℕ) → j ≢ slot → process_at s' j ≡ process_at s j

-- A write to the slot that keeps the core.
pub write-Registered :
    (s s' : Procs) (entry_point : ℕ) (privilege : Privilege) (slot : ℕ) (f : Process → Process)
    (sched : Sched) (store : Store) (n : ℕ)
    → ((p : Process) → core (f p) ≡ core p)
    → Registered s entry_point privilege slot s'
    → Registered s entry_point privilege slot
        (record s' { table = modify s'.table slot f; count = n; sched = sched; store = store })
write-Registered s s' entry_point privilege slot f sched store n h v = record {
  numbered = IsNumbered-agree s' _ (λ j. core-modify s'.table slot j f h) refl v.numbered;
  was_empty = v.was_empty;
  filled = core-modify s'.table slot slot f h ∙ v.filled;
  others =
      λ j ne. get_or-modify_ne s'.table slot j f zero_process (λ q. ne (sym q)) ∙ v.others j ne;
}

core-new_process :
    (pid parent : ℕ) (name : Option (List ℕ)) (entry_point : ℕ) (privilege : Privilege)
    → core (new_process pid parent name entry_point privilege)
      ≡ (pid, false, entry_point, parent, privilege)
unfolding new_process
core-new_process pid parent name entry_point privilege = refl

pub begin_process-Registered :
    (s : Procs) (slot : ℕ) (name : Option (List ℕ)) (entry_point : ℕ) (privilege : Privilege)
    → IsNumbered s
    → s.next_pid + 1 < u32_mod
    → slot < length s.table
    → is_empty (process_at s slot) ≡ true
    → Registered s entry_point privilege slot (begin_process s slot name entry_point privilege)
begin_process-Registered s slot name entry_point privilege v small l free =
    let s' = begin_process s slot name entry_point privilege in
    let f : Process → Process =
      λ p. new_process s.next_pid (current_pid (take_slot s slot)) name entry_point privilege in
    let here : core (process_at s' slot)
        ≡ (s.next_pid, false, entry_point, parent_of s slot, privilege) =
      ap core (get_or-modify_self s.table slot f zero_process l)
      ∙ core-new_process s.next_pid (current_pid (take_slot s slot)) name entry_point privilege
      ∙ ap (λ c. (s.next_pid, false, entry_point, c, privilege)) (current_pid-take_slot s slot l) in
    let pid : (process_at s' slot).pid ≡ s.next_pid = ap (λ c. c.0) here in
    let away : (j : ℕ) → j ≢ slot → process_at s' j ≡ process_at s j =
      λ j ne. get_or-modify_ne s.table slot j f zero_process (λ q. ne (sym q)) in
    let old : (j : ℕ)
        → j ≢ slot
        → is_empty (process_at s' j) ≡ false
        → is_empty (process_at s j) ≡ false =
      λ j ne e. ap is_empty (sym (away j ne)) ∙ e in
    let less : (j : ℕ)
        → j ≢ slot
        → is_empty (process_at s' j) ≡ false
        → (process_at s' j).pid < s.next_pid =
      λ j ne e. subst (λ p. p.pid < s.next_pid) (sym (away j ne)) (v.below j (old j ne e)) in
    record {
      numbered = record {
        below = λ i e. elim (ℕ_discrete i slot) [
          | yes q ↦ omega (arith, subst (λ x. (process_at s' x).pid ≡ s.next_pid) (sym q) pid)
          | no ne ↦ omega (arith, less i ne e)
        ];
        distinct = λ i j e g q. elim (ℕ_discrete i slot) [
          | yes a ↦ elim (ℕ_discrete j slot) [
            | yes b ↦ a ∙ sym b
            | no b ↦ absurd (
                omega (
                  arith,
                  less j b g,
                  subst (λ x. (process_at s' x).pid ≡ s.next_pid) (sym a) pid,
                  q,
                ))
          ]
          | no a ↦ elim (ℕ_discrete j slot) [
            | yes b ↦ absurd (
                omega (
                  arith,
                  less i a e,
                  subst (λ x. (process_at s' x).pid ≡ s.next_pid) (sym b) pid,
                  q,
                ))
            | no b ↦
                v.distinct i j (old i a e) (old j b g)
                  (ap (λ p. p.pid) (sym (away i a)) ∙ q ∙ ap (λ p. p.pid) (away j b))
          ]
        ];
      };
      was_empty = free;
      filled = here;
      others = away;
    }

-- At first only the kernel's process is in use.
init_processes-first :
    (i : ℕ)
    → is_empty
        (get_or (modify (replicate max_processes zero_process) 0 kernel_process) i zero_process)
      ≡ false
    → i ≡ 0
init_processes-first i e = elim (ℕ_discrete 0 i) [
  | yes q ↦ sym q
  | no ne ↦
      let same =
        get_or-modify_ne (replicate max_processes zero_process) 0 i kernel_process zero_process ne
        ∙ get_or-blank max_processes i in
      absurd (true≢false (ap is_empty (sym same) ∙ e))
]

pub init_processes-IsNumbered :
    (sched : Sched) (store : Store) → IsNumbered (init_processes sched store)
unfolding init_processes
init_processes-IsNumbered sched store =
    let xs = modify (replicate max_processes zero_process) 0 kernel_process in
    record {
      below = λ i e.
          subst (λ j. (get_or xs j zero_process).pid < 1) (sym (init_processes-first i e))
            (omega arith);
      distinct = λ i j e f q. init_processes-first i e ∙ sym (init_processes-first j f);
    }
