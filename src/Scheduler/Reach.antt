-- ===== src/Scheduler/Reach.antt =====
-- The states of the scheduler that calls of it reach from init_scheduler.
use korus_os.Prelude.{
  ℕ, zero, suc, ◌+◌, ◌<◌, ◌≡◌, ◌≢◌, refl, ℕ_discrete, true, false, Option, none, some, List, arith,
  leb, ◌==◌, add32, Bool-cases, Option-cases, none≢some, inl, inr, ◌⊎◌, sym, ◌∙◌, subst, ==_of_ne,
  ==-self, ap, length, get_or, replicate, modify, find_index, count_if, length-modify,
  get_or-modify_ne, count_if-modify, Found, find_index-Found,
}
use mathlib.Core.Bool.{true≢false, false≢true}
use mathlib.Core.Option.{some-injective}
use korus_os.Memory.Store.{Store, kmalloc}
use korus_os.Scheduler.{
  fill_slot, new_thread, create_thread, schedule, thread_sleep, terminate_thread, has_id,
}
use korus_os.Scheduler.Table.{
  Thread, zero_thread, Sched, is_empty, is_running, thread_at, max_threads, find_free_slot,
  init_scheduler, thread_stack_size, idle_thread,
}
use korus_os.Scheduler.Invariant.{occupied, IsValid, get_or-modify}
use korus_os.Scheduler.Calls.{
  IsLive, write-IsValid, schedule-keeps, thread_sleep-keeps, terminate_thread-keeps,
}

empty-stopped : (t : Thread) → is_empty t ≡ true → is_running t ≡ false
empty-stopped t h = ground arith

-- A thread put in an empty slot keeps the invariant.
filled-IsValid :
    (s : Sched) (i n : ℕ) (f : Thread → Thread)
    → IsValid s
    → i < max_threads
    → is_empty (thread_at s i) ≡ true
    → s.count < max_threads
    → occupied (f (thread_at s i)) ≡ true
    → is_running (f (thread_at s i)) ≡ false
    → IsValid (record s { table = modify s.table i f; next_id = n; count = add32 s.count 1 })
filled-IsValid s i n f v l free room full stopped =
    let inside : i < length s.table = omega (arith, l, v.size) in
    let grown = count_if-modify occupied s.table i f zero_thread inside in
    record {
      size = length-modify s.table i f ∙ v.size;
      counted =
          one_more s.count (count_if occupied s.table) _ room v.counted (rw (full, free) at grown);
      inside = v.inside;
      one_running = λ j h. elim (ℕ_discrete i j) [
        | yes q ↦ absurd (
            true≢false
              (sym (rw (get_or-modify s.table i j f inside, q, ==-self j) at h) ∙ rw (← q) stopped))
        | no q ↦ v.one_running j (rw (get_or-modify s.table i j f inside, ==_of_ne i j q) at h)
      ];
    }
  where
    one_more : (n k k' : ℕ) → n < max_threads → n ≡ k → k' + 0 ≡ k + 1 → add32 n 1 ≡ k'
    one_more n k k' r e h = omega arith

-- A write to an empty slot leaves the current thread alone.
empty-other : (s : Sched) (i : ℕ) → IsLive s → is_empty (thread_at s i) ≡ true → s.current ≢ some i
empty-other s i u free e = true≢false (sym (u i e) ∙ rw free)

apart-IsLive :
    (s : Sched) (i : ℕ) (f : Thread → Thread)
    → IsLive s
    → is_empty (thread_at s i) ≡ true
    → (c : ℕ) → s.current ≡ some c
    → occupied (get_or (modify s.table i f) c zero_thread) ≡ true
apart-IsLive s i f u free c e =
    rw
      (get_or-modify_ne s.table i c f zero_thread
        (λ q. empty-other s i u free (e ∙ ap some (sym q))))
      (u c e)

new_thread-ready :
    (id stack : ℕ) (name : Option (List ℕ)) (entry priority : ℕ) (t : Thread)
    → (occupied (new_thread id stack name entry priority t) ≡ true)
      × (is_running (new_thread id stack name entry priority t) ≡ false)
unfolding new_thread
new_thread-ready id stack name entry priority t = (refl, refl)

-- What the call leaves, if it returns.
abbrev pub Keeps : Option (Option ℕ × Sched × Store) → Type 0
Keeps o = (r : Option ℕ) (s' : Sched) (m' : Store) → o ≡ some (r, s', m') → IsValid s' × IsLive s'

abbrev no_stack : Thread → Thread
no_stack t = record t { stack = 0 }

abbrev filled : Sched → ℕ → ℕ → Option (List ℕ) → ℕ → ℕ → Sched
filled s stack i name entry priority = record s {
  table = modify s.table i (new_thread s.next_id stack name entry priority);
  next_id = add32 s.next_id 1;
  count = add32 s.count 1;
}

fill_slot-stuck :
    (s : Sched) (m : Store) (i : ℕ) (name : Option (List ℕ)) (entry priority : ℕ)
    → kmalloc m thread_stack_size ≡ none
    → fill_slot s m i name entry priority ≡ none
unfolding fill_slot
fill_slot-stuck s m i name entry priority e = rw (e, fill_slot)

fill_slot-null :
    (s : Sched) (m m1 : Store) (stack i : ℕ) (name : Option (List ℕ)) (entry priority : ℕ)
    → kmalloc m thread_stack_size ≡ some (stack, m1)
    → (stack == 0) ≡ true
    → fill_slot s m i name entry priority
      ≡ some (none, record s { table = modify s.table i no_stack }, m1)
unfolding fill_slot
fill_slot-null s m m1 stack i name entry priority e z = rw (e, fill_slot, z)

fill_slot-filled :
    (s : Sched) (m m1 : Store) (stack i : ℕ) (name : Option (List ℕ)) (entry priority : ℕ)
    → kmalloc m thread_stack_size ≡ some (stack, m1)
    → (stack == 0) ≡ false
    → (r : Option ℕ) (s' : Sched) (m' : Store)
    → fill_slot s m i name entry priority ≡ some (r, s', m')
    → filled s stack i name entry priority ≡ s'
unfolding fill_slot
fill_slot-filled s m m1 stack i name entry priority e z r s' m' h =
    ap (λ x. x.1) (some-injective _ _ (rw (e, fill_slot, z) at h))

filled-keeps :
    (s : Sched) (m : Store) (stack i : ℕ) (name : Option (List ℕ)) (entry priority : ℕ)
    → IsValid s
    → IsLive s
    → i < max_threads
    → is_empty (thread_at s i) ≡ true
    → s.count < max_threads
    → IsValid (filled s stack i name entry priority) × IsLive (filled s stack i name entry priority)
filled-keeps s m stack i name entry priority v u l free room =
    let f = new_thread s.next_id stack name entry priority in
    let (full, stopped) = new_thread-ready s.next_id stack name entry priority (thread_at s i) in
    (
      filled-IsValid s i (add32 s.next_id 1) f v l free room full stopped,
      λ c e. apart-IsLive s i f u free c e,
    )

fill_slot-Keeps :
    (s : Sched) (m : Store) (i : ℕ) (name : Option (List ℕ)) (entry priority : ℕ)
    → IsValid s
    → IsLive s
    → i < max_threads
    → is_empty (thread_at s i) ≡ true
    → s.count < max_threads
    → Keeps (fill_slot s m i name entry priority)
fill_slot-Keeps s m i name entry priority v u l free room =
    elim (Option-cases (kmalloc m thread_stack_size)) [
      | inl e ↦ λ r s' m' h.
          absurd (none≢some (r, s', m') (sym (fill_slot-stuck s m i name entry priority e) ∙ h))
      | inr ((stack, m1), e) ↦ elim (Bool-cases (stack == 0)) [
        | inl z ↦ λ r s' m' h.
            let q =
              some-injective _ _
                (sym (fill_slot-null s m m1 stack i name entry priority e z) ∙ h) in
            subst (λ x. IsValid x × IsLive x) (ap (λ x. x.1) q)
              (
                write-IsValid s i no_stack v l refl (empty-stopped (thread_at s i) free),
                λ c e. apart-IsLive s i no_stack u free c e,
              )
        | inr z ↦ λ r s' m' h.
            let q = fill_slot-filled s m m1 stack i name entry priority e z r s' m' h in
            subst (λ x. IsValid x × IsLive x) q
              (filled-keeps s m stack i name entry priority v u l free room)
      ]
    ]

pub find_free_slot-Found :
    (table : List Thread) (i : ℕ)
    → find_free_slot table ≡ some i
    → Found is_empty table i zero_thread
unfolding find_free_slot
find_free_slot-Found table i h = find_index-Found is_empty table i zero_thread h

-- A full count, a NULL entry or a full table: create_thread does nothing.
pub refused :
    (s : Sched) (m : Store) (name : Option (List ℕ)) (entry priority : ℕ)
    → (leb max_threads s.count ≡ true) ⊎ ((entry == 0) ≡ true) ⊎ (find_free_slot s.table ≡ none)
    → create_thread s m name entry priority ≡ some (none, s, m)
unfolding create_thread
refused s m name entry priority h = ground arith

pub placed :
    (s : Sched) (m : Store) (name : Option (List ℕ)) (entry priority i : ℕ)
    → leb max_threads s.count ≡ false
    → (entry == 0) ≡ false
    → find_free_slot s.table ≡ some i
    → create_thread s m name entry priority ≡ fill_slot s m i name entry priority
unfolding create_thread
placed s m name entry priority i e z k = simp (e, z, k)

unchanged : (s : Sched) (m : Store) → IsValid s → IsLive s → Keeps (some (none, s, m))
unchanged s m v u r s' m' h =
    subst (λ x. IsValid x × IsLive x) (ap (λ x. x.1) (some-injective _ _ h)) (v, u)

pub create_thread-Keeps :
    (s : Sched) (m : Store) (name : Option (List ℕ)) (entry priority : ℕ)
    → IsValid s
    → IsLive s
    → Keeps (create_thread s m name entry priority)
create_thread-Keeps s m name entry priority v u = elim (Bool-cases (leb max_threads s.count)) [
  | inl e ↦ subst Keeps (sym (refused s m name entry priority (inl e))) (unchanged s m v u)
  | inr e ↦ elim (Bool-cases (entry == 0)) [
    | inl z ↦ subst Keeps (sym (refused s m name entry priority (inr (inl z)))) (unchanged s m v u)
    | inr z ↦ elim (Option-cases (find_free_slot s.table)) [
      | inl n ↦
          subst Keeps (sym (refused s m name entry priority (inr (inr n)))) (unchanged s m v u)
      | inr (i, k) ↦
          let f : Found is_empty s.table i zero_thread = find_free_slot-Found s.table i k in
          subst Keeps (sym (placed s m name entry priority i e z k)) (
            fill_slot-Keeps s m i name entry priority v u (omega (arith, f.inside, v.size)) f.passes
              (room s.count e))
    ]
  ]
]
  where
    room : (n : ℕ) → leb max_threads n ≡ false → n < max_threads
    room n e = ground arith

-- A call of the scheduler. A thread that terminate_thread ends is not the current one here.
pub data Step : Sched → Sched → Type 0 where
  tick : (s : Sched) → Step s (schedule s)
  sleep : (s : Sched) (ms : ℕ) → Step s (thread_sleep s ms)
  create :
      (s s' : Sched) (m m' : Store) (name : Option (List ℕ)) (entry priority : ℕ) (r : Option ℕ)
      → create_thread s m name entry priority ≡ some (r, s', m')
      → Step s s'
  terminate :
      (s : Sched) (m : Store) (id : ℕ)
      → ((i : ℕ) → find_index (has_id id) s.table ≡ some i → s.current ≢ some i)
      → Step s (terminate_thread s m id).0

pub data Reach : Sched → Type 0 where
  here : Reach init_scheduler
  next : {s t : Sched} → Reach s → Step s t → Reach t

Step-keeps : {s t : Sched} → Step s t → IsValid s → IsLive s → IsValid t × IsLive t
Step-keeps (tick s) v u = schedule-keeps s v u
Step-keeps (sleep s ms) v u = thread_sleep-keeps s ms s.current refl v u
Step-keeps (create s s' m m' name entry priority r h) v u =
    create_thread-Keeps s m name entry priority v u r s' m' h
Step-keeps (terminate s m id h) v u = terminate_thread-keeps s m id v u h

abbrev blank : Sched
blank = record {
  table = replicate max_threads zero_thread;
  next_id = 1;
  current = none;
  count = 0;
  timer_ticks = 0;
}

get_or-blank : (n i : ℕ) → get_or (replicate n zero_thread) i zero_thread ≡ zero_thread
get_or-blank zero i = refl
get_or-blank (suc n) zero = refl
get_or-blank (suc n) (suc i) = get_or-blank n i

blank-IsValid : IsValid blank
blank-IsValid = record {
  size = refl;
  counted = refl;
  inside = λ c e. absurd (none≢some c e);
  one_running = λ i h. absurd (false≢true (rw (get_or-blank max_threads i) at h));
}

abbrev started : Sched
started = record blank { table = modify (blank.table) 0 idle_thread; next_id = 1; count = 1 }

init_scheduler-started : init_scheduler ≡ started
unfolding init_scheduler find_free_slot find_index
init_scheduler-started = refl

started-keeps : IsValid started × IsLive started
started-keeps = (
  filled-IsValid blank 0 1 idle_thread blank-IsValid (omega arith) refl (omega arith) refl refl,
  λ c e. absurd (none≢some c e),
)

-- However the scheduler is called after init_scheduler, by schedule, thread_sleep, create_thread
-- (with any heap, on every branch that returns) and terminate_thread (unless it finds the current
-- thread), the table has 64 slots, the count is the number of slots in use, the current thread is in a slot of
-- the table that is in use, and no thread but it is running.
pub Reach-IsValid : {s : Sched} → Reach s → IsValid s × IsLive s
Reach-IsValid here = subst (λ x. IsValid x × IsLive x) (sym init_scheduler-started) started-keeps
Reach-IsValid (next r st) = let (v, u) = Reach-IsValid r in Step-keeps st v u
