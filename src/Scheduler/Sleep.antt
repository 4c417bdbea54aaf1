-- ===== src/Scheduler/Sleep.antt =====
-- How long a thread sleeps.
use korus_os.Prelude.{
  ℕ, zero, suc, ◌+◌, ◌-◌, ◌<◌, ◌≡◌, ◌≢◌, refl, ℕ_discrete, true, false, ◌||◌, Option, none, some,
  arith, ◌==◌, if◌then◌else◌, inl, inr, ◌⊎◌, sym, ◌∙◌, subst, ==_of_ne, ==-self, ap, length, get_or,
  modify, length-modify, get_or-modify_self, get_or-modify_ne,
}
use mathlib.Core.Bool.{true≢false}
use korus_os.Scheduler.{wake, run_thread, yield_current, switch_to, schedule, thread_sleep}
use korus_os.Scheduler.Table.{
  ThreadState, Thread, zero_thread, Sched, is_ready, is_running, thread_at, max_threads,
  find_next_thread,
}
use korus_os.Scheduler.Invariant.{
  IsValid, get_or-modify, get_or-wake, woken, woken-IsValid, park, yield_current-none,
  yield_current-some,
}
use korus_os.Scheduler.Calls.{
  IsLive, chosen, asleep, schedule-IsValid, write-IsValid, thread_sleep-some,
}

-- A thread that sleeps, with the ticks that it has left.
abbrev pub Sleeps : ℕ → Thread → Type 0
Sleeps n t = (t.state ≡ ThreadState.sleeping) × (t.sleep_ticks ≡ n)

sleeping-stopped :
    (t : Thread) → t.state ≡ ThreadState.sleeping → (is_running t ≡ false) × (is_ready t ≡ false)
sleeping-stopped t e = ground arith

-- The thread that runs is put back among the ready ones; no other one changes.
yield_current-other :
    (s : Sched) (i : ℕ) (o : Option ℕ)
    → s.current ≡ o
    → IsValid s
    → is_running (thread_at s i) ≡ false
    → get_or (yield_current s) i zero_thread ≡ thread_at s i
yield_current-other s i none e v r = ap (λ xs. get_or xs i zero_thread) (yield_current-none s e)
yield_current-other s i (some c) e v r =
    ap (λ xs. get_or xs i zero_thread) (yield_current-some s c e)
    ∙ get_or-modify s.table c i park (omega (arith, v.inside c e, v.size))
    ∙ elim (ℕ_discrete c i) [ yes q ↦ rw (q, ==-self i, r) | no q ↦ rw (==_of_ne c i q) ]

-- The switch to another thread leaves one alone that neither runs nor is chosen.
switch_to-current : (s : Sched) (j : ℕ) → s.current ≡ some j → switch_to s (some j) ≡ s
unfolding switch_to
switch_to-current s j e = ground arith

switch_to-other :
    (s : Sched) (j : ℕ)
    → s.current ≢ some j
    → switch_to s (some j)
      ≡ record s { table = modify (yield_current s) j run_thread; current = some j }
unfolding switch_to
switch_to-other s j n = ground arith

-- Where the choice falls on another thread than `i`, or on none, thread `i` is as it was.
unchosen :
    (s : Sched) (i : ℕ) (o : Option ℕ)
    → IsValid s
    → is_running (thread_at s i) ≡ false
    → ((j : ℕ) → o ≡ some j → (s.current ≡ some j) ⊎ ((s.current ≢ some j) × (j ≢ i)))
    → thread_at (switch_to s o) i ≡ thread_at s i
unchosen s i none v r h = unfold switch_to in refl
unchosen s i (some j) v r h = elim (h j refl) [
  | inl e ↦ ap (λ x. thread_at x i) (switch_to-current s j e)
  | inr (n, m) ↦
      ap (λ x. thread_at x i) (switch_to-other s j n)
      ∙ get_or-modify_ne (yield_current s) j i run_thread zero_thread m
      ∙ yield_current-other s i s.current refl v r
]

-- The thread as schedule finds it when it chooses.
woken-at : (s : Sched) (i : ℕ) → thread_at (woken s) i ≡ wake (thread_at s i)
woken-at s i = get_or-wake s.table i

-- A choice that falls on no thread that is not ready.
choice :
    (s : Sched) (i j : ℕ)
    → IsValid s
    → is_ready (thread_at s i) ≡ false
    → find_next_thread s ≡ some j
    → (s.current ≡ some j) ⊎ ((s.current ≢ some j) × (j ≢ i))
choice s i j v r h = elim (chosen s j v s.current refl h) [
  | inl e ↦ inl e
  | inr (_, ready, ne) ↦ inr (ne, λ q. true≢false (sym ready ∙ rw q r))
]

-- While a thread sleeps on, schedule takes one tick off it and leaves it alone otherwise.
schedule-asleep :
    (s : Sched) (i : ℕ)
    → IsValid s
    → (wake (thread_at s i)).state ≡ ThreadState.sleeping
    → thread_at (schedule s) i ≡ wake (thread_at s i)
unfolding schedule
schedule-asleep s i v e =
    let w = woken-IsValid s v in
    let (r, q) =
      sleeping-stopped (thread_at (woken s) i) (ap (λ (t : Thread). t.state) (woken-at s i) ∙ e) in
    unchosen (woken s) i (find_next_thread (woken s)) w r (λ j h. choice (woken s) i j w q h)
    ∙ woken-at s i

wake-sleeping : (t : Thread) (n : ℕ) → Sleeps (n + 1) t → Sleeps n (wake t)
unfolding wake
wake-sleeping t n (e, f) = ground arith

wake-ready : (t : Thread) → Sleeps 0 t → is_ready (wake t) ≡ true
unfolding wake
wake-ready t (e, f) = ground arith

-- Ready to run, or running.
abbrev pub Awake : Thread → Type 0
Awake t = (is_ready t || is_running t) ≡ true

ready-parts : (t : Thread) → is_ready t ≡ true → Awake t × (is_running t ≡ false)
ready-parts t h = ground arith

length-yield_current :
    (s : Sched) (o : Option ℕ) → s.current ≡ o → length (yield_current s) ≡ length s.table
length-yield_current s none e = ap length (yield_current-none s e)
length-yield_current s (some c) e =
    ap length (yield_current-some s c e) ∙ length-modify s.table c park

-- A ready thread is still ready after the switch, or it runs.
switch_to-Awake :
    (s : Sched) (i : ℕ) (o : Option ℕ)
    → IsValid s
    → i < max_threads
    → is_ready (thread_at s i) ≡ true
    → ((j : ℕ) → o ≡ some j → (s.current ≡ some j) ⊎ (s.current ≢ some j))
    → Awake (thread_at (switch_to s o) i)
switch_to-Awake s i none v l r h = unfold switch_to in (ready-parts (thread_at s i) r).0
switch_to-Awake s i (some j) v l r h =
    let (a, stopped) = ready-parts (thread_at s i) r in
    elim (h j refl) [
      | inl e ↦ subst (λ x. Awake (thread_at x i)) (sym (switch_to-current s j e)) a
      | inr n ↦
          let at = yield_current-other s i s.current refl v stopped in
          let inside : j < length (yield_current s)
              → get_or (modify (yield_current s) j run_thread) i zero_thread ≡ (
                  if j == i
                  then run_thread (get_or (yield_current s) j zero_thread)
                  else get_or (yield_current s) i zero_thread) =
            get_or-modify (yield_current s) j i run_thread in
          subst (λ x. Awake (thread_at x i)) (sym (switch_to-other s j n))
            (elim (ℕ_discrete j i) [
              | yes q ↦
                  let long : j < length (yield_current s) =
                    omega (arith, q, l, length-yield_current s s.current refl, v.size) in
                  subst Awake (sym (inside long)) (rw (q, ==-self i) refl)
              | no q ↦
                  subst Awake
                    (sym (get_or-modify_ne (yield_current s) j i run_thread zero_thread q ∙ at)) a
            ])
    ]

-- `n` calls of schedule.
abbrev pub rounds : ℕ → Sched → Sched
rounds zero s = s
rounds (suc n) s = rounds n (schedule s)

asleep-next :
    (s : Sched) (i n : ℕ)
    → IsValid s
    → Sleeps (suc n) (thread_at s i)
    → Sleeps n (thread_at (schedule s) i)
asleep-next s i n v (e, f) =
    let next = wake-sleeping (thread_at s i) n (e, omega arith) in
    subst (Sleeps n) (sym (schedule-asleep s i v next.0)) next

asleep-wakes :
    (s : Sched) (i : ℕ)
    → IsValid s
    → i < max_threads
    → Sleeps 0 (thread_at s i)
    → Awake (thread_at (schedule s) i)
unfolding schedule
asleep-wakes s i v l z =
    let w = woken-IsValid s v in
    let r : is_ready (thread_at (woken s) i) ≡ true =
      rw (woken-at s i) (wake-ready (thread_at s i) z) in
    switch_to-Awake (woken s) i (find_next_thread (woken s)) w l r (λ j h.
      elim (chosen (woken s) j w s.current refl h) [ inl e ↦ inl e | inr (_, _, ne) ↦ inr ne ])

rounds-Sleeps :
    (k n i : ℕ) (s : Sched)
    → IsValid s
    → Sleeps (k + n) (thread_at s i)
    → Sleeps n (thread_at (rounds k s) i)
rounds-Sleeps zero n i s v (e, f) = (e, omega arith)
rounds-Sleeps (suc k) n i s v (e, f) =
    rounds-Sleeps k n i (schedule s) (schedule-IsValid s v)
      (asleep-next s i (k + n) v (e, omega arith))

rounds-Awake :
    (n i : ℕ) (s : Sched)
    → IsValid s
    → i < max_threads
    → Sleeps n (thread_at s i)
    → Awake (thread_at (rounds (suc n) s) i)
rounds-Awake zero i s v l z = asleep-wakes s i v l z
rounds-Awake (suc n) i s v l z =
    rounds-Awake n i (schedule s) (schedule-IsValid s v) l (asleep-next s i n v z)

-- A thread that calls thread_sleep, in a valid table, sleeps for as many calls of schedule as it asked
-- for: after each number of them that is smaller it still sleeps, with the rest of its ticks, and then it is
-- ready or runs. thread_sleep itself makes one call more, before them.
pub thread_sleep-Wakes :
    (s : Sched) (ms k c : ℕ)
    → IsValid s
    → IsLive s
    → s.current ≡ some c
    → k < ms
    → Sleeps (ms - 1 - k) (thread_at (rounds k (thread_sleep s ms)) c)
      × Awake (thread_at (rounds ms (thread_sleep s ms)) c)
thread_sleep-Wakes s ms k c v u e h =
    let l = v.inside c e in
    let s' : Sched = record s { table = modify s.table c (asleep ms) } in
    let v' = write-IsValid s c (asleep ms) v l (sym (u c e)) refl in
    let goes : thread_sleep s ms ≡ schedule s' = thread_sleep-some s ms c e in
    let self : thread_at s' c ≡ asleep ms (thread_at s c) =
      get_or-modify_self s.table c (asleep ms) zero_thread (omega (arith, l, v.size)) in
    let z : Sleeps ms (thread_at s' c) = subst (Sleeps ms) (sym self) (refl, refl) in
    let z' : Sleeps (suc k + (ms - 1 - k)) (thread_at s' c) = (z.0, z.1 ∙ omega arith) in
    (
      subst (λ x. Sleeps (ms - 1 - k) (thread_at (rounds k x) c)) (sym goes)
          (rounds-Sleeps (suc k) (ms - 1 - k) c s' v' z'),
      subst (λ x. Awake (thread_at (rounds ms x) c)) (sym goes) (rounds-Awake ms c s' v' l z),
    )
