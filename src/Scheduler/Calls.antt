-- ===== src/Scheduler/Calls.antt =====
-- Every call of the scheduler keeps its invariant, in any order.
use korus_os.Prelude.{
  ℕ, zero, suc, ◌+◌, ◌-◌, ◌<◌, ◌≡◌, ◌≢◌, refl, ℕ_discrete, true, false, Option, none, some, List,
  [], ◌∷◌, map, arith, ltb, if◌then◌else◌, Option-cases, none≢some, inl, inr, ◌⊎◌, sym, ◌∙◌, subst,
  ==_of_ne, ==-self, ap, length, get_or, modify, find_index, count_if, length-modify,
  get_or-modify_self, get_or-modify_ne, count_if-modify, Found, find_index-Found,
}
use mathlib.Core.Bool.{true≢false, false≢true}
use mathlib.Core.Option.{some-injective}
use korus_os.Memory.Store.{Store}
use korus_os.Scheduler.{
  wake, switch_to, schedule, thread_sleep, terminate_thread, end_thread, clear_slot, has_id,
}
use korus_os.Scheduler.Table.{
  ThreadState, Thread, zero_thread, Sched, is_ready, is_running, thread_at, max_threads,
  find_next_thread,
}
use korus_os.Scheduler.Search.{InTurn, find_next_thread-InTurn}
use korus_os.Scheduler.Invariant.{
  occupied, IsValid, count_if-same, get_or-modify, woken-IsValid, Choosable, woken,
  switch_to-IsValid, switch_to-cases, switched, occupied-switched,
}

find_next_thread-none :
    (s : Sched) → s.current ≡ none → find_next_thread s ≡ find_index is_ready s.table
unfolding find_next_thread
find_next_thread-none s e = rw (e, find_next_thread)

-- What is chosen is a ready thread, or the current one.
pub chosen :
    (s : Sched) (i : ℕ)
    → IsValid s
    → (o : Option ℕ) → s.current ≡ o
    → find_next_thread s ≡ some i
    → (s.current ≡ some i) ⊎ Choosable s i
chosen s i v none e h =
    let first : find_index is_ready s.table ≡ some i = sym (find_next_thread-none s e) ∙ h in
    let f : Found is_ready s.table i zero_thread =
      find_index-Found is_ready s.table i zero_thread first in
    let l : i < max_threads = omega (arith, f.inside, v.size) in
    inr (l, f.passes, λ q. none≢some i (sym e ∙ q))
chosen s i v (some c) e h =
    go (subst (InTurn s.table c) h (find_next_thread-InTurn s c e (v.inside c e)))
  where
    go : InTurn s.table c (some i) → (s.current ≡ some i) ⊎ Choosable s i
    go (inl (k, _, _, at, ne, r, _)) =
        inr (omega (arith, at), r, λ q. ne (sym (some-injective c i (sym e ∙ q))))
    go (inr (at, _, _)) = inl (e ∙ ap some (sym at))

pub schedule-IsValid : (s : Sched) → IsValid s → IsValid (schedule s)
unfolding schedule
schedule-IsValid s v =
    let w = woken-IsValid s v in
    switch_to-IsValid (woken s) (find_next_thread (woken s)) w
      (λ i h. chosen (woken s) i w s.current refl h)

-- A write to a slot that leaves the thread running only if it is the current one.
pub write-IsValid :
    (s : Sched) (i : ℕ) (f : Thread → Thread)
    → IsValid s
    → i < max_threads
    → occupied (f (thread_at s i)) ≡ occupied (thread_at s i)
    → is_running (f (thread_at s i)) ≡ false
    → IsValid (record s { table = modify s.table i f })
write-IsValid s i f v l full stopped = record {
  size = length-modify s.table i f ∙ v.size;
  counted = v.counted ∙ sym (count_if-same s.table i f (omega (arith, v.size)) full);
  inside = v.inside;
  one_running = λ j h. elim (ℕ_discrete i j) [
    | yes q ↦ absurd (
        true≢false (
          sym (rw (get_or-modify s.table i j f (omega (arith, v.size)), q, ==-self j) at h)
          ∙ rw (← q) stopped))
    | no q ↦
        v.one_running j
          (rw (get_or-modify s.table i j f (omega (arith, v.size)), ==_of_ne i j q) at h)
  ];
}

-- The current thread's slot is not empty. terminate_thread breaks this where it ends the current
-- thread, which stays current.
abbrev pub IsLive : Sched → Type 0
IsLive s = (c : ℕ) → s.current ≡ some c → occupied (thread_at s c) ≡ true

occupied-get_or-wake :
    (xs : List Thread) (c : ℕ)
    → occupied (get_or (map wake xs) c zero_thread) ≡ occupied (get_or xs c zero_thread)
unfolding wake
occupied-get_or-wake [] c = refl
occupied-get_or-wake (x ∷ xs) zero = ground arith
occupied-get_or-wake (x ∷ xs) (suc c) = occupied-get_or-wake xs c

switched-IsLive : (s : Sched) (i : ℕ) → IsValid s → i < max_threads → IsLive (switched s i)
switched-IsLive s i v l c e =
    subst (λ x. occupied (thread_at (switched s i) x) ≡ true) (some-injective i c e)
      (occupied-switched s i v l)

switch_to-IsLive :
    (s : Sched) (o : Option ℕ)
    → IsValid s
    → IsLive s
    → ((i : ℕ) → o ≡ some i → (s.current ≡ some i) ⊎ Choosable s i)
    → IsLive (switch_to s o)
switch_to-IsLive s none v u h = unfold switch_to in u
switch_to-IsLive s (some i) v u h = elim (switch_to-cases s i s.current refl) [
  | inl e ↦ subst IsLive (sym e) u
  | inr e ↦ subst IsLive (sym e) (switched-IsLive s i v (bound (h i refl)))
]
  where
    bound : (s.current ≡ some i) ⊎ Choosable s i → i < max_threads
    bound (inl e) = v.inside i e
    bound (inr c) = c.0

-- schedule keeps the invariant, and the current thread live.
pub schedule-keeps : (s : Sched) → IsValid s → IsLive s → IsValid (schedule s) × IsLive (schedule s)
unfolding schedule
schedule-keeps s v u =
    let w = woken-IsValid s v in
    let ok : (i : ℕ)
        → find_next_thread (woken s) ≡ some i
        → ((woken s).current ≡ some i) ⊎ Choosable (woken s) i =
      λ i h. chosen (woken s) i w (woken s).current refl h in
    (
      switch_to-IsValid (woken s) (find_next_thread (woken s)) w ok,
      switch_to-IsLive (woken s) (find_next_thread (woken s)) w
          (λ c e. occupied-get_or-wake s.table c ∙ u c e) ok,
    )

abbrev pub asleep : ℕ → Thread → Thread
asleep ms t = record t { sleep_ticks = ms; state = ThreadState.sleeping }

thread_sleep-none : (s : Sched) (ms : ℕ) → s.current ≡ none → thread_sleep s ms ≡ s
unfolding thread_sleep
thread_sleep-none s ms e = ground arith

pub thread_sleep-some :
    (s : Sched) (ms c : ℕ)
    → s.current ≡ some c
    → thread_sleep s ms ≡ schedule (record s { table = modify s.table c (asleep ms) })
unfolding thread_sleep
thread_sleep-some s ms c e = ground arith

pub thread_sleep-keeps :
    (s : Sched) (ms : ℕ) (o : Option ℕ)
    → s.current ≡ o
    → IsValid s
    → IsLive s
    → IsValid (thread_sleep s ms) × IsLive (thread_sleep s ms)
thread_sleep-keeps s ms none e v u =
    let stays : thread_sleep s ms ≡ s = thread_sleep-none s ms e in
    (subst IsValid (sym stays) v, subst IsLive (sym stays) u)
thread_sleep-keeps s ms (some c) e v u =
    let l = v.inside c e in
    let s' : Sched = record s { table = modify s.table c (asleep ms) } in
    let v' = write-IsValid s c (asleep ms) v l (sym (u c e)) refl in
    let u' : IsLive s' = λ k q.
      subst (λ x. occupied (get_or s'.table x zero_thread) ≡ true) (some-injective c k (sym e ∙ q))
        (rw (get_or-modify_self s.table c (asleep ms) zero_thread (omega (arith, l, v.size)))) in
    let goes : thread_sleep s ms ≡ schedule s' = thread_sleep-some s ms c e in
    let (a, b) = schedule-keeps s' v' u' in (subst IsValid (sym goes) a, subst IsLive (sym goes) b)

has_id-occupied : (id : ℕ) (t : Thread) → has_id id t ≡ true → occupied t ≡ true
has_id-occupied id t h = ground arith

end_thread-keeps :
    (s : Sched) (i : ℕ)
    → IsValid s
    → IsLive s
    → i < max_threads
    → occupied (thread_at s i) ≡ true
    → s.current ≢ some i
    → IsValid (end_thread s i) × IsLive (end_thread s i)
unfolding end_thread
end_thread-keeps s i v u l full other =
    let inside : i < length s.table = omega (arith, l, v.size) in
    let lost = count_if-modify occupied s.table i clear_slot zero_thread inside in
    (
      record {
        size = length-modify s.table i clear_slot ∙ v.size;
        counted = one_less s.count (count_if occupied s.table) _ v.counted (rw full at lost);
        inside = v.inside;
        one_running = λ j h. elim (ℕ_discrete i j) [
          | yes q ↦
              absurd
                (false≢true (rw (get_or-modify s.table i j clear_slot inside, q, ==-self j) at h))
          | no q ↦
              v.one_running j
                (rw (get_or-modify s.table i j clear_slot inside, ==_of_ne i j q) at h)
        ];
      },
      λ c e.
          rw
            (get_or-modify_ne s.table i c clear_slot zero_thread (λ q. other (e ∙ ap some (sym q))))
            (u c e),
    )
  where
    one_less : (n k k' : ℕ) → n ≡ k → k' + 1 ≡ k + 0 → (if ltb 0 n then n - 1 else n) ≡ k'
    one_less n k k' e h = ground arith

pub terminate_thread-keeps :
    (s : Sched) (m : Store) (id : ℕ)
    → IsValid s
    → IsLive s
    → ((i : ℕ) → find_index (has_id id) s.table ≡ some i → s.current ≢ some i)
    → IsValid (terminate_thread s m id).0 × IsLive (terminate_thread s m id).0
unfolding terminate_thread
terminate_thread-keeps s m id v u other = elim (Option-cases (find_index (has_id id) s.table)) [
  | inl e ↦ rw (e, terminate_thread) (v, u)
  | inr (i, e) ↦
      let f : Found (has_id id) s.table i zero_thread =
        find_index-Found (has_id id) s.table i zero_thread e in
      rw (e, terminate_thread)
        (end_thread-keeps s i v u (omega (arith, f.inside, v.size))
          (has_id-occupied id (get_or s.table i zero_thread) f.passes) (other i e))
]
