-- ===== src/Scheduler/Invariant.antt =====
-- The invariant of the scheduler: a full table, an exact count of threads, a current thread inside
-- the table, and no thread running but the current one.
use korus_os.Prelude.{
  ℕ, zero, suc, ◌<◌, ◌≡◌, ◌≢◌, refl, ℕ_discrete, Bool, true, false, not, Option, none, some, List,
  [], ◌∷◌, map, arith, ◌==◌, if◌then◌else◌, add32, Bool-cases, none≢some, inl, inr, ◌⊎◌, sym, ◌∙◌,
  subst, ==_of_ne, ==-self, bit, ap, length, get_or, modify, count_if, length-modify,
  get_or-modify_self, get_or-modify_ne, count_if-modify, length-map,
}
use mathlib.Core.Bool.{true≢false}
use mathlib.Core.Option.{some-injective}
use korus_os.Scheduler.{wake, yield_current, run_thread, switch_to}
use korus_os.Scheduler.Table.{
  ThreadState, Thread, zero_thread, Sched, is_empty, is_ready, is_running, thread_at, max_threads,
}

abbrev pub occupied : Thread → Bool
occupied t = not (is_empty t)

pub record IsValid (s : Sched) : Type 0 where
  pub size : length s.table ≡ max_threads
  pub counted : s.count ≡ count_if occupied s.table
  pub inside : (c : ℕ) → s.current ≡ some c → c < max_threads
  pub one_running : (i : ℕ) → is_running (thread_at s i) ≡ true → s.current ≡ some i

-- A write to one slot that leaves it as full as it was does not change the count.
pub count_if-same :
    (xs : List Thread) (i : ℕ) (f : Thread → Thread)
    → i < length xs
    → occupied (f (get_or xs i zero_thread)) ≡ occupied (get_or xs i zero_thread)
    → count_if occupied (modify xs i f) ≡ count_if occupied xs
count_if-same xs i f l e = omega (arith, count_if-modify occupied xs i f zero_thread l, ap bit e)

-- Where the slot is in a table after a write to slot `i`.
pub get_or-modify :
    (xs : List Thread) (i j : ℕ) (f : Thread → Thread)
    → i < length xs
    → get_or (modify xs i f) j zero_thread
      ≡ (if i == j then f (get_or xs i zero_thread) else get_or xs j zero_thread)
get_or-modify xs i j f l = elim (ℕ_discrete i j) [
  | yes e ↦ rw (← e, ==-self i) (get_or-modify_self xs i f zero_thread l)
  | no ne ↦ rw (==_of_ne i j ne) (get_or-modify_ne xs i j f zero_thread ne)
]

occupied-wake : (t : Thread) → occupied (wake t) ≡ occupied t
unfolding wake
occupied-wake t = ground arith

running-wake : (t : Thread) → is_running (wake t) ≡ is_running t
unfolding wake
running-wake t = ground arith

wake-zero : wake zero_thread ≡ zero_thread
unfolding wake
wake-zero = refl

pub get_or-wake :
    (xs : List Thread) (i : ℕ) → get_or (map wake xs) i zero_thread ≡ wake (get_or xs i zero_thread)
get_or-wake [] i = sym wake-zero
get_or-wake (x ∷ xs) zero = refl
get_or-wake (x ∷ xs) (suc i) = get_or-wake xs i

count_if-wake : (xs : List Thread) → count_if occupied (map wake xs) ≡ count_if occupied xs
count_if-wake [] = refl
count_if-wake (x ∷ xs) = omega (arith, ap bit (occupied-wake x), count_if-wake xs)

abbrev pub woken : Sched → Sched
woken s = record s { timer_ticks = add32 s.timer_ticks 1; table = map wake s.table }

pub woken-IsValid : (s : Sched) → IsValid s → IsValid (woken s)
woken-IsValid s v = record {
  size = length-map s.table wake ∙ v.size;
  counted = v.counted ∙ sym (count_if-wake s.table);
  inside = v.inside;
  one_running = λ i h. v.one_running i (
      sym (running-wake (thread_at s i))
      ∙ subst (λ t. is_running t ≡ true) (get_or-wake s.table i) h);
}

-- What schedule does to the current thread before the switch.
abbrev pub park : Thread → Thread
park t = if is_running t then record t { state = ThreadState.ready } else t

occupied-park : (t : Thread) → occupied (park t) ≡ occupied t
occupied-park t = ground arith

running-park : (t : Thread) → is_running (park t) ≡ false
running-park t = ground arith

record Parked (s : Sched) (table : List Thread) : Type 0 where
  size : length table ≡ max_threads
  counted : s.count ≡ count_if occupied table
  idle : (i : ℕ) → is_running (get_or table i zero_thread) ≡ false
  others : (i : ℕ) → s.current ≢ some i → get_or table i zero_thread ≡ thread_at s i

pub yield_current-none : (s : Sched) → s.current ≡ none → yield_current s ≡ s.table
unfolding yield_current
yield_current-none s e = rw (e, yield_current)

pub yield_current-some :
    (s : Sched) (c : ℕ) → s.current ≡ some c → yield_current s ≡ modify s.table c park
unfolding yield_current
yield_current-some s c e = rw (e, yield_current)

yield_current-Parked_at :
    (s : Sched) (o : Option ℕ) → s.current ≡ o → IsValid s → Parked s (yield_current s)
yield_current-Parked_at s none e v = subst (Parked s) (sym (yield_current-none s e)) (record {
  size = v.size;
  counted = v.counted;
  idle = λ i. elim (Bool-cases (is_running (thread_at s i))) [
    | inl r ↦ absurd (none≢some i (sym e ∙ v.one_running i r))
    | inr r ↦ r
  ];
  others = λ i n. refl;
})
yield_current-Parked_at s (some c) e v =
    let l : c < length s.table = omega (arith, v.inside c e, v.size) in
    subst (Parked s) (sym (yield_current-some s c e)) (record {
      size = length-modify s.table c park ∙ v.size;
      counted = v.counted ∙ sym (count_if-same s.table c park l (occupied-park (thread_at s c)));
      idle = λ i. rw (get_or-modify s.table c i park l) (elim (ℕ_discrete c i) [
        | yes q ↦ rw (q, ==-self i) (running-park (thread_at s i))
        | no q ↦ rw (==_of_ne c i q) (elim (Bool-cases (is_running (thread_at s i))) [
          | inl r ↦ absurd (q (some-injective c i (sym e ∙ v.one_running i r)))
          | inr r ↦ r
        ])
      ]);
      others = λ i n. get_or-modify_ne s.table c i park zero_thread (λ q. n (e ∙ ap some q));
    })

yield_current-Parked : (s : Sched) → IsValid s → Parked s (yield_current s)
yield_current-Parked s v = yield_current-Parked_at s s.current refl v

-- A thread that a choice may fall on.
abbrev pub Choosable : Sched → ℕ → Type 0
Choosable s i = (i < max_threads) × (is_ready (thread_at s i) ≡ true) × (s.current ≢ some i)

ready-parts : (t : Thread) → is_ready t ≡ true → (is_empty t ≡ false) × (is_running t ≡ false)
ready-parts t h = ground arith

switch-IsValid :
    (s : Sched) (i : ℕ)
    → IsValid s
    → Choosable s i
    → IsValid (record s { table = modify (yield_current s) i run_thread; current = some i })
switch-IsValid s i v (l, r, n) =
    let p = yield_current-Parked s v in
    let t = yield_current s in
    let inside : i < length t = omega (arith, p.size) in
    let same : get_or t i zero_thread ≡ thread_at s i = p.others i n in
    let full : occupied (get_or t i zero_thread) ≡ true =
      rw (same, (ready-parts (thread_at s i) r).0) refl in
    record {
      size = length-modify t i run_thread ∙ p.size;
      counted = p.counted ∙ sym (count_if-same t i run_thread inside (sym full));
      inside = λ c e. rw (← some-injective i c e) l;
      one_running = λ j h. elim (ℕ_discrete i j) [
        | yes q ↦ ap some q
        | no q ↦ absurd (
            true≢false
              (sym (rw (get_or-modify t i j run_thread inside, ==_of_ne i j q) at h) ∙ p.idle j))
      ];
    }

abbrev pub switched : Sched → ℕ → Sched
switched s i = record s { table = modify (yield_current s) i run_thread; current = some i }

switch_to-none : (s : Sched) (i : ℕ) → s.current ≡ none → switch_to s (some i) ≡ switched s i
unfolding switch_to
switch_to-none s i e = rw (e, switch_to)

switch_to-same : (s : Sched) (i : ℕ) → s.current ≡ some i → switch_to s (some i) ≡ s
unfolding switch_to
switch_to-same s i e = ground (arith, ==-self i)

switch_to-other :
    (s : Sched) (k i : ℕ) → s.current ≡ some k → i ≢ k → switch_to s (some i) ≡ switched s i
unfolding switch_to
switch_to-other s k i e n = ground (arith, ==_of_ne i k n)

pub switch_to-IsValid :
    (s : Sched) (o : Option ℕ)
    → IsValid s
    → ((i : ℕ) → o ≡ some i → (s.current ≡ some i) ⊎ Choosable s i)
    → IsValid (switch_to s o)
unfolding switch_to
switch_to-IsValid s none v h = v
switch_to-IsValid s (some i) v h = pick s.current refl (h i refl)
  where
    pick :
        (o : Option ℕ)
        → s.current ≡ o
        → (s.current ≡ some i) ⊎ Choosable s i
        → IsValid (switch_to s (some i))
    pick none e (inl q) = absurd (none≢some i (sym e ∙ q))
    pick none e (inr c) = subst IsValid (sym (switch_to-none s i e)) (switch-IsValid s i v c)
    pick (some k) e (inl q) = subst IsValid (sym (switch_to-same s i q)) v
    pick (some k) e (inr c) =
        subst IsValid (sym (switch_to-other s k i e (λ q. c.2 (e ∙ ap some (sym q)))))
          (switch-IsValid s i v c)

pub switch_to-cases :
    (s : Sched) (i : ℕ) (o : Option ℕ)
    → s.current ≡ o
    → (switch_to s (some i) ≡ s) ⊎ (switch_to s (some i) ≡ switched s i)
switch_to-cases s i none e = inr (switch_to-none s i e)
switch_to-cases s i (some k) e = elim (ℕ_discrete i k) [
  | yes q ↦ inl (switch_to-same s i (e ∙ ap some (sym q)))
  | no q ↦ inr (switch_to-other s k i e q)
]

pub occupied-switched :
    (s : Sched) (i : ℕ) → IsValid s → i < max_threads → occupied (thread_at (switched s i) i) ≡ true
occupied-switched s i v l =
    let p = yield_current-Parked s v in
    rw (get_or-modify_self (yield_current s) i run_thread zero_thread (omega (arith, p.size)))
