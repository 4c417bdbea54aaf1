-- ===== src/Scheduler/Search.antt =====
-- What find_next_thread chooses.
use korus_os.Prelude.{
  ℕ, zero, suc, ◌+◌, ◌-◌, ◌%◌, ◌≤◌, ◌<◌, ◌≡◌, ◌≢◌, refl, Bool, true, false, ◌&&◌, ◌||◌, not, Option,
  none, some, List, arith, ◌==◌, if◌then◌else◌, Bool-cases, Option-cases, inl, inr, ◌⊎◌, ==_iff,
  sym, ◌∙◌, subst, ==_of_ne, get_or,
}
use mathlib.Core.Bool.{true≢false}
use korus_os.Scheduler.Table.{
  Thread, zero_thread, Sched, is_ready, is_running, max_threads, scan, find_after, find_next_thread,
}

-- The k-th slot after `start`, round the table.
abbrev pub around : ℕ → ℕ → ℕ
around start k = (start + k) % max_threads

abbrev pub eligible : List Thread → ℕ → ℕ → Bool
eligible table current i = is_ready (get_or table i zero_thread) && not (i == current)

-- The search goes round the table from `start`, and stops at the first eligible slot.
pub scan-first :
    (n : ℕ) (table : List Thread) (current start i : ℕ)
    → scan n table current (start % max_threads) ≡ some i
    → (k : ℕ) × (k < n)
      × (i ≡ around start k)
      × (eligible table current i ≡ true)
      × ((j : ℕ) → j < k → eligible table current (around start j) ≡ false)
unfolding scan
scan-first zero table current start i h = cc
scan-first (suc n) table current start i h =
    let at : start % max_threads ≡ around start 0 = omega arith in
    elim (Bool-cases (eligible table current (start % max_threads))) [
      | inl t ↦
          let here : start % max_threads ≡ i = ground arith in
          (
            0,
            omega arith,
            sym here ∙ at,
            subst (λ x. eligible table current x ≡ true) here t,
            λ j l. absurd (omega arith),
          )
      | inr t ↦
          let step : (start % max_threads + 1) % max_threads ≡ (start + 1) % max_threads =
            omega arith in
          let (k, l, e, g, b) =
            scan-first n table current (start + 1) i (rw (← step) (rw (t, scan) at h)) in
          (suc k, omega arith, e ∙ around_suc start k, g, below table current start k at t b)
    ]
  where
    around_suc : (s k : ℕ) → around (s + 1) k ≡ around s (suc k)
    around_suc s k = omega arith

    below :
        (table : List Thread) (current start k : ℕ)
        → start % max_threads ≡ around start 0
        → eligible table current (start % max_threads) ≡ false
        → ((j : ℕ) → j < k → eligible table current (around (start + 1) j) ≡ false)
        → (j : ℕ) → j < suc k
        → eligible table current (around start j) ≡ false
    below table current start k at t b zero l = subst (λ x. eligible table current x ≡ false) at t
    below table current start k at t b (suc j) l =
        subst (λ x. eligible table current x ≡ false) (around_suc start j) (b j (omega arith))

-- Without a result none of the slots that the search went over is eligible.
pub scan-none :
    (n : ℕ) (table : List Thread) (current start j : ℕ)
    → scan n table current (start % max_threads) ≡ none
    → j < n
    → eligible table current (around start j) ≡ false
unfolding scan
scan-none zero table current start j h l = absurd (omega arith)
scan-none (suc n) table current start j h l =
    elim (Bool-cases (eligible table current (start % max_threads))) [
      | inl t ↦ ground arith
      | inr t ↦
          rest j l t
            (λ i m. scan-none n table current (start + 1) i (rw (← step) (rw (t, scan) at h)) m)
    ]
  where
    at : start % max_threads ≡ around start 0
    at = omega arith

    step : (start % max_threads + 1) % max_threads ≡ (start + 1) % max_threads
    step = omega arith

    rest :
        (j : ℕ)
        → j < suc n
        → eligible table current (start % max_threads) ≡ false
        → ((i : ℕ) → i < n → eligible table current (around (start + 1) i) ≡ false)
        → eligible table current (around start j) ≡ false
    rest zero l t r = subst (λ x. eligible table current x ≡ false) at t
    rest (suc j) l t r =
        let e : around (start + 1) j ≡ around start (suc j) = omega arith in
        subst (λ x. eligible table current x ≡ false) e (r j (omega arith))

-- No thread but the current one is ready.
abbrev pub OnlyCurrent : List Thread → ℕ → Type 0
OnlyCurrent table c =
    (j : ℕ) → j < max_threads → j ≢ c → is_ready (get_or table j zero_thread) ≡ false

-- The next thread in turn: the first ready one after the current one, going round the table; the
-- current one if no other is ready and it can go on; none otherwise.
abbrev pub InTurn : List Thread → ℕ → Option ℕ → Type 0
InTurn table c none =
    OnlyCurrent table c
    × ((is_running (get_or table c zero_thread) || is_ready (get_or table c zero_thread)) ≡ false)
InTurn table c (some i) =
    ((k : ℕ) × (0 < k)
      × (k ≤ max_threads)
      × (i ≡ around c k)
      × (i ≢ c)
      × (is_ready (get_or table i zero_thread) ≡ true)
      × ((j : ℕ) → 0 < j → j < k → eligible table c (around c j) ≡ false))
    ⊎ ((i ≡ c)
        × OnlyCurrent table c
        × ((is_running (get_or table c zero_thread) || is_ready (get_or table c zero_thread))
            ≡ true))

eligible-parts : (r b : Bool) → (r && not b) ≡ true → (r ≡ true) × (b ≡ false)
eligible-parts r b h = ground arith

not-eligible : (r b : Bool) → (r && not b) ≡ false → b ≡ false → r ≡ false
not-eligible r b h g = ground arith

find_after-InTurn-some :
    (table : List Thread) (c i : ℕ)
    → scan max_threads table c ((c + 1) % max_threads) ≡ some i
    → InTurn table c (some i)
find_after-InTurn-some table c i h =
    let (k, l, e, g, b) = scan-first max_threads table c (c + 1) i h in
    let (r, ne) = eligible-parts _ _ g in
    inl (
      suc k,
      omega arith,
      omega arith,
      omega (arith, e),
      (λ q. true≢false (sym ((==_iff i c).1 q) ∙ ne)),
      r,
      λ j p q. subst (λ x. eligible table c x ≡ false) (shift j p) (b (j - 1) (omega arith)),
    )
  where
    shift : (j : ℕ) → 0 < j → around (c + 1) (j - 1) ≡ around c j
    shift j p = omega arith

find_after-OnlyCurrent :
    (table : List Thread) (c : ℕ)
    → c < max_threads
    → scan max_threads table c ((c + 1) % max_threads) ≡ none
    → OnlyCurrent table c
find_after-OnlyCurrent table c l h j m ne =
    let k = (j + max_threads - c - 1) % max_threads in
    let at : around (c + 1) k ≡ j = omega arith in
    not-eligible _ _
      (subst (λ x. eligible table c x ≡ false) at
        (scan-none max_threads table c (c + 1) k h (omega arith)))
      (==_of_ne j c ne)

alone :
    (table : List Thread) (c : ℕ)
    → OnlyCurrent table c
    → InTurn table c (
        if is_running (get_or table c zero_thread) || is_ready (get_or table c zero_thread)
        then some c
        else none)
alone table c o =
    elim (Bool-cases
      (is_running (get_or table c zero_thread) || is_ready (get_or table c zero_thread))) [
        | inl t ↦ rw t (inr (refl, o, t))
        | inr t ↦ rw t (o, t)
      ]

-- find_next_thread, where the current thread is in the table, chooses the first ready thread after it,
-- going round the table; the current one, if no other is ready and it can go on; none otherwise.
-- Priorities play no part.
pub find_next_thread-InTurn :
    (s : Sched) (c : ℕ)
    → s.current ≡ some c
    → c < max_threads
    → InTurn s.table c (find_next_thread s)
unfolding find_next_thread
find_next_thread-InTurn s c e l =
    rw (e, find_next_thread)
      (elim (Option-cases (scan max_threads s.table c ((c + 1) % max_threads))) [
        | inl t ↦ rw (t, find_after) (alone s.table c (find_after-OnlyCurrent s.table c l t))
        | inr (i, t) ↦ rw (t, find_after) (find_after-InTurn-some s.table c i t)
      ])
