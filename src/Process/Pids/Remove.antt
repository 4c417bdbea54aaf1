-- ===== src/Process/Pids/Remove.antt =====
-- terminate_process takes a pid away, and no other.
use korus_os.Prelude.{
  ℕ, ◌<◌, ◌≡◌, ◌≢◌, refl, false, none, some, List, [], ◌∷◌, zero, suc, Option-cases, inl, inr,
  subst, sym, ap, find_index-Found, Found, ◌∙◌, get_or, modify, length, length-modify,
  get_or-modify_self, get_or-modify_ne, arith, none≢some,
}
use mathlib.Core.Bool.{true≢false}
use korus_os.Process.{
  Process, Procs, zero_process, is_empty, process_at, end_process, terminate_process, has_pid,
  get_process_by_pid,
}
use korus_os.Process.Pids.{IsNumbered}
use korus_os.Process.Pids.Find.{has_pid-pid, get_process_by_pid-finds, get_process_by_pid-none}

-- The slot that is found for a pid, ended.
ended :
    (s : Procs) (pid exit_code i : ℕ)
    → get_process_by_pid s pid ≡ some i
    → ((terminate_process s pid exit_code).table ≡ modify s.table i (end_process exit_code))
      × ((terminate_process s pid exit_code).next_pid ≡ s.next_pid)
unfolding terminate_process get_process_by_pid
ended s pid exit_code i e = (rw (e, terminate_process) refl, rw (e, terminate_process) refl)

unknown :
    (s : Procs) (pid exit_code : ℕ)
    → get_process_by_pid s pid ≡ none
    → terminate_process s pid exit_code ≡ s
unfolding terminate_process get_process_by_pid
unknown s pid exit_code e = rw (e, terminate_process) refl

get_process_by_pid-Found :
    (s : Procs) (pid i : ℕ)
    → get_process_by_pid s pid ≡ some i
    → (i < length s.table) × ((process_at s i).pid ≡ pid) × (is_empty (process_at s i) ≡ false)
unfolding get_process_by_pid
get_process_by_pid-Found s pid i e =
    let r : Found (has_pid pid) s.table i zero_process =
      find_index-Found (has_pid pid) s.table i zero_process e in
    let (a, b) = has_pid-pid pid (process_at s i) r.passes in (r.inside, a, b)

-- What terminate_process leaves: the pid names no process any more, every other pid names what it did.
abbrev pub Removed : Procs → ℕ → Procs → Type 0
Removed s pid s' =
    IsNumbered s'
    × (get_process_by_pid s' pid ≡ none)
    × ((other : ℕ) → other ≢ pid → get_process_by_pid s' other ≡ get_process_by_pid s other)

used_inside :
    (xs : List Process) (j : ℕ) → is_empty (get_or xs j zero_process) ≡ false → j < length xs
used_inside [] j f = absurd (true≢false f)
used_inside (x ∷ xs) zero f = omega arith
used_inside (x ∷ xs) (suc j) f = omega (arith, used_inside xs j f)

module _ (s s' : Procs) (pid i exit_code : ℕ) (v : IsNumbered s)
    (e : get_process_by_pid s pid ≡ some i)
    (t : s'.table ≡ modify s.table i (end_process exit_code)) (n : s'.next_pid ≡ s.next_pid) where
  at_slot : process_at s' i ≡ end_process exit_code (process_at s i)
  at_slot =
      ap (λ xs. get_or xs i zero_process) t
      ∙ get_or-modify_self s.table i (end_process exit_code) zero_process
          (get_process_by_pid-Found s pid i e).0

  elsewhere : (j : ℕ) → j ≢ i → process_at s' j ≡ process_at s j
  elsewhere j ne =
      ap (λ xs. get_or xs j zero_process) t
      ∙ get_or-modify_ne s.table i j (end_process exit_code) zero_process (λ q. ne (sym q))

  still_used : (j : ℕ) → is_empty (process_at s' j) ≡ false → j ≢ i
  still_used j f q =
      true≢false (sym (ap is_empty at_slot) ∙ subst (λ x. is_empty (process_at s' x) ≡ false) q f)

  was_used :
      (j : ℕ)
      → is_empty (process_at s' j) ≡ false
      → (is_empty (process_at s j) ≡ false) × ((process_at s' j).pid ≡ (process_at s j).pid)
  was_used j f =
      let same = elsewhere j (still_used j f) in (ap is_empty (sym same) ∙ f, ap (λ p. p.pid) same)

  ended-IsNumbered : IsNumbered s'
  ended-IsNumbered = record {
    below = λ j f. omega (arith, (was_used j f).1, v.below j (was_used j f).0, n);
    distinct = λ j k f g q.
        v.distinct j k (was_used j f).0 (was_used k g).0
          (sym (was_used j f).1 ∙ q ∙ (was_used k g).1);
  }

  ended-none : get_process_by_pid s' pid ≡ none
  ended-none = get_process_by_pid-none s' pid (λ j f q.
      let (a, b, c) = get_process_by_pid-Found s pid i e in
      still_used j f (v.distinct j i (was_used j f).0 c (sym (was_used j f).1 ∙ q ∙ sym b)))

  ended-others :
      (other : ℕ) → other ≢ pid → get_process_by_pid s' other ≡ get_process_by_pid s other
  ended-others other ne = elim (Option-cases (get_process_by_pid s other)) [
    | inl z ↦
        get_process_by_pid-none s' other (λ j f q. none≢some j (
          sym z
          ∙ get_process_by_pid-finds s other j v (inside_of j (was_used j f).0)
              (sym (was_used j f).1 ∙ q) (was_used j f).0))
        ∙ sym z
    | inr (j, z) ↦
        let (a, b, c) = get_process_by_pid-Found s other j z in
        let apart : j ≢ i = λ q.
          ne (sym b ∙ ap (λ x. (process_at s x).pid) q ∙ (get_process_by_pid-Found s pid i e).1) in
        get_process_by_pid-finds s' other j ended-IsNumbered
          (omega (arith, a, ap length t, length-modify s.table i (end_process exit_code)))
          (ap (λ p. p.pid) (elsewhere j apart) ∙ b) (ap is_empty (elsewhere j apart) ∙ c)
        ∙ sym z
  ]
    where
      inside_of : (j : ℕ) → is_empty (process_at s j) ≡ false → j < length s.table
      inside_of j f = used_inside s.table j f

-- terminate_process, on a table whose pids are in order: the pid names no process any more, every
-- other pid names the same slot as before, and the pids are still in order. An unknown pid included.
pub terminate_process-Removed :
    (s : Procs) (pid exit_code : ℕ)
    → IsNumbered s
    → Removed s pid (terminate_process s pid exit_code)
terminate_process-Removed s pid exit_code v = elim (Option-cases (get_process_by_pid s pid)) [
  | inl z ↦ subst (Removed s pid) (sym (unknown s pid exit_code z)) (v, z, λ other ne. refl)
  | inr (i, e) ↦
      let s' = terminate_process s pid exit_code in
      let (t, n) = ended s pid exit_code i e in
      (
        ended-IsNumbered s s' pid i exit_code v e t n,
        ended-none s s' pid i exit_code v e t n,
        ended-others s s' pid i exit_code v e t n,
      )
]
