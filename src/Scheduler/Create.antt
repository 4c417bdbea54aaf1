-- ===== src/Scheduler/Create.antt =====
-- create_thread: the thread that it makes, and the memory of its stack.
use korus_os.Prelude.{
  ℕ, zero, suc, ◌≤◌, ◌<◌, ◌≡◌, ◌≢◌, refl, ℕ_discrete, true, Option, none, some, List, [], ◌∷◌,
  arith, leb, ◌==◌, ==_of_ne, add32, Bool-cases, Option-cases, inl, inr, ◌⊎◌, sym, ◌∙◌, subst, ap,
  length, get_or, modify, get_or-modify_self, get_or-modify_ne, Found, Returns,
}
use korus_os.Memory.Heap.{Headers, heap_start, heap_max_size}
use korus_os.Memory.Heap.Chain.{Block, Chain, start, total}
use korus_os.Memory.Heap.Linked.{IsLinked}
use korus_os.Memory.Heap.Live.{Fresh, kmalloc-Fresh}
use korus_os.Memory.Store.{Store, kmalloc}
use korus_os.Memory.Store.Linked.{Linked}
use korus_os.Scheduler.{create_thread, fill_slot, new_thread, clamp_priority}
use korus_os.Scheduler.Table.{
  Sched, Thread, ThreadState, zero_thread, thread_at, is_empty, max_threads, thread_stack_size,
  find_free_slot,
}
use korus_os.Scheduler.Reach.{refused, placed, find_free_slot-Found}

-- The stack comes from the heap.
stack_Fresh : (c : Headers) (v : IsLinked c) → Fresh c thread_stack_size v.blocks
stack_Fresh c v = go v.blocks v.chain v.first (omega (arith, v.room))
  where
    go :
        (bs : List Block)
        → Chain c heap_start bs
        → start heap_start bs ≡ heap_start
        → total bs ≤ heap_max_size
        → Fresh c thread_stack_size bs
    go [] w f l = absurd (omega arith)
    go (b ∷ bs) w f l = kmalloc-Fresh c thread_stack_size b bs w l (omega arith) (omega arith)

-- The priority nearest to `p` from 1 to 10.
abbrev pub Clamped : ℕ → ℕ → Type 0
Clamped p q = ((1 ≤ p) × (p ≤ 10) × (q ≡ p)) ⊎ ((p < 1) × (q ≡ 1)) ⊎ ((10 < p) × (q ≡ 10))

-- A thread that is ready to run, in a slot that was empty: with the next id, the entry function in its
-- context, a priority from 1 to 10, and a stack that the heap handed out; all other slots as they were.
pub record Made (s : Sched) (m : Store) (v : Linked m) (entry priority i : ℕ) (s' : Sched)
    (m' : Store) : Type 0 where
  pub was_empty : is_empty (thread_at s i) ≡ true
  pub id : (thread_at s' i).id ≡ s.next_id
  pub ready : (thread_at s' i).state ≡ ThreadState.ready
  pub eip : (thread_at s' i).context.eip ≡ entry
  pub clamped : Clamped priority (thread_at s' i).priority
  pub others : (j : ℕ) → j ≢ i → thread_at s' j ≡ thread_at s j
  pub current : s'.current ≡ s.current
  pub fresh : Fresh m.headers thread_stack_size v.blocks
  pub stack : (thread_at s' i).stack ≡ fresh.0
  pub not_null : fresh.0 ≢ 0
  pub heap : m'.headers ≡ fresh.1

-- What create_thread comes to: -1, with the ids, the count and all threads but for a NULL stack as they
-- were; or the id of a new thread.
abbrev pub Creates : (s : Sched) (m : Store) → Linked m → ℕ → ℕ → Option ℕ × Sched × Store → Type 0
Creates s m v entry priority (none, s', m') =
    (s'.next_id ≡ s.next_id)
    × (s'.count ≡ s.count)
    × ((j : ℕ) → (thread_at s' j).state ≡ (thread_at s j).state)
Creates s m v entry priority (some id, s', m') =
    (id ≡ s.next_id) × ((i : ℕ) × Made s m v entry priority i s' m')

clamp_priority-Clamped : (p : ℕ) → Clamped p (clamp_priority p)
unfolding clamp_priority
clamp_priority-Clamped p = ground arith

new_thread-fields :
    (id stack : ℕ) (name : Option (List ℕ)) (entry priority : ℕ) (t : Thread)
    → let n = new_thread id stack name entry priority t in
      (n.id ≡ id)
      × (n.state ≡ ThreadState.ready)
      × (n.context.eip ≡ entry)
      × (n.priority ≡ clamp_priority priority)
      × (n.stack ≡ stack)
unfolding new_thread
new_thread-fields id stack name entry priority t = (refl, refl, refl, refl, refl)

state-modify :
    (xs : List Thread) (i j : ℕ)
    → (get_or (modify xs i (λ t. record t { stack = 0 })) j zero_thread).state
      ≡ (get_or xs j zero_thread).state
state-modify [] i j = refl
state-modify (x ∷ xs) zero zero = refl
state-modify (x ∷ xs) zero (suc j) = refl
state-modify (x ∷ xs) (suc i) zero = refl
state-modify (x ∷ xs) (suc i) (suc j) = state-modify xs i j

filled-Made :
    (s : Sched) (m m' : Store) (v : Linked m) (name : Option (List ℕ)) (entry priority i : ℕ)
    (f : Fresh m.headers thread_stack_size v.blocks)
    → i < length s.table
    → is_empty (thread_at s i) ≡ true
    → f.0 ≢ 0
    → m'.headers ≡ f.1
    → Made s m v entry priority i
        (record s {
          table = modify s.table i (new_thread s.next_id f.0 name entry priority);
          next_id = add32 s.next_id 1;
          count = add32 s.count 1;
        })
        m'
filled-Made s m m' v name entry priority i f l free live h =
    let g = new_thread s.next_id f.0 name entry priority in
    let w : get_or (modify s.table i g) i zero_thread ≡ g (thread_at s i) =
      get_or-modify_self s.table i g zero_thread l in
    let (a, b, c, d, e) = new_thread-fields s.next_id f.0 name entry priority (thread_at s i) in
    let p : (get_or (modify s.table i g) i zero_thread).priority ≡ clamp_priority priority =
      ap (λ t. t.priority) w ∙ d in
    record {
      was_empty = free;
      id = ap (λ t. t.id) w ∙ a;
      ready = ap (λ t. t.state) w ∙ b;
      eip = ap (λ t. t.context.eip) w ∙ c;
      clamped = subst (Clamped priority) (sym p) (clamp_priority-Clamped priority);
      others = λ j ne. get_or-modify_ne s.table i j g zero_thread (λ q. ne (sym q));
      current = refl;
      fresh = f;
      stack = ap (λ t. t.stack) w ∙ e;
      not_null = live;
      heap = h;
    }

fill_slot-Creates :
    (s : Sched) (m : Store) (v : Linked m) (name : Option (List ℕ)) (entry priority i : ℕ)
    → i < length s.table
    → is_empty (thread_at s i) ≡ true
    → Returns (Creates s m v entry priority) (fill_slot s m i name entry priority)
unfolding fill_slot
fill_slot-Creates s m v name entry priority i l free =
    let f = stack_Fresh m.headers v in
    let m1 : Store = record m { headers = f.1 } in
    let e : kmalloc m thread_stack_size ≡ some (f.0, m1) =
      ap
        (λ o. elim o as (λ x. Option (ℕ × Store)) [
          | none ↦ none
          | some (ptr, h) ↦ some (ptr, record m { headers = h })
        ])
        f.3 in
    elim (ℕ_discrete f.0 0) [
      | yes z ↦
          let e0 : (f.0 == 0) ≡ true = ap (λ x. x == 0) z in
          rw (e, fill_slot, e0) (refl, refl, λ j. state-modify s.table i j)
      | no live ↦
          rw (e, fill_slot, ==_of_ne f.0 0 live)
            (refl, (i, filled-Made s m _ v name entry priority i f l free live refl))
    ]

-- create_thread, over a linked heap and a full table of 64 slots, returns. The result is -1, with the
-- next id, the count and the state of every thread as they were; or the next id, now that of a thread in
-- a slot that was empty: ready to run from the entry function, with the priority
-- from 1 to 10 nearest to the one asked for, and a stack of 8192 bytes that kmalloc handed out fresh, apart
-- from every block in use. All other threads and the current one are as they were.
pub create_thread-Creates :
    (s : Sched) (m : Store) (v : Linked m) (name : Option (List ℕ)) (entry priority : ℕ)
    → length s.table ≡ max_threads
    → Returns (Creates s m v entry priority) (create_thread s m name entry priority)
create_thread-Creates s m v name entry priority full =
    let P = Returns (Creates s m v entry priority) in
    let stays : (leb max_threads s.count ≡ true)
          ⊎ ((entry == 0) ≡ true)
          ⊎ (find_free_slot s.table ≡ none)
        → P (create_thread s m name entry priority) =
      λ h. subst P (sym (refused s m name entry priority h)) (refl, refl, λ j. refl) in
    elim (Bool-cases (leb max_threads s.count)) [
      | inl e ↦ stays (inl e)
      | inr e ↦ elim (Bool-cases (entry == 0)) [
        | inl z ↦ stays (inr (inl z))
        | inr z ↦ elim (Option-cases (find_free_slot s.table)) [
          | inl n ↦ stays (inr (inr n))
          | inr (i, k) ↦
              let f : Found is_empty s.table i zero_thread = find_free_slot-Found s.table i k in
              subst P (sym (placed s m name entry priority i e z k))
                (fill_slot-Creates s m v name entry priority i f.inside f.passes)
        ]
      ]
    ]
