-- ===== src/Scheduler/Safety.antt =====
-- The scheduler together with the heap that the stacks come from: create_thread returns and keeps both
-- valid.
use korus_os.Prelude.{
  ℕ, ◌≡◌, true, Option, none, List, leb, ◌==◌, Bool-cases, Option-cases, inl, inr, ◌⊎◌, sym, subst,
  Returns, Returns-inv,
}
use korus_os.Memory.Store.{Store}
use korus_os.Memory.Store.Linked.{Linked, kmalloc-Linked}
use korus_os.Scheduler.{create_thread, fill_slot}
use korus_os.Scheduler.Table.{Sched, max_threads, thread_stack_size, find_free_slot}
use korus_os.Scheduler.Invariant.{IsValid}
use korus_os.Scheduler.Calls.{IsLive}
use korus_os.Scheduler.Reach.{create_thread-Keeps, refused, placed}

-- The table valid, and the current thread, if there is one, in use.
pub record IsSound (s : Sched) : Type 0 where
  pub valid : IsValid s
  pub live : IsLive s

-- A new thread's id, the scheduler and the store after create_thread.
abbrev pub Created : Option ℕ × Sched × Store → Type 0
Created r = IsSound r.1 × Linked r.2

abbrev LinkedAfter : Option ℕ × Sched × Store → Type 0
LinkedAfter r = Linked r.2

fill_slot-Linked :
    (s : Sched) (m : Store) (slot : ℕ) (name : Option (List ℕ)) (entry priority : ℕ)
    → Linked m
    → Returns LinkedAfter (fill_slot s m slot name entry priority)
unfolding fill_slot
fill_slot-Linked s m slot name entry priority v =
    let (stack, m', e, w) = kmalloc-Linked m thread_stack_size v in
    elim (Bool-cases (stack == 0)) [
      | inl z ↦ rw (e, fill_slot, z) w
      | inr z ↦ rw (e, fill_slot, z) w
    ]

create_thread-Linked :
    (s : Sched) (m : Store) (name : Option (List ℕ)) (entry priority : ℕ)
    → Linked m
    → Returns LinkedAfter (create_thread s m name entry priority)
create_thread-Linked s m name entry priority v =
    let stays : (leb max_threads s.count ≡ true)
          ⊎ ((entry == 0) ≡ true)
          ⊎ (find_free_slot s.table ≡ none)
        → Returns LinkedAfter (create_thread s m name entry priority) =
      λ h. subst (Returns LinkedAfter) (sym (refused s m name entry priority h)) v in
    elim (Bool-cases (leb max_threads s.count)) [
      | inl e ↦ stays (inl e)
      | inr e ↦ elim (Bool-cases (entry == 0)) [
        | inl z ↦ stays (inr (inl z))
        | inr z ↦ elim (Option-cases (find_free_slot s.table)) [
          | inl n ↦ stays (inr (inr n))
          | inr (i, k) ↦
              subst (Returns LinkedAfter) (sym (placed s m name entry priority i e z k))
                (fill_slot-Linked s m i name entry priority v)
        ]
      ]
    ]

-- create_thread returns, with memory or without, and keeps the scheduler and the heap sound.
pub create_thread-Created :
    (s : Sched) (m : Store) (name : Option (List ℕ)) (entry priority : ℕ)
    → IsSound s
    → Linked m
    → Returns Created (create_thread s m name entry priority)
create_thread-Created s m name entry priority v w =
    let ((r, s', m'), e, l) =
      Returns-inv LinkedAfter (create_thread s m name entry priority)
        (create_thread-Linked s m name entry priority w) in
    let (a, b) = create_thread-Keeps s m name entry priority v.valid v.live r s' m' e in
    subst (Returns Created) (sym e) (record { valid = a; live = b }, l)
