-- ===== src/Keyboard/Ring.antt =====
-- The ring buffer of the keyboard as a queue of at most 255 characters.
use korus_os.Prelude.{
  ℕ, zero, suc, ◌+◌, ◌-◌, ◌%◌, ◌<◌, ◌≡◌, ◌≢◌, refl, ℕ_discrete, true, false, List, [], ◌∷◌, ◌++◌,
  arith, ltb, if◌then◌else◌, update, ◌∙◌, ==_of_ne, ==-self, ap, lt→ltb, length,
}
use korus_os.Keyboard.{Keyboard, kb_buffer_size, kb_buffer_push, kb_buffer_pop}

-- `n` characters of the ring, from `t` on.
abbrev pub slice : (ℕ → ℕ) → ℕ → ℕ → List ℕ
slice b t zero = []
slice b t (suc n) = b t ∷ slice b ((t + 1) % kb_buffer_size) n

abbrev pub queued : Keyboard → ℕ
queued k = (k.head + kb_buffer_size - k.tail) % kb_buffer_size

-- The abstract queue, the oldest character first.
abbrev pub contents : Keyboard → List ℕ
contents k = slice k.buffer k.tail (queued k)

pub record InRing (k : Keyboard) : Type 0 where
  pub head_in : k.head < kb_buffer_size
  pub tail_in : k.tail < kb_buffer_size

slice-update_end :
    (b : ℕ → ℕ) (t n c : ℕ)
    → t < kb_buffer_size
    → n < kb_buffer_size
    → slice (update b ((t + n) % kb_buffer_size) c) t n ≡ slice b t n
slice-update_end b t zero c l m = refl
slice-update_end b t (suc n) c l m =
    let ne : t ≢ (t + suc n) % kb_buffer_size = omega arith in
    let e : ((t + 1) % kb_buffer_size + n) % kb_buffer_size ≡ (t + suc n) % kb_buffer_size =
      omega arith in
    let ih = slice-update_end b ((t + 1) % kb_buffer_size) n c (omega arith) (omega arith) in
    let h : update b ((t + suc n) % kb_buffer_size) c t ≡ b t =
      ground (arith, ==_of_ne t ((t + suc n) % kb_buffer_size) ne) in
    rw h (ap (λ x. b t ∷ x) (rw e at ih))

slice-snoc :
    (b : ℕ → ℕ) (t n : ℕ)
    → t < kb_buffer_size
    → slice b t (suc n) ≡ slice b t n ++ (b ((t + n) % kb_buffer_size) ∷ [])
slice-snoc b t zero l = let e : (t + 0) % kb_buffer_size ≡ t = omega arith in rw e
slice-snoc b t (suc n) l =
    let e : ((t + 1) % kb_buffer_size + n) % kb_buffer_size ≡ (t + suc n) % kb_buffer_size =
      omega arith in
    let ih = slice-snoc b ((t + 1) % kb_buffer_size) n (omega arith) in
    ap (λ x. b t ∷ x) (rw e at ih)

length-slice : (b : ℕ → ℕ) (t n : ℕ) → length (slice b t n) ≡ n
length-slice b t zero = refl
length-slice b t (suc n) = ap suc (length-slice b ((t + 1) % kb_buffer_size) n)

pushed : Keyboard → ℕ → Keyboard
pushed k c = record k { buffer = update k.buffer k.head c; head = (k.head + 1) % kb_buffer_size }

kb_buffer_push-full :
    (k : Keyboard) (c : ℕ) → (k.head + 1) % kb_buffer_size ≡ k.tail → kb_buffer_push k c ≡ k
unfolding kb_buffer_push
kb_buffer_push-full k c e = ground (arith, ==-self k.tail)

kb_buffer_push-room :
    (k : Keyboard) (c : ℕ)
    → (k.head + 1) % kb_buffer_size ≢ k.tail
    → kb_buffer_push k c ≡ pushed k c
unfolding kb_buffer_push pushed
kb_buffer_push-room k c ne = ground (arith, ==_of_ne ((k.head + 1) % kb_buffer_size) k.tail ne)

contents-pushed :
    (k : Keyboard) (c : ℕ)
    → InRing k
    → (k.head + 1) % kb_buffer_size ≢ k.tail
    → contents (pushed k c) ≡ contents k ++ (c ∷ [])
unfolding pushed
contents-pushed k c v ne =
    let l = v.head_in in
    let m = v.tail_in in
    let grown : queued (pushed k c) ≡ suc (queued k) = omega arith in
    let spot : (k.tail + queued k) % kb_buffer_size ≡ k.head = omega arith in
    let less : queued k < kb_buffer_size = omega arith in
    let old = slice-update_end k.buffer k.tail (queued k) c m less in
    let new = slice-snoc (update k.buffer k.head c) k.tail (queued k) m in
    let here : update k.buffer k.head c k.head ≡ c = ground (arith, ==-self k.head) in
    rw (grown) (new ∙ simp (spot, rw spot at old, here))

pushed-InRing : (k : Keyboard) (c : ℕ) → InRing k → InRing (pushed k c)
unfolding pushed
pushed-InRing k c v = record { head_in = omega arith; tail_in = v.tail_in }

-- kb_buffer_push adds the character at the end of the queue, or drops it where the queue has 255.
-- The ring's indices stay in range.
pub kb_buffer_push-Queue :
    (k : Keyboard) (c : ℕ)
    → InRing k
    → InRing (kb_buffer_push k c)
      × (contents (kb_buffer_push k c)
          ≡ (if ltb (length (contents k)) 255 then contents k ++ (c ∷ []) else contents k))
kb_buffer_push-Queue k c v = elim (ℕ_discrete ((k.head + 1) % kb_buffer_size) k.tail) [
  | yes e ↦
      let q : queued k ≡ 255 = omega (arith, v.head_in, v.tail_in) in
      let full : ltb (length (contents k)) 255 ≡ false =
        rw (length-slice k.buffer k.tail (queued k), q) refl in
      rw (kb_buffer_push-full k c e, full) (v, refl)
  | no ne ↦
      let q : queued k < 255 = omega (arith, v.head_in, v.tail_in) in
      let room : ltb (length (contents k)) 255 ≡ true =
        rw (length-slice k.buffer k.tail (queued k)) (lt→ltb (queued k) 255 q) in
      rw (kb_buffer_push-room k c ne, room) (pushed-InRing k c v, contents-pushed k c v ne)
]

-- What kb_buffer_pop returns and leaves, for each state of the queue.
abbrev pub Pops : Keyboard → List ℕ → ℕ × Keyboard → Type 0
Pops k [] (r, k') = (r ≡ 0) × (k' ≡ k)
Pops k (c ∷ cs) (r, k') = (r ≡ c) × (contents k' ≡ cs) × InRing k'

popped : Keyboard → Keyboard
popped k = record k { tail = (k.tail + 1) % kb_buffer_size }

kb_buffer_pop-empty : (k : Keyboard) → k.head ≡ k.tail → kb_buffer_pop k ≡ (0, k)
unfolding kb_buffer_pop
kb_buffer_pop-empty k e = ground (arith, ==-self k.tail)

kb_buffer_pop-taken :
    (k : Keyboard) → k.head ≢ k.tail → kb_buffer_pop k ≡ (k.buffer k.tail, popped k)
unfolding kb_buffer_pop popped
kb_buffer_pop-taken k ne = ground (arith, ==_of_ne k.head k.tail ne)

contents-popped :
    (k : Keyboard) → InRing k → k.head ≢ k.tail → contents k ≡ k.buffer k.tail ∷ contents (popped k)
unfolding popped
contents-popped k v ne =
    let l = v.head_in in
    let m = v.tail_in in let one : queued k ≡ suc (queued (popped k)) = omega arith in rw one

popped-InRing : (k : Keyboard) → InRing k → InRing (popped k)
unfolding popped
popped-InRing k v = record { head_in = v.head_in; tail_in = omega arith }

-- kb_buffer_pop takes the oldest character off the queue; on an empty queue it returns 0 and changes
-- nothing.
pub kb_buffer_pop-Pops : (k : Keyboard) → InRing k → Pops k (contents k) (kb_buffer_pop k)
kb_buffer_pop-Pops k v = elim (ℕ_discrete k.head k.tail) [
  | yes e ↦
      let z : queued k ≡ 0 = omega (arith, v.tail_in) in
      rw (kb_buffer_pop-empty k e, z) (refl, refl)
  | no ne ↦ rw (kb_buffer_pop-taken k ne, contents-popped k v ne) (refl, refl, popped-InRing k v)
]
