-- ===== src/Devices/Table.antt =====
-- The count of devices and their ids.
use korus_os.Prelude.{
  ℕ, ◌+◌, ◌≤◌, ◌<◌, ◌≡◌, ◌≢◌, refl, ℕ_discrete, true, false, Option, none, some, List, arith, leb,
  add32, u32_mod, Bool-cases, inl, inr, sym, ◌∙◌, subst, ap, length, get_or, modify, find_index,
  count_if, length-modify, get_or-modify_self, get_or-modify_ne, count_if-modify,
  count_if-le-length, Found, find_index-Found, find_index_total,
}
use korus_os.Devices.{
  Device, DeviceType, zero_device, Devices, max_devices, is_active, is_free, new_device,
  register_device,
}

-- A full table, an exact count, and ids below the next one, each used once.
pub record IsValid (s : Devices) : Type 0 where
  pub size : length s.table ≡ max_devices
  pub counted : s.count ≡ count_if is_active s.table
  pub positive : 0 < s.next_id
  pub below :
      (i : ℕ)
      → is_active (get_or s.table i zero_device) ≡ true
      → (get_or s.table i zero_device).id < s.next_id
  pub distinct :
      (i j : ℕ)
      → is_active (get_or s.table i zero_device) ≡ true
      → is_active (get_or s.table j zero_device) ≡ true
      → (get_or s.table i zero_device).id ≡ (get_or s.table j zero_device).id
      → i ≡ j

filled : Devices → ℕ → DeviceType → List ℕ → List ℕ → ℕ → ℕ → Devices
filled s i kind name info base_addr irq = record {
  table = modify s.table i (new_device s.next_id kind name info base_addr irq);
  count = add32 s.count 1;
  next_id = add32 s.next_id 1;
}

-- What register_device comes to: -1 and no change on a full table; else the next id, for one more
-- device.
abbrev pub Registers : Devices → Option ℕ × Devices → Type 0
Registers s (none, s') = (s.count ≡ max_devices) × (s' ≡ s)
Registers s (some id, s') = (id ≡ s.next_id) × (s'.count ≡ s.count + 1) × IsValid s'

filled_self :
    (s : Devices) (i : ℕ) (kind : DeviceType) (name info : List ℕ) (base_addr irq : ℕ)
    → i < length s.table
    → (is_active (get_or (filled s i kind name info base_addr irq).table i zero_device) ≡ true)
      × ((get_or (filled s i kind name info base_addr irq).table i zero_device).id ≡ s.next_id)
unfolding filled new_device
filled_self s i kind name info base_addr irq l =
    let e =
      get_or-modify_self s.table i (new_device s.next_id kind name info base_addr irq) zero_device
        l in
    (ap (λ d. d.active) e, ap (λ d. d.id) e)

filled-other :
    (s : Devices) (i j : ℕ) (kind : DeviceType) (name info : List ℕ) (base_addr irq : ℕ)
    → i ≢ j
    → get_or (filled s i kind name info base_addr irq).table j zero_device
      ≡ get_or s.table j zero_device
unfolding filled
filled-other s i j kind name info base_addr irq ne =
    get_or-modify_ne s.table i j (new_device s.next_id kind name info base_addr irq) zero_device ne

filled-counted :
    (s : Devices) (i : ℕ) (kind : DeviceType) (name info : List ℕ) (base_addr irq : ℕ)
    → IsValid s
    → i < length s.table
    → is_active (get_or s.table i zero_device) ≡ false
    → s.count < max_devices
    → ((filled s i kind name info base_addr irq).count ≡ s.count + 1)
      × ((filled s i kind name info base_addr irq).count
          ≡ count_if is_active (filled s i kind name info base_addr irq).table)
unfolding filled new_device
filled-counted s i kind name info base_addr irq v l free room =
    let grown =
      count_if-modify is_active s.table i (new_device s.next_id kind name info base_addr irq)
        zero_device l in
    let one = one_more s.count (count_if is_active s.table) _ room v.counted (rw (free) at grown) in
    (omega (arith, room), one)
  where
    one_more : (n k k' : ℕ) → n < max_devices → n ≡ k → k' + 0 ≡ k + 1 → add32 n 1 ≡ k'
    one_more n k k' r e h = omega arith

next_up :
    (s : Devices) (i : ℕ) (kind : DeviceType) (name info : List ℕ) (base_addr irq : ℕ)
    → s.next_id + 1 < u32_mod
    → (filled s i kind name info base_addr irq).next_id ≡ s.next_id + 1
unfolding filled
next_up s i kind name info base_addr irq h = omega arith

same_size :
    (s : Devices) (i : ℕ) (kind : DeviceType) (name info : List ℕ) (base_addr irq : ℕ)
    → length (filled s i kind name info base_addr irq).table ≡ length s.table
unfolding filled
same_size s i kind name info base_addr irq =
    length-modify s.table i (new_device s.next_id kind name info base_addr irq)

filled-IsValid :
    (s : Devices) (i : ℕ) (kind : DeviceType) (name info : List ℕ) (base_addr irq : ℕ)
    → IsValid s
    → i < length s.table
    → is_active (get_or s.table i zero_device) ≡ false
    → s.count < max_devices
    → s.next_id + 1 < u32_mod
    → IsValid (filled s i kind name info base_addr irq)
filled-IsValid s i kind name info base_addr irq v l free room more =
    let s' = filled s i kind name info base_addr irq in
    let (on, new) = filled_self s i kind name info base_addr irq l in
    let up : (s').next_id ≡ s.next_id + 1 = next_up s i kind name info base_addr irq more in
    let old : (j : ℕ) → i ≢ j → get_or s'.table j zero_device ≡ get_or s.table j zero_device =
      λ j ne. filled-other s i j kind name info base_addr irq ne in
    record {
      size = same_size s i kind name info base_addr irq ∙ v.size;
      counted = (filled-counted s i kind name info base_addr irq v l free room).1;
      positive = omega (arith, up);
      below = λ j a. elim (ℕ_discrete i j) [
        | yes e ↦ rw (← e) (omega (arith, new, up))
        | no ne ↦ omega (arith, up, ap (λ d. d.id) (old j ne), v.below j (rw (old j ne) at a))
      ];
      distinct = λ j k a b e. elim (ℕ_discrete i j) [
        | yes p ↦ elim (ℕ_discrete i k) [
          | yes q ↦ sym p ∙ q
          | no q ↦ absurd (
              omega (
                arith,
                e,
                subst (λ x. (get_or s'.table x zero_device).id ≡ s.next_id) p new,
                ap (λ d. d.id) (old k q),
                v.below k (rw (old k q) at b),
              ))
        ]
        | no p ↦ elim (ℕ_discrete i k) [
          | yes q ↦ absurd (
              omega (
                arith,
                e,
                subst (λ x. (get_or s'.table x zero_device).id ≡ s.next_id) q new,
                ap (λ d. d.id) (old j p),
                v.below j (rw (old j p) at a),
              ))
          | no q ↦
              v.distinct j k (rw (old j p) at a) (rw (old k q) at b) (rw (old j p, old k q) at e)
        ]
      ];
    }

register_device-full :
    (s : Devices) (kind : DeviceType) (name info : List ℕ) (base_addr irq : ℕ)
    → leb max_devices s.count ≡ true
    → register_device s kind name info base_addr irq ≡ (none, s)
unfolding register_device
register_device-full s kind name info base_addr irq e = rw (e, register_device)

register_device-room :
    (s : Devices) (kind : DeviceType) (name info : List ℕ) (base_addr irq i : ℕ)
    → leb max_devices s.count ≡ false
    → find_index is_free s.table ≡ some i
    → register_device s kind name info base_addr irq
      ≡ (some s.next_id, filled s i kind name info base_addr irq)
unfolding register_device filled
register_device-room s kind name info base_addr irq i e f = rw (e, register_device, f)

room_left : (n : ℕ) → leb max_devices n ≡ false → n < max_devices
room_left n e = ground arith

count_full : (n : ℕ) → n ≤ max_devices → leb max_devices n ≡ true → n ≡ max_devices
count_full n l e = ground arith

not-free : (d : Device) → is_free d ≡ false → is_active d ≡ true
not-free d h = ground arith

not-active : (d : Device) → is_free d ≡ true → is_active d ≡ false
not-active d h = ground arith

-- register_device on a valid table, with ids left: with 64 devices it returns -1 and changes
-- nothing; with fewer it returns the next id, the count grows by one, and the table stays valid: 64
-- slots, an exact count, all ids below the next one and different from each other.
pub register_device-Registers :
    (s : Devices) (kind : DeviceType) (name info : List ℕ) (base_addr irq : ℕ)
    → IsValid s
    → s.next_id + 1 < u32_mod
    → Registers s (register_device s kind name info base_addr irq)
register_device-Registers s kind name info base_addr irq v more =
    elim (Bool-cases (leb max_devices s.count)) [
      | inl e ↦ rw (register_device-full s kind name info base_addr irq e) (
        count_full s.count (omega (arith, v.counted, v.size, count_if-le-length is_active s.table))
            e,
        refl,
      )
      | inr e ↦
          let room = room_left s.count e in
          let (i, h) =
            find_index_total is_free is_active s.table not-free
              (omega (arith, room, v.counted, v.size)) in
          let f : Found is_free s.table i zero_device =
            find_index-Found is_free s.table i zero_device h in
          let free = not-active (get_or s.table i zero_device) f.passes in
          rw (register_device-room s kind name info base_addr irq i e h) (
            refl,
            (filled-counted s i kind name info base_addr irq v f.inside free room).0,
            filled-IsValid s i kind name info base_addr irq v f.inside free room more,
          )
    ]
