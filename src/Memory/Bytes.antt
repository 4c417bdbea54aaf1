-- ===== src/Memory/Bytes.antt =====
-- kmemset and kmemcpy of core/kernel/memory.c, over a memory of bytes.
-- The loops run `size` times, so they recur on it. Addresses are numbers that do not wrap: no
-- object of the kernel reaches the end of the address space.
use korus_os.Prelude.{
  ℕ, zero, suc, ◌+◌, ◌-◌, ◌%◌, ◌≤◌, ◌≡◌, ◌⊎◌, Bool, ◌&&◌, arith, ltb, leb, if◌then◌else◌, update,
}

abbrev pub Bytes : Type 0
Bytes = ℕ → ℕ

-- `while (size--) *p++ = (u8)value;`
pub kmemset : Bytes → ℕ → ℕ → ℕ → Bytes
kmemset m ptr value zero = m
kmemset m ptr value (suc size) = kmemset (update m ptr (value % 256)) (ptr + 1) value size

-- `while (size--) *d++ = *s++;`
pub kmemcpy : Bytes → ℕ → ℕ → ℕ → Bytes
kmemcpy m dest src zero = m
kmemcpy m dest src (suc size) = kmemcpy (update m dest (m src)) (dest + 1) (src + 1) size

-- The range `[ptr, ptr + size)`.
abbrev pub in_range : ℕ → ℕ → ℕ → Bool
in_range ptr size a = leb ptr a && ltb a (ptr + size)

-- kmemset writes the low byte of the value over its range, and nothing else.
pub kmemset_lem :
    (m : Bytes) (ptr value size a : ℕ)
    → kmemset m ptr value size a ≡ (if in_range ptr size a then value % 256 else m a)
unfolding kmemset
kmemset_lem m ptr value zero a = ground arith
kmemset_lem m ptr value (suc size) a =
    ground (arith, kmemset_lem (update m ptr (value % 256)) (ptr + 1) value size a)

-- A copy towards lower addresses, or between ranges that do not meet, leaves the source's bytes of
-- before the call in its destination, and no other byte changes.
pub kmemcpy_lem :
    (m : Bytes) (dest src size a : ℕ)
    → (dest ≤ src) ⊎ (src + size ≤ dest)
    → kmemcpy m dest src size a ≡ (if in_range dest size a then m (src + (a - dest)) else m a)
unfolding kmemcpy
kmemcpy_lem m dest src zero a h = ground arith
kmemcpy_lem m dest src (suc size) a h =
    ground (arith, kmemcpy_lem (update m dest (m src)) (dest + 1) (src + 1) size a)
