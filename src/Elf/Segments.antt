-- ===== src/Elf/Segments.antt =====
-- The bytes of a loaded segment, and the end of the loop over the segments.
use korus_os.Prelude.{
  ℕ, zero, suc, ◌+◌, ◌-◌, ◌≤◌, ◌<◌, ◌≡◌, refl, Bool, true, false, Option, none, some, Option-cases,
  arith, ltb, if◌then◌else◌, add32, u32_mod, Bool-cases, inl, inr, ◌⊎◌, sym, ◌∙◌, subst, ltb_of_le,
}
use korus_os.Memory.Bytes.{Bytes, in_range, kmemset_lem, kmemcpy_lem}
use korus_os.Elf.{Space, copy_file, clear_bss, load_segment, segments_from, bytes_of_space}
use korus_os.Elf.Format.{
  load16, load32, p_offset, p_vaddr, p_filesz, p_memsz, elf_get_phdr, e_phnum,
}

-- Two memories with the same bytes from `a` to `a + n`.
abbrev Agree : ℕ → Bytes → Bytes → ℕ → Type 0
Agree n m m' a = (k : ℕ) → k < n → m' (a + k) ≡ m (a + k)

load32-Agree : (m m' : Bytes) (a : ℕ) → Agree 4 m m' a → load32 m' a ≡ load32 m a
unfolding load32
load32-Agree m m' a h =
    let b : m' a ≡ m a = subst (λ x. m' x ≡ m x) (omega arith) (h 0 (omega arith)) in
    let c = h 1 (omega arith) in
    let d = h 2 (omega arith) in let e = h 3 (omega arith) in rw (b, c, d, e)

-- What a segment's header must satisfy for its bytes to be loaded as the file has them: the file's
-- part is no larger than the segment, neither range wraps, the segment does not cover its own
-- header, and the source is not overwritten before it is read.
pub record Loadable (m : Bytes) (image phdr : ℕ) : Type 0 where
  pub in_memory : p_filesz m phdr ≤ p_memsz m phdr
  pub no_wrap : p_vaddr m phdr + p_memsz m phdr < u32_mod
  pub header_apart : (phdr + 32 ≤ p_vaddr m phdr) ⊎ (p_vaddr m phdr + p_memsz m phdr ≤ phdr)
  pub source_apart :
      (p_vaddr m phdr ≤ add32 image (p_offset m phdr))
      ⊎ (add32 image (p_offset m phdr) + p_filesz m phdr ≤ p_vaddr m phdr)

module _ (m : Bytes) (image phdr : ℕ) (l : Loadable m image phdr) where
  copied :
      (a : ℕ)
      → copy_file m image phdr a ≡ (
          if in_range (p_vaddr m phdr) (p_filesz m phdr) a
          then m (add32 image (p_offset m phdr) + (a - p_vaddr m phdr))
          else m a)
  unfolding copy_file
  copied a = elim (Bool-cases (ltb 0 (p_filesz m phdr))) [
    | inl e ↦ rw e (
        kmemcpy_lem m (p_vaddr m phdr) (add32 image (p_offset m phdr)) (p_filesz m phdr) a
          l.source_apart)
    | inr e ↦ rw e (ground arith)
  ]

  -- The header is read again after the copy.
  same_header : Agree 32 m (copy_file m image phdr) phdr
  same_header k h =
      let out : in_range (p_vaddr m phdr) (p_filesz m phdr) (phdr + k) ≡ false =
        elim (l.header_apart) [
          | inl x ↦ ground (arith, l.in_memory)
          | inr x ↦ ground (arith, l.in_memory)
        ] in
      copied (phdr + k) ∙ rw out

  same_field :
      (d : ℕ) → d + 4 ≤ 32 → load32 (copy_file m image phdr) (phdr + d) ≡ load32 m (phdr + d)
  same_field d h = load32-Agree m (copy_file m image phdr) (phdr + d) (λ k g.
      subst (λ x. copy_file m image phdr x ≡ m x) (omega arith) (same_header (d + k) (omega arith)))

  filled :
      (a : ℕ)
      → clear_bss (copy_file m image phdr) phdr a ≡ (
          if in_range (p_vaddr m phdr) (p_filesz m phdr) a
          then m (add32 image (p_offset m phdr) + (a - p_vaddr m phdr))
          else if in_range (p_vaddr m phdr) (p_memsz m phdr) a
          then 0
          else m a)
  unfolding clear_bss
  filled a =
      let c = copy_file m image phdr in
      let v : p_vaddr c phdr ≡ p_vaddr m phdr = same_field 8 (omega arith) in
      let fs : p_filesz c phdr ≡ p_filesz m phdr = same_field 16 (omega arith) in
      let ms : p_memsz c phdr ≡ p_memsz m phdr = same_field 20 (omega arith) in
      let start : add32 (p_vaddr m phdr) (p_filesz m phdr) ≡ p_vaddr m phdr + p_filesz m phdr =
        omega (arith, l.in_memory, l.no_wrap) in
      let at = copied a in
      let fit = l.in_memory in
      elim (Bool-cases (ltb (p_filesz m phdr) (p_memsz m phdr))) [
        | inl e ↦
            rw (v, fs, ms, start, e)
              (kmemset_lem c (p_vaddr m phdr + p_filesz m phdr) 0 (p_memsz m phdr - p_filesz m phdr)
                  a
                ∙ rw at (ground arith))
        | inr e ↦ rw (v, fs, ms, start, e) (at ∙ ground arith)
      ]

-- A segment that has no more bytes in the file than in memory, does not wrap around, does not cover its
-- own program header, and does not begin behind the start of its bytes in the file and before their end:
-- after the copy and the clearing its address has the bytes of the file, then zeros up to its size in
-- memory, and no other byte changes.
pub clear_bss-copy_file :
    (m : Bytes) (image phdr a : ℕ)
    → Loadable m image phdr
    → clear_bss (copy_file m image phdr) phdr a ≡ (
        if in_range (p_vaddr m phdr) (p_filesz m phdr) a
        then m (add32 image (p_offset m phdr) + (a - p_vaddr m phdr))
        else if in_range (p_vaddr m phdr) (p_memsz m phdr) a
        then 0
        else m a)
clear_bss-copy_file m image phdr a l = filled m image phdr l a

segments_from-end :
    (n i : ℕ) (s : Space) (image : ℕ)
    → ltb i (e_phnum (bytes_of_space s) image) ≡ false
    → segments_from (suc n) i s image ≡ some (true, s)
unfolding segments_from
segments_from-end n i s image e = rw (e, segments_from) refl

-- The body of the loop at round `i`.
abbrev body : ℕ → Space → ℕ → Option (Bool × Space)
body i s image = load_segment s image (elf_get_phdr (bytes_of_space s) image i)

segments_from-outside :
    (n i : ℕ) (s : Space) (image : ℕ)
    → ltb i (e_phnum (bytes_of_space s) image) ≡ true
    → body i s image ≡ none
    → segments_from (suc n) i s image ≡ none
unfolding segments_from
segments_from-outside n i s image e f = rw (e, f, segments_from) refl

segments_from-fails :
    (n i : ℕ) (s : Space) (image : ℕ) (s' : Space)
    → ltb i (e_phnum (bytes_of_space s) image) ≡ true
    → body i s image ≡ some (false, s')
    → segments_from (suc n) i s image ≡ some (false, s')
unfolding segments_from
segments_from-fails n i s image s' e f = rw (e, f, segments_from) refl

segments_from-next :
    (n i : ℕ) (s : Space) (image : ℕ) (s' : Space)
    → ltb i (e_phnum (bytes_of_space s) image) ≡ true
    → body i s image ≡ some (true, s')
    → segments_from (suc n) i s image ≡ segments_from n (i + 1) s' image
unfolding segments_from
segments_from-next n i s image s' e f = rw (e, f, segments_from) refl

e_phnum-bound : (m : Bytes) (hdr : ℕ) → e_phnum m hdr < 65536
unfolding load16
e_phnum-bound m hdr = omega arith

past_end :
    (k i : ℕ) (s : Space) (image : ℕ) → 65536 ≤ i → some (true, s) ≡ segments_from k i s image
unfolding segments_from
past_end zero i s image h = refl
past_end (suc k) i s image h = sym (
    segments_from-end k i s image (
      ltb_of_le i (e_phnum (bytes_of_space s) image)
        (omega (arith, e_phnum-bound (bytes_of_space s) image))))

-- The loop of map_elf_segments ends: with two amounts of fuel that both reach i = 65536, which
-- e_phnum does not, it gives the same result.
pub segments_from-enough :
    (n n' i : ℕ) (s : Space) (image : ℕ)
    → 65536 ≤ i + n
    → 65536 ≤ i + n'
    → segments_from n i s image ≡ segments_from n' i s image
unfolding segments_from
segments_from-enough zero n' i s image h h' = past_end n' i s image (omega arith)
segments_from-enough (suc n) zero i s image h h' = sym (past_end (suc n) i s image (omega arith))
segments_from-enough (suc n) (suc n') i s image h h' =
    elim (Bool-cases (ltb i (e_phnum (bytes_of_space s) image))) [
      | inr e ↦ segments_from-end n i s image e ∙ sym (segments_from-end n' i s image e)
      | inl e ↦ elim (Option-cases (body i s image)) [
        | inl f ↦
            segments_from-outside n i s image e f ∙ sym (segments_from-outside n' i s image e f)
        | inr ((false, s'), f) ↦
            segments_from-fails n i s image s' e f ∙ sym (segments_from-fails n' i s image s' e f)
        | inr ((true, s'), f) ↦
            segments_from-next n i s image s' e f
            ∙ segments_from-enough n n' (i + 1) s' image (omega arith) (omega arith)
            ∙ sym (segments_from-next n' i s image s' e f)
      ]
    ]
