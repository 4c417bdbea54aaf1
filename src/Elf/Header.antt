-- ===== src/Elf/Header.antt =====
-- validate_elf and the range of addresses that load_elf computes.
use korus_os.Prelude.{
  ℕ, zero, suc, ◌+◌, ◌*◌, ◌%◌, ◌≤◌, ◌<◌, ◌≡◌, ◌≢◌, ◌↔◌, ℕ_discrete, true, arith, if◌then◌else◌,
  add32, u32_mod, Bool-cases, inl, inr, ◌⊎◌, sym, subst,
}
use korus_os.Memory.Bytes.{Bytes}
use korus_os.Elf.{is_load, widen, load_range}
use korus_os.Elf.Format.{
  elf_get_phdr, e_phoff, e_phnum, e_phentsize, e_type, e_machine, e_version, p_vaddr, p_memsz,
  elf_header_size, has_magic, validate_elf,
}

-- Where the i-th entry of the table of program headers starts in the file.
abbrev pub entry_offset : Bytes → ℕ → ℕ → ℕ
entry_offset m image i = e_phoff m image + i * e_phentsize m image

-- What a file must be, without wrap-around.
pub record IsElf (m : Bytes) (image size : ℕ) : Type 0 where
  pub address : image ≢ 0
  pub header_fits : elf_header_size ≤ size
  pub magic : has_magic m image ≡ true
  pub class : m (image + 4) ≡ 1
  pub encoding : m (image + 5) ≡ 1
  pub version : e_version m image ≡ 1
  pub kind : (e_type m image ≡ 2) ⊎ (e_type m image ≡ 3)
  pub machine : e_machine m image ≡ 3
  pub table_fits : entry_offset m image (e_phnum m image) ≤ size

-- The table's end, where it is below 2^32, as validate_elf adds it up.
table_end :
    (m : Bytes) (image : ℕ)
    → entry_offset m image (e_phnum m image) < u32_mod
    → add32 (e_phoff m image) (e_phnum m image * e_phentsize m image % u32_mod)
      ≡ entry_offset m image (e_phnum m image)
table_end m image w = omega arith

accepts :
    (m : Bytes) (image size : ℕ)
    → entry_offset m image (e_phnum m image) < u32_mod
    → IsElf m image size
    → validate_elf m image size ≡ true
unfolding validate_elf
accepts m image size w r =
    let a = r.address in
    let b = r.header_fits in
    let c = r.magic in
    let d = r.class in
    let e = r.encoding in
    let f = r.version in
    let g = r.kind in
    let h = r.machine in let k = r.table_fits in rw (table_end m image w) (ground arith)

module _ (m : Bytes) (image size : ℕ) (w : entry_offset m image (e_phnum m image) < u32_mod)
    (h : validate_elf m image size ≡ true) where
  unfolded :
      (table : ℕ)
      → table ≡ add32 (e_phoff m image) (e_phnum m image * e_phentsize m image % u32_mod)
      → (image ≢ 0)
        × (elf_header_size ≤ size)
        × (has_magic m image ≡ true)
        × (m (image + 4) ≡ 1)
        × (m (image + 5) ≡ 1)
        × (e_version m image ≡ 1)
        × ((e_type m image ≡ 2) ⊎ (e_type m image ≡ 3))
        × (e_machine m image ≡ 3)
        × (table ≤ size)
  unfolding validate_elf
  unfolded table e = ground arith

  accepted : IsElf m image size
  accepted =
      let (a, b, c, d, e, f, g, k, l) =
        unfolded (entry_offset m image (e_phnum m image)) (sym (table_end m image w)) in
      record {
        address = a;
        header_fits = b;
        magic = c;
        class = d;
        encoding = e;
        version = f;
        kind = g;
        machine = k;
        table_fits = l;
      }

-- Where the end of the table of program headers does not wrap, validate_elf accepts exactly the
-- buffers that hold a header of a 32-bit little-endian i386 executable or library of version 1,
-- with the whole table in the file.
pub validate_elf-IsElf :
    (m : Bytes) (image size : ℕ)
    → entry_offset m image (e_phnum m image) < u32_mod
    → (validate_elf m image size ≡ true) ↔ IsElf m image size
validate_elf-IsElf m image size w = (accepted m image size w, accepts m image size w)

-- The segment of a program header lies in a range, as the 32-bit sum has its end.
abbrev pub Covers : Bytes → ℕ → ℕ × ℕ → Type 0
Covers m phdr (load_base, load_end) =
    (load_base ≤ p_vaddr m phdr) × (add32 (p_vaddr m phdr) (p_memsz m phdr) ≤ load_end)

widen-Covers : (m : Bytes) (phdr : ℕ) (r : ℕ × ℕ) → Covers m phdr (widen m phdr r)
unfolding widen
widen-Covers m phdr (b, e) = ground arith

abbrev pub Within : ℕ × ℕ → ℕ × ℕ → Type 0
Within (b, e) (b', e') = (b' ≤ b) × (e ≤ e')

widen-Within : (m : Bytes) (phdr : ℕ) (r : ℕ × ℕ) → Within r (widen m phdr r)
unfolding widen
widen-Within m phdr (b, e) = ground arith

widen-Least :
    (m : Bytes) (phdr : ℕ) (r s : ℕ × ℕ) → Within r s → Covers m phdr s → Within (widen m phdr r) s
unfolding widen
widen-Least m phdr (b, e) (b', e') (h, k) (c, d) = ground arith

Within-trans : (r s t : ℕ × ℕ) → Within r s → Within s t → Within r t
Within-trans (a, b) (c, d) (e, f) (h, k) (h', k') = (omega arith, omega arith)

Covers-Within :
    (m : Bytes) (phdr : ℕ) (r s : ℕ × ℕ) → Covers m phdr r → Within r s → Covers m phdr s
Covers-Within m phdr (a, b) (c, d) (h, k) (h', k') = (omega arith, omega arith)

abbrev widened : Bytes → ℕ → ℕ × ℕ → ℕ × ℕ
widened m phdr r = if is_load m phdr then widen m phdr r else r

widened-Within : (m : Bytes) (phdr : ℕ) (r : ℕ × ℕ) → Within r (widened m phdr r)
widened-Within m phdr r = elim (Bool-cases (is_load m phdr)) [
  | inl e ↦ rw e (widen-Within m phdr r)
  | inr e ↦ rw e (omega arith, omega arith)
]

load_range-Within :
    (n : ℕ) (m : Bytes) (image i : ℕ) (r : ℕ × ℕ) → Within r (load_range n m image i r)
unfolding load_range
load_range-Within zero m image i r = (omega arith, omega arith)
load_range-Within (suc n) m image i r =
    let r' = widened m (elf_get_phdr m image i) r in
    Within-trans r r' (load_range n m image (i + 1) r')
      (widened-Within m (elf_get_phdr m image i) r) (load_range-Within n m image (i + 1) r')

-- The LOAD segments among the program headers from `i` to `i + n`.
abbrev pub CoversAll : ℕ → Bytes → ℕ → ℕ → ℕ × ℕ → Type 0
CoversAll n m image i r =
    (j : ℕ)
    → i ≤ j
    → j < i + n
    → is_load m (elf_get_phdr m image j) ≡ true
    → Covers m (elf_get_phdr m image j) r

load_range-CoversAll :
    (n : ℕ) (m : Bytes) (image i : ℕ) (r : ℕ × ℕ) → CoversAll n m image i (load_range n m image i r)
unfolding load_range
load_range-CoversAll zero m image i r j h k e = absurd (omega arith)
load_range-CoversAll (suc n) m image i r j h k e = elim (ℕ_discrete i j) [
  | yes f ↦
      let r' = widened m (elf_get_phdr m image i) r in
      let here : Covers m (elf_get_phdr m image i) r' =
        rw (f, e) (widen-Covers m (elf_get_phdr m image j) r) in
      subst (λ x. Covers m (elf_get_phdr m image x) (load_range n m image (i + 1) r')) f
        (Covers-Within m (elf_get_phdr m image i) r' (load_range n m image (i + 1) r') here
          (load_range-Within n m image (i + 1) r'))
  | no f ↦
      load_range-CoversAll n m image (i + 1) (widened m (elf_get_phdr m image i) r) j (omega arith)
        (omega arith) e
]

load_range-Least :
    (n : ℕ) (m : Bytes) (image i : ℕ) (r s : ℕ × ℕ)
    → Within r s
    → CoversAll n m image i s
    → Within (load_range n m image i r) s
unfolding load_range
load_range-Least zero m image i r s h k = h
load_range-Least (suc n) m image i r s h k =
    let phdr = elf_get_phdr m image i in
    let here : Within (widened m phdr r) s = elim (Bool-cases (is_load m phdr)) [
      | inl e ↦ rw e (widen-Least m phdr r s h (k i (omega arith) (omega arith) e))
      | inr e ↦ rw e h
    ] in
    load_range-Least n m image (i + 1) (widened m phdr r) s here
      (λ j a b e. k j (omega arith) (omega arith) e)

-- The range that load_elf reports is the least one, from 0xFFFFFFFF down and from 0 up, that has
-- every LOAD segment of the file in it, each with the end that the 32-bit sum gives.
pub load_range-LeastCover :
    (m : Bytes) (image : ℕ)
    → let r = load_range (e_phnum m image) m image 0 (0xFFFF_FFFF, 0) in
      CoversAll (e_phnum m image) m image 0 r
      × ((s : ℕ × ℕ)
          → Within (0xFFFF_FFFF, 0) s
          → CoversAll (e_phnum m image) m image 0 s
          → Within r s)
load_range-LeastCover m image = (
  load_range-CoversAll (e_phnum m image) m image 0 (0xFFFF_FFFF, 0),
  load_range-Least (e_phnum m image) m image 0 (0xFFFF_FFFF, 0),
)
