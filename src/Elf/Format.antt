-- ===== src/Elf/Format.antt =====
-- The structures of core/include/elf.h in memory, read at their packed offsets, and validate_elf.
use korus_os.Prelude.{
  ℕ, ◌+◌, ◌*◌, ◌%◌, Bool, false, ◌&&◌, ◌||◌, not, ltb, ◌==◌, if◌then◌else◌, add32, u32_mod,
}
use korus_os.Memory.Bytes.{Bytes}

-- A u16 and a u32 in memory, little-endian.
unfoldable pub load16 : Bytes → ℕ → ℕ
load16 m a = (m a + 256 * m (a + 1)) % 65536

unfoldable pub load32 : Bytes → ℕ → ℕ
load32 m a = (m a + 256 * m (a + 1) + 65536 * m (a + 2) + 16777216 * m (a + 3)) % u32_mod

-- elf32_header_t
abbrev pub elf_header_size : ℕ
elf_header_size = 52

abbrev pub e_type : Bytes → ℕ → ℕ
e_type m hdr = load16 m (hdr + 16)

abbrev pub e_machine : Bytes → ℕ → ℕ
e_machine m hdr = load16 m (hdr + 18)

abbrev pub e_version : Bytes → ℕ → ℕ
e_version m hdr = load32 m (hdr + 20)

abbrev pub e_entry : Bytes → ℕ → ℕ
e_entry m hdr = load32 m (hdr + 24)

abbrev pub e_phoff : Bytes → ℕ → ℕ
e_phoff m hdr = load32 m (hdr + 28)

abbrev pub e_phentsize : Bytes → ℕ → ℕ
e_phentsize m hdr = load16 m (hdr + 42)

abbrev pub e_phnum : Bytes → ℕ → ℕ
e_phnum m hdr = load16 m (hdr + 44)

-- elf32_phdr_t
abbrev pub p_type : Bytes → ℕ → ℕ
p_type m phdr = load32 m phdr

abbrev pub p_offset : Bytes → ℕ → ℕ
p_offset m phdr = load32 m (phdr + 4)

abbrev pub p_vaddr : Bytes → ℕ → ℕ
p_vaddr m phdr = load32 m (phdr + 8)

abbrev pub p_filesz : Bytes → ℕ → ℕ
p_filesz m phdr = load32 m (phdr + 16)

abbrev pub p_memsz : Bytes → ℕ → ℕ
p_memsz m phdr = load32 m (phdr + 20)

abbrev pub p_flags : Bytes → ℕ → ℕ
p_flags m phdr = load32 m (phdr + 24)

-- `data + hdr->e_phoff + i * hdr->e_phentsize`, with `data` as `image`, where hdr is too.
unfoldable pub elf_get_phdr : Bytes → ℕ → ℕ → ℕ
elf_get_phdr m image i = add32 (add32 image (e_phoff m image)) (i * e_phentsize m image % u32_mod)

-- "\x7FELF", ELF_CLASS_32 and ELF_DATA_LSB
abbrev pub has_magic : Bytes → ℕ → Bool
has_magic m hdr = m hdr == 0x7F && m (hdr + 1) == b'E' && m (hdr + 2) == b'L' && m (hdr + 3) == b'F'

unfoldable pub validate_elf : Bytes → ℕ → ℕ → Bool
validate_elf m image size =
    if image == 0 || ltb size elf_header_size
    then false
    else if not (has_magic m image)
    then false
    else if not (m (image + 4) == 1)
    then false
    else if not (m (image + 5) == 1)
    then false
    else if not (e_version m image == 1)
    then false
    else if not (e_type m image == 2) && not (e_type m image == 3)
    then false
    else if not (e_machine m image == 3)
    then false
    else not (ltb size (add32 (e_phoff m image) (e_phnum m image * e_phentsize m image % u32_mod)))
