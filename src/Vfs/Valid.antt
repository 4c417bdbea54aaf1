-- ===== src/Vfs/Valid.antt =====
-- The invariant of the file system: no file and no name is longer than its array, and no descriptor
-- stands behind the file's end of 4096 bytes.
pub mod Open
pub mod Transfer
use korus_os.Prelude.{
  ℕ, zero, suc, ◌≤◌, ◌<◌, ◌≡◌, refl, Option, arith, subst, length, get_or, modify, find_index,
  replicate, get_or-modify-All, sym,
}
use korus_os.Vfs.Memfs.{
  MemFile, FileDescriptor, zero_file, zero_fd, Vfs, memfs_max_filesize, vfs_name_len,
  memfs_max_files, vfs_max_open_files,
}
use korus_os.Vfs.{readme_file, vfs_init, fd_at}

abbrev pub FileFits : MemFile → Type 0
FileFits f = (f.size ≤ memfs_max_filesize) × (length f.name < vfs_name_len)

abbrev pub OffsetFits : FileDescriptor → Type 0
OffsetFits f = f.offset ≤ memfs_max_filesize

pub record IsValid (s : Vfs) : Type 0 where
  pub files_fit : (i : ℕ) → FileFits (get_or s.files i zero_file)
  pub offsets_fit : (fd : ℕ) → OffsetFits (fd_at s fd)

get_or-replicate {ℓ} : {A : Type ℓ} (n i : ℕ) (d : A) → get_or (replicate n d) i d ≡ d
get_or-replicate zero i d = refl
get_or-replicate (suc n) zero d = refl
get_or-replicate (suc n) (suc i) d = get_or-replicate n i d

-- A write to one file.
pub files-IsValid :
    (s : Vfs) (i : ℕ) (f : MemFile → MemFile)
    → IsValid s
    → (FileFits (get_or s.files i zero_file) → FileFits (f (get_or s.files i zero_file)))
    → IsValid (record s { files = modify s.files i f })
files-IsValid s i f v h = record {
  files_fit = get_or-modify-All FileFits s.files i f zero_file v.files_fit h;
  offsets_fit = v.offsets_fit;
}

-- A write to one descriptor.
pub fds-IsValid :
    (s : Vfs) (fd : ℕ) (f : FileDescriptor → FileDescriptor)
    → IsValid s
    → (OffsetFits (fd_at s fd) → OffsetFits (f (fd_at s fd)))
    → IsValid (record s { fds = modify s.fds fd f })
fds-IsValid s fd f v h = record {
  files_fit = v.files_fit;
  offsets_fit = get_or-modify-All OffsetFits s.fds fd f zero_fd v.offsets_fit h;
}

-- A result of vfs_open or vfs_write, and the file system after it.
abbrev pub ValidAfter : Option ℕ × Vfs → Type 0
ValidAfter r = IsValid r.1

-- vfs_init leaves a valid file system, whatever the static variables held.
pub vfs_init-IsValid : (s : Vfs) → IsValid (vfs_init s)
unfolding vfs_init find_index
vfs_init-IsValid s = record {
  files_fit =
      get_or-modify-All FileFits (replicate memfs_max_files zero_file) 0 (readme_file 1) zero_file
        (λ i.
          subst FileFits (sym (get_or-replicate memfs_max_files i zero_file))
            (omega arith, omega arith))
        (λ l. (omega arith, omega arith));
  offsets_fit =
      λ i. subst OffsetFits (sym (get_or-replicate vfs_max_open_files i zero_fd)) (omega arith);
}
