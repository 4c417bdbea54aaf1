-- ===== src/Vfs.antt =====
-- core/fs/vfs.c and core/include/vfs.h: the virtual file system over files in memory.
-- A C string is the list of its characters, NULL is none. An int is its 32-bit pattern, so that a
-- negative descriptor is above the table like any other that is too large. Of a vfs_node_t the name,
-- the inode and the size are kept. memfs_open and memfs_close do nothing.
pub mod Memfs
pub mod Files
pub mod Descriptors
pub mod Reach
pub mod Shared
pub mod Valid
pub mod Create
mod Tests
use korus_os.Prelude.{
  ℕ, ◌-◌, Bool, true, false, ◌||◌, not, Option, none, some, List, [], ◌∷◌, ltb, leb, ◌==◌,
  if◌then◌else◌, add32, length, get_or, take, replicate, modify, find_index,
}
use korus_os.Prelude.Bits.{test_bit}
use korus_os.Vfs.Memfs.{
  FileDescriptor, MemFile, NodePtr, Vfs, is_used, memfs_finddir, memfs_max_files, memfs_read,
  memfs_write, vfs_max_mounts, vfs_max_open_files, vfs_name_len, vfs_path_len, zero_fd, zero_file,
  zero_mount,
}

abbrev pub free_fd : FileDescriptor → Bool
free_fd f = not f.in_use

unfoldable pub find_free_fd : List FileDescriptor → Option ℕ
find_free_fd = find_index free_fd

-- true for 0, false for -1.
unfoldable pub vfs_mount : Vfs → List ℕ → NodePtr → List ℕ → Bool × Vfs
vfs_mount s path root fs_type = elim (find_index (λ m. not (m.in_use)) s.mounts) [
  | none ↦ (false, s)
  | some i ↦ (
    true,
    record s {
      mounts = modify s.mounts i (λ m. record {
        path = take (vfs_path_len - 1) path;
        root = some root;
        in_use = true;
        fs_type = take 15 fs_type;
      });
    },
  )
]

abbrev slash : ℕ
slash = b'/'

-- "README.TXT"
abbrev pub readme_name : List ℕ
readme_name = 82 ∷ 69 ∷ 65 ∷ 68 ∷ 77 ∷ 69 ∷ 46 ∷ 84 ∷ 88 ∷ 84 ∷ []

abbrev pub readme : List ℕ
readme =
    75 ∷ 111 ∷ 114 ∷ 117 ∷ 115 ∷ 32 ∷ 79 ∷ 83 ∷ 32 ∷ 45 ∷ 32 ∷ 83 ∷ 105 ∷ 115 ∷ 116 ∷ 101 ∷ 109 ∷ 97
    ∷ 32 ∷ 79 ∷ 112 ∷ 101 ∷ 114 ∷ 97 ∷ 99 ∷ 105 ∷ 111 ∷ 110 ∷ 97 ∷ 108 ∷ 32 ∷ 69 ∷ 120 ∷ 112 ∷ 101
    ∷ 114 ∷ 105 ∷ 109 ∷ 101 ∷ 110 ∷ 116 ∷ 97 ∷ 108 ∷ 10 ∷ 86 ∷ 101 ∷ 114 ∷ 115 ∷ 97 ∷ 111 ∷ 32 ∷ 48
    ∷ 46 ∷ 49 ∷ 46 ∷ 48 ∷ 10 ∷ []

-- "memfs"
abbrev memfs_name : List ℕ
memfs_name = 109 ∷ 101 ∷ 109 ∷ 102 ∷ 115 ∷ []

abbrev pub readme_file : ℕ → MemFile → MemFile
readme_file inode f = record f {
  used = true;
  inode = inode;
  name = take (vfs_name_len - 1) readme_name;
  data_of = λ i. if ltb i (length readme) then get_or readme i 0 else f.data_of i;
  size = length readme;
}

-- found_node is static, and vfs_init leaves it.
unfoldable pub vfs_init : Vfs → Vfs
unfolding vfs_mount
vfs_init s =
    let z = record s {
      mounts = replicate vfs_max_mounts zero_mount;
      fds = replicate vfs_max_open_files zero_fd;
      files = replicate memfs_max_files zero_file;
      file_count = 0;
      inode_counter = 1;
    } in
    let filled : Vfs = elim (find_index (λ f. not (is_used f)) z.files) [
      | none ↦ z
      | some i ↦ record z {
        files = modify z.files i (readme_file 1);
        file_count = 1;
        inode_counter = 2;
      }
    ] in
    (vfs_mount filled (slash ∷ []) NodePtr.vfs_root memfs_name).1

-- `while (*filename == '/') filename++;`
unfoldable pub skip_slashes : List ℕ → List ℕ
skip_slashes [] = []
skip_slashes (c ∷ cs) = let rest = skip_slashes cs in if c == slash then rest else c ∷ cs

unfoldable pub vfs_resolve_path : Vfs → Option (List ℕ) → Option NodePtr × Vfs
unfolding memfs_finddir skip_slashes
vfs_resolve_path s none = (none, s)
vfs_resolve_path s (some []) = (none, s)
vfs_resolve_path s (some (c ∷ [])) = if c == slash then (some NodePtr.vfs_root, s) else (none, s)
vfs_resolve_path s (some (c ∷ d ∷ cs)) =
    let found = memfs_finddir s (skip_slashes (d ∷ cs)) in if c == slash then found else (none, s)

abbrev pub new_file : ℕ → List ℕ → MemFile → MemFile
new_file inode fn f = record f {
  used = true;
  inode = inode;
  size = 0;
  name = take (vfs_name_len - 1) fn;
}

-- VFS_O_CREATE, for `fn = path + 1`.
unfoldable pub create_file : Vfs → List ℕ → Option NodePtr × Vfs
unfolding memfs_finddir
create_file s fn = elim (find_index (λ f. not (is_used f)) s.files) [
  | none ↦ (none, s)
  | some i ↦
      memfs_finddir
        (record s {
          files = modify s.files i (new_file s.inode_counter fn);
          inode_counter = add32 s.inode_counter 1;
          file_count = add32 s.file_count 1;
        })
        fn
]

-- The end of vfs_open: a descriptor for the node. none for -1.
unfoldable pub open_node : Vfs → Option NodePtr → ℕ → Option ℕ × Vfs
unfolding find_free_fd
open_node s none flags = (none, s)
open_node s (some node) flags = elim (find_free_fd s.fds) [
  | none ↦ (none, s)
  | some fd ↦ (
    some fd,
    record s {
      fds =
          modify s.fds fd
            (λ f. record { node = some node; offset = 0; flags = flags; in_use = true });
    },
  )
]

abbrev vfs_o_create : ℕ → Bool
vfs_o_create flags = test_bit flags 2

-- The path after its first character, which C reads without a check: past the end of the string if
-- it is empty.
abbrev after_first : Option (List ℕ) → Option (List ℕ)
after_first none = none
after_first (some []) = none
after_first (some (c ∷ cs)) = some cs

-- vfs_open once the path is resolved. The outer none stands for a read outside the path's string,
-- which C leaves undefined.
unfoldable pub open_or_create : Vfs → Option NodePtr → Option (List ℕ) → ℕ → Option (Option ℕ × Vfs)
unfolding create_file open_node
open_or_create s (some node) path flags = some (open_node s (some node) flags)
open_or_create s none path flags =
    if vfs_o_create flags
    then (elim (after_first path) [
      | none ↦ none
      | some fn ↦ let (node, s') = create_file s fn in some (open_node s' node flags)
    ])
    else some (none, s)

unfoldable pub vfs_open : Vfs → Option (List ℕ) → ℕ → Option (Option ℕ × Vfs)
unfolding vfs_resolve_path open_or_create
vfs_open s path flags =
    let (node, s') = vfs_resolve_path s path in open_or_create s' node path flags

abbrev pub fd_at : Vfs → ℕ → FileDescriptor
fd_at s fd = get_or s.fds fd zero_fd

-- `fd < 0 || fd >= VFS_MAX_OPEN_FILES || !fds[fd].in_use`
abbrev pub bad_fd : Vfs → ℕ → Bool
bad_fd s fd = leb vfs_max_open_files fd || not (fd_at s fd).in_use

-- `f->offset += bytes`
abbrev pub advance : Vfs → ℕ → ℕ → Vfs
advance s fd n = record s { fds = modify s.fds fd (λ f. record f { offset = add32 f.offset n }) }

-- Whether the node's operations have a read and a write: those of the root are NULL.
abbrev pub has_data : Option NodePtr → Bool
has_data (some NodePtr.found_node) = true
has_data (some NodePtr.vfs_root) = false
has_data none = false

-- The bytes that are read, none for -1.
unfoldable pub vfs_read : Vfs → ℕ → ℕ → Option (List ℕ) × Vfs
unfolding memfs_read
vfs_read s fd size =
    if bad_fd s fd || not (has_data (fd_at s fd).node)
    then (none, s)
    else let bytes = memfs_read s.files s.found.inode (fd_at s fd).offset size in
      (some bytes, advance s fd (length bytes))

-- The number of bytes written, none for -1; the outer none as for memfs_write.
unfoldable pub vfs_write : Vfs → ℕ → (ℕ → ℕ) → ℕ → Option (Option ℕ × Vfs)
unfolding memfs_write
vfs_write s fd buffer size =
    if bad_fd s fd || not (has_data (fd_at s fd).node)
    then some (none, s)
    else elim (memfs_write s (fd_at s fd).offset size buffer) [
      | none ↦ none
      | some (n, s') ↦ some (some n, advance s' fd n)
    ]

unfoldable pub vfs_close : Vfs → ℕ → Vfs
vfs_close s fd = if bad_fd s fd then s else record s {
  fds = modify s.fds fd (λ f. record f { in_use = false; node = none; offset = 0 });
}
