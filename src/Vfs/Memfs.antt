-- ===== src/Vfs/Memfs.antt =====
-- The files in memory of core/fs/vfs.c, with the state of the file system.
use korus_os.Prelude.{
  ℕ, zero, suc, ◌+◌, ◌-◌, min, Bool, true, false, ◌&&◌, Option, none, some, List, [], ◌∷◌, ltb, leb,
  ◌==◌, if◌then◌else◌, add32, sub32, get_or, take, modify, find_index,
}

abbrev pub vfs_name_len : ℕ
vfs_name_len = 256

abbrev pub vfs_path_len : ℕ
vfs_path_len = 1024

abbrev pub vfs_max_open_files : ℕ
vfs_max_open_files = 256

abbrev pub vfs_max_mounts : ℕ
vfs_max_mounts = 8

abbrev pub memfs_max_files : ℕ
memfs_max_files = 32

abbrev pub memfs_max_filesize : ℕ
memfs_max_filesize = 4096

pub record MemFile : Type 0 where
  pub name : List ℕ
  pub data_of : ℕ → ℕ
  pub size : ℕ
  pub used : Bool
  pub inode : ℕ

-- The two nodes that a vfs_node_t pointer can name: vfs_root, and the static found_node of
-- memfs_finddir.
pub data NodePtr : Type 0 where
  vfs_root found_node : NodePtr

pub record VfsNode : Type 0 where
  pub name : List ℕ
  pub inode : ℕ
  pub size : ℕ

pub record FileDescriptor : Type 0 where
  pub node : Option NodePtr
  pub offset : ℕ
  pub flags : ℕ
  pub in_use : Bool

pub record VfsMount : Type 0 where
  pub path : List ℕ
  pub root : Option NodePtr
  pub in_use : Bool
  pub fs_type : List ℕ

-- The static variables of vfs.c, and found_node.
pub record Vfs : Type 0 where
  pub mounts : List VfsMount
  pub fds : List FileDescriptor
  pub files : List MemFile
  pub file_count : ℕ
  pub inode_counter : ℕ
  pub found : VfsNode

abbrev pub zero_file : MemFile
zero_file = record { name = []; data_of = λ i. 0; size = 0; used = false; inode = 0 }

abbrev pub zero_fd : FileDescriptor
zero_fd = record { node = none; offset = 0; flags = 0; in_use = false }

abbrev pub zero_mount : VfsMount
zero_mount = record { path = []; root = none; in_use = false; fs_type = [] }

-- `n` bytes of `data_of` from `offset` on.
abbrev pub read_bytes : (ℕ → ℕ) → ℕ → ℕ → List ℕ
read_bytes d offset zero = []
read_bytes d offset (suc n) = d offset ∷ read_bytes d (offset + 1) n

-- `kmemcpy(d + offset, buffer, size)`
abbrev pub write_bytes : (ℕ → ℕ) → ℕ → (ℕ → ℕ) → ℕ → ℕ → ℕ
write_bytes d offset buffer size i =
    if leb offset i && ltb i (offset + size) then buffer (i - offset) else d i

-- `memfs_files[i].used && memfs_files[i].inode == node->inode`
abbrev pub has_inode : ℕ → MemFile → Bool
has_inode inode f = f.used && f.inode == inode

-- What is copied to the buffer; the result of the C function is its length.
unfoldable pub memfs_read : List MemFile → ℕ → ℕ → ℕ → List ℕ
memfs_read files inode offset size = elim (find_index (has_inode inode) files) [
  | none ↦ []
  | some i ↦
      let f = get_or files i zero_file in
      if leb f.size offset then [] else read_bytes f.data_of offset (min size (f.size - offset))
]

-- The size and the end of a write, cut to the file's room: the sum and the difference wrap.
unfoldable pub clip : ℕ → ℕ → ℕ × ℕ
clip offset size =
    if ltb memfs_max_filesize (add32 offset size)
    then (sub32 memfs_max_filesize offset, memfs_max_filesize)
    else (size, add32 offset size)

-- The file and the node after the copy of memfs_write.
unfoldable pub store_at : Vfs → ℕ → ℕ → ℕ → ℕ → (ℕ → ℕ) → Vfs
store_at s i offset size end buffer =
    let grows = ltb (get_or s.files i zero_file).size end in
    record s {
      files = modify s.files i (λ f. record f {
        data_of = write_bytes f.data_of offset buffer size;
        size = if ltb f.size end then end else f.size;
      });
      found = if grows then record (s.found) { size = end } else s.found;
    }

-- memfs_write, with found_node as its node. none stands for a copy past the end of the file's array,
-- which C leaves undefined.
unfoldable pub memfs_write : Vfs → ℕ → ℕ → (ℕ → ℕ) → Option (ℕ × Vfs)
unfolding clip store_at
memfs_write s offset size buffer = elim (find_index (has_inode s.found.inode) s.files) [
  | none ↦ some (0, s)
  | some i ↦
      let (n, end) = clip offset size in
      if ltb memfs_max_filesize (offset + n)
      then none
      else some (n, store_at s i offset n end buffer)
]

abbrev pub is_used : MemFile → Bool
is_used f = f.used

-- The loop of memfs_readdir, with `found` entries behind it.
unfoldable pub memfs_readdir : List MemFile → ℕ → Option (List ℕ × ℕ)
memfs_readdir [] index = none
memfs_readdir (f ∷ fs) zero =
    let rest = memfs_readdir fs zero in
    if f.used then some (take (vfs_name_len - 1) f.name, f.inode) else rest
memfs_readdir (f ∷ fs) (suc index) =
    let later = memfs_readdir fs index in
    let rest = memfs_readdir fs (suc index) in if f.used then later else rest

-- The comparison of names in memfs_finddir, up to both terminators.
unfoldable pub same_name : List ℕ → List ℕ → Bool
same_name [] [] = true
same_name [] (y ∷ ys) = false
same_name (x ∷ xs) [] = false
same_name (x ∷ xs) (y ∷ ys) = let rest = same_name xs ys in if x == y then rest else false

abbrev pub is_named : List ℕ → MemFile → Bool
is_named name f = f.used && same_name f.name name

-- memfs_finddir fills found_node in and returns it.
unfoldable pub memfs_finddir : Vfs → List ℕ → Option NodePtr × Vfs
memfs_finddir s name = elim (find_index (is_named name) s.files) [
  | none ↦ (none, s)
  | some i ↦
      let f = get_or s.files i zero_file in
      (
        some NodePtr.found_node,
        record s {
          found = record { name = take (vfs_name_len - 1) f.name; inode = f.inode; size = f.size };
        },
      )
]

-- kstrcmp: 0 if the strings are equal, else the difference of the first two characters that differ,
-- as the pair of them.
unfoldable pub kstrcmp : List ℕ → List ℕ → ℕ × ℕ
kstrcmp [] [] = (0, 0)
kstrcmp [] (y ∷ ys) = (0, y)
kstrcmp (x ∷ xs) [] = (x, 0)
kstrcmp (x ∷ xs) (y ∷ ys) = let rest = kstrcmp xs ys in if x == y then rest else (x, y)
