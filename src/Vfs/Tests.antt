-- ===== src/Vfs/Tests.antt =====
-- The theorems on files at concrete states.
use korus_os.Prelude.{
  ℕ, ◌-◌, min, ◌≡◌, refl, true, none, some, [], ◌∷◌, arith, Option, find_index, replicate, List,
  ◌+◌, ◌≤◌, Ends, u32_mod,
}
use korus_os.Vfs.{create_file, open_node, vfs_close, vfs_init, vfs_open, vfs_write}
use korus_os.Vfs.Reach.{Step, Reach, vfs_init-Reach}
use korus_os.Vfs.Valid.{IsValid, ValidAfter}
use korus_os.Vfs.Valid.Open.{NoName}
use korus_os.Vfs.Memfs.{
  MemFile, zero_file, FileDescriptor, NodePtr, zero_fd, Vfs, has_inode, memfs_write, memfs_read,
  read_bytes, memfs_max_filesize, is_named, same_name,
}
use korus_os.Vfs.Files.{memfs_write-memfs_read}
use korus_os.Vfs.Create.{Creates, create_file-Creates}
use korus_os.Vfs.Descriptors.{Opens, open_node-Opens, Closes, vfs_close-Closes}

abbrev file_of : ℕ → MemFile
file_of inode = record {
  name = 65 ∷ [];
  data_of = λ i. inode;
  size = 10;
  used = true;
  inode = inode;
}

abbrev open_file : FileDescriptor
open_file = record { node = some NodePtr.found_node; offset = 0; flags = 1; in_use = true }

-- Two files, two open descriptors; the last lookup found file 2.
abbrev two_files : Vfs
two_files = record {
  mounts = [];
  fds = open_file ∷ open_file ∷ zero_fd ∷ [];
  files = file_of 1 ∷ file_of 2 ∷ zero_file ∷ [];
  file_count = 2;
  inode_counter = 3;
  found = record { name = 65 ∷ []; inode = 2; size = 10 };
}

second : find_index (has_inode 2) two_files.files ≡ some 1
unfolding find_index
second = refl

memfs_write-memfs_read_example :
    (s' : Vfs) × (memfs_write two_files 4000 200 (λ i. i)
      ≡ some (min 200 (memfs_max_filesize - 4000), s'))
    × (memfs_read s'.files two_files.found.inode 4000 (min 200 (memfs_max_filesize - 4000))
        ≡ read_bytes (λ i. i) 0 (min 200 (memfs_max_filesize - 4000)))
memfs_write-memfs_read_example =
    memfs_write-memfs_read two_files 1 4000 200 (λ i. i) second (omega arith) (omega arith)

open_node-Opens_example :
    Opens two_files NodePtr.found_node 1 (open_node two_files (some NodePtr.found_node) 1)
open_node-Opens_example = open_node-Opens two_files NodePtr.found_node 1

not_there : find_index (is_named (66 ∷ [])) two_files.files ≡ none
unfolding find_index same_name
not_there = refl

create_file-Creates_example : Creates two_files (66 ∷ []) (create_file two_files (66 ∷ []))
create_file-Creates_example = create_file-Creates two_files (66 ∷ []) not_there

-- A full table of descriptors, the first two of them open.
abbrev full_table : Vfs
full_table = record two_files { fds = open_file ∷ open_file ∷ replicate 254 zero_fd }

vfs_close-Closes_example : Closes full_table 1 (vfs_close full_table 1)
vfs_close-Closes_example = vfs_close-Closes full_table 1 refl

-- A new file is created and opened, written to, and closed.
abbrev path_a : Option (List ℕ)
path_a = some (47 ∷ 97 ∷ [])

abbrev after : Vfs → Option (Option ℕ × Vfs) → Vfs
after s none = s
after s (some (result, s')) = s'

abbrev opened : Vfs
opened = after two_files (vfs_open (vfs_init two_files) path_a 7)

abbrev written : Vfs
written = after two_files (vfs_write opened 0 (λ i. i) 5000)

open_step : vfs_open (vfs_init two_files) path_a 7 ≡ some (some 0, opened)
unfolding vfs_open find_index vfs_init same_name korus_os.Prelude.Bits.test_bit
open_step = refl

write_step : vfs_write opened 0 (λ i. i) 5000 ≡ some (some 4096, written)
unfolding vfs_write vfs_open find_index vfs_init same_name korus_os.Prelude.Bits.test_bit
write_step = refl

vfs_init-Reach_example :
    IsValid (vfs_close written 0)
    × ((path : Option (List ℕ)) (flags : ℕ)
        → Ends (NoName path) ValidAfter (vfs_open (vfs_close written 0) path flags))
    × ((fd : ℕ) (buffer : ℕ → ℕ) (size : ℕ)
        → Ends
            (u32_mod ≤ memfs_max_filesize + size)
            ValidAfter
            (vfs_write (vfs_close written 0) fd buffer size))
vfs_init-Reach_example = vfs_init-Reach two_files (vfs_close written 0) (
    Reach.next
      (Reach.next
        (Reach.next Reach.here (Step.opens (vfs_init two_files) opened path_a 7 (some 0) open_step))
        (Step.writes opened written 0 (λ i. i) 5000 (some 4096) write_step))
      (Step.closes written 0))
