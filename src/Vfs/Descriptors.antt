-- ===== src/Vfs/Descriptors.antt =====
-- The table of descriptors, which vfs_open and vfs_close of core/fs/vfs.c share.
use korus_os.Prelude.{
  ℕ, ◌<◌, ◌≡◌, ◌≢◌, refl, true, false, Option, none, some, arith, Option-cases, inl, inr, sym, Bool,
  Bool-cases, not, ◌||◌, leb, ◌⊎◌, length, modify, find_index, get_or-modify_self, get_or-modify_ne,
  Found, find_index-Found, find_index-none,
}
use korus_os.Vfs.{free_fd, find_free_fd, fd_at, open_node, vfs_close, bad_fd}
use korus_os.Vfs.Memfs.{vfs_max_open_files, Vfs, NodePtr, FileDescriptor, zero_fd}

-- The lowest free descriptor, opened for a node at its start, all others as they were.
pub record Opened (s : Vfs) (node : NodePtr) (flags fd : ℕ) (s' : Vfs) : Type 0 where
  pub inside : fd < length s.fds
  pub free_before : (fd_at s fd).in_use ≡ false
  pub lower_taken : (j : ℕ) → j < fd → (fd_at s j).in_use ≡ true
  pub opened : fd_at s' fd ≡ record { node = some node; offset = 0; flags = flags; in_use = true }
  pub others : (j : ℕ) → j ≢ fd → fd_at s' j ≡ fd_at s j
  pub rest : s' ≡ record s { fds = s'.fds }

-- No descriptor is free.
abbrev pub AllTaken : Vfs → Type 0
AllTaken s = (j : ℕ) → j < length s.fds → (fd_at s j).in_use ≡ true

abbrev pub Opens : Vfs → NodePtr → ℕ → Option ℕ × Vfs → Type 0
Opens s node flags (none, s') = AllTaken s × (s' ≡ s)
Opens s node flags (some fd, s') = Opened s node flags fd s'

open_fd : NodePtr → ℕ → FileDescriptor → FileDescriptor
open_fd node flags f = record { node = some node; offset = 0; flags = flags; in_use = true }

open_node-none :
    (s : Vfs) (node : NodePtr) (flags : ℕ)
    → find_index free_fd s.fds ≡ none
    → open_node s (some node) flags ≡ (none, s)
unfolding open_node find_free_fd
open_node-none s node flags e = rw (e, open_node)

open_node-some :
    (s : Vfs) (node : NodePtr) (flags fd : ℕ)
    → find_index free_fd s.fds ≡ some fd
    → open_node s (some node) flags
      ≡ (some fd, record s { fds = modify s.fds fd (open_fd node flags) })
unfolding open_node find_free_fd open_fd
open_node-some s node flags fd e = rw (e, open_node)

taken : (f : FileDescriptor) → free_fd f ≡ false → f.in_use ≡ true
taken f h = ground arith

free : (f : FileDescriptor) → free_fd f ≡ true → f.in_use ≡ false
free f h = ground arith

-- The descriptor that vfs_open returns for a node is the lowest free one; it stands at the node's
-- start. The other descriptors, the files, their count, the mounts, the inode counter and the node that
-- was found last stay as they are. Where it returns -1 all are in use, and nothing changes.
pub open_node-Opens :
    (s : Vfs) (node : NodePtr) (flags : ℕ) → Opens s node flags (open_node s (some node) flags)
unfolding open_fd
open_node-Opens s node flags = elim (Option-cases (find_index free_fd s.fds)) [
  | inl e ↦
      rw (open_node-none s node flags e)
        ((λ j l. taken (fd_at s j) (find_index-none free_fd s.fds j zero_fd e l)), refl)
  | inr (fd, e) ↦
      let f : Found free_fd s.fds fd zero_fd = find_index-Found free_fd s.fds fd zero_fd e in
      rw (open_node-some s node flags fd e) (record {
        inside = f.inside;
        free_before = free (fd_at s fd) f.passes;
        lower_taken = λ j l. taken (fd_at s j) (f.first j l);
        opened = get_or-modify_self s.fds fd (open_fd node flags) zero_fd f.inside;
        others = λ j ne. get_or-modify_ne s.fds fd j (open_fd node flags) zero_fd (λ q. ne (sym q));
        rest = refl;
      })
]

-- A descriptor that is open: in the table of 256, and in use.
abbrev IsOpen : Vfs → ℕ → Type 0
IsOpen s fd = (fd < vfs_max_open_files) × ((fd_at s fd).in_use ≡ true)

-- The descriptor free again, without a node and at offset 0, its flags and all else as they were.
pub record Closed (s : Vfs) (fd : ℕ) (s' : Vfs) : Type 0 where
  pub closed : fd_at s' fd ≡ record (fd_at s fd) { in_use = false; node = none; offset = 0 }
  pub others : (j : ℕ) → j ≢ fd → fd_at s' j ≡ fd_at s j
  pub rest : s' ≡ record s { fds = s'.fds }

abbrev pub Closes : Vfs → ℕ → Vfs → Type 0
Closes s fd s' = (IsOpen s fd × Closed s fd s') ⊎ ((IsOpen s fd → ⊥) × (s' ≡ s))

close_fd : FileDescriptor → FileDescriptor
close_fd f = record f { in_use = false; node = none; offset = 0 }

vfs_close-bad : (s : Vfs) (fd : ℕ) → bad_fd s fd ≡ true → vfs_close s fd ≡ s
unfolding vfs_close
vfs_close-bad s fd e = rw e refl

vfs_close-open :
    (s : Vfs) (fd : ℕ)
    → bad_fd s fd ≡ false
    → vfs_close s fd ≡ record s { fds = modify s.fds fd close_fd }
unfolding vfs_close close_fd
vfs_close-open s fd e = rw e refl

bad :
    (b : Bool) (fd : ℕ)
    → (leb vfs_max_open_files fd || not b) ≡ true
    → (fd < vfs_max_open_files) × (b ≡ true)
    → ⊥
bad b fd h (l, u) = ground arith

open_inside :
    (b : Bool) (fd : ℕ)
    → (leb vfs_max_open_files fd || not b) ≡ false
    → (fd < vfs_max_open_files) × (b ≡ true)
open_inside b fd h = (ground arith, ground arith)

-- vfs_close, on a table of 256 descriptors: one that is open becomes free, so that vfs_open can take it
-- again, without a node and at offset 0. Its flags, the other descriptors and the rest of the file system
-- stay as they are. A number from 256 on, or of a descriptor that is not in use, changes nothing.
pub vfs_close-Closes :
    (s : Vfs) (fd : ℕ) → length s.fds ≡ vfs_max_open_files → Closes s fd (vfs_close s fd)
unfolding close_fd
vfs_close-Closes s fd size = elim (Bool-cases (bad_fd s fd)) [
  | inl e ↦ inr (bad (fd_at s fd).in_use fd e, vfs_close-bad s fd e)
  | inr e ↦
      let o = open_inside (fd_at s fd).in_use fd e in
      rw (vfs_close-open s fd e) (
        inl (
          o,
          record {
            closed = get_or-modify_self s.fds fd close_fd zero_fd (omega (arith, o.0, size));
            others = λ j ne. get_or-modify_ne s.fds fd j close_fd zero_fd (λ q. ne (sym q));
            rest = refl;
          },
        ))
]
