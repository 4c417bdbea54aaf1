-- ===== src/Vfs/Valid/Open.antt =====
-- vfs_open keeps the file system valid, and returns for every path that has a name.
use korus_os.Prelude.{
  length-take, ℕ, not, Option, none, some, List, [], ◌∷◌, arith, ◌==◌, Bool-cases, Option-cases,
  inl, inr, find_index, get_or-modify-All, Ends,
}
use korus_os.Prelude.Bits.{test_bit}
use korus_os.Vfs.Memfs.{NodePtr, zero_file, Vfs, memfs_finddir, is_named, is_used}
use korus_os.Vfs.{
  vfs_resolve_path, skip_slashes, create_file, find_free_fd, open_node, open_or_create, vfs_open,
}
use korus_os.Vfs.Valid.{IsValid, FileFits, fds-IsValid, ValidAfter}

memfs_finddir-IsValid : (s : Vfs) (name : List ℕ) → IsValid s → IsValid (memfs_finddir s name).1
unfolding memfs_finddir
memfs_finddir-IsValid s name v = elim (Option-cases (find_index (is_named name) s.files)) [
  | inl e ↦ rw (e, memfs_finddir) v
  | inr (i, e) ↦
      rw (e, memfs_finddir) (record { files_fit = v.files_fit; offsets_fit = v.offsets_fit })
]

vfs_resolve_path-IsValid :
    (s : Vfs) (path : Option (List ℕ)) → IsValid s → IsValid (vfs_resolve_path s path).1
unfolding vfs_resolve_path
vfs_resolve_path-IsValid s none v = v
vfs_resolve_path-IsValid s (some []) v = v
vfs_resolve_path-IsValid s (some (c ∷ [])) v = elim (Bool-cases (c == b'/')) [
  | inl e ↦ rw e v
  | inr e ↦ rw e v
]
vfs_resolve_path-IsValid s (some (c ∷ d ∷ cs)) v = elim (Bool-cases (c == b'/')) [
  | inl e ↦ rw e (memfs_finddir-IsValid s (skip_slashes (d ∷ cs)) v)
  | inr e ↦ rw e v
]

create_file-IsValid : (s : Vfs) (fn : List ℕ) → IsValid s → IsValid (create_file s fn).1
unfolding create_file
create_file-IsValid s fn v = elim (Option-cases (find_index (λ f. not (is_used f)) s.files)) [
  | inl e ↦ rw (e, create_file) v
  | inr (i, e) ↦
      rw (e, create_file)
        (memfs_finddir-IsValid _ fn (record {
          files_fit =
              get_or-modify-All FileFits s.files i _ zero_file v.files_fit
                (λ l. (omega arith, omega (arith, length-take 255 fn)));
          offsets_fit = v.offsets_fit;
        }))
]

open_node-IsValid :
    (s : Vfs) (node : Option NodePtr) (flags : ℕ) → IsValid s → IsValid (open_node s node flags).1
unfolding open_node
open_node-IsValid s none flags v = v
open_node-IsValid s (some node) flags v = elim (Option-cases (find_free_fd s.fds)) [
  | inl e ↦ rw (e, open_node) v
  | inr (fd, e) ↦ rw (e, open_node) (fds-IsValid s fd _ v (λ l. omega arith))
]

-- A path that has no first character.
abbrev pub NoName : Option (List ℕ) → Type 0
NoName none = Unit {0}
NoName (some []) = Unit {0}
NoName (some (c ∷ cs)) = ⊥

open_or_create-IsValid :
    (s : Vfs) (node : Option NodePtr) (path : Option (List ℕ)) (flags : ℕ)
    → IsValid s
    → Ends (NoName path) ValidAfter (open_or_create s node path flags)
unfolding open_or_create
open_or_create-IsValid s (some node) path flags v = open_node-IsValid s (some node) flags v
open_or_create-IsValid s none none flags v = elim (Bool-cases (test_bit flags 2)) [
  | inl e ↦ rw e tt
  | inr e ↦ rw e v
]
open_or_create-IsValid s none (some []) flags v = elim (Bool-cases (test_bit flags 2)) [
  | inl e ↦ rw e tt
  | inr e ↦ rw e v
]
open_or_create-IsValid s none (some (c ∷ cs)) flags v = elim (Bool-cases (test_bit flags 2)) [
  | inl e ↦ rw e (
      open_node-IsValid (create_file s cs).1 (create_file s cs).0 flags
        (create_file-IsValid s cs v))
  | inr e ↦ rw e v
]

pub vfs_open-IsValid :
    (s : Vfs) (path : Option (List ℕ)) (flags : ℕ)
    → IsValid s
    → Ends (NoName path) ValidAfter (vfs_open s path flags)
unfolding vfs_open
vfs_open-IsValid s path flags v =
    open_or_create-IsValid (vfs_resolve_path s path).1 (vfs_resolve_path s path).0 path flags
      (vfs_resolve_path-IsValid s path v)
