-- ===== src/Vfs/Reach.antt =====
-- The calls of core/fs/vfs.c in any order: what every state after vfs_init satisfies.
use korus_os.Prelude.{ℕ, ◌+◌, ◌≤◌, ◌≡◌, Option, some, List, Ends, u32_mod, subst}
use korus_os.Vfs.{vfs_init, vfs_open, vfs_read, vfs_write, vfs_close}
use korus_os.Vfs.Memfs.{Vfs, memfs_max_filesize}
use korus_os.Vfs.Valid.{IsValid, ValidAfter, vfs_init-IsValid}
use korus_os.Vfs.Valid.Open.{NoName, vfs_open-IsValid}
use korus_os.Vfs.Valid.Transfer.{vfs_read-IsValid, vfs_write-IsValid, vfs_close-IsValid}

-- One call that returns, with any arguments and any result.
pub data Step : Vfs → Vfs → Type 0 where
  opens :
      (s s' : Vfs) (path : Option (List ℕ)) (flags : ℕ) (result : Option ℕ)
      → vfs_open s path flags ≡ some (result, s')
      → Step s s'
  reads : (s : Vfs) (fd size : ℕ) → Step s (vfs_read s fd size).1
  writes :
      (s s' : Vfs) (fd : ℕ) (buffer : ℕ → ℕ) (size : ℕ) (result : Option ℕ)
      → vfs_write s fd buffer size ≡ some (result, s')
      → Step s s'
  closes : (s : Vfs) (fd : ℕ) → Step s (vfs_close s fd)

pub data Reach (s : Vfs) : Vfs → Type 0 where
  here : Reach s s
  next : {t u : Vfs} → Reach s t → Step t u → Reach s u

Step-IsValid : {s s' : Vfs} → Step s s' → IsValid s → IsValid s'
Step-IsValid (opens s s' path flags result e) v =
    subst (Ends (NoName path) ValidAfter) e (vfs_open-IsValid s path flags v)
Step-IsValid (reads s fd size) v = vfs_read-IsValid s fd size v
Step-IsValid (writes s s' fd buffer size result e) v =
    subst (Ends (u32_mod ≤ memfs_max_filesize + size) ValidAfter) e
      (vfs_write-IsValid s fd buffer size v)
Step-IsValid (closes s fd) v = vfs_close-IsValid s fd v

Reach-kept : {s t : Vfs} → Reach s t → IsValid s → IsValid t
Reach-kept here v = v
Reach-kept (next r e) v = Step-IsValid e (Reach-kept r v)

-- In any state that calls of vfs_open, vfs_read, vfs_write and vfs_close lead to from vfs_init, in any
-- order and with any arguments: no file is larger than its 4096 bytes or has a name of more than 255
-- characters, and no descriptor's offset lies past 4096. A further vfs_write returns, unless its size is
-- less than 4096 below 2^32 or above, and so does vfs_open, unless its path is NULL or empty.
pub vfs_init-Reach :
    (s t : Vfs)
    → Reach (vfs_init s) t
    → IsValid t
      × ((path : Option (List ℕ)) (flags : ℕ)
          → Ends (NoName path) ValidAfter (vfs_open t path flags))
      × ((fd : ℕ) (buffer : ℕ → ℕ) (size : ℕ)
          → Ends (u32_mod ≤ memfs_max_filesize + size) ValidAfter (vfs_write t fd buffer size))
vfs_init-Reach s t r =
    let v = Reach-kept r (vfs_init-IsValid s) in
    (
      v,
      (λ path flags. vfs_open-IsValid t path flags v),
      (λ fd buffer size. vfs_write-IsValid t fd buffer size v),
    )
