-- ===== src/Vfs/Valid/Transfer.antt =====
-- vfs_read, vfs_write and vfs_close keep the file system valid; vfs_write is left out for the sizes
-- with which its 32-bit sum wraps.
use korus_os.Prelude.{
  ℕ, zero, suc, ◌+◌, ◌-◌, ◌≤◌, ◌<◌, min, ◌≡◌, refl, true, false, not, ◌||◌, none, some, arith, ltb,
  leb, u32_mod, Bool-cases, Option-cases, inl, inr, subst, ap, length, get_or, find_index,
  get_or-modify-All, Ends, sym, dec_lt, ltb→lt,
}
use korus_os.Vfs.Memfs.{
  zero_file, zero_fd, Vfs, has_inode, read_bytes, memfs_read, memfs_write, clip, store_at,
  memfs_max_filesize,
}
use korus_os.Vfs.{fd_at, bad_fd, advance, has_data, vfs_read, vfs_write, vfs_close}
use korus_os.Vfs.Valid.{IsValid, FileFits, fds-IsValid, ValidAfter}

length-read_bytes : (d : ℕ → ℕ) (offset n : ℕ) → length (read_bytes d offset n) ≡ n
length-read_bytes d offset zero = refl
length-read_bytes d offset (suc n) = ap suc (length-read_bytes d (offset + 1) n)

-- A read does not go past the end of the file.
memfs_read-inside :
    (s : Vfs) (inode offset size : ℕ)
    → IsValid s
    → offset ≤ memfs_max_filesize
    → offset + length (memfs_read s.files inode offset size) ≤ memfs_max_filesize
unfolding memfs_read
memfs_read-inside s inode offset size v l =
    elim (Option-cases (find_index (has_inode inode) s.files)) [
      | inl e ↦ rw (e, memfs_read) (omega arith)
      | inr (i, e) ↦
          let f = get_or s.files i zero_file in
          let (fits, _) = v.files_fit i in
          elim (Bool-cases (leb f.size offset)) [
            | inl t ↦ rw (e, memfs_read, t) (omega arith)
            | inr t ↦
                rw
                  (
                    e,
                    memfs_read,
                    t,
                    length-read_bytes f.data_of offset (min size (f.size - offset)),
                  )
                  (ground arith)
          ]
    ]

advance-IsValid :
    (s : Vfs) (fd n : ℕ)
    → IsValid s
    → (fd_at s fd).offset + n ≤ memfs_max_filesize
    → IsValid (advance s fd n)
advance-IsValid s fd n v l = fds-IsValid s fd _ v (λ k. omega arith)

pub vfs_read-IsValid : (s : Vfs) (fd size : ℕ) → IsValid s → IsValid (vfs_read s fd size).1
unfolding vfs_read
vfs_read-IsValid s fd size v = elim (Bool-cases (bad_fd s fd || not (has_data (fd_at s fd).node))) [
  | inl e ↦ rw e v
  | inr e ↦ rw e (
      advance-IsValid s fd _ v
        (memfs_read-inside s s.found.inode (fd_at s fd).offset size v (v.offsets_fit fd)))
]

pub vfs_close-IsValid : (s : Vfs) (fd : ℕ) → IsValid s → IsValid (vfs_close s fd)
unfolding vfs_close
vfs_close-IsValid s fd v = elim (Bool-cases (bad_fd s fd)) [
  | inl e ↦ rw e v
  | inr e ↦ rw e (fds-IsValid s fd _ v (λ l. omega arith))
]

clip-fits :
    (offset size : ℕ)
    → offset ≤ memfs_max_filesize
    → offset + size < u32_mod
    → offset + (clip offset size).0 ≤ memfs_max_filesize
unfolding clip
clip-fits offset size l w = ground arith

clip-end : (offset size : ℕ) → (clip offset size).1 ≤ memfs_max_filesize
unfolding clip
clip-end offset size = ground arith

store_at-IsValid :
    (s : Vfs) (i offset size end : ℕ) (buffer : ℕ → ℕ)
    → IsValid s
    → end ≤ memfs_max_filesize
    → IsValid (store_at s i offset size end buffer)
unfolding store_at
store_at-IsValid s i offset size end buffer v l = record {
  files_fit =
      get_or-modify-All FileFits s.files i _ zero_file v.files_fit (λ k. (ground arith, k.1));
  offsets_fit = v.offsets_fit;
}

-- A write of memfs_write that stays in the file's array.
abbrev Writes : Vfs → ℕ → ℕ × Vfs → Type 0
Writes s offset (n, s') = (offset + n ≤ memfs_max_filesize) × IsValid s' × (s'.fds ≡ s.fds)

memfs_write-Writes :
    (s : Vfs) (offset size : ℕ) (buffer : ℕ → ℕ)
    → IsValid s
    → offset ≤ memfs_max_filesize
    → Ends (u32_mod ≤ offset + size) (Writes s offset) (memfs_write s offset size buffer)
unfolding memfs_write
memfs_write-Writes s offset size buffer v l =
    elim (Option-cases (find_index (has_inode s.found.inode) s.files)) [
      | inl e ↦ rw (e, memfs_write) (omega arith, v, refl)
      | inr (i, e) ↦
          let b = clip-end offset size in
          elim (Bool-cases (ltb memfs_max_filesize (offset + (clip offset size).0))) [
            | inl t ↦ rw (e, memfs_write, t) (wrapped offset size l t)
            | inr t ↦
                rw (e, memfs_write, t)
                  (
                    ltb-le memfs_max_filesize (offset + (clip offset size).0) t,
                    store_at-IsValid s i offset (clip offset size).0 (clip offset size).1 buffer v
                        b,
                    refl,
                  )
          ]
    ]
  where
    wrapped :
        (o n : ℕ)
        → o ≤ memfs_max_filesize
        → ltb memfs_max_filesize (o + (clip o n).0) ≡ true
        → u32_mod ≤ o + n
    wrapped o n l t = elim (dec_lt (o + n) u32_mod) [
      | yes w ↦ absurd (omega (arith, clip-fits o n l w, ltb→lt _ _ t))
      | no w ↦ omega arith
    ]

    ltb-le : (a b : ℕ) → ltb a b ≡ false → b ≤ a
    ltb-le a b h = ground arith

vfs_write-denied :
    (s : Vfs) (fd : ℕ) (buffer : ℕ → ℕ) (size : ℕ)
    → (bad_fd s fd || not (has_data (fd_at s fd).node)) ≡ true
    → vfs_write s fd buffer size ≡ some (none, s)
unfolding vfs_write
vfs_write-denied s fd buffer size e = rw e

vfs_write-some :
    (s : Vfs) (fd : ℕ) (buffer : ℕ → ℕ) (size n : ℕ) (s' : Vfs)
    → (bad_fd s fd || not (has_data (fd_at s fd).node)) ≡ false
    → memfs_write s (fd_at s fd).offset size buffer ≡ some (n, s')
    → vfs_write s fd buffer size ≡ some (some n, advance s' fd n)
unfolding vfs_write
vfs_write-some s fd buffer size n s' e w = rw (e, w, vfs_write)

vfs_write-none :
    (s : Vfs) (fd : ℕ) (buffer : ℕ → ℕ) (size : ℕ)
    → (bad_fd s fd || not (has_data (fd_at s fd).node)) ≡ false
    → memfs_write s (fd_at s fd).offset size buffer ≡ none
    → vfs_write s fd buffer size ≡ none
unfolding vfs_write
vfs_write-none s fd buffer size e w = rw (e, w, vfs_write)

-- vfs_write, whatever descriptor and buffer it is given, returns and stays inside the file's array,
-- unless the size is less than 4096 below 2^32 or above.
pub vfs_write-IsValid :
    (s : Vfs) (fd : ℕ) (buffer : ℕ → ℕ) (size : ℕ)
    → IsValid s
    → Ends (u32_mod ≤ memfs_max_filesize + size) ValidAfter (vfs_write s fd buffer size)
vfs_write-IsValid s fd buffer size v =
    let U = u32_mod ≤ memfs_max_filesize + size in
    elim (Bool-cases (bad_fd s fd || not (has_data (fd_at s fd).node))) [
      | inl e ↦ subst (Ends U ValidAfter) (sym (vfs_write-denied s fd buffer size e)) v
      | inr e ↦
          let l = v.offsets_fit fd in
          let w = memfs_write-Writes s (fd_at s fd).offset size buffer v l in
          elim (Option-cases (memfs_write s (fd_at s fd).offset size buffer)) [
            | inl q ↦
                let u : u32_mod ≤ (fd_at s fd).offset + size =
                  subst (Ends (u32_mod ≤ (fd_at s fd).offset + size) (Writes s (fd_at s fd).offset))
                    q w in
                subst (Ends U ValidAfter) (sym (vfs_write-none s fd buffer size e q)) (omega arith)
            | inr ((n, s'), q) ↦
                let (a, b, c) =
                  subst (Ends (u32_mod ≤ (fd_at s fd).offset + size) (Writes s (fd_at s fd).offset))
                    q w in
                subst (Ends U ValidAfter) (sym (vfs_write-some s fd buffer size n s' e q)) (
                  advance-IsValid s' fd n b (
                    subst (λ xs. (get_or xs fd zero_fd).offset + n ≤ memfs_max_filesize) (sym c) a))
          ]
    ]
