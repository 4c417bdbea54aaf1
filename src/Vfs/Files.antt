-- ===== src/Vfs/Files.antt =====
-- memfs_write and memfs_read: what is written can be read again.
use korus_os.Prelude.{
  ℕ, zero, suc, ◌+◌, ◌-◌, ◌≤◌, ◌<◌, min, ◌≡◌, refl, Bool, true, false, some, List, [], ◌∷◌, arith,
  ltb, leb, if◌then◌else◌, u32_mod, Bool-cases, inl, inr, ◌∙◌, subst, ap, ltb_of_le, lt→ltb,
  leb_of_le, leb_of_lt, get_or, modify, find_index, get_or-modify_self, Found, find_index-Found,
}
use korus_os.Vfs.Memfs.{
  MemFile, zero_file, Vfs, has_inode, read_bytes, write_bytes, memfs_read, memfs_write, clip,
  store_at, memfs_max_filesize,
}

find_index-modify {ℓ} :
    {A : Type ℓ} (p : A → Bool) (xs : List A) (i : ℕ) (f : A → A)
    → ((x : A) → p (f x) ≡ p x)
    → find_index p (modify xs i f) ≡ find_index p xs
unfolding find_index
find_index-modify p [] i f h = refl
find_index-modify p (x ∷ xs) zero f h = rw (h x)
find_index-modify p (x ∷ xs) (suc i) f h = rw (find_index-modify p xs i f h)

clip-inside :
    (offset size : ℕ)
    → offset ≤ memfs_max_filesize
    → offset + size < u32_mod
    → clip offset size
      ≡ (min size (memfs_max_filesize - offset), min (offset + size) memfs_max_filesize)
unfolding clip
clip-inside offset size l w = ground arith

written_at :
    (d : ℕ → ℕ) (offset : ℕ) (buffer : ℕ → ℕ) (n k : ℕ)
    → k < n
    → write_bytes d offset buffer n (offset + k) ≡ buffer k
written_at d offset buffer n k l =
    let a : leb offset (offset + k) ≡ true = leb_of_le offset (offset + k) (omega arith) in
    let b : ltb (offset + k) (offset + n) ≡ true = lt→ltb (offset + k) (offset + n) (omega arith) in
    let e : offset + k - offset ≡ k = omega arith in rw (a, b, e)

read_bytes-written :
    (d : ℕ → ℕ) (offset : ℕ) (buffer : ℕ → ℕ) (n k m : ℕ)
    → k + m ≤ n
    → read_bytes (write_bytes d offset buffer n) (offset + k) m ≡ read_bytes buffer k m
read_bytes-written d offset buffer n k zero l = refl
read_bytes-written d offset buffer n k (suc m) l =
    let here : write_bytes d offset buffer n (offset + k) ≡ buffer k =
      written_at d offset buffer n k (omega (arith, l)) in
    let shift : offset + k + 1 ≡ offset + (k + 1) = omega arith in
    rw (here, shift)
      (ap (λ x. buffer k ∷ x) (read_bytes-written d offset buffer n (k + 1) m (omega arith)))

memfs_write-stores :
    (s : Vfs) (i offset size n end : ℕ) (buffer : ℕ → ℕ)
    → find_index (has_inode s.found.inode) s.files ≡ some i
    → clip offset size ≡ (n, end)
    → offset + n ≤ memfs_max_filesize
    → memfs_write s offset size buffer ≡ some (n, store_at s i offset n end buffer)
unfolding memfs_write
memfs_write-stores s i offset size n end buffer e c l =
    let fits : ltb memfs_max_filesize (offset + n) ≡ false =
      ltb_of_le memfs_max_filesize (offset + n) l in
    rw (e, memfs_write, c, fits)

memfs_read-at :
    (files : List MemFile) (inode i offset n : ℕ) (f : MemFile)
    → find_index (has_inode inode) files ≡ some i
    → get_or files i zero_file ≡ f
    → offset + n ≤ f.size
    → memfs_read files inode offset n ≡ read_bytes f.data_of offset n
unfolding memfs_read
memfs_read-at files inode i offset zero f e g l = elim (Bool-cases (leb f.size offset)) [
  | inl t ↦ rw (e, memfs_read, g, t)
  | inr t ↦ let m : min 0 (f.size - offset) ≡ 0 = omega arith in rw (e, memfs_read, g, t, m)
]
memfs_read-at files inode i offset (suc n) f e g l =
    let t : leb f.size offset ≡ false = leb_of_lt f.size offset (omega arith) in
    let m : min (suc n) (f.size - offset) ≡ suc n = omega arith in rw (e, memfs_read, g, t, m)

stored : MemFile → ℕ → ℕ → ℕ → (ℕ → ℕ) → MemFile
stored f offset n end buffer = record f {
  data_of = write_bytes f.data_of offset buffer n;
  size = if ltb f.size end then end else f.size;
}

store_at-files :
    (s : Vfs) (i offset n end : ℕ) (buffer : ℕ → ℕ)
    → (store_at s i offset n end buffer).files
      ≡ modify s.files i (λ f. stored f offset n end buffer)
unfolding store_at stored
store_at-files s i offset n end buffer = refl

stored-size :
    (f : MemFile) (offset n end : ℕ) (buffer : ℕ → ℕ)
    → offset + n ≤ end
    → offset + n ≤ (stored f offset n end buffer).size
unfolding stored
stored-size f offset n end buffer l = ground arith

stored-has_inode :
    (inode offset n end : ℕ) (buffer : ℕ → ℕ) (f : MemFile)
    → has_inode inode (stored f offset n end buffer) ≡ has_inode inode f
unfolding stored
stored-has_inode inode offset n end buffer f = refl

stored-bytes :
    (f : MemFile) (offset n end : ℕ) (buffer : ℕ → ℕ)
    → read_bytes (stored f offset n end buffer).data_of offset n ≡ read_bytes buffer 0 n
unfolding stored
stored-bytes f offset n end buffer =
    let z : offset + 0 ≡ offset = omega arith in
    subst (λ x. read_bytes (write_bytes f.data_of offset buffer n) x n ≡ read_bytes buffer 0 n) z
      (read_bytes-written f.data_of offset buffer n 0 n (omega arith))

memfs_read-stored :
    (s : Vfs) (i offset n end : ℕ) (buffer : ℕ → ℕ)
    → find_index (has_inode s.found.inode) s.files ≡ some i
    → offset + n ≤ end
    → memfs_read (store_at s i offset n end buffer).files s.found.inode offset n
      ≡ read_bytes buffer 0 n
memfs_read-stored s i offset n end buffer e l =
    let f = get_or s.files i zero_file in
    let w : MemFile → MemFile = λ x. stored x offset n end buffer in
    let found : Found (has_inode s.found.inode) s.files i zero_file =
      find_index-Found (has_inode s.found.inode) s.files i zero_file e in
    let still : find_index (has_inode s.found.inode) (modify s.files i w) ≡ some i =
      find_index-modify (has_inode s.found.inode) s.files i w
        (stored-has_inode s.found.inode offset n end buffer)
      ∙ e in
    rw (store_at-files s i offset n end buffer) (
      memfs_read-at (modify s.files i w) s.found.inode i offset n (w f) still
        (get_or-modify_self s.files i w zero_file found.inside)
        (stored-size f offset n end buffer l)
      ∙ stored-bytes f offset n end buffer)

-- A write into a file in use, at an offset of at most 4096 and with offset + size below 2^32,
-- takes as many bytes as the file has room for, up to its 4096, stays inside its array, and a read
-- of that many bytes at the same offset returns what was written.
pub memfs_write-memfs_read :
    (s : Vfs) (i offset size : ℕ) (buffer : ℕ → ℕ)
    → find_index (has_inode s.found.inode) s.files ≡ some i
    → offset ≤ memfs_max_filesize
    → offset + size < u32_mod
    → (s' : Vfs) × (memfs_write s offset size buffer
        ≡ some (min size (memfs_max_filesize - offset), s'))
      × (memfs_read s'.files s.found.inode offset (min size (memfs_max_filesize - offset))
          ≡ read_bytes buffer 0 (min size (memfs_max_filesize - offset)))
memfs_write-memfs_read s i offset size buffer e l w =
    let n = min size (memfs_max_filesize - offset) in
    let end = min (offset + size) memfs_max_filesize in
    (
      store_at s i offset n end buffer,
      memfs_write-stores s i offset size n end buffer e (clip-inside offset size l w) (omega arith),
      memfs_read-stored s i offset n end buffer e (omega arith),
    )
