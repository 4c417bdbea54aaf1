-- ===== src/Report/Files.antt =====
-- vfs_list and memfs_readdir against the list of the files in use.
use korus_os.Prelude.{
  ℕ, zero, suc, ◌+◌, ◌-◌, ◌≤◌, ◌≡◌, refl, none, some, List, [], ◌∷◌, arith, if◌then◌else◌,
  Bool-cases, Option-cases, none≢some, inl, inr, sym, ◌∙◌, ap, length, get_elem?, take, drop,
}
use mathlib.Core.Option.{some-injective}
use korus_os.Vfs.Memfs.{MemFile, memfs_readdir, vfs_name_len}
use korus_os.Report.{read_entries}

-- The directory: name and inode of each file in use, in the order of the table.
abbrev pub directory : List MemFile → List (List ℕ × ℕ)
directory [] = []
directory (f ∷ fs) =
    let rest = directory fs in
    if f.used then (take (vfs_name_len - 1) f.name, f.inode) ∷ rest else rest

-- memfs_readdir, whichever index it is asked for, gives the entry of that index in the directory, and
-- NULL past its end.
pub memfs_readdir-directory :
    (files : List MemFile) (index : ℕ)
    → memfs_readdir files index ≡ get_elem? (directory files) index
unfolding memfs_readdir
memfs_readdir-directory [] index = refl
memfs_readdir-directory (f ∷ fs) zero = elim (Bool-cases (f.used)) [
  | inl e ↦ rw e
  | inr e ↦ rw e (memfs_readdir-directory fs zero)
]
memfs_readdir-directory (f ∷ fs) (suc index) = elim (Bool-cases (f.used)) [
  | inl e ↦ rw e (memfs_readdir-directory fs index)
  | inr e ↦ rw e (memfs_readdir-directory fs (suc index))
]

length-directory : (files : List MemFile) → length (directory files) ≤ length files
length-directory [] = omega arith
length-directory (f ∷ fs) = elim (Bool-cases (f.used)) [
  | inl e ↦ rw e (omega (arith, length-directory fs))
  | inr e ↦ rw e (omega (arith, length-directory fs))
]

module _ {ℓ} {A : Type ℓ} where
  drop-at :
      (xs : List A) (i : ℕ) (x : A) → get_elem? xs i ≡ some x → drop i xs ≡ x ∷ drop (suc i) xs
  drop-at [] i x e = absurd (none≢some x e)
  drop-at (y ∷ ys) zero x e = ap (λ z. z ∷ ys) (some-injective y x e)
  drop-at (y ∷ ys) (suc i) x e = drop-at ys i x e

  drop-end : (xs : List A) (i : ℕ) → get_elem? xs i ≡ none → drop i xs ≡ []
  drop-end [] zero e = refl
  drop-end [] (suc i) e = refl
  drop-end (y ∷ ys) zero e = absurd (none≢some y (sym e))
  drop-end (y ∷ ys) (suc i) e = drop-end ys i e

  drop-past : (xs : List A) (i : ℕ) → length xs ≤ i → drop i xs ≡ []
  drop-past [] zero h = refl
  drop-past [] (suc i) h = refl
  drop-past (y ∷ ys) zero h = absurd (omega arith)
  drop-past (y ∷ ys) (suc i) h = drop-past ys i (omega arith)

read_entries-from :
    (n : ℕ) (files : List MemFile) (i : ℕ)
    → length (directory files) ≤ i + n
    → read_entries n files i ≡ drop i (directory files)
unfolding read_entries
read_entries-from zero files i h = sym (drop-past (directory files) i (omega arith))
read_entries-from (suc n) files i h =
    let next : i + 1 ≡ suc i = omega arith in
    elim (Option-cases (get_elem? (directory files) i)) [
      | inl e ↦
          rw (memfs_readdir-directory files i ∙ e, read_entries)
            (sym (drop-end (directory files) i e))
      | inr (x, e) ↦
          rw (memfs_readdir-directory files i ∙ e, read_entries)
            (ap (λ r. x ∷ r)
                (read_entries-from n files (i + 1) (omega arith)
                  ∙ ap (λ k. drop k (directory files)) next)
              ∙ sym (drop-at (directory files) i x e))
    ]

-- The loop of vfs_list ends at the end of the directory, within one round more than there are files, and
-- the entries that it reads are the whole directory: each file in use once, in the order of the table.
pub read_entries-directory :
    (files : List MemFile) → read_entries (length files + 1) files 0 ≡ directory files
read_entries-directory files =
    read_entries-from (length files + 1) files 0 (omega (arith, length-directory files))
