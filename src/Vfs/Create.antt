-- ===== src/Vfs/Create.antt =====
-- vfs_open with VFS_O_CREATE: the file that it makes, and whether it is found again.
use korus_os.Prelude.{
  ℕ, zero, suc, ◌-◌, ◌≤◌, ◌<◌, ◌≡◌, ◌≢◌, refl, Bool, true, false, not, Option, none, some, List, [],
  ◌∷◌, arith, ==-self, if◌then◌else◌, add32, Bool-cases, Option-cases, inl, inr, ◌⊎◌, ◌∙◌, subst,
  sym, ap, length, take, get_or, modify, find_index, find_index-Found, find_index-none, Found,
  get_or-modify_self, get_or-modify_ne, dec_lt,
}
use korus_os.Vfs.Memfs.{
  MemFile, VfsNode, NodePtr, zero_file, Vfs, memfs_finddir, is_named, is_used, same_name,
  vfs_name_len,
}
use korus_os.Vfs.{create_file, new_file}

same_name_self : (xs : List ℕ) → same_name xs xs ≡ true
unfolding same_name
same_name_self [] = refl
same_name_self (x ∷ xs) = rw (==-self x) (same_name_self xs)

same_name-cut : (n : ℕ) (xs : List ℕ) → n < length xs → same_name (take n xs) xs ≡ false
unfolding same_name
same_name-cut n [] l = absurd (omega arith)
same_name-cut zero (x ∷ xs) l = refl
same_name-cut (suc n) (x ∷ xs) l = rw (==-self x) (same_name-cut n xs (omega arith))

take-all : (n : ℕ) (xs : List ℕ) → length xs ≤ n → take n xs ≡ xs
take-all zero [] l = refl
take-all zero (x ∷ xs) l = absurd (omega arith)
take-all (suc n) [] l = refl
take-all (suc n) (x ∷ xs) l = ap (λ ys. x ∷ ys) (take-all n xs (omega arith))

-- The search in a table that no slot of passed, after one slot was written.
find_index-written :
    (p : MemFile → Bool) (xs : List MemFile) (i : ℕ) (f : MemFile → MemFile)
    → find_index p xs ≡ none
    → i < length xs
    → find_index p (modify xs i f) ≡ (if p (f (get_or xs i zero_file)) then some i else none)
unfolding find_index
find_index-written p [] i f e l = absurd (omega arith)
find_index-written p (x ∷ xs) zero f e l = elim (Bool-cases (p x)) [
  | inl t ↦ absurd (ground arith)
  | inr t ↦ elim (Option-cases (find_index p xs)) [
    | inl z ↦ elim (Bool-cases (p (f x))) [ inl g ↦ rw (g) refl | inr g ↦ rw (g, z) refl ]
    | inr (k, z) ↦ absurd (ground arith)
  ]
]
find_index-written p (x ∷ xs) (suc i) f e l = elim (Bool-cases (p x)) [
  | inl t ↦ absurd (ground arith)
  | inr t ↦ elim (Option-cases (find_index p xs)) [
    | inl z ↦
        let h = find_index-written p xs i f z (omega arith) in
        elim (Bool-cases (p (f (get_or xs i zero_file)))) [
          | inl g ↦ rw (t, g, h) (rw g refl)
          | inr g ↦ rw (t, g, h) (rw g refl)
        ]
    | inr (k, z) ↦ absurd (ground arith)
  ]
]

-- The files with the new one in slot `i`.
abbrev with_file : Vfs → List ℕ → ℕ → Vfs
with_file s fn i = record s {
  files = modify s.files i (new_file s.inode_counter fn);
  inode_counter = add32 s.inode_counter 1;
  file_count = add32 s.file_count 1;
}

create_file-full :
    (s : Vfs) (fn : List ℕ)
    → find_index (λ f. not (is_used f)) s.files ≡ none
    → create_file s fn ≡ (none, s)
unfolding create_file
create_file-full s fn e = rw (e, create_file) refl

create_file-free :
    (s : Vfs) (fn : List ℕ) (i : ℕ)
    → find_index (λ f. not (is_used f)) s.files ≡ some i
    → create_file s fn ≡ memfs_finddir (with_file s fn i) fn
unfolding create_file
create_file-free s fn i e = rw (e, create_file) refl

memfs_finddir-none :
    (s : Vfs) (name : List ℕ)
    → find_index (is_named name) s.files ≡ none
    → memfs_finddir s name ≡ (none, s)
unfolding memfs_finddir
memfs_finddir-none s name e = rw (e, memfs_finddir) refl

-- found_node for a file.
abbrev node_of : MemFile → VfsNode
node_of f = record { name = take (vfs_name_len - 1) f.name; inode = f.inode; size = f.size }

memfs_finddir-some :
    (s : Vfs) (name : List ℕ) (i : ℕ)
    → find_index (is_named name) s.files ≡ some i
    → memfs_finddir s name
      ≡ (some NodePtr.found_node, record s { found = node_of (get_or s.files i zero_file) })
unfolding memfs_finddir
memfs_finddir-some s name i e = rw (e, memfs_finddir) refl

-- The new file in a slot that was free: used, empty, with the next inode and the name cut to 255
-- characters; all other files as they were.
pub record Made (s : Vfs) (fn : List ℕ) (i : ℕ) (s' : Vfs) : Type 0 where
  pub was_free : is_used (get_or s.files i zero_file) ≡ false
  pub used : (get_or s'.files i zero_file).used ≡ true
  pub size : (get_or s'.files i zero_file).size ≡ 0
  pub inode : (get_or s'.files i zero_file).inode ≡ s.inode_counter
  pub name : (get_or s'.files i zero_file).name ≡ take (vfs_name_len - 1) fn
  pub others : (j : ℕ) → j ≢ i → get_or s'.files j zero_file ≡ get_or s.files j zero_file

-- What VFS_O_CREATE comes to.
abbrev pub Creates : Vfs → List ℕ → Option NodePtr × Vfs → Type 0
Creates s fn r =
    (((i : ℕ) → i < length s.files → is_used (get_or s.files i zero_file) ≡ true) × (r ≡ (none, s)))
    ⊎ ((i : ℕ) × Made s fn i r.1
        × (((length fn < vfs_name_len)
              × (r.0 ≡ some NodePtr.found_node)
              × (r.1.found ≡ record { name = fn; inode = s.inode_counter; size = 0 })
              × (memfs_finddir r.1 fn ≡ r))
            ⊎ ((vfs_name_len ≤ length fn) × (r.0 ≡ none) × (memfs_finddir r.1 fn ≡ r))))

unused : (f : MemFile) → not (is_used f) ≡ true → is_used f ≡ false
unused f h = ground arith

in_use : (f : MemFile) → not (is_used f) ≡ false → is_used f ≡ true
in_use f h = ground arith

with_file-Made :
    (s : Vfs) (fn : List ℕ) (i : ℕ)
    → find_index (λ f. not (is_used f)) s.files ≡ some i
    → Made s fn i (with_file s fn i)
with_file-Made s fn i e =
    let f : Found (λ x. not (is_used x)) s.files i zero_file =
      find_index-Found (λ x. not (is_used x)) s.files i zero_file e in
    let w = get_or-modify_self s.files i (new_file s.inode_counter fn) zero_file f.inside in
    record {
      was_free = unused (get_or s.files i zero_file) f.passes;
      used = ap (λ x. x.used) w;
      size = ap (λ x. x.size) w;
      inode = ap (λ x. x.inode) w;
      name = ap (λ x. x.name) w;
      others = λ j ne.
          get_or-modify_ne s.files i j (new_file s.inode_counter fn) zero_file (λ q. ne (sym q));
    }

-- A name of 255 characters or less is found in the new file.
short_found :
    (s : Vfs) (fn : List ℕ) (i : ℕ)
    → find_index (is_named fn) s.files ≡ none
    → i < length s.files
    → length fn < vfs_name_len
    → find_index (is_named fn) (with_file s fn i).files ≡ some i
short_found s fn i e l k =
    let cut : take (vfs_name_len - 1) fn ≡ fn = take-all (vfs_name_len - 1) fn (omega arith) in
    let named : same_name (take (vfs_name_len - 1) fn) fn ≡ true =
      ap (λ x. same_name x fn) cut ∙ same_name_self fn in
    find_index-written (is_named fn) s.files i (new_file s.inode_counter fn) e l
    ∙ ap (λ b. if b then some i else none) named

long_lost :
    (s : Vfs) (fn : List ℕ) (i : ℕ)
    → find_index (is_named fn) s.files ≡ none
    → i < length s.files
    → vfs_name_len ≤ length fn
    → find_index (is_named fn) (with_file s fn i).files ≡ none
long_lost s fn i e l k =
    find_index-written (is_named fn) s.files i (new_file s.inode_counter fn) e l
    ∙ ap (λ b. if b then some i else none) (same_name-cut (vfs_name_len - 1) fn (omega arith))

node_of-new :
    (s : Vfs) (fn : List ℕ) (i : ℕ)
    → i < length s.files
    → length fn < vfs_name_len
    → node_of (get_or (with_file s fn i).files i zero_file)
      ≡ record { name = fn; inode = s.inode_counter; size = 0 }
node_of-new s fn i l k =
    let cut : take (vfs_name_len - 1) fn ≡ fn = take-all (vfs_name_len - 1) fn (omega arith) in
    let node : List ℕ → VfsNode = λ x. record { name = x; inode = s.inode_counter; size = 0 } in
    ap node_of (get_or-modify_self s.files i (new_file s.inode_counter fn) zero_file l)
    ∙ ap (λ x. node (take (vfs_name_len - 1) x)) cut
    ∙ ap node cut

made :
    (s : Vfs) (fn : List ℕ) (i : ℕ)
    → find_index (is_named fn) s.files ≡ none
    → find_index (λ f. not (is_used f)) s.files ≡ some i
    → Creates s fn (memfs_finddir (with_file s fn i) fn)
made s fn i e q =
    let f : Found (λ x. not (is_used x)) s.files i zero_file =
      find_index-Found (λ x. not (is_used x)) s.files i zero_file q in
    let m = with_file-Made s fn i q in
    let s1 = with_file s fn i in
    elim (dec_lt (length fn) vfs_name_len) [
      | yes k ↦
          let at = short_found s fn i e f.inside k in
          let s2 : Vfs = record s1 { found = node_of (get_or s1.files i zero_file) } in
          subst (Creates s fn) (sym (memfs_finddir-some s1 fn i at)) (
            inr (
              i,
              record {
                was_free = m.was_free;
                used = m.used;
                size = m.size;
                inode = m.inode;
                name = m.name;
                others = m.others;
              },
              inl (k, refl, node_of-new s fn i f.inside k, memfs_finddir-some s2 fn i at),
            ))
      | no k ↦
          let lost = long_lost s fn i e f.inside (omega arith) in
          subst (Creates s fn) (sym (memfs_finddir-none s1 fn lost))
            (inr (i, m, inr (omega arith, refl, memfs_finddir-none s1 fn lost)))
    ]

-- Opening a file that is not there with VFS_O_CREATE. With every slot in use nothing is made and nothing
-- changes. Else the file stands in a slot that was free, used and empty, with the next inode and the
-- name cut to 255 characters, all other files as they were. A name of up to 255 characters is found
-- in it at once, and found again by the next search; a longer name is not, so that the open fails
-- and the slot stays taken.
pub create_file-Creates :
    (s : Vfs) (fn : List ℕ)
    → find_index (is_named fn) s.files ≡ none
    → Creates s fn (create_file s fn)
create_file-Creates s fn e = elim (Option-cases (find_index (λ f. not (is_used f)) s.files)) [
  | inl q ↦ subst (Creates s fn) (sym (create_file-full s fn q)) (
      inl (
        (λ i l.
            in_use (get_or s.files i zero_file)
              (find_index-none (λ f. not (is_used f)) s.files i zero_file q l)),
        refl,
      ))
  | inr (i, q) ↦ subst (Creates s fn) (sym (create_file-free s fn i q)) (made s fn i e q)
]
