-- ===== src/Memory/Paging/Map.antt =====
-- The steps of map_page: a new table for a directory entry, and an entry in a table. They keep the
-- tables separate and change the translation of no page but one.
use korus_os.Prelude.{
  ℕ, ◌+◌, ◌*◌, ◌/◌, ◌%◌, ◌≡◌, ◌≢◌, refl, ℕ_discrete, Bool, true, false, ◌&&◌, some, arith, ◌==◌,
  if◌then◌else◌, update, Bool-cases, inl, inr, ◌⊎◌, sym, ◌∙◌, ==_of_ne, ==-self,
}
use mathlib.Core.Bool.{false≢true}
use korus_os.Memory.Frames.{Frames, page_size, alloc_page}
use korus_os.Memory.Frames.Find.{in_use}
use korus_os.Memory.Frames.Alloc.{IsValid, Allocates, alloc_page-Allocates, alloc_page-IsValid}
use korus_os.Memory.Paging.{
  Paging, zero_entry, page_present, dir_index, table_index, alloc_zeroed, zero_page, write_entry,
  set_directory, translate,
}

-- The page tables are frames in use, and no two directory entries share one.
pub record IsSeparate (p : Paging) : Type 0 where
  pub counted : IsValid p.frames
  pub tables_used :
      (d : ℕ) → (p.directory d).present ≡ true → in_use p.frames.bitmap (p.directory d).frame ≡ true
  pub distinct :
      (d e : ℕ)
      → (p.directory d).present ≡ true
      → (p.directory e).present ≡ true
      → (p.directory d).frame ≡ (p.directory e).frame
      → d ≡ e

-- Two addresses of one page.
abbrev pub same_page : ℕ → ℕ → Bool
same_page v w = v / page_size == w / page_size

pub same_page-indices :
    (v w : ℕ) → same_page v w ≡ (dir_index v == dir_index w && table_index v == table_index w)
same_page-indices v w = ground arith

-- The table that an entry is written to, and every other one.
write_entry-here :
    (p : Paging) (v w phys flags : ℕ)
    → dir_index v ≡ dir_index w
    → (p.directory (dir_index v)).present ≡ true
    → page_present flags ≡ true
    → translate (write_entry p v phys flags) w ≡ (
        if table_index v == table_index w
        then some (phys / page_size * page_size + w % page_size)
        else translate p w)
unfolding translate write_entry
write_entry-here p v w phys flags e h f =
    rw (← e, h, ==-self (p.directory (dir_index v)).frame)
      (elim (ℕ_discrete (table_index v) (table_index w)) [
        | yes t ↦ rw (t, ==-self (table_index w), f)
        | no t ↦ rw (==_of_ne _ _ t)
      ])

write_entry-elsewhere :
    (p : Paging) (v w phys flags : ℕ)
    → IsSeparate p
    → dir_index v ≢ dir_index w
    → (p.directory (dir_index v)).present ≡ true
    → translate (write_entry p v phys flags) w ≡ translate p w
unfolding translate write_entry
write_entry-elsewhere p v w phys flags s ne h =
    elim (Bool-cases (p.directory (dir_index w)).present) [
      | inr t ↦ rw t
      | inl t ↦ rw (
        t,
        ==_of_ne (p.directory (dir_index v)).frame (p.directory (dir_index w)).frame
            (λ e. ne (s.distinct _ _ h t e)),
      )
    ]

-- Where the directory entry is present, the page of `v` is then translated as mapped, and no other
-- page's translation changes.
pub translate-write_entry :
    (p : Paging) (v w phys flags : ℕ)
    → IsSeparate p
    → (p.directory (dir_index v)).present ≡ true
    → page_present flags ≡ true
    → translate (write_entry p v phys flags) w ≡ (
        if same_page v w
        then some (phys / page_size * page_size + w % page_size)
        else translate p w)
translate-write_entry p v w phys flags s h f = elim (ℕ_discrete (dir_index v) (dir_index w)) [
  | yes e ↦
      let ix : same_page v w ≡ (table_index v == table_index w) =
        same_page-indices v w ∙ rw (e, ==-self (dir_index w)) in
      rw ix (write_entry-here p v w phys flags e h f)
  | no ne ↦
      let ix : same_page v w ≡ false =
        same_page-indices v w ∙ rw (==_of_ne (dir_index v) (dir_index w) ne) in
      rw ix (write_entry-elsewhere p v w phys flags s ne h)
]

-- What alloc_zeroed does beside the frames: the new page, if there is one, is a table of zeros, in a
-- frame that no directory entry names.
abbrev pub Zeroed : Paging → ℕ → Paging → Type 0
Zeroed p a q =
    (q.directory ≡ p.directory)
    × ((a ≡ 0) × (q.tables ≡ p.tables)
        ⊎ ((a ≢ 0)
            × (q.tables ≡ update p.tables (a / page_size) (λ i. zero_entry))
            × (in_use p.frames.bitmap (a / page_size) ≡ false)
            × (in_use q.frames.bitmap (a / page_size) ≡ true)))

zero_page-cases :
    (p : Paging) (a : ℕ) (f : Frames)
    → IsSeparate p
    → Allocates p.frames a f
    → IsValid f
    → IsSeparate (zero_page p a f).1 × Zeroed p (zero_page p a f).0 (zero_page p a f).1
zero_page-cases p a f s (inl (z, e, _)) v = rw z (
  record { counted = v; tables_used = λ d t. rw e (s.tables_used d t); distinct = s.distinct },
  (refl, inl (refl, refl)),
)
zero_page-cases p a f s (inr (k, e, l, u, c, b, i, w, _, _)) v =
    let at : a / page_size ≡ k = omega (arith, e) in
    simp (==_of_ne a 0 (omega (arith, e))) (
      record {
        counted = v;
        tables_used = λ d t. i (p.directory d).frame ∙ rw (s.tables_used d t) (ground arith);
        distinct = s.distinct;
      },
      (refl, inr (omega (arith, e), refl, rw at c, rw at (i k ∙ rw (==-self k)))),
    )

pub alloc_zeroed-cases :
    (p : Paging)
    → IsSeparate p
    → IsSeparate (alloc_zeroed p).1 × Zeroed p (alloc_zeroed p).0 (alloc_zeroed p).1
unfolding alloc_zeroed
alloc_zeroed-cases p s =
    zero_page-cases p (alloc_page p.frames).0 (alloc_page p.frames).1 s
      (alloc_page-Allocates p.frames s.counted) (alloc_page-IsValid p.frames s.counted)

-- A new table for a directory entry that was absent: nothing is mapped yet, and the tables are still
-- separate.
module _ (p q : Paging) (v a flags : ℕ) (s : IsSeparate p) (t : IsSeparate q)
    (same : q.directory ≡ p.directory)
    (zeroed : q.tables ≡ update p.tables (a / page_size) (λ i. zero_entry))
    (fresh : in_use p.frames.bitmap (a / page_size) ≡ false)
    (taken : in_use q.frames.bitmap (a / page_size) ≡ true)
    (absent : (p.directory (dir_index v)).present ≡ false) where
  -- No present entry names the new frame.
  not-fresh : (d : ℕ) → (p.directory d).present ≡ true → a / page_size ≢ (p.directory d).frame
  not-fresh d h e = false≢true (sym fresh ∙ rw e (s.tables_used d h))

  pub translate-set_directory : (w : ℕ) → translate (set_directory q v a flags) w ≡ translate p w
  unfolding translate set_directory
  translate-set_directory w = elim (ℕ_discrete (dir_index v) (dir_index w)) [
    | yes e ↦
        let gone : (p.directory (dir_index w)).present ≡ false = rw (← e) absent in
        rw (zeroed, e, ==-self (dir_index w), gone, ==-self (a / page_size))
    | no ne ↦ elim (Bool-cases (p.directory (dir_index w)).present) [
      | inr g ↦ rw (same, zeroed, ==_of_ne _ _ ne, g)
      | inl g ↦ rw (same, zeroed, ==_of_ne _ _ ne, ==_of_ne _ _ (not-fresh (dir_index w) g))
    ]
  ]

  abbrev pub set : Paging
  set = set_directory q v a flags

  -- The entry that is set names the new frame, and every other one is as before.
  abbrev EntryCases : ℕ → Type 0
  EntryCases d =
      ((dir_index v ≡ d) × ((set.directory d).frame ≡ a / page_size))
      ⊎ ((dir_index v ≢ d) × (set.directory d ≡ p.directory d))

  entry_cases : (d : ℕ) → EntryCases d
  unfolding set_directory
  entry_cases d = elim (ℕ_discrete (dir_index v) d) [
    | yes e ↦ inl (e, rw (e, ==-self d))
    | no ne ↦ inr (ne, rw (==_of_ne _ _ ne, same))
  ]

  frames_set : set.frames ≡ q.frames
  unfolding set_directory
  frames_set = refl

  set-used :
      (d : ℕ)
      → (set.directory d).present ≡ true
      → EntryCases d
      → in_use set.frames.bitmap (set.directory d).frame ≡ true
  set-used d h (inl (e, f)) = rw (f, frames_set) taken
  set-used d h (inr (ne, f)) = rw (f, frames_set, ← same) (t.tables_used d (rw (same, ← f) h))

  set-distinct :
      (d e : ℕ)
      → (set.directory d).present ≡ true
      → (set.directory e).present ≡ true
      → (set.directory d).frame ≡ (set.directory e).frame
      → EntryCases d
      → EntryCases e
      → d ≡ e
  set-distinct d e h k f (inl (x, _)) (inl (y, _)) = sym x ∙ y
  set-distinct d e h k f (inl (x, z)) (inr (y, g)) =
      absurd (not-fresh e (rw (← g) k) (sym z ∙ f ∙ rw g refl))
  set-distinct d e h k f (inr (x, g)) (inl (y, z)) =
      absurd (not-fresh d (rw (← g) h) (sym z ∙ sym f ∙ rw g refl))
  set-distinct d e h k f (inr (x, g)) (inr (y, g')) =
      s.distinct d e (rw (← g) h) (rw (← g') k) (rw (← g, ← g') f)

  pub set_directory-IsSeparate : IsSeparate set
  set_directory-IsSeparate = record {
    counted = rw frames_set t.counted;
    tables_used = λ d h. set-used d h (entry_cases d);
    distinct = λ d e h k f. set-distinct d e h k f (entry_cases d) (entry_cases e);
  }

pub write_entry-IsSeparate :
    (p : Paging) (v phys flags : ℕ) → IsSeparate p → IsSeparate (write_entry p v phys flags)
unfolding write_entry
write_entry-IsSeparate p v phys flags s = record {
  counted = s.counted;
  tables_used = s.tables_used;
  distinct = s.distinct;
}

pub set-present :
    (q : Paging) (v a flags : ℕ)
    → ((set_directory q v a flags).directory (dir_index v)).present ≡ true
unfolding set_directory
set-present q v a flags = rw (==-self (dir_index v))
