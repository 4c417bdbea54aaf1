-- ===== src/Memory/Paging/Translate.antt =====
-- map_page and unmap_page against the translation of addresses.
use korus_os.Prelude.{
  ℕ, ◌+◌, ◌*◌, ◌/◌, ◌%◌, ◌≡◌, ◌≢◌, ℕ_discrete, true, false, none, some, arith, ◌==◌, if◌then◌else◌,
  Bool-cases, inl, inr, ◌⊎◌, ◌∙◌, ==_of_ne, ==-self, ap,
}
use korus_os.Memory.Frames.{page_size}
use korus_os.Memory.Paging.{
  Paging, page_present, dir_index, table_index, alloc_zeroed, write_entry, set_directory, map_page,
  unmap_page, clear_present, translate,
}
use korus_os.Memory.Paging.Map.{
  set-present, IsSeparate, same_page, Zeroed, translate-write_entry, alloc_zeroed-cases,
  write_entry-IsSeparate, translate-set_directory, set_directory-IsSeparate, same_page-indices,
}

-- What a call of map_page may do to the translation: it maps the page of `v` and no other, or there
-- was neither a table nor a frame for one and it changes nothing.
abbrev pub Maps : Paging → ℕ → ℕ → Paging → Type 0
Maps p v phys q =
    ((w : ℕ)
      → translate q w ≡ (
          if same_page v w
          then some (phys / page_size * page_size + w % page_size)
          else translate p w))
    ⊎ (((p.directory (dir_index v)).present ≡ false)
        × ((alloc_zeroed p).0 ≡ 0)
        × ((w : ℕ) → translate q w ≡ translate p w))

pub map_page-present :
    (p : Paging) (v phys flags : ℕ)
    → (p.directory (dir_index v)).present ≡ true
    → map_page p v phys flags ≡ write_entry p v phys flags
unfolding map_page
map_page-present p v phys flags h = rw h

pub map_page-full :
    (p : Paging) (v phys flags : ℕ)
    → (p.directory (dir_index v)).present ≡ false
    → (alloc_zeroed p).0 ≡ 0
    → map_page p v phys flags ≡ (alloc_zeroed p).1
unfolding map_page
map_page-full p v phys flags h z = rw (h, z)

pub map_page-new :
    (p : Paging) (v phys flags : ℕ)
    → (p.directory (dir_index v)).present ≡ false
    → (alloc_zeroed p).0 ≢ 0
    → map_page p v phys flags
      ≡ write_entry (set_directory (alloc_zeroed p).1 v (alloc_zeroed p).0 flags) v phys flags
unfolding map_page
map_page-new p v phys flags h z = rw (h, ==_of_ne _ 0 z)

translate-agree :
    (p q : Paging)
    → q.directory ≡ p.directory
    → q.tables ≡ p.tables
    → (w : ℕ) → translate q w ≡ translate p w
unfolding translate
translate-agree p q d t w = rw (d, t)

map_page-Maps_new :
    (p : Paging) (v phys flags : ℕ)
    → IsSeparate p
    → page_present flags ≡ true
    → (p.directory (dir_index v)).present ≡ false
    → Zeroed p (alloc_zeroed p).0 (alloc_zeroed p).1
    → IsSeparate (alloc_zeroed p).1
    → IsSeparate (map_page p v phys flags) × Maps p v phys (map_page p v phys flags)
map_page-Maps_new p v phys flags s f h (same, inl (z, tables)) t =
    rw (map_page-full p v phys flags h z)
      (t, inr (h, z, translate-agree p (alloc_zeroed p).1 same tables))
map_page-Maps_new p v phys flags s f h (same, inr (live, tables, fresh, taken)) t =
    let q = (alloc_zeroed p).1 in
    let a = (alloc_zeroed p).0 in
    let r = set_directory q v a flags in
    let sep = set_directory-IsSeparate p q v a flags s t same tables fresh taken h in
    rw (map_page-new p v phys flags h live) (
      write_entry-IsSeparate r v phys flags sep,
      inl (λ w.
          translate-write_entry r v w phys flags sep (set-present q v a flags) f
          ∙ ap
              (λ x.
                if same_page v w then some (phys / page_size * page_size + w % page_size) else x)
              (translate-set_directory p q v a flags s t same tables fresh taken h w)),
    )

-- map_page, with separate tables and the present flag: the tables stay separate, and the call either
-- maps every address of the page of `virt` to its place in the frame of `phys` and changes no other
-- page's translation, or it changes nothing, and this only where the page has no table and
-- alloc_page finds no frame.
pub map_page-Maps :
    (p : Paging) (virt phys flags : ℕ)
    → IsSeparate p
    → page_present flags ≡ true
    → IsSeparate (map_page p virt phys flags) × Maps p virt phys (map_page p virt phys flags)
map_page-Maps p virt phys flags s f = elim (Bool-cases (p.directory (dir_index virt)).present) [
  | inl h ↦ rw (map_page-present p virt phys flags h) (
    write_entry-IsSeparate p virt phys flags s,
    inl (λ w. translate-write_entry p virt w phys flags s h f),
  )
  | inr h ↦ let (t, z) = alloc_zeroed-cases p s in map_page-Maps_new p virt phys flags s f h z t
]

clear_present-here :
    (p : Paging) (v w : ℕ)
    → dir_index v ≡ dir_index w
    → translate (clear_present p v) w
      ≡ (if table_index v == table_index w then none else translate p w)
unfolding translate clear_present
clear_present-here p v w e =
    rw (← e, ==-self (p.directory (dir_index v)).frame)
      (elim (ℕ_discrete (table_index v) (table_index w)) [
        | yes t ↦ rw (t, ==-self (table_index w)) (ground arith)
        | no t ↦ rw (==_of_ne _ _ t)
      ])

clear_present-elsewhere :
    (p : Paging) (v w : ℕ)
    → IsSeparate p
    → dir_index v ≢ dir_index w
    → (p.directory (dir_index v)).present ≡ true
    → translate (clear_present p v) w ≡ translate p w
unfolding translate clear_present
clear_present-elsewhere p v w s ne h = elim (Bool-cases (p.directory (dir_index w)).present) [
  | inr t ↦ rw t
  | inl t ↦ rw (t, ==_of_ne _ _ (λ e. ne (s.distinct _ _ h t e)))
]

-- Without a directory entry nothing is translated.
translate-absent :
    (p : Paging) (w : ℕ) → (p.directory (dir_index w)).present ≡ false → translate p w ≡ none
unfolding translate
translate-absent p w h = rw h

-- unmap_page, with separate tables: no address of the page is translated any more, and every other
-- page is as before.
pub unmap_page-translate :
    (p : Paging) (virt w : ℕ)
    → IsSeparate p
    → translate (unmap_page p virt) w ≡ (if same_page virt w then none else translate p w)
unfolding unmap_page
unmap_page-translate p virt w s = elim (Bool-cases (p.directory (dir_index virt)).present) [
  | inr h ↦ elim (ℕ_discrete (dir_index virt) (dir_index w)) [
    | yes e ↦ rw (h, translate-absent p w (rw e at h)) (ground arith)
    | no ne ↦ rw (h, same_page-indices virt w, ==_of_ne _ _ ne)
  ]
  | inl h ↦ elim (ℕ_discrete (dir_index virt) (dir_index w)) [
    | yes e ↦
        rw (h, same_page-indices virt w, e, ==-self (dir_index w)) (clear_present-here p virt w e)
    | no ne ↦
        rw (h, same_page-indices virt w, ==_of_ne _ _ ne) (clear_present-elsewhere p virt w s ne h)
  ]
]
