-- ===== src/Memory/Paging/Init.antt =====
-- What init_memory maps, and where it puts the table for it.
use korus_os.Prelude.{
  ℕ, zero, suc, ◌+◌, ◌*◌, ◌/◌, ◌%◌, ◌≤◌, ◌<◌, ◌≡◌, refl, dec_lt, ℕ_discrete, true, false, some,
  arith, if◌then◌else◌, inl, inr, sym, ◌∙◌, subst, ==_of_ne, ==-self, ap,
}
use mathlib.Core.Bool.{false≢true}
use korus_os.Memory.Frames.{
  Frames, page_size, alloc_page, init_frames, reserved_frames, count_frames,
}
use korus_os.Memory.Frames.Find.{in_use}
use korus_os.Memory.Frames.Alloc.{
  Allocates, alloc_page-Allocates, init_frames-IsValid, init_frames-total,
}
use korus_os.Prelude.Bits.{test_bit}
use korus_os.Memory.Heap.{heap_start, heap_max_size}
use korus_os.Memory.Paging.{
  Paging, PageEntry, zero_entry, page_present, dir_index, alloc_zeroed, write_entry, set_directory,
  map_page, translate, identity_map, init_memory,
}
use korus_os.Memory.Paging.Map.{
  IsSeparate, same_page, translate-write_entry, write_entry-IsSeparate, set-present,
}
use korus_os.Memory.Paging.Translate.{Maps, map_page-Maps, map_page-present, map_page-new}

-- The first allocation after the kernel's frames.
first_page :
    (f : Frames) (a : ℕ) (g : Frames)
    → Allocates f a g
    → ((n : ℕ) → reserved_frames ≤ n → in_use f.bitmap n ≡ false)
    → 544 ≤ f.total
    → a ≡ 0x20_0000
first_page f a g (inl (z, e, u)) free h =
    absurd (false≢true (sym (free 512 (omega arith)) ∙ u 512 (omega arith) (omega arith)))
first_page f a g (inr (k, e, l, u, c, b, _, _, _, _)) free h = elim (dec_lt reserved_frames k) [
  | yes m ↦ absurd (false≢true (sym (free 512 (omega arith)) ∙ b 512 (omega arith) m))
  | no m ↦ omega (arith, e)
]

directory-write_entry :
    (p : Paging) (v phys flags : ℕ) → (write_entry p v phys flags).directory ≡ p.directory
unfolding write_entry
directory-write_entry p v phys flags = refl

flags_3 : page_present 3 ≡ true
unfolding test_bit
flags_3 = refl

round :
    (p : Paging) (a w i : ℕ)
    → a ≡ i * page_size
    → ((w : ℕ) → w < i * page_size → translate p w ≡ some w)
    → w < (i + 1) * page_size
    → (if same_page a w then some (a / page_size * page_size + w % page_size) else translate p w)
      ≡ some w
round p a w i e m l = elim (ℕ_discrete (a / page_size) (w / page_size)) [
  | yes h ↦ rw (h, ==-self (w / page_size)) (ap some (omega arith))
  | no h ↦ rw (==_of_ne _ _ h) (m w (omega arith))
]

-- One table is enough for the whole loop: each round maps its page, and keeps those before it.
identity_map-below :
    (n i e : ℕ) (p : Paging)
    → i + n ≡ e
    → e ≤ 1024
    → IsSeparate p
    → (p.directory 0).present ≡ true
    → ((w : ℕ) → w < i * page_size → translate p w ≡ some w)
    → ((w : ℕ) → w < e * page_size → translate (identity_map n (i * page_size) p) w ≡ some w)
      × ((identity_map n (i * page_size) p).directory ≡ p.directory)
unfolding identity_map
identity_map-below zero i e p h r s here m = ((λ w l. m w (omega arith)), refl)
identity_map-below (suc n) i e p h r s here m =
    let a = i * page_size in
    let zero_dir : dir_index a ≡ 0 = omega arith in
    let there : (p.directory (dir_index a)).present ≡ true = rw zero_dir here in
    let q = map_page p a a 3 in
    let is_write = map_page-present p a a 3 there in
    let kept : q.directory ≡ p.directory = rw is_write (directory-write_entry p a a 3) in
    let sep : IsSeparate q = rw is_write (write_entry-IsSeparate p a a 3 s) in
    let next : (i + 1) * page_size ≡ a + page_size = omega arith in
    let maps : (w : ℕ) → w < (i + 1) * page_size → translate q w ≡ some w = λ w l.
      rw (is_write, translate-write_entry p a w a 3 s there flags_3) (round p a w i refl m l) in
    let (t, d) = identity_map-below n (i + 1) e q (omega arith) r sep (rw kept here) maps in
    subst
      (λ x.
        ((w : ℕ) → w < e * page_size → translate (identity_map n x q) w ≡ some w)
        × ((identity_map n x q).directory ≡ p.directory))
      next (t, d ∙ kept)

-- The state in which the loop starts.
abbrev pub empty_paging : ℕ → (ℕ → ℕ → PageEntry) → Paging
empty_paging kb tables = record {
  frames = init_frames 0 kb;
  directory = λ i. zero_entry;
  tables = tables;
}

pub empty_paging-IsSeparate :
    (kb : ℕ) (tables : ℕ → ℕ → PageEntry) → IsSeparate (empty_paging kb tables)
empty_paging-IsSeparate kb tables = record {
  counted = (init_frames-IsValid kb).0;
  tables_used = λ d h. absurd (false≢true h);
  distinct = λ d e h k f. absurd (false≢true h);
}

first_table :
    (kb : ℕ) (tables : ℕ → ℕ → PageEntry)
    → 544 ≤ count_frames kb
    → (alloc_zeroed (empty_paging kb tables)).0 ≡ 0x20_0000
unfolding alloc_zeroed
first_table kb tables h =
    let f = init_frames 0 kb in
    let (v, free) = init_frames-IsValid kb in
    let a =
      first_page f (alloc_page f).0 (alloc_page f).1 (alloc_page-Allocates f v) free
        (rw (init_frames-total kb) h) in
    rw a

identity_map-suc :
    (n addr : ℕ) (p : Paging)
    → identity_map (suc n) addr p ≡ identity_map n (addr + page_size) (map_page p addr addr 3)
unfolding identity_map
identity_map-suc n addr p = refl

set_directory-here :
    (q : Paging) (a flags : ℕ) → ((set_directory q 0 a flags).directory 0).frame ≡ a / 0x1000
unfolding set_directory
set_directory-here q a flags = refl

-- The first round of the loop: it takes the first page for the table.
module _ (kb : ℕ) (tables : ℕ → ℕ → PageEntry) (h : 544 ≤ count_frames kb) where
  abbrev first : Paging
  first = map_page (empty_paging kb tables) 0 0 3

  first-write :
      first
      ≡ write_entry (set_directory (alloc_zeroed (empty_paging kb tables)).1 0 0x20_0000 3) 0 0 3
  first-write =
      let e = first_table kb tables h in
      subst
        (λ a.
          first ≡ write_entry (set_directory (alloc_zeroed (empty_paging kb tables)).1 0 a 3) 0 0 3)
        e (map_page-new (empty_paging kb tables) 0 0 3 refl (omega (arith, e)))

  first_present : (first.directory 0).present ≡ true
  first_present =
      rw (first-write, directory-write_entry)
        (set-present (alloc_zeroed (empty_paging kb tables)).1 0 0x20_0000 3)

  first_frame : (first.directory 0).frame ≡ 512
  first_frame =
      rw (first-write, directory-write_entry)
        (set_directory-here (alloc_zeroed (empty_paging kb tables)).1 0x20_0000 3)

  first_maps : IsSeparate first × ((w : ℕ) → w < 1 * page_size → translate first w ≡ some w)
  first_maps =
      let (s, m) =
        map_page-Maps (empty_paging kb tables) 0 0 3 (empty_paging-IsSeparate kb tables) flags_3 in
      (s, λ w l. pick m w l)
    where
      pick :
          Maps (empty_paging kb tables) 0 0 first
          → (w : ℕ) → w < 1 * page_size
          → translate first w ≡ some w
      pick (inl m) w l =
          m w ∙ round (empty_paging kb tables) 0 w 0 refl (λ v k. absurd (omega arith)) l
      pick (inr (_, z, _)) w l = absurd (omega (arith, z, first_table kb tables h))

-- init_memory, with used_frames at 0 and at least 544 frames: every address below 4 MB is translated to
-- itself, and the table that does this is the page at 2 MB, which lies wholly inside the 64 MB that the
-- same init_memory gives to the kernel heap.
pub init_memory_maps :
    (mem_upper_kb : ℕ) (tables : ℕ → ℕ → PageEntry)
    → 544 ≤ count_frames mem_upper_kb
    → let p = init_memory 0 mem_upper_kb tables in
      ((w : ℕ) → w < 4 * 1024 * 1024 → translate p w ≡ some w)
      × ((p.directory 0).present ≡ true)
      × ((p.directory 0).frame * page_size ≡ 2 * 1024 * 1024)
      × (heap_start < (p.directory 0).frame * page_size)
      × ((p.directory 0).frame * page_size + page_size ≤ heap_start + heap_max_size)
unfolding init_memory
init_memory_maps kb tables h =
    let (s, m) = first_maps kb tables h in
    let here = first_present kb tables h in
    let q = first kb tables h in
    let (t, d) = identity_map-below 1023 1 1024 q refl (omega arith) s here m in
    let at : ((identity_map 1023 (1 * page_size) q).directory 0).frame ≡ 512 =
      ap (λ (D : ℕ → PageEntry). (D 0).frame) d ∙ first_frame kb tables h in
    rw (identity_map-suc 1023 0 (empty_paging kb tables)) (
      t,
      ap (λ (D : ℕ → PageEntry). (D 0).present) d ∙ here,
      omega (arith, at),
      omega (arith, at),
      omega (arith, at),
    )
