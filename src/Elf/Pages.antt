-- ===== src/Elf/Pages.antt =====
-- The loop over the pages of a segment: what it does to the translation of addresses.
use korus_os.Prelude.{
  ℕ, zero, suc, ◌+◌, ◌*◌, ◌/◌, ◌%◌, ◌≡◌, ◌≢◌, refl, Bool, true, false, ◌&&◌, some, arith, ltb, leb,
  ◌==◌, Bool-cases, inl, inr, sym, ◌∙◌, subst, ==_of_ne, ap,
}
use mathlib.Core.Bool.{false≢true}
use korus_os.Memory.Frames.{page_size, alloc_page, frame_find_free}
use korus_os.Memory.Paging.{Paging, page_present, dir_index, alloc_zeroed, map_page, translate}
use korus_os.Memory.Paging.Map.{IsSeparate, same_page, Zeroed, alloc_zeroed-cases}
use korus_os.Memory.Paging.Translate.{map_page-Maps, map_page-full}
use korus_os.Elf.{Space, alloc_cleared, map_in, map_pages}

-- A frame that alloc_page clears is no table, so no address is translated in another way.
Zeroed-translate :
    (p q : Paging) (a w : ℕ) → IsSeparate p → Zeroed p a q → translate q w ≡ translate p w
unfolding translate
Zeroed-translate p q a w s (d, inl (z, t)) = rw (d, t)
Zeroed-translate p q a w s (d, inr (live, t, fresh, taken)) =
    elim (Bool-cases (p.directory (dir_index w)).present) [
      | inr g ↦ rw (d, t, g)
      | inl g ↦
          let ne : a / page_size ≢ (p.directory (dir_index w)).frame =
            λ e. false≢true (sym fresh ∙ rw e (s.tables_used (dir_index w) g)) in
          rw (d, t, ==_of_ne _ _ ne)
    ]

-- The pages from `va` on, `n` of them.
abbrev pub in_pages : ℕ → ℕ → ℕ → Bool
in_pages n va w = leb (va / page_size) (w / page_size) && ltb (w / page_size) (va / page_size + n)

map_page-Keeps :
    (p : Paging) (va phys flags : ℕ)
    → IsSeparate p
    → page_present flags ≡ true
    → IsSeparate (map_page p va phys flags)
      × ((w : ℕ) → same_page va w ≡ false → translate (map_page p va phys flags) w ≡ translate p w)
map_page-Keeps p va phys flags s f =
    let (t, h) = map_page-Maps p va phys flags s f in
    (t, elim h [ inl h ↦ λ w e. h w ∙ rw e | inr (_, _, h) ↦ λ w e. h w ])

alloc_cleared-paging : (s : Space) → ((alloc_cleared s).1).paging ≡ (alloc_zeroed s.paging).1
unfolding alloc_cleared
alloc_cleared-paging s = refl

pages_apart :
    (n va w : ℕ)
    → in_pages (suc n) va w ≡ false
    → (same_page va w ≡ false) × (in_pages n (va + page_size) w ≡ false)
pages_apart n va w h = (ground arith, ground arith)

-- map_pages, with separate tables and the present flag, whether it runs out of memory or not: the
-- tables stay separate, and no address outside of its pages is translated in another way.
pub map_pages-Keeps :
    (n va flags : ℕ) (s : Space)
    → IsSeparate s.paging
    → page_present flags ≡ true
    → IsSeparate ((map_pages n va flags s).1).paging
      × ((w : ℕ)
          → in_pages n va w ≡ false
          → translate ((map_pages n va flags s).1).paging w ≡ translate s.paging w)
unfolding map_pages
map_pages-Keeps zero va flags s v f = (v, λ w e. refl)
map_pages-Keeps (suc n) va flags s v f =
    let phys = (alloc_cleared s).0 in
    let s' = (alloc_cleared s).1 in
    let (v', z) = alloc_zeroed-cases s.paging v in
    let sep : IsSeparate (s'.paging) = subst IsSeparate (sym (alloc_cleared-paging s)) v' in
    let same : (w : ℕ) → translate (s'.paging) w ≡ translate (s.paging) w = λ w.
      ap (λ p. translate p w) (alloc_cleared-paging s)
      ∙ Zeroed-translate (s.paging) (alloc_zeroed s.paging).1 (alloc_zeroed s.paging).0 w v z in
    let (m, k) = map_page-Keeps (s'.paging) va phys flags sep f in
    let (v'', rest) = map_pages-Keeps n (va + page_size) flags (map_in s' va phys flags) m f in
    elim (Bool-cases (phys == 0)) [
      | inl e ↦ rw e (sep, λ w h. same w)
      | inr e ↦
          rw e (v'', λ w h. rest w (pages_apart n va w h).1 ∙ k w (pages_apart n va w h).0 ∙ same w)
    ]

-- Without a free frame the call changes nothing.
alloc_zeroed-none : (p : Paging) → (alloc_zeroed p).0 ≡ 0 → alloc_zeroed p ≡ (0, p)
unfolding alloc_zeroed alloc_page
alloc_zeroed-none p h = elim (Bool-cases (frame_find_free p.frames == 0)) [
  | inl e ↦ rw e
  | inr e ↦ absurd (ground arith)
]

-- After a call of map_page that found no frame for a table, none is free.
map_page-exhausts :
    (p : Paging) (va phys flags : ℕ)
    → (p.directory (dir_index va)).present ≡ false
    → (alloc_zeroed p).0 ≡ 0
    → (alloc_zeroed (map_page p va phys flags)).0 ≡ 0
map_page-exhausts p va phys flags h z =
    ap (λ q. (alloc_zeroed q).0) (map_page-full p va phys flags h z)
    ∙ ap (λ r. (alloc_zeroed r.1).0) (alloc_zeroed-none p z)
    ∙ z

alloc_cleared-page : (s : Space) → (alloc_cleared s).0 ≡ (alloc_zeroed s.paging).0
unfolding alloc_cleared
alloc_cleared-page s = refl

map_pages-stops :
    (n va flags : ℕ) (s : Space)
    → (alloc_zeroed s.paging).0 ≡ 0
    → (map_pages (suc n) va flags s).0 ≡ false
unfolding map_pages
map_pages-stops n va flags s z = rw (alloc_cleared-page s ∙ z)

map_pages-next :
    (n va flags : ℕ) (s : Space)
    → (map_pages (suc n) va flags s).0 ≡ true
    → map_pages (suc n) va flags s
      ≡ map_pages n (va + page_size) flags (map_in (alloc_cleared s).1 va (alloc_cleared s).0 flags)
unfolding map_pages
map_pages-next n va flags s h = elim (Bool-cases ((alloc_cleared s).0 == 0)) [
  | inl e ↦ absurd (false≢true (rw e at h))
  | inr e ↦ rw e
]

abbrev pub Mapped : Paging → ℕ → Type 0
Mapped p w = (a : ℕ) × (translate p w ≡ some a)

-- Where at least one more page follows and the loop does not run out of memory, the page of `va` is
-- mapped when the loop goes on.
first-Mapped :
    (n va phys flags w : ℕ) (s : Space)
    → IsSeparate s.paging
    → page_present flags ≡ true
    → (map_pages (suc n) (va + page_size) flags (map_in s va phys flags)).0 ≡ true
    → same_page va w ≡ true
    → Mapped (map_in s va phys flags).paging w
first-Mapped n va phys flags w s v f h e =
    let (t, m) = map_page-Maps (s.paging) va phys flags v f in
    elim m [
      | inl k ↦ (phys / page_size * page_size + w % page_size, k w ∙ rw e)
      | inr (g, z, _) ↦ absurd (
          false≢true (
            sym (
              map_pages-stops n (va + page_size) flags (map_in s va phys flags)
                (map_page-exhausts (s.paging) va phys flags g z))
            ∙ h))
    ]

cleared-IsSeparate : (s : Space) → IsSeparate s.paging → IsSeparate ((alloc_cleared s).1).paging
cleared-IsSeparate s v =
    subst IsSeparate (sym (alloc_cleared-paging s)) (alloc_zeroed-cases s.paging v).0

-- map_pages, with separate tables and the present flag: if it does not run out of memory, every
-- page but the last has a frame.
pub map_pages-Mapped :
    (n va flags : ℕ) (s : Space)
    → IsSeparate s.paging
    → page_present flags ≡ true
    → (map_pages (suc n) va flags s).0 ≡ true
    → (w : ℕ) → in_pages n va w ≡ true
    → Mapped ((map_pages (suc n) va flags s).1).paging w
map_pages-Mapped zero va flags s v f h w e = absurd (ground arith)
map_pages-Mapped (suc n) va flags s v f h w e =
    let q = (alloc_cleared s).1 in
    let s' = map_in q va (alloc_cleared s).0 flags in
    let sep = cleared-IsSeparate s v in
    let (m, _) = map_page-Keeps (q.paging) va (alloc_cleared s).0 flags sep f in
    let next = map_pages-next (suc n) va flags s h in
    let h' : (map_pages (suc n) (va + page_size) flags s').0 ≡ true =
      ap (λ r. r.0) (sym next) ∙ h in
    subst (λ r. Mapped (r.1).paging w) (sym next)
      (elim (Bool-cases (same_page va w)) [
        | inl k ↦
            let (a, x) = first-Mapped n va (alloc_cleared s).0 flags w q sep f h' k in
            (a, (map_pages-Keeps (suc n) (va + page_size) flags s' m f).1 w (ground arith) ∙ x)
        | inr k ↦ map_pages-Mapped n (va + page_size) flags s' m f h' w (ground arith)
      ])
