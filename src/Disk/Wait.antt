-- ===== src/Disk/Wait.antt =====
-- What the waits of the driver say about the drive.
use korus_os.Prelude.{
  ℕ, zero, suc, ◌+◌, ◌≤◌, ◌<◌, ◌≡◌, Bool, true, false, arith, ltb, ◌==◌, Bool-cases, inl, inr, ◌∙◌,
  ltb→lt,
}
use korus_os.Disk.Ata.{
  is_busy, is_drq, is_err, wait_bsy, ata_wait_bsy, wait_drq, ata_wait_drq, timeout,
}

wait_bsy-stuck :
    (n : ℕ) (status : ℕ → ℕ) (reads : ℕ)
    → ((k : ℕ) → k ≤ n → is_busy (status (reads + k)) ≡ true)
    → wait_bsy n status reads ≡ (true, reads + n + 1)
unfolding wait_bsy
wait_bsy-stuck zero status reads h =
    let z : reads + 0 ≡ reads = omega arith in
    let first = h 0 (omega arith) in
    let busy : is_busy (status reads) ≡ true = rw z at first in
    let e : reads + 0 + 1 ≡ reads + 1 = omega arith in rw (e, busy)
wait_bsy-stuck (suc n) status reads h =
    let z : reads + 0 ≡ reads = omega arith in
    let first = h 0 (omega arith) in
    let busy : is_busy (status reads) ≡ true = rw z at first in
    let e : reads + 1 + n + 1 ≡ reads + suc n + 1 = omega arith in
    rw busy (wait_bsy-stuck n status (reads + 1) (λ k l. moved k (h (k + 1) (omega arith))) ∙ rw e)
  where
    moved :
        (k : ℕ)
        → is_busy (status (reads + (k + 1))) ≡ true
        → is_busy (status (reads + 1 + k)) ≡ true
    moved k g = let q : reads + (k + 1) ≡ reads + 1 + k = omega arith in rw q at g

-- ata_wait_bsy reports a drive as ready that stays busy for all of its 100001 reads of the status.
pub ata_wait_bsy-stuck :
    (status : ℕ → ℕ) (reads : ℕ)
    → ((k : ℕ) → k ≤ timeout → is_busy (status (reads + k)) ≡ true)
    → ata_wait_bsy status reads ≡ (true, reads + timeout + 1)
unfolding ata_wait_bsy
ata_wait_bsy-stuck status reads h = wait_bsy-stuck timeout status reads h

-- A wait that ended well: its last read of the status shows data and no error, and none before it
-- shows data; there were fewer than `n` of them.
abbrev pub Ready : (ℕ → ℕ) → ℕ → ℕ → Bool × ℕ → Type 0
Ready status reads n (false, r) = (reads ≤ r) × (r ≤ reads + n)
Ready status reads n (true, r) =
    (k : ℕ) × (r ≡ reads + k + 1)
    × (k + 1 < n)
    × (is_drq (status (reads + k)) ≡ true)
    × (is_err (status (reads + k)) ≡ false)
    × ((j : ℕ) → j < k → is_drq (status (reads + j)) ≡ false)

Ready-later :
    (status : ℕ → ℕ) (reads n : ℕ) (p : Bool × ℕ)
    → is_drq (status reads) ≡ false
    → Ready status (reads + 1) n p
    → Ready status reads (suc n) p
Ready-later status reads n (false, r) d (l, m) = (omega (arith, l), omega (arith, m))
Ready-later status reads n (true, r) d (k, e, l, a, b, f) =
    let q : reads + 1 + k ≡ reads + suc k = omega arith in
    (
      suc k,
      omega (arith, e),
      omega (arith, l),
      rw q at a,
      rw q at b,
      λ j m. earlier status reads k j d f m,
    )
  where
    earlier :
        (status : ℕ → ℕ) (reads k j : ℕ)
        → is_drq (status reads) ≡ false
        → ((j : ℕ) → j < k → is_drq (status (reads + 1 + j)) ≡ false)
        → j < suc k
        → is_drq (status (reads + j)) ≡ false
    earlier status reads k zero d f m = let z : reads + 0 ≡ reads = omega arith in rw z d
    earlier status reads k (suc j) d f m =
        let q : reads + 1 + j ≡ reads + suc j = omega arith in
        let g = f j (omega arith) in rw q at g

wait_drq-Ready :
    (n : ℕ) (status : ℕ → ℕ) (reads : ℕ) → Ready status reads n (wait_drq n status reads)
unfolding wait_drq
wait_drq-Ready zero status reads = (omega arith, omega arith)
wait_drq-Ready (suc n) status reads = elim (Bool-cases (is_err (status reads))) [
  | inl e ↦ rw e (omega arith, omega arith)
  | inr e ↦ elim (Bool-cases (is_drq (status reads))) [
    | inl d ↦ elim (Bool-cases (ltb 0 n)) [
      | inl p ↦
          let z : reads + 0 ≡ reads = omega arith in
          rw (e, d, p)
            (
              0,
              omega arith,
              omega (arith, ltb→lt 0 n p),
              rw z d,
              rw z e,
              λ j m. absurd (omega arith),
            )
      | inr p ↦ rw (e, d, p) (omega arith, omega arith)
    ]
    | inr d ↦ elim (Bool-cases (n == 0)) [
      | inl p ↦ rw (e, d, p) (omega arith, omega arith)
      | inr p ↦
          rw (e, d, p)
            (Ready-later status reads n (wait_drq n status (reads + 1)) d
              (wait_drq-Ready n status (reads + 1)))
    ]
  ]
]

-- ata_wait_drq ends, after at most 100000 reads of the status. If it returns TRUE, its last read shows
-- DRQ without ERR, is the first one that shows DRQ, and came before the last round.
pub ata_wait_drq-Ready :
    (status : ℕ → ℕ) (reads : ℕ) → Ready status reads timeout (ata_wait_drq status reads)
unfolding ata_wait_drq
ata_wait_drq-Ready status reads = wait_drq-Ready timeout status reads
