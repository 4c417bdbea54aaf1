-- ===== src/Disk/Read.antt =====
-- disk_read: which words of the data register come into the buffer, and what is written to the drive.
use korus_os.Prelude.{
  ℕ, zero, suc, ◌+◌, ◌*◌, ◌/◌, ◌%◌, ◌<◌, ◌≡◌, refl, Bool, true, false, not, ◌||◌, List, [], ◌∷◌,
  ◌++◌, append_assoc, arith, ◌==◌, if◌then◌else◌, Bool-cases, inl, inr, ◌⊎◌, sym, ◌∙◌, subst, ap,
}
use korus_os.Disk.Ata.{
  Controller, Bus, DriveInfo, wait_ready, wait_data, read_words, send_command, ata_select_drive,
}
use korus_os.Disk.{DiskResult, is_ok, read_sector, read_sectors, drive_at, no_such_drive}

-- `n` words of the data register, from word `i` on.
abbrev pub words_from : Controller → ℕ → ℕ → List ℕ
words_from c i zero = []
words_from c i (suc n) = c.words i ∷ words_from c (i + 1) n

words_from-append :
    (c : Controller) (i m n : ℕ)
    → words_from c i (m + n) ≡ words_from c i m ++ words_from c (i + m) n
words_from-append c i zero n =
    let a : 0 + n ≡ n = omega arith in let b : i + 0 ≡ i = omega arith in rw (a, b) refl
words_from-append c i (suc m) n =
    let a : suc m + n ≡ suc (m + n) = omega arith in
    let b : i + suc m ≡ i + 1 + m = omega arith in
    rw (a, b) (ap (λ ws. c.words i ∷ ws) (words_from-append c (i + 1) m n))

-- A bus that has read `n` words more, and nothing was written.
pub record Advanced (b : Bus) (n : ℕ) (b' : Bus) : Type 0 where
  pub words_read : b'.words_read ≡ b.words_read + n
  pub writes : b'.writes ≡ b.writes

read_words-Advanced :
    (n : ℕ) (c : Controller) (b : Bus)
    → ((read_words n c b).0 ≡ words_from c b.words_read n) × Advanced b n (read_words n c b).1
unfolding read_words
read_words-Advanced zero c b = (refl, record { words_read = omega arith; writes = refl })
read_words-Advanced (suc n) c b =
    let b1 : Bus = record b { words_read = b.words_read + 1 } in
    let (e, a) = read_words-Advanced n c b1 in
    (
      ap (λ ws. c.words b.words_read ∷ ws) e,
      record { words_read = omega (arith, a.words_read); writes = a.writes },
    )

-- What a read of `n` sectors comes to: the words of the first `k` of them, in their order. All of
-- them with the result ok, fewer with an error of the sector behind them.
pub record Sectors (n : ℕ) (c : Controller) (b : Bus) (r : DiskResult × List ℕ × Bus) : Type 0 where
  pub done : ℕ
  pub words : r.1 ≡ words_from c b.words_read (256 * done)
  pub bus : Advanced b (256 * done) r.2
  pub outcome :
      ((r.0 ≡ DiskResult.ok) × (done ≡ n))
      ⊎ (((r.0 ≡ DiskResult.busy_sector) ⊎ (r.0 ≡ DiskResult.no_data)) × (done < n))

read_sector-Sectors : (c : Controller) (b : Bus) → Sectors 1 c b (read_sector c b)
unfolding read_sector
read_sector-Sectors c b =
    let b1 = (wait_ready c b).1 in
    let b2 = (wait_data c b1).1 in
    let (e, a) = read_words-Advanced 256 c b2 in
    elim (Bool-cases (wait_ready c b).0) [
      | inr f ↦ rw f (record {
        done = 0;
        words = refl;
        bus = record { words_read = omega arith; writes = refl };
        outcome = inr (inl refl, omega arith);
      })
      | inl f ↦ elim (Bool-cases (wait_data c b1).0) [
        | inr g ↦
            rw (f, g)
              (record {
                done = 0;
                words = refl;
                bus = record { words_read = omega arith; writes = refl };
                outcome = inr (inr refl, omega arith);
              })
        | inl g ↦
            rw (f, g)
              (record {
                done = 1;
                words = e;
                bus = record { words_read = a.words_read; writes = a.writes };
                outcome = inl (refl, refl);
              })
      ]
    ]

pub ok-is_ok : (r : DiskResult) → r ≡ DiskResult.ok → is_ok r ≡ true
ok-is_ok r e = ap is_ok e

pub error-is_ok :
    (r : DiskResult) → (r ≡ DiskResult.busy_sector) ⊎ (r ≡ DiskResult.no_data) → is_ok r ≡ false
error-is_ok r (inl e) = ap is_ok e
error-is_ok r (inr e) = ap is_ok e

-- A sector that is read, and the rest behind it.
more-Sectors :
    (n : ℕ) (c : Controller) (b : Bus) (r s : DiskResult × List ℕ × Bus)
    → r.1 ≡ words_from c b.words_read 256
    → Advanced b 256 r.2
    → Sectors n c r.2 s
    → Sectors (suc n) c b (s.0, r.1 ++ s.1, s.2)
more-Sectors n c b r s w a rest =
    let k = rest.done in
    let at : r.2.words_read ≡ b.words_read + 256 = a.words_read in
    let all : 256 * suc k ≡ 256 + 256 * k = omega arith in
    record {
      done = suc k;
      words =
          ap (λ ws. ws ++ s.1) w
          ∙ ap (λ vs. words_from c b.words_read 256 ++ vs)
              (rest.words ∙ ap (λ i. words_from c i (256 * k)) at)
          ∙ sym (words_from-append c b.words_read 256 (256 * k))
          ∙ ap (words_from c b.words_read) (sym all);
      bus = record {
        words_read = omega (arith, rest.bus.words_read, a.words_read);
        writes = rest.bus.writes ∙ a.writes;
      };
      outcome = elim rest.outcome [
        | inl (e, q) ↦ inl (e, ap suc q)
        | inr (e, q) ↦ inr (e, omega arith)
      ];
    }

first_failed :
    (n : ℕ) (c : Controller) (b : Bus) (r : DiskResult × List ℕ × Bus)
    → Advanced b 0 r.2
    → (r.0 ≡ DiskResult.busy_sector) ⊎ (r.0 ≡ DiskResult.no_data)
    → Sectors (suc n) c b (r.0, [], r.2)
first_failed n c b r a e = record {
  done = 0;
  words = refl;
  bus = a;
  outcome = inr (e, omega arith);
}

read_sectors-ok :
    (n : ℕ) (c : Controller) (b : Bus)
    → is_ok (read_sector c b).0 ≡ true
    → read_sectors (suc n) c b ≡ (
      (read_sectors n c (read_sector c b).2).0,
      (read_sector c b).1 ++ (read_sectors n c (read_sector c b).2).1,
      (read_sectors n c (read_sector c b).2).2,
    )
unfolding read_sectors
read_sectors-ok n c b e = rw e refl

read_sectors-fails :
    (n : ℕ) (c : Controller) (b : Bus)
    → is_ok (read_sector c b).0 ≡ false
    → read_sectors (suc n) c b ≡ ((read_sector c b).0, [], (read_sector c b).2)
unfolding read_sectors
read_sectors-fails n c b e = rw e refl

pub read_sectors-Sectors : (n : ℕ) (c : Controller) (b : Bus) → Sectors n c b (read_sectors n c b)
unfolding read_sectors
read_sectors-Sectors zero c b = record {
  done = 0;
  words = refl;
  bus = record { words_read = omega arith; writes = refl };
  outcome = inl (refl, refl);
}
read_sectors-Sectors (suc n) c b =
    let r = read_sector c b in
    let h = read_sector-Sectors c b in
    elim h.outcome [
      | inl (e, q) ↦ subst (Sectors (suc n) c b) (sym (read_sectors-ok n c b (ok-is_ok r.0 e))) (
          more-Sectors n c b r (read_sectors n c r.2)
            (subst (λ k. r.1 ≡ words_from c b.words_read (256 * k)) q h.words)
            (subst (λ k. Advanced b (256 * k) r.2) q h.bus) (read_sectors-Sectors n c r.2))
      | inr (e, q) ↦
          let z : h.done ≡ 0 = omega arith in
          subst (Sectors (suc n) c b) (sym (read_sectors-fails n c b (error-is_ok r.0 e)))
            (first_failed n c b r (subst (λ k. Advanced b (256 * k) r.2) z h.bus) e)
    ]

-- The registers that select the drive and start the command.
abbrev pub command_writes : DriveInfo → ℕ → ℕ → ℕ → List (ℕ × ℕ)
command_writes d lba count command =
    (d.base_port + 6, (if d.is_master then 0xE0 else 0xF0) + lba / 16777216 % 16)
    ∷ (d.base_port + 2, count)
    ∷ (d.base_port + 3, lba % 256)
    ∷ (d.base_port + 4, lba / 256 % 256)
    ∷ (d.base_port + 5, lba / 65536 % 256)
    ∷ (d.base_port + 7, command)
    ∷ []

pub send_command-writes :
    (b : Bus) (d : DriveInfo) (lba count command : ℕ)
    → ((send_command b d lba count command).writes ≡ b.writes ++ command_writes d lba count command)
      × ((send_command b d lba count command).words_read ≡ b.words_read)
unfolding send_command ata_select_drive
send_command-writes b d lba count command = (simp append_assoc, refl)

-- What disk_read does: it refuses a drive that is not there, a NULL buffer, a count of 0 and a drive
-- that stays busy, with nothing written; else it writes the command, and reads the sectors.
pub record Read (drives : List DriveInfo) (c : Controller) (b : Bus) (drive lba count : ℕ)
    (r : DiskResult × List ℕ × Bus) : Type 0 where
  pub start : Bus
  pub started : start.words_read ≡ b.words_read
  pub command : start.writes ≡ b.writes ++ command_writes (drive_at drives drive) lba count 0x20
  pub sectors : Sectors count c start r

abbrev pub Refused : Bus → DiskResult → DiskResult × List ℕ × Bus → Type 0
Refused b e r = (r.0 ≡ e) × (r.1 ≡ []) × (r.2.writes ≡ b.writes) × (r.2.words_read ≡ b.words_read)

abbrev pub Reads :
    List DriveInfo → Controller → Bus → ℕ → ℕ → ℕ → Bool → DiskResult × List ℕ × Bus → Type 0
Reads drives c b drive lba count has_buffer r =
    ((no_such_drive drives drive ≡ true) × Refused b DiskResult.no_drive r)
    ⊎ ((no_such_drive drives drive ≡ false)
        × ((((not has_buffer || count == 0) ≡ true) × Refused b DiskResult.no_buffer r)
            ⊎ (((not has_buffer || count == 0) ≡ false)
                × ((((wait_ready c b).0 ≡ false) × Refused b DiskResult.not_ready r)
                    ⊎ (((wait_ready c b).0 ≡ true) × Read drives c b drive lba count r)))))
