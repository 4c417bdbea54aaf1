-- ===== src/Disk/Write.antt =====
-- disk_write: what is written to the ports of the drive, in which order.
use korus_os.Prelude.{ℕ, zero, suc, ◌+◌, ◌<◌, ◌≡◌, true, false, List, [], ◌∷◌, ◌++◌, ◌==◌, ◌⊎◌}
use korus_os.Disk.Ata.{Controller, Bus, DriveInfo, wait_ready}
use korus_os.Disk.{DiskResult, drive_at, no_such_drive}
use korus_os.Disk.Read.{command_writes}

-- `n` words of the buffer, from word `i` on, for the data register.
abbrev pub words_to : ℕ → (ℕ → ℕ) → ℕ → ℕ → List (ℕ × ℕ)
words_to base buf i zero = []
words_to base buf i (suc n) = (base, buf i) ∷ words_to base buf (i + 1) n

-- `k` sectors, each with the command that flushes the drive's cache behind it.
abbrev pub sectors_to : ℕ → (ℕ → ℕ) → ℕ → ℕ → List (ℕ × ℕ)
sectors_to base buf i zero = []
sectors_to base buf i (suc k) =
    words_to base buf i 256 ++ ((base + 7, 0xE7) ∷ sectors_to base buf (i + 256) k)

-- What a write of `n` sectors comes to: the first `done` of them are written. All of them with the
-- result ok, fewer with an error of the sector behind them.
pub record Sectors (n base : ℕ) (buf : ℕ → ℕ) (i : ℕ) (b : Bus) (r : DiskResult × Bus)
    : Type 0 where
  pub done : ℕ
  pub writes : r.1.writes ≡ b.writes ++ sectors_to base buf i done
  pub outcome :
      ((r.0 ≡ DiskResult.ok) × (done ≡ n))
      ⊎ (((r.0 ≡ DiskResult.busy_sector) ⊎ (r.0 ≡ DiskResult.no_data)) × (done < n))

-- What disk_write does once the drive is ready: it writes the command, and then the sectors.
pub record Written (drives : List DriveInfo) (b : Bus) (drive lba count : ℕ) (buf : ℕ → ℕ)
    (r : DiskResult × Bus) : Type 0 where
  pub start : Bus
  pub command : start.writes ≡ b.writes ++ command_writes (drive_at drives drive) lba count 0x30
  pub sectors : Sectors count (drive_at drives drive).base_port buf 0 start r

abbrev pub Refused : Bus → DiskResult → DiskResult × Bus → Type 0
Refused b e r = (r.0 ≡ e) × (r.1.writes ≡ b.writes)

abbrev pub Writes :
    List DriveInfo → Controller → Bus → ℕ → ℕ → ℕ → (ℕ → ℕ) → DiskResult × Bus → Type 0
Writes drives c b drive lba count buf r =
    ((no_such_drive drives drive ≡ true) × Refused b DiskResult.no_drive r)
    ⊎ ((no_such_drive drives drive ≡ false)
        × ((((count == 0) ≡ true) × Refused b DiskResult.no_buffer r)
            ⊎ (((count == 0) ≡ false)
                × ((((wait_ready c b).0 ≡ false) × Refused b DiskResult.not_ready r)
                    ⊎ (((wait_ready c b).0 ≡ true) × Written drives b drive lba count buf r)))))
