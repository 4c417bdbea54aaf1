-- ===== src/Disk/Ata.antt =====
-- The ATA controller of core/kernel/disk.c: its registers, the waits and the start of a command.
use korus_os.Prelude.{
  ℕ, zero, suc, ◌+◌, ◌/◌, ◌%◌, Bool, true, false, List, [], ◌∷◌, ◌++◌, ltb, ◌==◌, if◌then◌else◌,
}
use korus_os.Prelude.Bits.{test_bit}

abbrev pub max_drives : ℕ
max_drives = 4

abbrev pub ata_sector_size : ℕ
ata_sector_size = 512

-- The number of rounds of the waits.
abbrev pub timeout : ℕ
timeout = 100000

-- A controller, as the driver meets it.
pub record Controller : Type 0 where
  pub status : ℕ → ℕ
  pub words : ℕ → ℕ

-- How many times the status and the data were read, and what was written.
pub record Bus : Type 0 where
  pub reads : ℕ
  pub words_read : ℕ
  pub writes : List (ℕ × ℕ)

-- The fields of drive_info_t that reads and writes use.
pub record DriveInfo : Type 0 where
  pub present : Bool
  pub is_master : Bool
  pub base_port : ℕ
  pub ctrl_port : ℕ
  pub size_sectors : ℕ

abbrev pub zero_drive : DriveInfo
zero_drive = record {
  present = false;
  is_master = false;
  base_port = 0;
  ctrl_port = 0;
  size_sectors = 0;
}

-- ATA_SR_BSY, ATA_SR_DRQ and ATA_SR_ERR.
abbrev pub is_busy : ℕ → Bool
is_busy status = test_bit status 7

abbrev pub is_drq : ℕ → Bool
is_drq status = test_bit status 3

abbrev pub is_err : ℕ → Bool
is_err status = test_bit status 0

-- `while ((inb(...) & ATA_SR_BSY) && timeout--)` with `n` as the timeout: where it is 0 and the drive
-- is still busy, the decrement wraps, and `timeout > 0` holds after the loop.
unfoldable pub wait_bsy : ℕ → (ℕ → ℕ) → ℕ → Bool × ℕ
wait_bsy zero status reads = (is_busy (status reads), reads + 1)
wait_bsy (suc n) status reads =
    let rest = wait_bsy n status (reads + 1) in
    if is_busy (status reads) then rest else (true, reads + 1)

unfoldable pub ata_wait_bsy : (ℕ → ℕ) → ℕ → Bool × ℕ
unfolding wait_bsy
ata_wait_bsy status reads = wait_bsy timeout status reads

-- The do-while loop of ata_wait_drq, with `suc n` as the timeout before the round.
unfoldable pub wait_drq : ℕ → (ℕ → ℕ) → ℕ → Bool × ℕ
wait_drq zero status reads = (false, reads)
wait_drq (suc n) status reads =
    let rest = wait_drq n status (reads + 1) in
    let last : Bool × ℕ = (false, reads + 1) in
    let more = if n == 0 then last else rest in
    if is_err (status reads)
    then (false, reads + 1)
    else if is_drq (status reads)
    then (ltb 0 n, reads + 1)
    else more

unfoldable pub ata_wait_drq : (ℕ → ℕ) → ℕ → Bool × ℕ
unfolding wait_drq
ata_wait_drq status reads = wait_drq timeout status reads

abbrev pub outb : Bus → ℕ → ℕ → Bus
outb b port value = record b { writes = b.writes ++ ((port, value) ∷ []) }

-- The waits on a bus.
abbrev pub wait_ready : Controller → Bus → Bool × Bus
wait_ready c b = let (ok, reads) = ata_wait_bsy c.status b.reads in (ok, record b { reads = reads })

abbrev pub wait_data : Controller → Bus → Bool × Bus
wait_data c b = let (ok, reads) = ata_wait_drq c.status b.reads in (ok, record b { reads = reads })

-- The four reads of the status that follow take 400 ns.
unfoldable pub ata_select_drive : Bus → ℕ → Bool → ℕ → Bus
ata_select_drive b base master lba_top =
    let sel = (if master then 0xE0 else 0xF0) + lba_top / 16777216 % 16 in
    let b' = outb b (base + 6) sel in record b' { reads = b'.reads + 4 }

-- The drive, the sector count, the address and the command.
unfoldable pub send_command : Bus → DriveInfo → ℕ → ℕ → ℕ → Bus
unfolding ata_select_drive
send_command b drv lba sector_count command =
    let base = drv.base_port in
    let b1 = ata_select_drive b base drv.is_master lba in
    let b2 = outb b1 (base + 2) sector_count in
    let b3 = outb b2 (base + 3) (lba % 256) in
    let b4 = outb b3 (base + 4) (lba / 256 % 256) in
    let b5 = outb b4 (base + 5) (lba / 65536 % 256) in outb b5 (base + 7) command

-- `n` words from the data register.
unfoldable pub read_words : ℕ → Controller → Bus → List ℕ × Bus
read_words zero c b = ([], b)
read_words (suc n) c b =
    let (ws, b') = read_words n c (record b { words_read = b.words_read + 1 }) in
    (c.words b.words_read ∷ ws, b')
