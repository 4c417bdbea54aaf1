-- ===== src/Disk.antt =====
-- core/kernel/disk.c: the ATA driver. The device is an argument: what its status register reads at
-- each read, in order, and the words that its data register gives. What outb and outw write is kept
-- as a list of ports and values.
pub mod Ata
pub mod Wait
pub mod Read
pub mod Write
pub mod Identify
mod Tests
use korus_os.Prelude.{
  ℕ, zero, suc, ◌+◌, ◌/◌, ◌%◌, Bool, true, false, ◌&&◌, ◌||◌, not, Option, none, some, List, [],
  ◌++◌, leb, ◌==◌, if◌then◌else◌, get_or,
}
use korus_os.Disk.Ata.{
  Bus, Controller, DriveInfo, max_drives, outb, read_words, send_command, wait_data, wait_ready,
  zero_drive,
}

-- The results of disk_read and disk_write: 0, -1, -2, -3, -4 and -5.
pub data DiskResult : Type 0 where
  ok no_drive no_buffer not_ready busy_sector no_data : DiskResult

-- One sector of the read.
unfoldable pub read_sector : Controller → Bus → DiskResult × List ℕ × Bus
unfolding read_words
read_sector c b =
    let (ready, b1) = wait_ready c b in
    let (drq, b2) = wait_data c b1 in
    let (ws, b3) = read_words 256 c b2 in
    if not ready
    then (DiskResult.busy_sector, [], b1)
    else if not drq
    then (DiskResult.no_data, [], b2)
    else (DiskResult.ok, ws, b3)

abbrev pub is_ok : DiskResult → Bool
is_ok r = elim r [ DiskResult.ok ↦ true | _ ↦ false ]

-- The loop over the sectors; the words of those that were read so far stay in the buffer.
unfoldable pub read_sectors : ℕ → Controller → Bus → DiskResult × List ℕ × Bus
unfolding read_sector
read_sectors zero c b = (DiskResult.ok, [], b)
read_sectors (suc n) c b =
    let (r, ws, b1) = read_sector c b in
    let (r', vs, b2) = read_sectors n c b1 in if is_ok r then (r', ws ++ vs, b2) else (r, [], b1)

abbrev pub drive_at : List DriveInfo → ℕ → DriveInfo
drive_at drives i = get_or drives i zero_drive

-- `drive_num >= MAX_DRIVES || !drives[drive_num].present`
abbrev pub no_such_drive : List DriveInfo → ℕ → Bool
no_such_drive drives i = leb max_drives i || not (drive_at drives i).present

-- `has_buffer` is false for NULL. The words are the buffer's from its start.
unfoldable pub disk_read :
    List DriveInfo → Controller → Bus → ℕ → ℕ → ℕ → Bool → DiskResult × List ℕ × Bus
unfolding read_sectors send_command
disk_read drives c b drive_num lba sector_count has_buffer =
    let (ready, b1) = wait_ready c b in
    let started = send_command b1 (drive_at drives drive_num) lba sector_count 0x20 in
    if no_such_drive drives drive_num
    then (DiskResult.no_drive, [], b)
    else if not has_buffer || sector_count == 0
    then (DiskResult.no_buffer, [], b)
    else if not ready
    then (DiskResult.not_ready, [], b1)
    else read_sectors sector_count c started

-- `for (int i = ...; i < 256; i++) outw(base + ATA_REG_DATA, buf16[...])`, with the rounds left.
unfoldable pub write_words : ℕ → ℕ → (ℕ → ℕ) → ℕ → Bus → Bus
write_words zero base buf i b = b
write_words (suc n) base buf i b = write_words n base buf (i + 1) (outb b base (buf i))

-- One sector of the write, with its flush; the wait behind the flush has no effect on the result.
unfoldable pub write_sector : Controller → ℕ → (ℕ → ℕ) → ℕ → Bus → DiskResult × Bus
unfolding write_words
write_sector c base buf i b =
    let (ready, b1) = wait_ready c b in
    let (drq, b2) = wait_data c b1 in
    let b3 = outb (write_words 256 base buf i b2) (base + 7) 0xE7 in
    let (flushed, b4) = wait_ready c b3 in
    if not ready
    then (DiskResult.busy_sector, b1)
    else if not drq
    then (DiskResult.no_data, b2)
    else (DiskResult.ok, b4)

unfoldable pub write_sectors : ℕ → Controller → ℕ → (ℕ → ℕ) → ℕ → Bus → DiskResult × Bus
unfolding write_sector
write_sectors zero c base buf i b = (DiskResult.ok, b)
write_sectors (suc n) c base buf i b =
    let (r, b1) = write_sector c base buf i b in
    let rest = write_sectors n c base buf (i + 256) b1 in if is_ok r then rest else (r, b1)

unfoldable pub disk_write :
    List DriveInfo → Controller → Bus → ℕ → ℕ → ℕ → Option (ℕ → ℕ) → DiskResult × Bus
unfolding write_sectors send_command
disk_write drives c b drive_num lba sector_count none =
    if no_such_drive drives drive_num then (DiskResult.no_drive, b) else (DiskResult.no_buffer, b)
disk_write drives c b drive_num lba sector_count (some buf) =
    let drv = drive_at drives drive_num in
    let (ready, b1) = wait_ready c b in
    let started = send_command b1 drv lba sector_count 0x30 in
    if no_such_drive drives drive_num
    then (DiskResult.no_drive, b)
    else if sector_count == 0
    then (DiskResult.no_buffer, b)
    else if not ready
    then (DiskResult.not_ready, b1)
    else write_sectors sector_count c drv.base_port buf 0 started

-- none for NULL.
unfoldable pub get_drive_info : List DriveInfo → ℕ → Option DriveInfo
get_drive_info drives drive = if leb max_drives drive then none else some (drive_at drives drive)

-- The results 0, -1, -2 and -3.
pub data MountResult : Type 0 where
  bootable absent unreadable unknown : MountResult

-- The bytes 510 and 511 of the sector are the two halves of word 255.
unfoldable pub mount_filesystem : List DriveInfo → Controller → Bus → ℕ → MountResult × Bus
unfolding disk_read
mount_filesystem drives c b drive =
    let (r, ws, b') = disk_read drives c b drive 0 1 true in
    if no_such_drive drives drive
    then (MountResult.absent, b)
    else if not (is_ok r)
    then (MountResult.unreadable, b')
    else if get_or ws 255 0 % 256 == 0x55 && get_or ws 255 0 / 256 == 0xAA
    then (MountResult.bootable, b')
    else (MountResult.unknown, b')
