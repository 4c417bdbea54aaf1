-- ===== src/Disk/Tests.antt =====
-- The waits at concrete drives.
use korus_os.Prelude.{◌+◌, ◌≡◌, refl, true, List, [], ◌∷◌, ltb, if◌then◌else◌}
use korus_os.Prelude.Bits.{test_bit}
use korus_os.Disk.{DiskResult, disk_read, read_sectors, read_sector}
use korus_os.Disk.Ata.{
  ata_wait_bsy, ata_wait_drq, wait_bsy, wait_drq, timeout, is_busy, DriveInfo, Controller, Bus,
  read_words, send_command, ata_select_drive,
}
use korus_os.Disk.Wait.{Ready, ata_wait_drq-Ready, ata_wait_bsy-stuck}

ata_wait_drq-Ready_example :
    Ready (λ i. if ltb i 3 then 0 else 8) 0 timeout (ata_wait_drq (λ i. if ltb i 3 then 0 else 8) 0)
ata_wait_drq-Ready_example = ata_wait_drq-Ready (λ i. if ltb i 3 then 0 else 8) 0

-- A drive that is always busy.
always_busy : is_busy 0x80 ≡ true
unfolding test_bit
always_busy = refl

ata_wait_bsy-stuck_example : ata_wait_bsy (λ i. 0x80) 0 ≡ (true, 0 + timeout + 1)
ata_wait_bsy-stuck_example = ata_wait_bsy-stuck (λ i. 0x80) 0 (λ k l. always_busy)

-- Two drives on the first controller, the second of them not there.
abbrev drives : List DriveInfo
drives =
    record {
      present = true;
      is_master = true;
      base_port = 0x1F0;
      ctrl_port = 0x3F6;
      size_sectors = 64;
    }
    ∷ []

-- A drive that has data at once, and whose data register counts.
abbrev drive : Controller
drive = record { status = λ i. 8; words = λ i. i }

abbrev quiet : Bus
quiet = record { reads = 0; words_read = 0; writes = [] }

-- The words of the first sector.
read_done : (disk_read drives drive quiet 0 70000 1 true).0 ≡ DiskResult.ok
unfolding disk_read read_sectors read_sector ata_wait_bsy ata_wait_drq wait_bsy wait_drq test_bit
    read_words send_command ata_select_drive
read_done = refl
