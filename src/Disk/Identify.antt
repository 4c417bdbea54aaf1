-- ===== src/Disk/Identify.antt =====
-- ata_identify, init_disk and show_disk_info. What a drive answers to IDENTIFY is an argument: its
-- controller, and what LBA_MID and LBA_HIGH read after the wait.
use korus_os.Prelude.{
  ℕ, zero, suc, ◌+◌, ◌*◌, ◌/◌, ◌%◌, Bool, true, false, ◌&&◌, ◌||◌, not, List, [], ◌∷◌, ◌++◌, ◌==◌,
  if◌then◌else◌, get_or, count_if,
}
use korus_os.Screen.Print.{Call}
use korus_os.Disk.Ata.{
  Controller, Bus, DriveInfo, zero_drive, outb, wait_ready, wait_data, read_words, ata_sector_size,
}

-- drive_info_t with what IDENTIFY fills in; the two arrays of characters without their terminators.
pub record Drive : Type 0 where
  pub info : DriveInfo
  pub size_bytes : ℕ
  pub model : List ℕ
  pub serial : List ℕ

abbrev pub blank_drive : Drive
blank_drive = record { info = zero_drive; size_bytes = 0; model = []; serial = [] }

pub record Answer : Type 0 where
  pub controller : Controller
  pub mid : ℕ
  pub high : ℕ

-- The characters of `n` words from `i` on, the high byte first.
unfoldable pub word_chars : ℕ → ℕ → List ℕ → List ℕ
word_chars zero i words = []
word_chars (suc n) i words =
    get_or words i 0 / 256 ∷ get_or words i 0 % 256 ∷ word_chars n (i + 1) words

-- Whether all characters are spaces.
unfoldable pub all_spaces : List ℕ → Bool
all_spaces [] = true
all_spaces (c ∷ cs) = c == 32 && all_spaces cs

-- The loop that overwrites the spaces at the end.
unfoldable pub trim : List ℕ → List ℕ
trim [] = []
trim (c ∷ cs) = let rest = trim cs in (if all_spaces (c ∷ cs) then 0 else c) ∷ rest

-- io_wait
abbrev pub io_wait : Bus → Bus
io_wait b = outb b 0x80 0

-- The drive, the registers set to zero, and the command.
unfoldable pub send_identify : Bus → DriveInfo → Bus
send_identify b drv =
    let base = drv.base_port in
    let b1 = io_wait (outb b (base + 6) (if drv.is_master then 0xA0 else 0xB0)) in
    let b2 = outb b1 (base + 2) 0 in
    let b3 = outb b2 (base + 3) 0 in
    let b4 = outb b3 (base + 4) 0 in
    let b5 = outb b4 (base + 5) 0 in io_wait (outb b5 (base + 7) 0xEC)

unfoldable pub fill_drive : Drive → List ℕ → Drive
fill_drive d words =
    let sectors = get_or words 61 0 * 65536 + get_or words 60 0 in
    record d {
      info = record (d.info) { size_sectors = sectors; present = true };
      size_bytes = sectors * ata_sector_size;
      model = trim (word_chars 20 27 words);
      serial = word_chars 10 10 words;
    }

-- false leaves the drive as it is.
unfoldable pub ata_identify : Answer → Bus → Drive → Bool × Drive × Bus
ata_identify a b d =
    let sent = send_identify b d.info in
    let status = a.controller.status sent.reads in
    let b1 = record sent { reads = sent.reads + 1 } in
    let (ready, b2) = wait_ready a.controller b1 in
    let (drq, b3) = wait_data a.controller b2 in
    let (words, b4) = read_words 256 a.controller b3 in
    if status == 0
    then (false, d, b1)
    else if not ready
    then (false, d, b2)
    else if not (a.mid == 0) || not (a.high == 0)
    then (false, d, b2)
    else if not drq
    then (false, d, b3)
    else (true, fill_drive d words, b4)

-- `drive_config`: base, ctrl and master.
abbrev pub drive_config : List (ℕ × ℕ × Bool)
drive_config =
    (0x1F0, 0x3F6, true) ∷ (0x1F0, 0x3F6, false) ∷ (0x170, 0x376, true) ∷ (0x170, 0x376, false) ∷ []

unfoldable pub configure : Drive → ℕ × ℕ × Bool → Drive
configure d (base, ctrl, master) = record d {
  info = record (d.info) {
    present = false;
    is_master = master;
    base_port = base;
    ctrl_port = ctrl;
    size_sectors = 0;
  };
}

-- The loop of init_disk, with an answer for each drive; `drives` are what the array held before.
unfoldable pub init_drives :
    List (ℕ × ℕ × Bool) → ℕ → (ℕ → Answer) → (ℕ → Drive) → Bus → List Drive × Bus
init_drives [] i answers drives b = ([], b)
init_drives (c ∷ cs) i answers drives b =
    let (found, d, b') = ata_identify (answers i) b (configure (drives i) c) in
    let (ds, b'') = init_drives cs (i + 1) answers drives b' in (d ∷ ds, b'')

unfoldable pub init_disk : (ℕ → Answer) → (ℕ → Drive) → Bus → List Drive × Bus
init_disk answers drives b = init_drives drive_config 0 answers drives b

-- An array of characters as a C string.
unfoldable pub c_string : List ℕ → List ℕ
c_string [] = []
c_string (c ∷ cs) = let rest = c_string cs in if c == 0 then [] else c ∷ rest

abbrev pub drive_lines : ℕ → Drive → List Call
drive_lines i d =
    Call.print "  Drive "
    ∷ Call.int i
    ∷ Call.print (if d.info.is_master then " (Mestre): " else " (Escravo): ")
    ∷ Call.string_line (c_string d.model)
    ∷ Call.print "    Tamanho: "
    ∷ Call.int (d.info.size_sectors / 2048)
    ∷ Call.println " MB"
    ∷ Call.print "    Serie  : "
    ∷ Call.string_line (c_string d.serial)
    ∷ []

unfoldable pub present_lines : ℕ → List Drive → List Call
present_lines i [] = []
present_lines i (d ∷ ds) =
    let rest = present_lines (i + 1) ds in if d.info.present then drive_lines i d ++ rest else rest

unfoldable pub show_disk_info : List Drive → List Call
show_disk_info ds =
    Call.println "=== Informacoes de Disco ==="
    ∷ (present_lines 0 ds
        ++ (if count_if (λ d. d.info.present) ds == 0
            then Call.println "  Nenhum drive ATA detectado." ∷ []
            else []))
