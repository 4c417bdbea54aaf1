-- ===== src/Pci.antt =====
-- core/drivers/pci.c: the scan of the PCI bus. The configuration space is an argument, a function from
-- the address written to CONFIG_ADDRESS to the dword that CONFIG_DATA then reads.
pub mod Address
pub mod Scan
mod Tests
use korus_os.Prelude.{
  ℕ, zero, suc, ◌+◌, ◌*◌, ◌/◌, ◌%◌, Bool, ◌&&◌, ◌||◌, List, [], ◌∷◌, ◌++◌, ltb, leb, ◌==◌,
  if◌then◌else◌, update, take,
}
use korus_os.Prelude.Text.{bytes_of}
use Prim.Native.String.{String}
use korus_os.Devices.{Devices, DeviceType, register_device}
use korus_os.Screen.Print.{Call}

abbrev pub pci_max_devices : ℕ
pci_max_devices = 32

abbrev pub pci_max_functions : ℕ
pci_max_functions = 8

abbrev pub pci_max_stored : ℕ
pci_max_stored = 64

abbrev pub pci_invalid_vendor : ℕ
pci_invalid_vendor = 0xFFFF

-- What `outl(PCI_CONFIG_ADDRESS, address)` and `inl(PCI_CONFIG_DATA)` read.
abbrev pub ConfigSpace : Type 0
ConfigSpace = ℕ → ℕ

pub record PciDevice : Type 0 where
  pub bus : ℕ
  pub device : ℕ
  pub function : ℕ
  pub vendor_id : ℕ
  pub device_id : ℕ
  pub class_code : ℕ
  pub subclass : ℕ
  pub prog_if : ℕ
  pub revision : ℕ
  pub irq : ℕ
  pub bar0 : ℕ
  pub class_name : List ℕ

-- The static variables of pci.c. The array is a function from indices.
pub record Pci : Type 0 where
  pub pci_devices : ℕ → PciDevice
  pub count : ℕ

-- The fields of the address have no bit in common.
unfoldable pub pci_address : ℕ → ℕ → ℕ → ℕ → ℕ
pci_address bus dev func offset =
    0x8000_0000 + bus * 65536 + dev * 2048 + func * 256 + offset / 4 * 4

unfoldable pub pci_config_read32 : ConfigSpace → ℕ → ℕ → ℕ → ℕ → ℕ
pci_config_read32 c bus dev func offset = c (pci_address bus dev func offset)

-- `(val >> ((offset & 2) * 8)) & 0xFFFF`
unfoldable pub pci_config_read16 : ConfigSpace → ℕ → ℕ → ℕ → ℕ → ℕ
pci_config_read16 c bus dev func offset =
    let val = pci_config_read32 c bus dev func (offset / 4 * 4) in
    (if offset / 2 % 2 == 0 then val else val / 65536) % 65536

-- `(val >> ((offset & 3) * 8)) & 0xFF`
unfoldable pub pci_config_read8 : ConfigSpace → ℕ → ℕ → ℕ → ℕ → ℕ
pci_config_read8 c bus dev func offset =
    let val = pci_config_read32 c bus dev func (offset / 4 * 4) in
    let byte = offset % 4 in
    (if byte == 0
      then val
      else if byte == 1
      then val / 256
      else if byte == 2
      then val / 65536
      else val / 16777216)
    % 256

-- class_code, subclass and name; the entry 0xFF that ends the table is left out.
abbrev pub pci_class_table : List (ℕ × ℕ × String)
pci_class_table =
    (0x00, 0x00, "Dispositivo Nao Classificado")
    ∷ (0x01, 0x00, "Controlador SCSI")
    ∷ (0x01, 0x01, "Controlador IDE")
    ∷ (0x01, 0x06, "Controlador SATA (AHCI)")
    ∷ (0x02, 0x00, "Controlador Ethernet")
    ∷ (0x02, 0x80, "Controlador de Rede")
    ∷ (0x03, 0x00, "Controlador VGA")
    ∷ (0x03, 0x01, "Controlador XGA")
    ∷ (0x04, 0x01, "Controlador de Audio")
    ∷ (0x06, 0x00, "Host Bridge (CPU <-> PCI)")
    ∷ (0x06, 0x01, "ISA Bridge")
    ∷ (0x06, 0x04, "PCI-to-PCI Bridge")
    ∷ (0x07, 0x00, "Controlador Serial")
    ∷ (0x07, 0x01, "Controlador Paralelo")
    ∷ (0x0C, 0x03, "Controlador USB")
    ∷ (0x0C, 0x05, "Controlador SMBus")
    ∷ []

-- The loop of pci_get_class_name, with the name that it returns at the end of the table.
unfoldable pub class_name_from : List (ℕ × ℕ × String) → String → ℕ → ℕ → String
class_name_from [] class_match class_code subclass = class_match
class_name_from ((c, s, name) ∷ es) class_match class_code subclass =
    let rest =
      class_name_from es (if c == class_code then name else class_match) class_code subclass in
    if c == class_code && s == subclass then name else rest

unfoldable pub pci_get_class_name : ℕ → ℕ → String
pci_get_class_name class_code subclass =
    class_name_from pci_class_table "Dispositivo Desconhecido" class_code subclass

-- What pci_detect_device reads of a function that is there.
unfoldable pub read_device : ConfigSpace → ℕ → ℕ → ℕ → PciDevice
read_device c bus dev func =
    let class_code = pci_config_read8 c bus dev func 0x0B in
    let subclass = pci_config_read8 c bus dev func 0x0A in
    record {
      bus = bus;
      device = dev;
      function = func;
      vendor_id = pci_config_read16 c bus dev func 0x00;
      device_id = pci_config_read16 c bus dev func 0x02;
      class_code = class_code;
      subclass = subclass;
      prog_if = pci_config_read8 c bus dev func 0x09;
      revision = pci_config_read8 c bus dev func 0x08;
      irq = pci_config_read8 c bus dev func 0x3C;
      bar0 = pci_config_read32 c bus dev func 0x10;
      class_name = take 31 (bytes_of (pci_get_class_name class_code subclass));
    }

-- "PCI"
abbrev pci_info : List ℕ
pci_info = 80 ∷ 67 ∷ 73 ∷ []

-- `vendor_id == PCI_INVALID_VENDOR || vendor_id == 0x0000`
abbrev pub no_function : ConfigSpace → ℕ → ℕ → ℕ → Bool
no_function c bus dev func =
    pci_config_read16 c bus dev func 0x00 == pci_invalid_vendor
    || pci_config_read16 c bus dev func 0x00 == 0

unfoldable pub store_device : PciDevice → Pci × Devices → Pci × Devices
store_device d (p, s) = (
  record p { pci_devices = update p.pci_devices p.count d; count = p.count + 1 },
  (register_device s DeviceType.pci d.class_name pci_info d.bar0 d.irq).1,
)

unfoldable pub pci_detect_device : ConfigSpace → ℕ → ℕ → ℕ → Pci × Devices → Pci × Devices
pci_detect_device c bus dev func (p, s) =
    if no_function c bus dev func
    then (p, s)
    else if leb pci_max_stored p.count
    then (p, s)
    else store_device (read_device c bus dev func) (p, s)

unfoldable pub init_pci : Pci → Pci
init_pci p = record {
  count = 0;
  pci_devices = λ i.
      if ltb i pci_max_stored
      then record (p.pci_devices i) { vendor_id = pci_invalid_vendor }
      else p.pci_devices i;
}

-- `for (func = ...; func < PCI_MAX_FUNCTIONS; func++)`, with the rounds left.
unfoldable pub scan_functions : ℕ → ConfigSpace → ℕ → ℕ → ℕ → Pci × Devices → Pci × Devices
scan_functions zero c bus dev func s = s
scan_functions (suc n) c bus dev func s =
    scan_functions n c bus dev (func + 1) (pci_detect_device c bus dev func s)

-- The body of the loop over the devices of a bus.
unfoldable pub scan_device : ConfigSpace → ℕ → ℕ → Pci × Devices → Pci × Devices
scan_device c bus dev s =
    if pci_config_read16 c bus dev 0 0x00 == pci_invalid_vendor
    then s
    else if leb 0x80 (pci_config_read8 c bus dev 0 0x0E)
    then scan_functions pci_max_functions c bus dev 0 s
    else pci_detect_device c bus dev 0 s

unfoldable pub scan_devices : ℕ → ConfigSpace → ℕ → ℕ → Pci × Devices → Pci × Devices
scan_devices zero c bus dev s = s
scan_devices (suc n) c bus dev s = scan_devices n c bus (dev + 1) (scan_device c bus dev s)

unfoldable pub scan_buses : ℕ → ConfigSpace → ℕ → Pci × Devices → Pci × Devices
scan_buses zero c bus s = s
scan_buses (suc n) c bus s = scan_buses n c (bus + 1) (scan_devices pci_max_devices c bus 0 s)

unfoldable pub pci_scan_bus : ConfigSpace → Pci → Devices → Pci × Devices
pci_scan_bus c p s = scan_buses 8 c 0 (record p { count = 0 }, s)

-- One line of pci_list_devices.
abbrev pci_line : PciDevice → List Call
pci_line d =
    Call.print "  "
    ∷ Call.int d.bus
    ∷ Call.print ":"
    ∷ Call.int d.device
    ∷ Call.print ":"
    ∷ Call.int d.function
    ∷ Call.print "  "
    ∷ Call.hex d.vendor_id
    ∷ Call.print "  "
    ∷ Call.hex d.device_id
    ∷ Call.print "  "
    ∷ Call.string_line d.class_name
    ∷ []

unfoldable pub pci_lines : ℕ → (ℕ → PciDevice) → ℕ → List Call
pci_lines zero ds i = []
pci_lines (suc n) ds i = pci_line (ds i) ++ pci_lines n ds (i + 1)

unfoldable pub pci_list_devices : Pci → List Call
pci_list_devices p =
    Call.println "=== Dispositivos PCI Detectados ==="
    ∷ Call.println "  Bus:Dev:Fn  Vendor   Device   Classe"
    ∷ Call.println "  ----------  ------   ------   ------"
    ∷ (if p.count == 0
        then Call.println "  Nenhum dispositivo PCI encontrado." ∷ []
        else pci_lines p.count p.pci_devices 0
          ++ (Call.print "Total: " ∷ Call.int p.count ∷ Call.println " dispositivos PCI" ∷ []))

unfoldable pub pci_get_device_count : Pci → ℕ
pci_get_device_count p = p.count
