-- ===== src/Devices.antt =====
-- core/kernel/devices.c: the table of devices. What the ports of the serial lines read is an
-- argument of detect_devices.
pub mod Table
mod Tests
use korus_os.Prelude.{
  ℕ, Bool, true, false, not, Option, none, some, List, [], ◌∷◌, map, leb, ◌==◌, if◌then◌else◌,
  add32, modify, find_index,
}
use korus_os.Scheduler.Table.{kstrncpy}

abbrev pub max_devices : ℕ
max_devices = 64

pub data DeviceType : Type 0 where
  unknown keyboard mouse display disk_ata disk_scsi network serial parallel sound usb pci :
      DeviceType

pub record Device : Type 0 where
  pub id : ℕ
  pub kind : DeviceType
  pub name : List ℕ
  pub info : List ℕ
  pub active : Bool
  pub base_addr : ℕ
  pub irq : ℕ

abbrev pub zero_device : Device
zero_device = record {
  id = 0;
  kind = DeviceType.unknown;
  name = [];
  info = [];
  active = false;
  base_addr = 0;
  irq = 0;
}

-- The static variables of devices.c.
pub record Devices : Type 0 where
  pub table : List Device
  pub count : ℕ
  pub next_id : ℕ

abbrev clear_device : Device → Device
clear_device d = record d { active = false; id = 0 }

unfoldable pub init_devices : List Device → Devices
init_devices table = record { table = map clear_device table; count = 0; next_id = 1 }

abbrev pub is_active : Device → Bool
is_active d = d.active

abbrev pub is_free : Device → Bool
is_free d = not d.active

-- kstrncpy_dev with DEV_NAME_LEN and DEV_INFO_LEN.
unfoldable pub new_device : ℕ → DeviceType → List ℕ → List ℕ → ℕ → ℕ → Device → Device
new_device id kind name info base_addr irq d = record d {
  id = id;
  kind = kind;
  active = true;
  base_addr = base_addr;
  irq = irq;
  name = kstrncpy name 64;
  info = kstrncpy info 128;
}

-- The device's id, none for -1.
unfoldable pub register_device : Devices → DeviceType → List ℕ → List ℕ → ℕ → ℕ → Option ℕ × Devices
register_device s kind name info base_addr irq =
    if leb max_devices s.count then (none, s) else elim (find_index is_free s.table) [
      | none ↦ (none, s)
      | some i ↦ (
        some s.next_id,
        record {
          table = modify s.table i (new_device s.next_id kind name info base_addr irq);
          count = add32 s.count 1;
          next_id = add32 s.next_id 1;
        },
      )
    ]

-- "Teclado PS/2"
abbrev keyboard_name : List ℕ
keyboard_name = 84 ∷ 101 ∷ 99 ∷ 108 ∷ 97 ∷ 100 ∷ 111 ∷ 32 ∷ 80 ∷ 83 ∷ 47 ∷ 50 ∷ []

-- "IRQ1, Porta 0x60"
abbrev keyboard_info : List ℕ
keyboard_info =
    73 ∷ 82 ∷ 81 ∷ 49 ∷ 44 ∷ 32 ∷ 80 ∷ 111 ∷ 114 ∷ 116 ∷ 97 ∷ 32 ∷ 48 ∷ 120 ∷ 54 ∷ 48 ∷ []

-- "Monitor VGA"
abbrev display_name : List ℕ
display_name = 77 ∷ 111 ∷ 110 ∷ 105 ∷ 116 ∷ 111 ∷ 114 ∷ 32 ∷ 86 ∷ 71 ∷ 65 ∷ []

-- "Modo texto 80x25, Buffer 0xB8000"
abbrev display_info : List ℕ
display_info =
    77 ∷ 111 ∷ 100 ∷ 111 ∷ 32 ∷ 116 ∷ 101 ∷ 120 ∷ 116 ∷ 111 ∷ 32 ∷ 56 ∷ 48 ∷ 120 ∷ 50 ∷ 53 ∷ 44 ∷ 32
    ∷ 66 ∷ 117 ∷ 102 ∷ 102 ∷ 101 ∷ 114 ∷ 32 ∷ 48 ∷ 120 ∷ 66 ∷ 56 ∷ 48 ∷ 48 ∷ 48 ∷ []

-- "Porta Serial COM1"
abbrev com1_name : List ℕ
com1_name =
    80 ∷ 111 ∷ 114 ∷ 116 ∷ 97 ∷ 32 ∷ 83 ∷ 101 ∷ 114 ∷ 105 ∷ 97 ∷ 108 ∷ 32 ∷ 67 ∷ 79 ∷ 77 ∷ 49 ∷ []

-- "IRQ4, Porta 0x3F8"
abbrev com1_info : List ℕ
com1_info =
    73 ∷ 82 ∷ 81 ∷ 52 ∷ 44 ∷ 32 ∷ 80 ∷ 111 ∷ 114 ∷ 116 ∷ 97 ∷ 32 ∷ 48 ∷ 120 ∷ 51 ∷ 70 ∷ 56 ∷ []

-- "Porta Serial COM2"
abbrev com2_name : List ℕ
com2_name =
    80 ∷ 111 ∷ 114 ∷ 116 ∷ 97 ∷ 32 ∷ 83 ∷ 101 ∷ 114 ∷ 105 ∷ 97 ∷ 108 ∷ 32 ∷ 67 ∷ 79 ∷ 77 ∷ 50 ∷ []

-- "IRQ3, Porta 0x2F8"
abbrev com2_info : List ℕ
com2_info =
    73 ∷ 82 ∷ 81 ∷ 51 ∷ 44 ∷ 32 ∷ 80 ∷ 111 ∷ 114 ∷ 116 ∷ 97 ∷ 32 ∷ 48 ∷ 120 ∷ 50 ∷ 70 ∷ 56 ∷ []

-- "Mouse PS/2"
abbrev mouse_name : List ℕ
mouse_name = 77 ∷ 111 ∷ 117 ∷ 115 ∷ 101 ∷ 32 ∷ 80 ∷ 83 ∷ 47 ∷ 50 ∷ []

-- "IRQ12, Controlador 0x64"
abbrev mouse_info : List ℕ
mouse_info =
    73 ∷ 82 ∷ 81 ∷ 49 ∷ 50 ∷ 44 ∷ 32 ∷ 67 ∷ 111 ∷ 110 ∷ 116 ∷ 114 ∷ 111 ∷ 108 ∷ 97 ∷ 100 ∷ 111 ∷ 114
    ∷ 32 ∷ 48 ∷ 120 ∷ 54 ∷ 52 ∷ []

-- A serial port, if it does not read as 0xFF.
unfoldable pub detect_serial : Devices → ℕ → List ℕ → List ℕ → ℕ → ℕ → Devices
detect_serial s test name info base_addr irq =
    if test == 0xFF then s else (register_device s DeviceType.serial name info base_addr irq).1

-- `com1_test` and `com2_test` are what inb(0x3FD) and inb(0x2FD) read.
unfoldable pub detect_devices : Devices → ℕ → ℕ → Devices
unfolding detect_serial
detect_devices s com1_test com2_test =
    let s1 = (register_device s DeviceType.keyboard keyboard_name keyboard_info 0x60 1).1 in
    let s2 = (register_device s1 DeviceType.display display_name display_info 0xB8000 0).1 in
    let s3 = detect_serial s2 com1_test com1_name com1_info 0x3F8 4 in
    let s4 = detect_serial s3 com2_test com2_name com2_info 0x2F8 3 in
    (register_device s4 DeviceType.mouse mouse_name mouse_info 0x64 12).1

unfoldable pub get_device_count : Devices → ℕ
get_device_count s = s.count
