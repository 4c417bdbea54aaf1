-- ===== src/Pci/Tests.antt =====
-- The scan of a bus with one device of one function.
use korus_os.Prelude.{◌+◌, ◌/◌, ◌≡◌, [], ◌==◌, if◌then◌else◌, take}
use korus_os.Devices.{init_devices}
use korus_os.Pci.{ConfigSpace, Pci, PciDevice, pci_max_stored, pci_scan_bus}
use korus_os.Pci.Scan.{found_devices, answering, bus_places, pci_scan_bus-found}

-- Device 3 of bus 0 answers, with vendor 0x8086 and device 0x100E.
abbrev config : ConfigSpace
config a = if a / 2048 == 0x8000_0000 / 2048 + 3 then 0x100E_8086 else 0xFFFF_FFFF

abbrev no_device : PciDevice
no_device = record {
  bus = 0;
  device = 0;
  function = 0;
  vendor_id = 0;
  device_id = 0;
  class_code = 0;
  subclass = 0;
  prog_if = 0;
  revision = 0;
  irq = 0;
  bar0 = 0;
  class_name = [];
}

abbrev empty : Pci
empty = record { pci_devices = λ i. no_device; count = 0 }

pci_scan_bus-found_example :
    found_devices (pci_scan_bus config empty (init_devices [])).0
    ≡ take pci_max_stored (answering config (bus_places 8 config 0))
pci_scan_bus-found_example = pci_scan_bus-found config empty (init_devices [])
