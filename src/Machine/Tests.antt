-- ===== src/Machine/Tests.antt =====
-- A machine and its hardware for the other tests: static variables as they are at first, memory full
-- of zeros, no PCI function, no drive, and four keys that are about to come.
use korus_os.Prelude.{false, none, some, [], ◌∷◌}
use korus_os.Memory.Paging.{zero_entry}
use korus_os.Scheduler.Table.{init_scheduler}
use korus_os.Process.{init_processes}
use korus_os.Devices.{init_devices}
use korus_os.Net.{init_network}
use korus_os.Machine.{Machine}
use korus_os.Kernel.{MultibootInfo, Hardware, kernel_main, multiboot_expected_magic}
use korus_os.Kernel.Boot.{machine_of}

-- The keys spell the line "mem".
abbrev pub static_machine : Machine
static_machine = record {
  screen = record { cells = λ i. 0; cursor_x = 0; cursor_y = 0; cur_color = 7; ports = [] };
  keyboard = record {
    buffer = λ i. 0;
    head = 0;
    tail = 0;
    shift_pressed = false;
    caps_lock = false;
    ctrl_pressed = false;
  };
  keys = none ∷ some 0x32 ∷ some 0x12 ∷ some 0x32 ∷ some 0x1C ∷ [];
  paging = record {
    frames = record { bitmap = λ i. 0; total = 0; used = 0; mem_total_kb = 0 };
    directory = λ i. zero_entry;
    tables = λ n i. zero_entry;
  };
  procs = init_processes init_scheduler (record {
    headers = λ a. record { magic = 0; size = 0; free = false; next = 0 };
    bytes = λ a. 0;
    image_end = 0x12_0000;
  });
  vfs = record {
    mounts = [];
    fds = [];
    files = [];
    file_count = 0;
    inode_counter = 0;
    found = record { name = []; inode = 0; size = 0 };
  };
  devices = init_devices [];
  pci = record {
    pci_devices = λ i. record {
      bus = 0;
      device = 0;
      function = 0;
      vendor_id = 0;
      device_id = 0;
      class_code = 0;
      subclass = 0;
      prog_if = 0;
      revision = 0;
      irq = 0;
      bar0 = 0;
      class_name = [];
    };
    count = 0;
  };
  drives = [];
  net = init_network;
}

abbrev pub hardware : Hardware
hardware = record {
  config = λ a. 0xFFFF_FFFF;
  com1_test = 0xFF;
  com2_test = 0;
  answers =
      λ i. record { controller = record { status = λ n. 0; words = λ n. 0 }; mid = 0; high = 0 };
  bus = record { reads = 0; words_read = 0; writes = [] };
}

abbrev pub info : MultibootInfo
info = record { flags = 1; mem_lower = 640; mem_upper = 64896 }

-- The kernel after its start.
abbrev pub booted : Machine
booted =
    machine_of static_machine (kernel_main multiboot_expected_magic info hardware static_machine)
