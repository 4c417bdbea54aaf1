-- ===== src/Kernel.antt =====
-- core/kernel/kernel.c: kernel_main, up to the rounds of the shell, which stand in Shell. Everything
-- that the hardware answers during the start is an argument.
pub mod Boot
mod Tests
use korus_os.Prelude.{
  ℕ, ◌-◌, ◌*◌, ◌/◌, ◌%◌, not, Option, none, some, List, [], ◌∷◌, ◌++◌, ◌==◌, if◌then◌else◌, add32,
  get_or,
}
use Prim.Native.String.{String}
use korus_os.Memory.Heap.{init_heap}
use korus_os.Memory.Paging.{init_memory}
use korus_os.Process.{init_processes}
use korus_os.Scheduler.Table.{init_scheduler}
use korus_os.Keyboard.{init_keyboard}
use korus_os.Screen.{Screen, init_screen, screen_clear}
use korus_os.Screen.Print.{Call, show}
use korus_os.Devices.{init_devices, detect_devices}
use korus_os.Disk.Ata.{Bus}
use korus_os.Disk.Identify.{Answer, blank_drive, init_disk}
use korus_os.Net.{init_network}
use korus_os.Pci.{ConfigSpace, init_pci, pci_scan_bus}
use korus_os.Vfs.{vfs_init}
use korus_os.Machine.{Machine, print_calls}

abbrev pub multiboot_expected_magic : ℕ
multiboot_expected_magic = 0x2BADB002

-- The fields of multiboot_info_t that kernel_main reads.
pub record MultibootInfo : Type 0 where
  pub flags : ℕ
  pub mem_lower : ℕ
  pub mem_upper : ℕ

-- The PCI configuration space, the two serial ports, the drives and what was written to them.
pub record Hardware : Type 0 where
  pub config : ConfigSpace
  pub com1_test : ℕ
  pub com2_test : ℕ
  pub answers : ℕ → Answer
  pub bus : Bus

unfoldable pub print_banner : List Call
print_banner =
    Call.color 0x0A 0x00
    ∷ Call.println "╔══════════════════════════════════════════════════╗"
    ∷ Call.println "║          Korus OS - Experimental OS v0.1.0           ║"
    ∷ Call.println "║     Kernel x86 experimental baseado em C         ║"
    ∷ Call.println "╚══════════════════════════════════════════════════╝"
    ∷ Call.color 0x07 0x00
    ∷ Call.println ""
    ∷ []

unfoldable pub print_init_step : String → List Call
print_init_step msg =
    Call.color 0x0A 0x00 ∷ Call.print "[OK] " ∷ Call.color 0x07 0x00 ∷ Call.println msg ∷ []

unfoldable pub print_fail_step : String → List Call
print_fail_step msg =
    Call.color 0x0C 0x00 ∷ Call.print "[ERRO] " ∷ Call.color 0x07 0x00 ∷ Call.println msg ∷ []

-- What kernel_panic prints before it stops.
unfoldable pub kernel_panic : String → List Call
kernel_panic msg =
    Call.color 0x0C 0x00
    ∷ Call.println ""
    ∷ Call.println "*** KERNEL PANIC ***"
    ∷ Call.print "Erro: "
    ∷ Call.println msg
    ∷ Call.println "Sistema travado. Reinicie o computador."
    ∷ []

unfoldable pub kernel_log : String → List Call
kernel_log msg =
    Call.color 0x08 0x00 ∷ Call.print "[LOG] " ∷ Call.color 0x07 0x00 ∷ Call.println msg ∷ []

-- The memory that kernel_main counts on, 32 MB where the loader does not say.
unfoldable pub mem_total_kb : MultibootInfo → ℕ
mem_total_kb mbi = if mbi.flags % 2 == 1 then add32 mbi.mem_lower mbi.mem_upper else 32 * 1024

-- The loop of init_keyboard that drops the keys that wait: it ends at the first poll that finds none.
-- Without such a poll it has not ended.
unfoldable pub drop_pending : List (Option ℕ) → Option (List (Option ℕ))
drop_pending [] = none
drop_pending (none ∷ keys) = some keys
drop_pending (some key ∷ keys) = drop_pending keys

-- init_memory: the frames and the tables, and the heap.
abbrev pub start_memory : ℕ → Machine → Machine
start_memory kb m =
    let store = record (m.procs.store) { headers = init_heap m.procs.store.headers } in
    record m {
      paging = init_memory m.paging.frames.used kb m.paging.tables;
      procs = record (m.procs) { store = store };
    }

-- With the polls that are left after the loop of init_keyboard.
abbrev pub start_keyboard : List (Option ℕ) → Machine → Machine
start_keyboard keys m = record m { keyboard = init_keyboard m.keyboard; keys = keys }

abbrev pub start_devices : Hardware → Machine → Machine
start_devices h m =
    let found = detect_devices (init_devices m.devices.table) h.com1_test h.com2_test in
    let (pci, devices) = pci_scan_bus h.config (init_pci m.pci) found in
    record m { devices = devices; pci = pci }

abbrev pub start_disk : Hardware → Machine → Machine
start_disk h m = record m {
  drives = (init_disk h.answers (λ i. get_or m.drives i blank_drive) h.bus).0;
}

abbrev pub start_vfs : Machine → Machine
start_vfs m = record m { vfs = vfs_init m.vfs }

abbrev pub start_processes : Machine → Machine
start_processes m = record m { procs = init_processes init_scheduler m.procs.store }

abbrev pub start_network : Machine → Machine
start_network m = record m { net = init_network }

abbrev pub init_step : String → Machine → Machine
init_step msg m = print_calls m (print_init_step msg)

-- kernel_main from the memory to the network.
unfoldable pub init_all : ℕ → Hardware → List (Option ℕ) → Machine → Machine
init_all kb h keys m =
    let m1 = init_step "Gerenciamento de memoria e paginacao inicializados" (start_memory kb m) in
    let m2 = init_step "Driver de teclado PS/2 inicializado" (start_keyboard keys m1) in
    let m3 = init_step "Deteccao de dispositivos e barramento PCI concluida" (start_devices h m2) in
    let m4 = init_step "Driver de disco ATA/IDE inicializado" (start_disk h m3) in
    let m5 = init_step "Sistema de Arquivos Virtual (VFS) inicializado" (start_vfs m4) in
    let m6 =
      init_step "Scheduler de threads e gerenciamento de processos OK" (start_processes m5) in
    let m7 = init_step "Tabela de chamadas de sistema (syscalls) registrada" m6 in
    init_step "Subsistema de rede TCP/IP inicializado" (start_network m7)

abbrev pub ready_calls : ℕ → List Call
ready_calls kb =
    Call.println ""
    ∷ Call.color 0x0B 0x00
    ∷ Call.print "Memoria detectada: "
    ∷ Call.int (kb / 1024)
    ∷ Call.println " MB"
    ∷ Call.color 0x07 0x00
    ∷ Call.println ""
    ∷ Call.color 0x0E 0x00
    ∷ Call.println "Sistema inicializado com sucesso! Digite 'help' para ajuda."
    ∷ Call.color 0x07 0x00
    ∷ Call.println ""
    ∷ []

-- What kernel_main comes to: it has stopped, it is still in init_keyboard's loop, or it starts the
-- shell.
pub data Started : Type 0 where
  halted : Screen → Started
  draining : Started
  running : Machine → Started

abbrev pub first_screen : Screen → Screen
first_screen s = show (screen_clear (init_screen s)) print_banner

-- kernel_main behind the test of the magic number, with what init_keyboard's loop leaves of the polls.
abbrev pub run_all : ℕ → Hardware → Machine → Option (List (Option ℕ)) → Started
run_all kb h m none = Started.draining
run_all kb h m (some keys) = Started.running (print_calls (init_all kb h keys m) (ready_calls kb))

unfoldable pub kernel_main : ℕ → MultibootInfo → Hardware → Machine → Started
kernel_main magic mbi h m =
    let s = first_screen m.screen in
    let kb = mem_total_kb mbi in
    let intro = Call.println "Inicializando subsistemas do kernel..." ∷ Call.println "" ∷ [] in
    let failed =
      print_fail_step "Magic number Multiboot invalido!"
      ++ kernel_panic "Boot invalido - nao inicializado pelo GRUB" in
    if not (magic == multiboot_expected_magic)
    then Started.halted (show s failed)
    else run_all kb h (print_calls (record m { screen = s }) intro) (drop_pending m.keys)
