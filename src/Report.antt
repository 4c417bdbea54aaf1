-- ===== src/Report.antt =====
-- The functions that show the state of a component: show_memory_usage of core/kernel/memory.c,
-- list_threads of scheduler.c, list_processes of process.c, list_devices of devices.c, vfs_list of
-- core/fs/vfs.c, show_network_status and detect_network of core/net/tcpip.c. Each is the list of its
-- calls of screen.c.
pub mod Network
pub mod Files
mod Tests
use korus_os.Prelude.{
  ℕ, zero, suc, ◌+◌, ◌/◌, not, none, some, List, [], ◌∷◌, ◌++◌, ◌==◌, if◌then◌else◌, length, get_or,
  find_index, count_if,
}
use Prim.Native.String.{String}
use korus_os.Screen.Print.{Call}
use korus_os.Memory.Frames.{Frames, get_memory_info}
use korus_os.Scheduler.Table.{ThreadState, Thread, Sched}
use korus_os.Scheduler.Table
use korus_os.Process.{ProcessState, Privilege, Process, Procs}
use korus_os.Process
use korus_os.Devices.{DeviceType, Device, Devices}
use korus_os.Vfs.Memfs.{MemFile, Vfs, zero_file, has_inode, memfs_readdir}

-- `screen_print(label); screen_print_int((s32)value); screen_println(end);`
abbrev pub labelled : String → ℕ → String → List Call
labelled label value end = Call.print label ∷ Call.int value ∷ Call.println end ∷ []

unfoldable pub show_memory_usage : Frames → List Call
show_memory_usage f =
    let info = get_memory_info f in
    (Call.println "=== Informacoes de Memoria ===" ∷ [])
    ++ (labelled "  Memoria Total : " (info.total_kb / 1024) " MB"
        ++ (labelled "  Memoria Usada : " (info.used_kb / 1024) " MB"
            ++ (labelled "  Memoria Livre : " (info.free_kb / 1024) " MB"
                ++ (labelled "  Paginas Totais: " info.total_pages ""
                    ++ (labelled "  Paginas Usadas: " info.used_pages ""
                        ++ labelled "  Paginas Livres: " info.free_pages "")))))

-- `state_names` of list_threads
abbrev pub thread_state_name : ThreadState → String
thread_state_name ThreadState.empty = "VAZIO"
thread_state_name ThreadState.ready = "PRONTA"
thread_state_name ThreadState.running = "EXECUTANDO"
thread_state_name ThreadState.blocked = "BLOQUEADA"
thread_state_name ThreadState.sleeping = "DORMINDO"
thread_state_name ThreadState.dead = "FINALIZADA"

abbrev pub thread_line : Thread → List Call
thread_line t =
    Call.print "  "
    ∷ Call.int t.id
    ∷ Call.print "    "
    ∷ Call.string t.name
    ∷ Call.print "    "
    ∷ Call.print (thread_state_name t.state)
    ∷ Call.print "    "
    ∷ Call.int t.ticks
    ∷ Call.print "    "
    ∷ Call.int t.priority
    ∷ Call.println ""
    ∷ []

unfoldable pub thread_lines : List Thread → List Call
thread_lines [] = []
thread_lines (t ∷ ts) =
    let rest = thread_lines ts in if Table.is_empty t then rest else thread_line t ++ rest

unfoldable pub list_threads : Sched → List Call
list_threads s =
    Call.println "=== Lista de Threads ==="
    ∷ Call.println "  ID   NOME              ESTADO       TICKS  PRIOR"
    ∷ Call.println "  ---- ----------------- ------------ ------ -----"
    ∷ (thread_lines s.table ++ labelled "Total de threads ativas: " s.count "")

-- `state_names` and `priv_names` of list_processes
abbrev pub process_state_name : ProcessState → String
process_state_name ProcessState.empty = "VAZIO"
process_state_name ProcessState.running = "EXECUTANDO"
process_state_name ProcessState.waiting = "ESPERANDO"
process_state_name ProcessState.zombie = "ZUMBI"

abbrev pub privilege_name : Privilege → String
privilege_name Privilege.kernel = "KERNEL"
privilege_name Privilege.user = "USER"

abbrev pub process_line : Process → List Call
process_line p =
    Call.print "  "
    ∷ Call.int p.pid
    ∷ Call.print "    "
    ∷ Call.string p.name
    ∷ Call.print "    "
    ∷ Call.print (process_state_name p.state)
    ∷ Call.print "    "
    ∷ Call.print (privilege_name p.privilege)
    ∷ Call.print "    "
    ∷ Call.int (length p.thread_ids)
    ∷ Call.println ""
    ∷ []

unfoldable pub process_lines : List Process → List Call
process_lines [] = []
process_lines (p ∷ ps) =
    let rest = process_lines ps in if Process.is_empty p then rest else process_line p ++ rest

-- `count` is the number of slots in use.
unfoldable pub list_processes : Procs → List Call
list_processes s =
    Call.println "=== Lista de Processos ==="
    ∷ Call.println "  PID  Nome                  Estado       Priv    Threads"
    ∷ Call.println "  ---- --------------------- ------------ ------- -------"
    ∷ (process_lines s.table
        ++ labelled "Total de processos: " (count_if (λ p. not (Process.is_empty p)) s.table) "")

-- `device_type_names`
abbrev pub device_type_name : DeviceType → String
device_type_name DeviceType.unknown = "Desconhecido"
device_type_name DeviceType.keyboard = "Teclado"
device_type_name DeviceType.mouse = "Mouse"
device_type_name DeviceType.display = "Monitor"
device_type_name DeviceType.disk_ata = "Disco ATA"
device_type_name DeviceType.disk_scsi = "Disco SCSI"
device_type_name DeviceType.network = "Rede"
device_type_name DeviceType.serial = "Serial"
device_type_name DeviceType.parallel = "Paralela"
device_type_name DeviceType.sound = "Audio"
device_type_name DeviceType.usb = "USB"
device_type_name DeviceType.pci = "PCI"

-- `if (d->info[0])`
abbrev pub info_part : List ℕ → List Call
info_part [] = []
info_part (c ∷ cs) = Call.print "  [" ∷ Call.string (c ∷ cs) ∷ Call.print "]" ∷ []

abbrev pub device_line : Device → List Call
device_line d =
    Call.print "  "
    ∷ Call.int d.id
    ∷ Call.print "    "
    ∷ Call.print (device_type_name d.kind)
    ∷ Call.print "    "
    ∷ Call.string d.name
    ∷ (info_part d.info ++ (Call.println "" ∷ []))

unfoldable pub device_lines : List Device → List Call
device_lines [] = []
device_lines (d ∷ ds) =
    let rest = device_lines ds in if d.active then device_line d ++ rest else rest

unfoldable pub list_devices : Devices → List Call
list_devices s =
    let count = count_if (λ d. d.active) s.table in
    Call.println "=== Dispositivos Detectados ==="
    ∷ Call.println "  ID   Tipo              Nome"
    ∷ Call.println "  ---- ----------------- ----------------------------------------"
    ∷ (device_lines s.table
        ++ (if count == 0
            then Call.println "  Nenhum dispositivo detectado." ∷ []
            else labelled "Total: " count " dispositivos"))

-- The size of the first file in use with the entry's inode.
abbrev pub size_part : List MemFile → ℕ → List Call
size_part files inode = elim (find_index (has_inode inode) files) [
  | none ↦ []
  | some i ↦ Call.int (get_or files i zero_file).size ∷ Call.print " bytes" ∷ []
]

abbrev pub entry_line : List MemFile → List ℕ × ℕ → List Call
entry_line files (name, inode) =
    Call.print "  "
    ∷ Call.string name
    ∷ Call.print "    "
    ∷ (size_part files inode ++ (Call.println "  [ARQUIVO]" ∷ []))

-- What the loop of vfs_list gets from readdir, from `index` on.
unfoldable pub read_entries : ℕ → List MemFile → ℕ → List (List ℕ × ℕ)
read_entries zero files index = []
read_entries (suc n) files index = elim (memfs_readdir files index) [
  | none ↦ []
  | some e ↦ e ∷ read_entries n files (index + 1)
]

unfoldable pub entry_lines : List MemFile → List (List ℕ × ℕ) → List Call
entry_lines files [] = []
entry_lines files (e ∷ es) = entry_line files e ++ entry_lines files es

-- The loop of vfs_list takes one round more than there are files, at most. The path is not used.
unfoldable pub vfs_list : Vfs → List Call
vfs_list s =
    Call.println "=== Conteudo do Diretorio ==="
    ∷ Call.println "  Nome               Tamanho   Tipo"
    ∷ Call.println "  -----------------  --------  ----"
    ∷ (entry_lines s.files (read_entries (length s.files + 1) s.files 0)
        ++ labelled "Total: " s.file_count " arquivo(s)")

-- list_files of disk.c; neither looks at the path.
unfoldable pub list_files : Vfs → List Call
list_files s = vfs_list s
