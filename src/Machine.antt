-- ===== src/Machine.antt =====
-- The kernel as a whole: the static variables of its parts, what its ports will read, and
-- exec_program of core/kernel/process.c, which several parts work for.
pub mod Safety
pub mod Tests
use korus_os.Prelude.{ℕ, false, Option, none, some, List, [], ◌∷◌, ◌==◌, leb, if◌then◌else◌, sub32}
use korus_os.Memory.Paging.{Paging}
use korus_os.Memory.Bytes.{Bytes}
use korus_os.Process.{Procs, Privilege, create_process}
use korus_os.Keyboard.{Keyboard}
use korus_os.Screen.{Screen}
use korus_os.Screen.Print.{Call, show}
use korus_os.Devices.{Devices}
use korus_os.Disk.Identify.{Drive}
use korus_os.Elf.{Space, ElfContext, Loaded, load_elf_from_file}
use korus_os.Net.{Net}
use korus_os.Pci.{Pci}
use korus_os.Vfs.Memfs.{Vfs}

-- `procs` holds the scheduler, the heap and the bytes of memory, `paging` the frames. `keys` is what
-- the keyboard's port gives at the polls to come.
pub record Machine : Type 0 where
  pub screen : Screen
  pub keyboard : Keyboard
  pub keys : List (Option ℕ)
  pub paging : Paging
  pub procs : Procs
  pub vfs : Vfs
  pub devices : Devices
  pub pci : Pci
  pub drives : List Drive
  pub net : Net

abbrev pub memory : Machine → Bytes
memory m = m.procs.store.bytes

abbrev pub set_memory : Machine → Bytes → Machine
set_memory m b = record m {
  procs = record (m.procs) { store = record (m.procs.store) { bytes = b } };
}

abbrev pub print_calls : Machine → List Call → Machine
print_calls m cs = record m { screen = show m.screen cs }

abbrev pub space_of : Machine → Space
space_of m = record { paging = m.paging; store = m.procs.store }

abbrev pub set_space : Machine → Vfs → Space → Machine
set_space m v s = record m {
  vfs = v;
  paging = s.paging;
  procs = record (m.procs) { store = s.store };
}

-- `ctx` of exec_program before load_elf_from_file: nothing reads it.
abbrev pub no_context : ElfContext
no_context = record { entry_point = 0; load_base = 0; load_end = 0; valid = false }

-- A negative int as its 32-bit pattern.
abbrev pub negative : ℕ → ℕ
negative k = sub32 0 k

abbrev pub minus_one : ℕ
minus_one = 0xFFFF_FFFF

abbrev pub load_error : List ℕ → ℕ → List Call
load_error path result =
    Call.print "Erro ao carregar ELF: "
    ∷ Call.string path
    ∷ Call.print " (codigo: "
    ∷ Call.int (negative result)
    ∷ Call.println ")"
    ∷ []

abbrev pub program_loaded : ℕ → ℕ → List Call
program_loaded pid entry_point =
    Call.print "Programa carregado. PID: "
    ∷ Call.int pid
    ∷ Call.print ", Entry: "
    ∷ Call.hex entry_point
    ∷ Call.println ""
    ∷ []

abbrev no_process : List Call
no_process = Call.println "Erro: nao foi possivel criar processo." ∷ []

-- The end of exec_program, with what create_process returns: a pid from 2^31 on is a negative int.
unfoldable pub after_create : Machine → ℕ → Option ℕ × Procs → ℕ × Machine
after_create m entry_point (none, procs) =
    (minus_one, print_calls (record m { procs = procs }) no_process)
after_create m entry_point (some pid, procs) =
    let m' = record m { procs = procs } in
    if leb 0x8000_0000 pid
    then (minus_one, print_calls m' no_process)
    else (pid, print_calls m' (program_loaded pid entry_point))

-- none from create_process is a search of the heap that ran out of fuel, and stays none.
abbrev pub finish : Machine → ℕ → Option (Option ℕ × Procs) → Option (ℕ × Machine)
finish m entry_point none = none
finish m entry_point (some r) = some (after_create m entry_point r)

abbrev pub start_program : Machine → List ℕ → ℕ → Option (ℕ × Machine)
start_program m path entry_point =
    finish m entry_point (create_process m.procs (some path) entry_point Privilege.user)

unfoldable pub after_load : Machine → List ℕ → Option Loaded → Option (ℕ × Machine)
after_load m path none = none
after_load m path (some (result, ctx, v, s)) =
    let started = start_program (set_space m v s) path ctx.entry_point in
    if result == 0
    then started
    else some (negative result, print_calls (set_space m v s) (load_error path result))

-- The result is the int's pattern.
unfoldable pub exec_program : Machine → Option (List ℕ) → Option (ℕ × Machine)
exec_program m none = some (minus_one, m)
exec_program m (some path) =
    after_load m path (load_elf_from_file (some path) m.vfs (space_of m) no_context)
