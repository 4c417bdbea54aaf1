-- ===== src/Shell.antt =====
-- core/shell/shell.c: the commands and the loop of the shell, over the arguments that Shell/Args gets
-- out of a line. The description of a command, which nothing reads, is left out.
pub mod Args
pub mod Words
mod Tests
use korus_os.Prelude.{
  ℕ, ◌-◌, ◌≡◌, Bool, Option, none, some, List, [], ◌∷◌, ◌++◌, map, leb, ◌==◌, if◌then◌else◌, take,
}
use korus_os.Prelude.Text.{bytes_of}
use Prim.Native.String.{String}
use korus_os.Screen.Print.{Call}
use korus_os.Screen
use korus_os.Keyboard.{Line, kb_readline}
use korus_os.Disk.Identify.{show_disk_info}
use korus_os.Pci.{pci_list_devices}
use korus_os.Report.{show_memory_usage, list_threads, list_processes, list_devices, vfs_list}
use korus_os.Report.Network.{show_network_status}
use korus_os.Machine.{Machine, print_calls, exec_program}
use korus_os.Shell.Args.{kstrcmp, parse_args, shell_input_size, shell_max_args, skip_spaces}

-- The two colours of an entry of cmd_help.
abbrev pub help_line : String → String → List Call
help_line name text =
    Call.color 0x0B 0x00 ∷ Call.print name ∷ Call.color 0x07 0x00 ∷ Call.println text ∷ []

unfoldable pub cmd_help : List Call
cmd_help =
    (Call.color 0x0E 0x00
      ∷ Call.println "=== Korus OS Shell - Comandos Disponíveis ==="
      ∷ Call.color 0x07 0x00
      ∷ Call.println ""
      ∷ [])
    ++ (help_line "  help     " "- Exibe esta lista de comandos"
        ++ (help_line "  mem      " "- Exibe uso de memória RAM"
            ++ (help_line "  devices  " "- Lista dispositivos detectados"
                ++ (help_line "  pci      " "- Lista dispositivos PCI do barramento"
                    ++ (help_line "  disk     " "- Informações sobre discos ATA"
                        ++ (help_line "  net      " "- Status da rede TCP/IP"
                            ++ (help_line "  threads  " "- Lista threads do sistema"
                                ++ (help_line "  ps       " "- Lista processos em execução"
                                    ++ (help_line "  ls [dir] " "- Lista arquivos do diretório"
                                        ++ (help_line "  run <arq>" "- Executa um programa ELF"
                                            ++ (help_line "  echo <tx>" "- Exibe texto na tela"
                                                ++ (help_line "  clear    "
                                                      "- Limpa a tela do terminal"
                                                    ++ (help_line "  version  "
                                                          "- Exibe versão do sistema"
                                                        ++ (Call.println "" ∷ []))))))))))))))

unfoldable pub cmd_version : List Call
cmd_version =
    Call.color 0x0A 0x00
    ∷ Call.println "Korus OS - Experimental Operating System"
    ∷ Call.color 0x07 0x00
    ∷ Call.println "Versao  : 0.1.0"
    ∷ Call.println "Kernel  : Korus OS Kernel x86"
    ∷ Call.println "Compiler: LLVM Clang"
    ∷ Call.println "Arch    : x86 (i686)"
    ∷ Call.println "Boot    : GRUB Multiboot"
    ∷ Call.println ""
    ∷ []

-- The arguments behind the command, with a space between them.
unfoldable pub echo_args : List (List ℕ) → List Call
echo_args [] = []
echo_args (a ∷ []) = Call.string a ∷ []
echo_args (a ∷ b ∷ args) = Call.string a ∷ Call.print " " ∷ echo_args (b ∷ args)

unfoldable pub cmd_echo : List (List ℕ) → List Call
unfolding echo_args
cmd_echo [] = Call.println "" ∷ []
cmd_echo (name ∷ args) = echo_args args ++ (Call.println "" ∷ [])

-- The path that cmd_run builds in its 256 bytes.
unfoldable pub run_path : List ℕ → List ℕ
run_path [] = b'/' ∷ []
run_path (c ∷ cs) = if c == b'/' then take 255 (c ∷ cs) else b'/' ∷ take 254 (c ∷ cs)

abbrev pub usage : List Call
usage =
    Call.println "Uso: run <caminho_do_programa>" ∷ Call.println "Exemplo: run /bin/hello.elf" ∷ []

abbrev pub run_error : List Call
run_error =
    Call.color 0x0C 0x00
    ∷ Call.println "Erro: nao foi possivel executar o programa."
    ∷ Call.color 0x07 0x00
    ∷ []

-- The end of cmd_run, with the int that exec_program returns.
abbrev pub after_run : Option (ℕ × Machine) → Option Machine
after_run none = none
after_run (some (result, m)) = some (if leb 0x8000_0000 result then print_calls m run_error else m)

unfoldable pub cmd_run : List (List ℕ) → Machine → Option Machine
cmd_run [] m = some (print_calls m usage)
cmd_run (name ∷ []) m = some (print_calls m usage)
cmd_run (name ∷ path ∷ args) m = after_run (
    exec_program (print_calls m (Call.print "Carregando: " ∷ Call.string_line path ∷ []))
      (some (run_path path)))

-- The handlers of the table `commands`.
pub data Command : Type 0 where
  help mem devices pci disk net threads ps ls run echo clear version : Command

abbrev pub commands : List (String × Command)
commands =
    ("help", Command.help)
    ∷ ("mem", Command.mem)
    ∷ ("devices", Command.devices)
    ∷ ("pci", Command.pci)
    ∷ ("disk", Command.disk)
    ∷ ("net", Command.net)
    ∷ ("threads", Command.threads)
    ∷ ("ps", Command.ps)
    ∷ ("ls", Command.ls)
    ∷ ("run", Command.run)
    ∷ ("echo", Command.echo)
    ∷ ("clear", Command.clear)
    ∷ ("version", Command.version)
    ∷ []

-- What the handlers that only print send to the screen; `none` for cmd_run. The path of cmd_ls is not
-- used by vfs_list.
abbrev pub command_calls : Command → List (List ℕ) → Machine → Option (List Call)
command_calls Command.help argv m = some cmd_help
command_calls Command.mem argv m = some (show_memory_usage m.paging.frames)
command_calls Command.devices argv m = some (list_devices m.devices)
command_calls Command.pci argv m = some (pci_list_devices m.pci)
command_calls Command.disk argv m = some (show_disk_info m.drives)
command_calls Command.net argv m = some (show_network_status m.net)
command_calls Command.threads argv m = some (list_threads m.procs.sched)
command_calls Command.ps argv m = some (list_processes m.procs)
command_calls Command.ls argv m = some (vfs_list m.vfs)
command_calls Command.run argv m = none
command_calls Command.echo argv m = some (cmd_echo argv)
command_calls Command.clear argv m = some (Call.clear ∷ [])
command_calls Command.version argv m = some cmd_version

abbrev pub print_or_run : Option (List Call) → List (List ℕ) → Machine → Option Machine
print_or_run none argv m = cmd_run argv m
print_or_run (some cs) argv m = some (print_calls m cs)

unfoldable pub run_command : Command → List (List ℕ) → Machine → Option Machine
run_command c argv m = print_or_run (command_calls c argv m) argv m

-- `kstrcmp(argv[0], commands[i].name) == 0`
abbrev pub same_string : List ℕ → List ℕ → Bool
same_string a b = let (x, y) = kstrcmp (some a) (some b) in x == y

-- The search of the table.
unfoldable pub find_command : List ℕ → List (String × Command) → Option Command
find_command name [] = none
find_command name ((s, c) ∷ es) =
    let rest = find_command name es in if same_string name (bytes_of s) then some c else rest

abbrev pub not_found : List ℕ → List Call
not_found name =
    Call.color 0x0C 0x00
    ∷ Call.print "Comando nao encontrado: '"
    ∷ Call.string name
    ∷ Call.println "'"
    ∷ Call.color 0x07 0x00
    ∷ Call.println "Digite 'help' para ver os comandos disponíveis."
    ∷ []

abbrev pub run_found : Option Command → List ℕ → List (List ℕ) → Machine → Option Machine
run_found none name argv m = some (print_calls m (not_found name))
run_found (some c) name argv m = run_command c argv m

abbrev pub execute_args : List (List ℕ) → Machine → Option Machine
execute_args [] m = some m
execute_args (name ∷ args) m = run_found (find_command name commands) name (name ∷ args) m

-- An empty line has no arguments, and neither has one of spaces. none as for exec_program.
unfoldable pub shell_execute : List ℕ → Machine → Option Machine
shell_execute line m = execute_args (parse_args (skip_spaces line) shell_max_args) m

unfoldable pub shell_print_prompt : List Call
shell_print_prompt = Call.color 0x0A 0x00 ∷ Call.print "korus> " ∷ Call.color 0x07 0x00 ∷ []

-- What kb_readline leaves: the line that was read, and the machine with what it printed; none if it
-- still waits for a key.
abbrev pub after_line : Machine → Line → Option (List ℕ × Machine)
after_line m (Line.line buffer printed k keys) =
    some (buffer, print_calls (record m { keyboard = k; keys = keys }) (map Call.char printed))
after_line m (Line.waits buffer printed) = none
after_line m Line.out = none

abbrev pub execute_line : Option (List ℕ × Machine) → Option Machine
execute_line none = none
execute_line (some (line, m)) = shell_execute line m

-- One round of shell_run.
unfoldable pub shell_round : Machine → Option Machine
shell_round m =
    let m' = print_calls m shell_print_prompt in
    execute_line (after_line m' (kb_readline m'.keyboard m'.keys shell_input_size))

-- The machines that shell_run comes to, round by round.
pub data ShellReach : Machine → Machine → Type 0 where
  start : (m : Machine) → ShellReach m m
  next : {m m' m'' : Machine} → ShellReach m m' → shell_round m' ≡ some m'' → ShellReach m m''
