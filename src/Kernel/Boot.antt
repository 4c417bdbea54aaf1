-- ===== src/Kernel/Boot.antt =====
-- What holds when the shell starts.
use korus_os.Prelude.{
  ℕ, zero, suc, ◌+◌, ◌-◌, ◌≡◌, refl, true, Option, none, some, Option-cases, inl, inr, subst, sym,
  ap, ◌∙◌, List, [], ◌∷◌,
}
use korus_os.Prelude.Bits.{test_bit}
use korus_os.Memory.Heap.{heap_start, heap_max_size, header_size, init_heap, Headers}
use korus_os.Memory.Heap.Chain.{Block, Chain}
use korus_os.Memory.Paging.{Paging, PageEntry, page_present, map_page, identity_map, init_memory}
use korus_os.Memory.Frames.{page_size}
use korus_os.Memory.Paging.Map.{IsSeparate}
use korus_os.Memory.Paging.Translate.{map_page-Maps}
use korus_os.Memory.Paging.Init.{empty_paging-IsSeparate}
use korus_os.Scheduler.Reach.{Reach, Reach-IsValid}
use korus_os.Process.{init_processes}
use korus_os.Process.Safety.{init_processes-IsSound}
use korus_os.Scheduler.Table.{init_scheduler}
use korus_os.Vfs.Valid.{vfs_init-IsValid}
use korus_os.Memory.Heap.Linked.{init_heap-IsLinked}
use korus_os.Memory.Store.Linked.{Linked}
use korus_os.Screen.{Screen, init_screen, screen_clear}
use korus_os.Screen.Cursor.{InScreen}
use korus_os.Screen.Print.{Call, show-InScreen, clear-InScreen}
use korus_os.Machine.{Machine, print_calls}
use korus_os.Machine.Safety.{IsSound, print_calls-IsSound}
use korus_os.Kernel.{
  MultibootInfo, Hardware, multiboot_expected_magic, mem_total_kb, init_all, print_banner,
  first_screen, ready_calls, Started, kernel_main, init_step, start_memory, start_keyboard,
  start_devices, start_disk, start_vfs, start_processes, start_network, drop_pending, run_all,
}

three_present : page_present 3 ≡ true
unfolding test_bit
three_present = refl

identity_map-IsSeparate :
    (n addr : ℕ) (p : Paging) → IsSeparate p → IsSeparate (identity_map n addr p)
unfolding identity_map
identity_map-IsSeparate zero addr p v = v
identity_map-IsSeparate (suc n) addr p v =
    identity_map-IsSeparate n (addr + page_size) (map_page p addr addr 3)
      (map_page-Maps p addr addr 3 v three_present).0

-- However much memory there is, init_memory from used_frames at 0 leaves separate tables.
init_memory-IsSeparate :
    (kb : ℕ) (tables : ℕ → ℕ → PageEntry) → IsSeparate (init_memory 0 kb tables)
unfolding init_memory
init_memory-IsSeparate kb tables =
    identity_map-IsSeparate 1024 0 _ (empty_paging-IsSeparate kb tables)

-- The whole heap as one free block.
abbrev pub one_block : List Block
one_block = record { size = heap_max_size - header_size; free = true } ∷ []

-- No thread is current.
abbrev pub Idle : Machine → Type 0
Idle m = m.procs.sched.current ≡ none

-- What the components promise each other when the shell starts.
pub record IsReady (m : Machine) : Type 0 where
  pub sound : IsSound m
  pub heap : Chain m.procs.store.headers heap_start one_block
  pub idle : Idle m

heap-Chain : (h : Headers) → Chain (init_heap h) heap_start one_block
unfolding init_heap
heap-Chain h = (refl, tt)

first_screen-InScreen : (s : Screen) → InScreen (first_screen s)
first_screen-InScreen s =
    show-InScreen (screen_clear (init_screen s)) print_banner (clear-InScreen (init_screen s))

-- The machine of a start that did not stop.
abbrev pub machine_of : Machine → Started → Machine
machine_of m (Started.halted s) = m
machine_of m Started.draining = m
machine_of m (Started.running m') = m'

-- What holds while the kernel starts, from the memory on.
record Starting (m : Machine) : Type 0 where
  on_screen : InScreen m.screen
  separate : IsSeparate m.paging
  heap : Linked m.procs.store

print_calls-Starting : (m : Machine) (cs : List Call) → Starting m → Starting (print_calls m cs)
print_calls-Starting m cs v = record {
  on_screen = show-InScreen m.screen cs v.on_screen;
  separate = v.separate;
  heap = v.heap;
}

start_memory-Starting :
    (kb : ℕ) (m : Machine)
    → m.paging.frames.used ≡ 0
    → InScreen m.screen
    → Starting (start_memory kb m)
start_memory-Starting kb m z s = record {
  on_screen = s;
  separate =
      subst (λ u. IsSeparate (init_memory u kb m.paging.tables)) (sym z)
        (init_memory-IsSeparate kb m.paging.tables);
  heap = init_heap-IsLinked m.procs.store.headers;
}

-- With the file system and the processes started, all parts are sound.
start_processes-IsSound :
    (m : Machine) (cs : List Call)
    → Starting (print_calls (start_vfs m) cs)
    → IsSound (start_processes (print_calls (start_vfs m) cs))
unfolding init_processes
start_processes-IsSound m cs v =
    let (a, b) = Reach-IsValid Reach.here in
    record {
      on_screen = v.on_screen;
      separate = v.separate;
      files = vfs_init-IsValid m.vfs;
      processes =
          init_processes-IsSound init_scheduler m.procs.store (record { valid = a; live = b })
            v.heap;
    }

init_all-IsSound :
    (kb : ℕ) (h : Hardware) (keys : List (Option ℕ)) (m : Machine)
    → m.paging.frames.used ≡ 0
    → InScreen m.screen
    → IsSound (init_all kb h keys m)
unfolding init_all
init_all-IsSound kb h keys m z s =
    let m1 = init_step "Gerenciamento de memoria e paginacao inicializados" (start_memory kb m) in
    let m2 = init_step "Driver de teclado PS/2 inicializado" (start_keyboard keys m1) in
    let m3 = init_step "Deteccao de dispositivos e barramento PCI concluida" (start_devices h m2) in
    let m4 = init_step "Driver de disco ATA/IDE inicializado" (start_disk h m3) in
    let m5 = init_step "Sistema de Arquivos Virtual (VFS) inicializado" (start_vfs m4) in
    let m6 =
      init_step "Scheduler de threads e gerenciamento de processos OK" (start_processes m5) in
    let m7 = init_step "Tabela de chamadas de sistema (syscalls) registrada" m6 in
    let v1 = print_calls-Starting (start_memory kb m) _ (start_memory-Starting kb m z s) in
    let v2 =
      print_calls-Starting (start_keyboard keys m1) _
        (record { on_screen = v1.on_screen; separate = v1.separate; heap = v1.heap }) in
    let v3 =
      print_calls-Starting (start_devices h m2) _
        (record { on_screen = v2.on_screen; separate = v2.separate; heap = v2.heap }) in
    let v4 =
      print_calls-Starting (start_disk h m3) _
        (record { on_screen = v3.on_screen; separate = v3.separate; heap = v3.heap }) in
    let v5 =
      print_calls-Starting (start_vfs m4) _
        (record { on_screen = v4.on_screen; separate = v4.separate; heap = v4.heap }) in
    let v6 = print_calls-IsSound (start_processes m5) _ (start_processes-IsSound m4 _ v5) in
    let v7 = print_calls-IsSound m6 _ v6 in
    print_calls-IsSound (start_network m7) _ (record {
      on_screen = v7.on_screen;
      separate = v7.separate;
      files = v7.files;
      processes = v7.processes;
    })

-- The heap and the scheduler, which the start of the processes leaves as they are.
abbrev Parts : Machine → Type 0
Parts m = Chain m.procs.store.headers heap_start one_block × Idle m

init_all-Parts :
    (kb : ℕ) (h : Hardware) (keys : List (Option ℕ)) (m : Machine) → Parts (init_all kb h keys m)
unfolding init_all init_processes init_scheduler korus_os.Prelude.find_index
init_all-Parts kb h keys m = (heap-Chain m.procs.store.headers, refl)

-- What kernel_main comes to, by what init_keyboard's loop leaves of the polls.
abbrev pub Boots : MultibootInfo → Hardware → Machine → Option (List (Option ℕ)) → Type 0
Boots mbi h m none = kernel_main multiboot_expected_magic mbi h m ≡ Started.draining
Boots mbi h m (some keys) =
    (m' : Machine) × (kernel_main multiboot_expected_magic mbi h m ≡ Started.running m')
    × (m'.keys ≡ keys)
    × IsReady m'

init_all-keys :
    (kb : ℕ) (h : Hardware) (keys : List (Option ℕ)) (m : Machine)
    → (init_all kb h keys m).keys ≡ keys
unfolding init_all
init_all-keys kb h keys m = refl

abbrev intro : List Call
intro = Call.println "Inicializando subsistemas do kernel..." ∷ Call.println "" ∷ []

abbrev introduced : Machine → Machine
introduced m = print_calls (record m { screen = first_screen m.screen }) intro

kernel_main-run :
    (mbi : MultibootInfo) (h : Hardware) (m : Machine)
    → kernel_main multiboot_expected_magic mbi h m
      ≡ run_all (mem_total_kb mbi) h (introduced m) (drop_pending m.keys)
unfolding kernel_main
kernel_main-run mbi h m = refl

-- With the magic number of Multiboot, used_frames at 0 as a static variable starts, and a keyboard
-- controller that reports an empty buffer at some poll, so that init_keyboard's loop ends, kernel_main
-- starts the shell on the polls that are left and on a sound machine, whatever the other static variables
-- held and the other hardware answers: the cursor on the screen, the page tables separate and the frames
-- exactly counted, no file and no descriptor's offset past 4096 bytes, the tables of processes and of
-- threads valid. The heap is one free block, and no thread is current. Without such a poll it stays in
-- init_keyboard.
pub kernel_main-IsReady :
    (mbi : MultibootInfo) (h : Hardware) (m : Machine)
    → m.paging.frames.used ≡ 0
    → Boots mbi h m (drop_pending m.keys)
kernel_main-IsReady mbi h m z =
    let kb = mem_total_kb mbi in
    let m0 = introduced m in
    let on = show-InScreen (first_screen m.screen) intro (first_screen-InScreen m.screen) in
    elim (Option-cases (drop_pending m.keys)) [
      | inl e ↦ rw e (kernel_main-run mbi h m ∙ ap (run_all kb h m0) e)
      | inr (keys, e) ↦
          let (c, v) = init_all-Parts kb h keys m0 in
          rw e (
            print_calls (init_all kb h keys m0) (ready_calls kb),
            kernel_main-run mbi h m ∙ ap (run_all kb h m0) e,
            init_all-keys kb h keys m0,
            record {
              sound =
                  print_calls-IsSound (init_all kb h keys m0) (ready_calls kb)
                    (init_all-IsSound kb h keys m0 z on);
              heap = c;
              idle = v;
            },
          )
    ]
