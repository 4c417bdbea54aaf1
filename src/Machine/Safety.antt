-- ===== src/Machine/Safety.antt =====
-- The invariant of the machine: the cursor on the screen, the page tables separate and the frames
-- exactly counted, the file system valid, the processes with their scheduler and heap sound.
use korus_os.Prelude.{List}
use korus_os.Memory.Paging.Map.{IsSeparate}
use korus_os.Vfs.Valid.{IsValid}
use korus_os.Process.Safety
use korus_os.Process.Safety.{SoundAfter, create_process-IsSound, store-IsSound}
use korus_os.Screen.Cursor.{InScreen}
use korus_os.Screen.Print.{Call, show-InScreen}
use korus_os.Machine.{Machine, print_calls}

pub record IsSound (m : Machine) : Type 0 where
  pub on_screen : InScreen m.screen
  pub separate : IsSeparate m.paging
  pub files : IsValid m.vfs
  pub processes : Safety.IsSound m.procs

pub print_calls-IsSound : (m : Machine) (cs : List Call) → IsSound m → IsSound (print_calls m cs)
print_calls-IsSound m cs v = record {
  on_screen = show-InScreen m.screen cs v.on_screen;
  separate = v.separate;
  files = v.files;
  processes = v.processes;
}
