-- ===== src/Process/Slots.antt =====
-- The free slot that create_process takes.
use korus_os.Prelude.{ℕ, ◌≡◌, some, List, Found, find_index-Found}
use korus_os.Process.{Process, zero_process, is_empty, find_free_proc_slot}

pub find_free_proc_slot-Found :
    (table : List Process) (i : ℕ)
    → find_free_proc_slot table ≡ some i
    → Found is_empty table i zero_process
unfolding find_free_proc_slot
find_free_proc_slot-Found table i h = find_index-Found is_empty table i zero_process h
