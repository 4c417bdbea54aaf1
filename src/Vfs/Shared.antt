-- ===== src/Vfs/Shared.antt =====
-- All open files share one node: the static found_node of memfs_finddir.
use korus_os.Vfs.Memfs.{Vfs}
