-- ===== src/Report/Tests.antt =====
-- A directory of two files.
use korus_os.Prelude.{◌+◌, length, ◌≡◌, refl, true, List, [], ◌∷◌}
use korus_os.Vfs.Memfs.{MemFile, zero_file}
use korus_os.Report.Files.{directory, read_entries-directory}
use korus_os.Report.{read_entries}

abbrev files : List MemFile
files =
    record zero_file { name = b'A' ∷ []; used = true; inode = 1 }
    ∷ zero_file
    ∷ record zero_file { name = b'B' ∷ []; used = true; inode = 2 }
    ∷ []

two_names : directory files ≡ (b'A' ∷ [], 1) ∷ (b'B' ∷ [], 2) ∷ []
two_names = refl

read_entries-directory_example : read_entries (length files + 1) files 0 ≡ directory files
read_entries-directory_example = read_entries-directory files
