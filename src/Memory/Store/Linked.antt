-- ===== src/Memory/Store/Linked.antt =====
-- kmalloc for the clients of the heap: over a linked heap it returns, and leaves it linked.
use korus_os.Prelude.{ℕ, ◌≡◌, refl, some}
use korus_os.Memory.Heap.Linked.{IsLinked, kmalloc-IsLinked}
use korus_os.Memory.Store.{Store, kmalloc}

abbrev pub Linked : Store → Type 0
Linked s = IsLinked s.headers

pub kmalloc-Linked :
    (s : Store) (size : ℕ)
    → Linked s
    → (ptr : ℕ) × (s' : Store) × (kmalloc s size ≡ some (ptr, s')) × Linked s'
kmalloc-Linked s size v =
    let (ptr, h, e, w) = kmalloc-IsLinked s.headers size v in
    (ptr, record s { headers = h }, rw (e, kmalloc) refl, w)
