-- ===== src/Pci/Scan.antt =====
-- What pci_scan_bus finds.
use korus_os.Prelude.{
  ℕ, zero, suc, ◌+◌, ◌≤◌, ◌≡◌, refl, true, false, List, [], ◌∷◌, ◌++◌, append-nil, append_assoc,
  arith, leb, ◌==◌, if◌then◌else◌, update, Bool-cases, inl, inr, sym, ◌∙◌, ==_of_ne, ==-self, ap,
  leb→le, length, take, length-append,
}
use korus_os.Devices.{Devices}
use korus_os.Pci.{
  ConfigSpace, Pci, PciDevice, pci_max_stored, pci_max_devices, pci_max_functions,
  pci_invalid_vendor, pci_config_read16, pci_config_read8, no_function, read_device, store_device,
  pci_detect_device, scan_functions, scan_device, scan_devices, scan_buses, pci_scan_bus,
}

-- A function on the bus: bus, device, function.
abbrev pub Place : Type 0
Place = ℕ × ℕ × ℕ

abbrev pub functions_from : ℕ → ℕ → ℕ → ℕ → List Place
functions_from zero bus dev func = []
functions_from (suc n) bus dev func = (bus, dev, func) ∷ functions_from n bus dev (func + 1)

-- The functions of a device that answers: all eight, or the first one alone.
abbrev pub places_of : ConfigSpace → ℕ → ℕ → List Place
places_of c bus dev =
    if pci_config_read16 c bus dev 0 0x00 == pci_invalid_vendor
    then []
    else if leb 0x80 (pci_config_read8 c bus dev 0 0x0E)
    then functions_from pci_max_functions bus dev 0
    else (bus, dev, 0) ∷ []

abbrev pub device_places : ℕ → ConfigSpace → ℕ → ℕ → List Place
device_places zero c bus dev = []
device_places (suc n) c bus dev = places_of c bus dev ++ device_places n c bus (dev + 1)

abbrev pub bus_places : ℕ → ConfigSpace → ℕ → List Place
bus_places zero c bus = []
bus_places (suc n) c bus = device_places pci_max_devices c bus 0 ++ bus_places n c (bus + 1)

-- The functions among the places that answer, with what they hold.
abbrev pub answering : ConfigSpace → List Place → List PciDevice
answering c [] = []
answering c ((bus, dev, func) ∷ ps) =
    if no_function c bus dev func
    then answering c ps
    else read_device c bus dev func ∷ answering c ps

abbrev pub listed : (ℕ → PciDevice) → ℕ → List PciDevice
listed ds zero = []
listed ds (suc n) = listed ds n ++ (ds n ∷ [])

-- The devices that the table holds, in its order.
abbrev pub found_devices : Pci → List PciDevice
found_devices p = listed p.pci_devices p.count

detect_all : ConfigSpace → List Place → Pci × Devices → Pci × Devices
detect_all c [] s = s
detect_all c ((bus, dev, func) ∷ ps) s = detect_all c ps (pci_detect_device c bus dev func s)

detect_all-append :
    (c : ConfigSpace) (ps qs : List Place) (s : Pci × Devices)
    → detect_all c (ps ++ qs) s ≡ detect_all c qs (detect_all c ps s)
unfolding detect_all
detect_all-append c [] qs s = refl
detect_all-append c ((bus, dev, func) ∷ ps) qs s =
    detect_all-append c ps qs (pci_detect_device c bus dev func s)

scan_functions-all :
    (n : ℕ) (c : ConfigSpace) (bus dev func : ℕ) (s : Pci × Devices)
    → scan_functions n c bus dev func s ≡ detect_all c (functions_from n bus dev func) s
unfolding scan_functions detect_all
scan_functions-all zero c bus dev func s = refl
scan_functions-all (suc n) c bus dev func s =
    scan_functions-all n c bus dev (func + 1) (pci_detect_device c bus dev func s)

scan_device-all :
    (c : ConfigSpace) (bus dev : ℕ) (s : Pci × Devices)
    → scan_device c bus dev s ≡ detect_all c (places_of c bus dev) s
unfolding scan_device detect_all
scan_device-all c bus dev s =
    elim (Bool-cases (pci_config_read16 c bus dev 0 0x00 == pci_invalid_vendor)) [
      | inl e ↦ rw e
      | inr e ↦ elim (Bool-cases (leb 0x80 (pci_config_read8 c bus dev 0 0x0E))) [
        | inl f ↦ rw (e, f) (scan_functions-all pci_max_functions c bus dev 0 s)
        | inr f ↦ rw (e, f)
      ]
    ]

scan_devices-all :
    (n : ℕ) (c : ConfigSpace) (bus dev : ℕ) (s : Pci × Devices)
    → scan_devices n c bus dev s ≡ detect_all c (device_places n c bus dev) s
unfolding scan_devices detect_all
scan_devices-all zero c bus dev s = refl
scan_devices-all (suc n) c bus dev s =
    ap (scan_devices n c bus (dev + 1)) (scan_device-all c bus dev s)
    ∙ scan_devices-all n c bus (dev + 1) (detect_all c (places_of c bus dev) s)
    ∙ sym (detect_all-append c (places_of c bus dev) (device_places n c bus (dev + 1)) s)

scan_buses-all :
    (n : ℕ) (c : ConfigSpace) (bus : ℕ) (s : Pci × Devices)
    → scan_buses n c bus s ≡ detect_all c (bus_places n c bus) s
unfolding scan_buses bus_places detect_all
scan_buses-all zero c bus s = refl
scan_buses-all (suc n) c bus s =
    ap (scan_buses n c (bus + 1)) (scan_devices-all pci_max_devices c bus 0 s)
    ∙ scan_buses-all n c (bus + 1) (detect_all c (device_places pci_max_devices c bus 0) s)
    ∙ sym (detect_all-append c (device_places pci_max_devices c bus 0) (bus_places n c (bus + 1)) s)

-- A write behind the listed devices does not show.
listed-update :
    (ds : ℕ → PciDevice) (d : PciDevice) (n k : ℕ) → n ≤ k → listed (update ds k d) n ≡ listed ds n
listed-update ds d zero k l = refl
listed-update ds d (suc n) k l =
    let other : update ds k d n ≡ ds n = rw (==_of_ne k n (omega arith)) in
    rw (other, listed-update ds d n k (omega arith))

take-all {ℓ} : {A : Type ℓ} (xs ys : List A) → take (length xs) (xs ++ ys) ≡ xs
take-all [] ys = refl
take-all (x ∷ xs) ys = ap (λ z. x ∷ z) (take-all xs ys)

length-listed : (ds : ℕ → PciDevice) (n : ℕ) → length (listed ds n) ≡ n
length-listed ds zero = refl
length-listed ds (suc n) =
    length-append (listed ds n) (ds n ∷ []) ∙ omega (arith, length-listed ds n)

take_short {ℓ} : {A : Type ℓ} (k : ℕ) (xs : List A) → length xs ≤ k → take k xs ≡ xs
take_short zero [] l = refl
take_short (suc k) [] l = refl
take_short zero (x ∷ xs) l = absurd (omega arith)
take_short (suc k) (x ∷ xs) l = ap (λ z. x ∷ z) (take_short k xs (omega arith))

take_prefix {ℓ} : {A : Type ℓ} (k : ℕ) (xs ys : List A) → length xs ≡ k → take k (xs ++ ys) ≡ xs
take_prefix k xs ys e = rw (← e) (take-all xs ys)

detect-none :
    (c : ConfigSpace) (bus dev func : ℕ) (p : Pci) (s : Devices)
    → no_function c bus dev func ≡ true
    → pci_detect_device c bus dev func (p, s) ≡ (p, s)
unfolding pci_detect_device
detect-none c bus dev func p s e = rw e

detect-full :
    (c : ConfigSpace) (bus dev func : ℕ) (p : Pci) (s : Devices)
    → no_function c bus dev func ≡ false
    → leb pci_max_stored p.count ≡ true
    → pci_detect_device c bus dev func (p, s) ≡ (p, s)
unfolding pci_detect_device
detect-full c bus dev func p s e f = rw (e, f)

detect-new :
    (c : ConfigSpace) (bus dev func : ℕ) (p : Pci) (s : Devices)
    → no_function c bus dev func ≡ false
    → leb pci_max_stored p.count ≡ false
    → pci_detect_device c bus dev func (p, s) ≡ store_device (read_device c bus dev func) (p, s)
unfolding pci_detect_device
detect-new c bus dev func p s e f = rw (e, f)

store_device-found :
    (d : PciDevice) (p : Pci) (s : Devices)
    → ((store_device d (p, s)).0.count ≡ suc p.count)
      × (found_devices (store_device d (p, s)).0 ≡ found_devices p ++ (d ∷ []))
unfolding store_device
store_device-found d p s =
    let e : p.count + 1 ≡ suc p.count = omega arith in
    let here : update p.pci_devices p.count d p.count ≡ d = rw (==-self p.count) in
    (e, rw (e, here, listed-update p.pci_devices d p.count p.count (omega arith)))

room_left : (n : ℕ) → leb pci_max_stored n ≡ false → suc n ≤ pci_max_stored
room_left n e = ground arith

found_after : ConfigSpace → List Place → Pci × Devices → List PciDevice
found_after c ps s = found_devices (detect_all c ps s).0

detect_all-found :
    (c : ConfigSpace) (ps : List Place) (p : Pci) (s : Devices)
    → p.count ≤ pci_max_stored
    → found_devices (detect_all c ps (p, s)).0
      ≡ take pci_max_stored (found_devices p ++ answering c ps)
unfolding detect_all found_after
detect_all-found c [] p s l = sym (
    rw append-nil (
      take_short pci_max_stored (found_devices p)
        (omega (arith, l, length-listed p.pci_devices p.count))))
detect_all-found c ((bus, dev, func) ∷ ps) p s l = elim (Bool-cases (no_function c bus dev func)) [
  | inl e ↦
      rw e (ap (found_after c ps) (detect-none c bus dev func p s e) ∙ detect_all-found c ps p s l)
  | inr e ↦ elim (Bool-cases (leb pci_max_stored p.count)) [
    | inl f ↦
        let full : length (found_devices p) ≡ pci_max_stored =
          omega (arith, l, leb→le pci_max_stored p.count f, length-listed p.pci_devices p.count) in
        rw e (
          ap (found_after c ps) (detect-full c bus dev func p s e f)
          ∙ detect_all-found c ps p s l
          ∙ take_prefix pci_max_stored (found_devices p) (answering c ps) full
          ∙ sym (
              take_prefix pci_max_stored (found_devices p)
                (read_device c bus dev func ∷ answering c ps) full))
    | inr f ↦
        let d = read_device c bus dev func in
        let t = store_device d (p, s) in
        let (n, g) = store_device-found d p s in
        rw e (
          ap (found_after c ps) (detect-new c bus dev func p s e f)
          ∙ detect_all-found c ps t.0 t.1 (omega (arith, n, room_left p.count f))
          ∙ ap (take pci_max_stored) (
              ap (λ x. x ++ answering c ps) g
              ∙ append_assoc (found_devices p) (d ∷ []) (answering c ps)))
  ]
]

-- pci_scan_bus finds what a search of the whole bus finds. Whatever the configuration space holds, the
-- table holds the first 64 of the functions that answer, in the order of bus, device and function:
-- those of the first 8 buses, all eight functions of a device whose header says so, the first one of
-- any other.
pub pci_scan_bus-found :
    (c : ConfigSpace) (p : Pci) (s : Devices)
    → found_devices (pci_scan_bus c p s).0 ≡ take pci_max_stored (answering c (bus_places 8 c 0))
unfolding pci_scan_bus
pci_scan_bus-found c p s =
    rw (scan_buses-all 8 c 0 (record p { count = 0 }, s))
      (detect_all-found c (bus_places 8 c 0) (record p { count = 0 }) s (omega arith))
