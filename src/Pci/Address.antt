-- ===== src/Pci/Address.antt =====
-- The address that pci_config_read32 writes, and the parts of the dword that is read.
use korus_os.Prelude.{ℕ, ◌+◌, ◌*◌, ◌/◌, ◌%◌, ◌<◌, ◌≡◌, arith, u32_mod}
use korus_os.Pci.{ConfigSpace, pci_address, pci_config_read32, pci_config_read16, pci_config_read8}

-- The address of a register names its bus, device, function and dword, each in its own bits: bits 16
-- to 23, 11 to 15, 8 to 10 and 2 to 7, with bit 31 set and the last two clear.
pub pci_address_lem :
    (bus dev func offset : ℕ)
    → bus < 256
    → dev < 32
    → func < 8
    → offset < 256
    → let a = pci_address bus dev func offset in
      (a / 0x8000_0000 ≡ 1)
      × (a / 65536 % 256 ≡ bus)
      × (a / 2048 % 32 ≡ dev)
      × (a / 256 % 8 ≡ func)
      × (a % 256 ≡ offset / 4 * 4)
      × (a < u32_mod)
unfolding pci_address
pci_address_lem bus dev func offset b d f o =
    (omega arith, omega arith, omega arith, omega arith, omega arith, omega arith)

-- The four bytes of a dword make it up, and its halves are made of them.
pub pci_config_read8-read32 :
    (c : ConfigSpace) (bus dev func k : ℕ)
    → pci_config_read32 c bus dev func (4 * k) < u32_mod
    → (pci_config_read8 c bus dev func (4 * k)
          + pci_config_read8 c bus dev func (4 * k + 1) * 256
          + pci_config_read8 c bus dev func (4 * k + 2) * 65536
          + pci_config_read8 c bus dev func (4 * k + 3) * 16777216
        ≡ pci_config_read32 c bus dev func (4 * k))
      × (pci_config_read16 c bus dev func (4 * k)
          ≡ pci_config_read8 c bus dev func (4 * k)
            + pci_config_read8 c bus dev func (4 * k + 1) * 256)
      × (pci_config_read16 c bus dev func (4 * k + 2)
          ≡ pci_config_read8 c bus dev func (4 * k + 2)
            + pci_config_read8 c bus dev func (4 * k + 3) * 256)
unfolding pci_config_read8 pci_config_read16
pci_config_read8-read32 c bus dev func k l =
    let v = pci_config_read32 c bus dev func (4 * k) in
    let d0 : 4 * k / 4 * 4 ≡ 4 * k = omega arith in
    let d1 : (4 * k + 1) / 4 * 4 ≡ 4 * k = omega arith in
    let d2 : (4 * k + 2) / 4 * 4 ≡ 4 * k = omega arith in
    let d3 : (4 * k + 3) / 4 * 4 ≡ 4 * k = omega arith in
    let m0 : 4 * k % 4 ≡ 0 = omega arith in
    let m1 : (4 * k + 1) % 4 ≡ 1 = omega arith in
    let m2 : (4 * k + 2) % 4 ≡ 2 = omega arith in
    let m3 : (4 * k + 3) % 4 ≡ 3 = omega arith in
    let h0 : 4 * k / 2 % 2 ≡ 0 = omega arith in
    let h2 : (4 * k + 2) / 2 % 2 ≡ 1 = omega arith in
    rw (d0, d1, d2, d3, m0, m1, m2, m3, h0, h2) (whole v l, low v, high v)
  where
    whole :
        (v : ℕ)
        → v < u32_mod
        → v % 256 + v / 256 % 256 * 256 + v / 65536 % 256 * 65536 + v / 16777216 % 256 * 16777216
          ≡ v
    whole v l = omega arith

    low : (v : ℕ) → v % 65536 ≡ v % 256 + v / 256 % 256 * 256
    low v = omega arith

    high : (v : ℕ) → v / 65536 % 65536 ≡ v / 65536 % 256 + v / 16777216 % 256 * 256
    high v = omega arith
