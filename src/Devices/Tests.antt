-- ===== src/Devices/Tests.antt =====
-- The table of devices at a concrete state.
use korus_os.Prelude.{ℕ, zero, suc, ◌≡◌, refl, false, [], ◌∷◌, arith, sym, ◌∙◌, get_or, replicate}
use mathlib.Core.Bool.{false≢true}
use korus_os.Devices.{DeviceType, Devices, zero_device, is_active, max_devices, register_device}
use korus_os.Devices.Table.{IsValid, Registers, register_device-Registers}

abbrev no_devices : Devices
no_devices = record { table = replicate max_devices zero_device; count = 0; next_id = 1 }

inactive : (n i : ℕ) → is_active (get_or (replicate n zero_device) i zero_device) ≡ false
inactive zero i = refl
inactive (suc n) zero = refl
inactive (suc n) (suc i) = inactive n i

no_devices-IsValid : IsValid no_devices
no_devices-IsValid = record {
  size = refl;
  counted = refl;
  positive = omega arith;
  below = λ i a. absurd (false≢true (sym (inactive 64 i) ∙ a));
  distinct = λ i j a. absurd (false≢true (sym (inactive 64 i) ∙ a));
}

register_device-Registers_example :
    Registers no_devices (register_device no_devices DeviceType.keyboard (75 ∷ []) [] 0x60 1)
register_device-Registers_example =
    register_device-Registers no_devices DeviceType.keyboard (75 ∷ []) [] 0x60 1 no_devices-IsValid
      (omega arith)
