-- ===== src/Pci/Scan.antt =====
-- The scan of pci.cpp. `ScanBus`, `ScanDevice` and `ScanFunction` call one another without a bound
-- in sight, so the depth of bridges is fuel, and `none` means that it ran out.
use mikanos_m1mac.Base.{
  ℕ, zero, suc, ◌+◌, ◌==◌, ◌>>>◌, bit_and, if◌then◌else◌, Bool, Option, none, some, List, [], ◌∷◌,
  set,
}
use mikanos_m1mac.Errors.{Code, success, full, is_error}
use mikanos_m1mac.Pci.{
  Device, match_sub, is_single_function_device, read_vendor_id, read_header_type, read_class_code,
  read_bus_numbers,
}

-- `devices` and `num_device`.
pub record Found : Type 0 where
  pub devices : List Device
  pub num_device : ℕ

-- `devices.size()`
abbrev pub max_devices : ℕ
max_devices = 32

unfoldable pub add_device : Device → Found → Code × Found
add_device d s =
    if s.num_device == max_devices
    then (full, s)
    else (success, record { devices = set s.devices s.num_device d; num_device = s.num_device + 1 })

-- `if (auto err = m) { return err; }`, then the rest.
abbrev pub Scanned : Type 0
Scanned = Option (Code × Found)

infixl 5 ◌>>=◌
abbrev pub ◌>>=◌ : Scanned → (Found → Scanned) → Scanned
none >>= k = none
some (c, s) >>= k = if is_error c then some (c, s) else k s

abbrev pub upto : ℕ → ℕ → List ℕ
upto from zero = []
upto from (suc n) = from ∷ upto (from + 1) n

module _ (conf : ℕ → ℕ) where
  abbrev pub device_at : ℕ → ℕ → ℕ → Device
  device_at bus device function = record {
    bus = bus;
    device = device;
    function = function;
    header_type = read_header_type conf bus device function;
    class_code = read_class_code conf bus device function;
  }

  abbrev pub secondary_bus : ℕ → ℕ → ℕ → ℕ
  secondary_bus bus device function = bit_and (read_bus_numbers conf bus device function >>> 8) 0xff

  abbrev pub is_absent : ℕ → ℕ → ℕ → Bool
  is_absent bus device function = read_vendor_id conf bus device function == 0xffff

  -- The first argument of the next four is `ScanBus`, with less fuel.
  unfoldable pub scan_function : (ℕ → Found → Scanned) → ℕ → ℕ → ℕ → Found → Scanned
  scan_function scan bus device function s =
      some (add_device (device_at bus device function) s) >>= λ s'.
      let below = scan (secondary_bus bus device function) s' in
      if match_sub (read_class_code conf bus device function) 0x06 0x04
      then below
      else some (success, s')

  -- The loop of `ScanDevice`, over the functions to come.
  unfoldable pub scan_functions : (ℕ → Found → Scanned) → ℕ → ℕ → List ℕ → Found → Scanned
  scan_functions scan bus device [] s = some (success, s)
  scan_functions scan bus device (function ∷ functions) s =
      (if is_absent bus device function
        then some (success, s)
        else scan_function scan bus device function s)
      >>= λ s'. scan_functions scan bus device functions s'

  unfoldable pub scan_device : (ℕ → Found → Scanned) → ℕ → ℕ → Found → Scanned
  scan_device scan bus device s = scan_function scan bus device 0 s >>= λ s'.
      if is_single_function_device (read_header_type conf bus device 0)
      then some (success, s')
      else scan_functions scan bus device (upto 1 7) s'

  -- The loop of `ScanBus`.
  unfoldable pub scan_devices : (ℕ → Found → Scanned) → ℕ → List ℕ → Found → Scanned
  scan_devices scan bus [] s = some (success, s)
  scan_devices scan bus (device ∷ devices) s =
      (if is_absent bus device 0 then some (success, s) else scan_device scan bus device s)
      >>= λ s'. scan_devices scan bus devices s'

  unfoldable pub scan_bus : ℕ → ℕ → Found → Scanned
  scan_bus zero bus s = none
  scan_bus (suc fuel) bus s = scan_devices (λ b t. scan_bus fuel b t) bus (upto 0 32) s

  -- The loop of `ScanAllBus`, over the functions of the host bridge.
  unfoldable pub scan_buses : ℕ → List ℕ → Found → Scanned
  scan_buses fuel [] s = some (success, s)
  scan_buses fuel (function ∷ functions) s =
      (if is_absent 0 0 function then some (success, s) else scan_bus fuel function s) >>= λ s'.
      scan_buses fuel functions s'

  unfoldable pub scan_all_bus : ℕ → Found → Scanned
  scan_all_bus fuel s =
      let s' : Found = record s { num_device = 0 } in
      if is_single_function_device (read_header_type conf 0 0 0)
      then scan_bus fuel 0 s'
      else scan_buses fuel (upto 1 7) s'
