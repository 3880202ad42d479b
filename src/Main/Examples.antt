-- ===== src/Main/Examples.antt =====
-- Three devices: a host controller of another vendor, one of Intel, and a third of another vendor.
use mikanos_m1mac.Base.{ℕ, ◌≡◌, ◌&&◌, ◌==◌, if◌then◌else◌, List, [], ◌∷◌, none}
use mikanos_m1mac.Pci.{Device}
use mikanos_m1mac.Main.{choose_xhc, is_xhc, is_intel}
use mikanos_m1mac.Main.Choice.{or_else, first_of, last_of, choose_xhc_lem}

abbrev xhc_at : ℕ → Device
xhc_at device = record {
  bus = 0;
  device = device;
  function = 0;
  header_type = 0;
  class_code = record { base = 0x0c; sub = 0x03; interface = 0x30 };
}

abbrev devices : List Device
devices = xhc_at 1 ∷ xhc_at 2 ∷ xhc_at 3 ∷ []

-- The register 0 of device 2 names Intel.
abbrev conf : ℕ → ℕ
conf address = if address == 0x8000_1000 then 0x1234_8086 else 0x1234_1033

choose_xhc_example :
    choose_xhc conf devices none
    ≡ or_else
        (first_of (λ dev. is_xhc conf dev && is_intel conf dev) devices)
        (last_of (is_xhc conf) devices)
choose_xhc_example = choose_xhc_lem conf devices
