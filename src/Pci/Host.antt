-- ===== src/Pci/Host.antt =====
-- What `ScanAllBus` does when the host bridge itself has several functions.
use mikanos_m1mac.Base.{ℕ, zero, suc, ◌+◌, ◌≤◌, ◌<◌, ◌≡◌, refl, true, false, some, arith}
use mikanos_m1mac.Errors.{success}
use mikanos_m1mac.Pci.{is_single_function_device, read_header_type}
use mikanos_m1mac.Pci.Scan.{Found, upto, is_absent, scan_buses, scan_all_bus}

module _ (conf : ℕ → ℕ) (fuel : ℕ) where
  scan_buses-skip :
      (from n : ℕ) (s : Found)
      → ((function : ℕ)
          → from ≤ function
          → function < from + n
          → is_absent conf 0 0 function ≡ true)
      → scan_buses conf fuel (upto from n) s ≡ some (success, s)
  unfolding scan_buses
  scan_buses-skip from zero s absent = refl
  scan_buses-skip from (suc n) s absent = rw (absent from (omega arith) (omega arith)) (
      scan_buses-skip (from + 1) n s
        λ function low high. absent function (omega arith) (omega arith))

  -- When the host bridge says that it has several functions, but only function 0 answers, then
  -- `ScanAllBus` succeeds without a device, whatever is on bus 0.
  pub scan_all_bus-skips_bus_zero :
      (s : Found)
      → is_single_function_device (read_header_type conf 0 0 0) ≡ false
      → ((function : ℕ) → 1 ≤ function → function < 8 → is_absent conf 0 0 function ≡ true)
      → scan_all_bus conf fuel s ≡ some (success, record s { num_device = 0 })
  unfolding scan_all_bus
  scan_all_bus-skips_bus_zero s several absent = rw several (
      scan_buses-skip 1 7 (record s { num_device = 0 })
        λ function low high. absent function low (omega arith))
