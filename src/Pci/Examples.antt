-- ===== src/Pci/Examples.antt =====
-- A machine with one function at 0:0:0 of bus 0, whose header says that it has several functions,
-- and a 64-bit BAR.
use mikanos_m1mac.Base.{
  ℕ, zero, suc, ◌+◌, ◌*◌, ◌^◌, ◌≤◌, ◌<◌, ◌≡◌, refl, ◌==◌, if◌then◌else◌, true, false, some,
  replicate, arith,
}
use mikanos_m1mac.Errors.{success, index_out_of_range}
use mikanos_m1mac.Pci.{
  Device, make_address, is_single_function_device, read_header_type, read_vendor_id, read_conf_reg,
  read_at, read_bar,
}
use mikanos_m1mac.Pci.Scan.{Found, scan_all_bus, is_absent}
use mikanos_m1mac.Pci.Total.{no_device, Returns, scan_all_bus-Returns}
use mikanos_m1mac.Pci.Bar.{bar, is_wide, read_bar-success}
use mikanos_m1mac.Pci.Host.{scan_all_bus-skips_bus_zero}

abbrev conf : ℕ → ℕ
conf a =
    if a == 0x80000000
    then 0x12378086
    else if a == 0x8000000c
    then 0x00800000
    else if a == 0x80000010
    then 0xfebf0004
    else if a == 0x80000014
    then 0x00000008
    else 0xffffffff

abbrev nothing : Found
nothing = record { devices = replicate 32 no_device; num_device = 5 }

abbrev host : Device
host = record no_device { header_type = 0x80 }

scan_all_bus-Returns_example : Returns conf 0 (scan_all_bus conf 33 nothing)
scan_all_bus-Returns_example = scan_all_bus-Returns conf 33 nothing refl (omega arith)

bar_zero : bar conf host 0 ≡ 0xfebf0004
unfolding read_conf_reg read_at make_address
bar_zero = refl

read_bar-success_example : read_bar conf host 0 ≡ record {
  value = bar conf host 0 + is_wide (bar conf host 0) * bar conf host 1 * 2 ^ 32;
  error = success;
}
read_bar-success_example = read_bar-success conf host 0 (omega (arith, bar_zero))

bar_five_is_out_of_range : read_bar conf host 5 ≡ record { value = 0; error = index_out_of_range }
unfolding read_bar read_conf_reg read_at make_address
bar_five_is_out_of_range = refl

several_functions : is_single_function_device (read_header_type conf 0 0 0) ≡ false
unfolding read_header_type read_at make_address
several_functions = refl

absent_functions : (function : ℕ) → 1 ≤ function → function < 8 → is_absent conf 0 0 function ≡ true
unfolding read_vendor_id read_at make_address
absent_functions zero low high = absurd (omega arith)
absent_functions (suc zero) low high = refl
absent_functions (suc (suc zero)) low high = refl
absent_functions (suc (suc (suc zero))) low high = refl
absent_functions (suc (suc (suc (suc zero)))) low high = refl
absent_functions (suc (suc (suc (suc (suc zero))))) low high = refl
absent_functions (suc (suc (suc (suc (suc (suc zero)))))) low high = refl
absent_functions (suc (suc (suc (suc (suc (suc (suc zero))))))) low high = refl
absent_functions (suc (suc (suc (suc (suc (suc (suc (suc n)))))))) low high = absurd (omega arith)

scan_all_bus-skips_bus_zero_example :
    scan_all_bus conf 33 nothing ≡ some (success, record nothing { num_device = 0 })
scan_all_bus-skips_bus_zero_example =
    scan_all_bus-skips_bus_zero conf 33 nothing several_functions absent_functions
