-- ===== src/Pci.antt =====
-- kernel/pci.hpp and pci.cpp: the PCI configuration space and the scan for devices. `conf`, a
-- parameter, is what CONFIG_DATA shows for each value of CONFIG_ADDRESS; a read writes the address
-- first, so no other state of the two ports matters.
pub mod Address
pub mod Scan
pub mod Total
pub mod Host
pub mod Bar
mod Examples
use mikanos_m1mac.Base.{
  ℕ, ◌+◌, ◌*◌, ◌/◌, ◌^◌, u8, u16, u32, bit_and, bit_or, ltb, leb, ◌==◌, ◌&&◌, if◌then◌else◌, Bool,
  ◌<<<◌, ◌>>>◌,
}
use mikanos_m1mac.Errors.{Code, success, index_out_of_range, WithError}

pub record ClassCode : Type 0 where
  pub base : ℕ
  pub sub : ℕ
  pub interface : ℕ

-- The three overloads of `Match`.
abbrev pub match_base : ClassCode → ℕ → Bool
match_base c b = b == c.base

abbrev pub match_sub : ClassCode → ℕ → ℕ → Bool
match_sub c b s = match_base c b && (s == c.sub)

abbrev pub match_interface : ClassCode → ℕ → ℕ → ℕ → Bool
match_interface c b s i = match_sub c b s && (i == c.interface)

pub record Device : Type 0 where
  pub bus : ℕ
  pub device : ℕ
  pub function : ℕ
  pub header_type : ℕ
  pub class_code : ClassCode

-- `MakeAddress`, the value for CONFIG_ADDRESS.
unfoldable pub make_address : ℕ → ℕ → ℕ → ℕ → ℕ
make_address bus device function reg_addr =
    bit_or
      (bit_or (bit_or (bit_or (u32 (1 <<< 31)) (u32 (bus <<< 16))) (u32 (device <<< 11)))
        (u32 (function <<< 8)))
      (bit_and reg_addr 0xfc)

abbrev pub is_single_function_device : ℕ → Bool
is_single_function_device header_type = bit_and header_type 0x80 == 0

abbrev pub calc_bar_address : ℕ → ℕ
calc_bar_address bar_index = u8 (0x10 + 4 * bar_index)

module _ (conf : ℕ → ℕ) where
  -- `WriteAddress`, then `ReadData`.
  unfoldable pub read_at : ℕ → ℕ → ℕ → ℕ → ℕ
  read_at bus device function reg_addr = u32 (conf (make_address bus device function reg_addr))

  unfoldable pub read_vendor_id : ℕ → ℕ → ℕ → ℕ
  read_vendor_id bus device function = bit_and (read_at bus device function 0x00) 0xffff

  unfoldable pub read_device_id : ℕ → ℕ → ℕ → ℕ
  read_device_id bus device function = read_at bus device function 0x00 >>> 16

  unfoldable pub read_header_type : ℕ → ℕ → ℕ → ℕ
  read_header_type bus device function = bit_and (read_at bus device function 0x0c >>> 16) 0xff

  unfoldable pub read_class_code : ℕ → ℕ → ℕ → ClassCode
  read_class_code bus device function =
      let reg = read_at bus device function 0x08 in
      record {
        base = bit_and (reg >>> 24) 0xff;
        sub = bit_and (reg >>> 16) 0xff;
        interface = bit_and (reg >>> 8) 0xff;
      }

  unfoldable pub read_bus_numbers : ℕ → ℕ → ℕ → ℕ
  read_bus_numbers bus device function = read_at bus device function 0x18

  unfoldable pub read_conf_reg : Device → ℕ → ℕ
  read_conf_reg dev reg_addr = read_at dev.bus dev.device dev.function reg_addr

  -- A 64-bit BAR takes the register behind it too.
  unfoldable pub read_bar : Device → ℕ → WithError ℕ
  read_bar dev bar_index =
      let addr = calc_bar_address bar_index in
      let bar = read_conf_reg dev addr in
      let bar_upper = read_conf_reg dev (u8 (addr + 4)) in
      if leb 6 bar_index
      then record { value = 0; error = index_out_of_range }
      else if bit_and bar 4 == 0
      then record { value = bar; error = success }
      else if leb 5 bar_index
      then record { value = 0; error = index_out_of_range }
      else record { value = bit_or bar (bar_upper <<< 32); error = success }

-- `WriteConfReg`: the writes to the two ports, in order.
unfoldable pub write_conf_reg : Device → ℕ → ℕ → ℕ × ℕ
write_conf_reg dev reg_addr value = (make_address dev.bus dev.device dev.function reg_addr, value)
