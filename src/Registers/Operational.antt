-- ===== src/Registers/Operational.antt =====
-- `OperationalRegisters` and their bitmaps. A register is its offset from the operational registers.
use mikanos_m1mac.Base.{ℕ, ◌*◌, ◌/◌, ◌^◌, field, set_field, Bool, bool_bit}

abbrev pub usbcmd : ℕ
usbcmd = 0x00

abbrev pub usbsts : ℕ
usbsts = 0x04

abbrev pub crcr : ℕ
crcr = 0x18

abbrev pub dcbaap : ℕ
dcbaap = 0x30

abbrev pub config : ℕ
config = 0x38

-- USBCMD
abbrev pub set_run_stop : Bool → ℕ → ℕ
set_run_stop b w = set_field 0 1 (bool_bit b) w

abbrev pub host_controller_reset : ℕ → ℕ
host_controller_reset w = field 1 1 w

abbrev pub set_host_controller_reset : Bool → ℕ → ℕ
set_host_controller_reset b w = set_field 1 1 (bool_bit b) w

abbrev pub set_interrupter_enable : Bool → ℕ → ℕ
set_interrupter_enable b w = set_field 2 1 (bool_bit b) w

abbrev pub set_host_system_error_enable : Bool → ℕ → ℕ
set_host_system_error_enable b w = set_field 3 1 (bool_bit b) w

abbrev pub set_enable_wrap_event : Bool → ℕ → ℕ
set_enable_wrap_event b w = set_field 10 1 (bool_bit b) w

-- USBSTS
abbrev pub host_controller_halted : ℕ → ℕ
host_controller_halted w = field 0 1 w

abbrev pub controller_not_ready : ℕ → ℕ
controller_not_ready w = field 11 1 w

-- CRCR
abbrev pub set_ring_cycle_state : Bool → ℕ → ℕ
set_ring_cycle_state b w = set_field 0 1 (bool_bit b) w

abbrev pub set_command_stop : Bool → ℕ → ℕ
set_command_stop b w = set_field 1 1 (bool_bit b) w

abbrev pub set_command_abort : Bool → ℕ → ℕ
set_command_abort b w = set_field 2 1 (bool_bit b) w

abbrev pub ring_pointer : ℕ → ℕ
ring_pointer w = field 6 58 w * 2 ^ 6

abbrev pub set_ring_pointer : ℕ → ℕ → ℕ
set_ring_pointer p w = set_field 6 58 (p / 2 ^ 6) w

-- DCBAAP, whose field has 26 bits.
abbrev pub contexts_pointer : ℕ → ℕ
contexts_pointer w = field 6 26 w * 2 ^ 6

abbrev pub set_contexts_pointer : ℕ → ℕ → ℕ
set_contexts_pointer p w = set_field 6 26 (p / 2 ^ 6) w

-- CONFIG
abbrev pub set_max_device_slots_enabled : ℕ → ℕ → ℕ
set_max_device_slots_enabled v w = set_field 0 8 v w
