-- ===== src/Registers/Capability.antt =====
-- `CapabilityRegisters` and their bitmaps. A register is its offset from the controller's base.
use mikanos_m1mac.Base.{ℕ, ◌*◌, ◌^◌, field}

abbrev pub caplength : ℕ
caplength = 0x00

abbrev pub hciversion : ℕ
hciversion = 0x02

abbrev pub hcsparams1 : ℕ
hcsparams1 = 0x04

abbrev pub hcsparams2 : ℕ
hcsparams2 = 0x08

abbrev pub hcsparams3 : ℕ
hcsparams3 = 0x0c

abbrev pub hccparams1 : ℕ
hccparams1 = 0x10

abbrev pub dboff : ℕ
dboff = 0x14

abbrev pub rtsoff : ℕ
rtsoff = 0x18

abbrev pub hccparams2 : ℕ
hccparams2 = 0x1c

-- HCSPARAMS1
abbrev pub max_device_slots : ℕ → ℕ
max_device_slots w = field 0 8 w

abbrev pub max_interrupters : ℕ → ℕ
max_interrupters w = field 8 11 w

abbrev pub max_ports : ℕ → ℕ
max_ports w = field 24 8 w

-- HCSPARAMS2
abbrev pub max_scratchpad_buffers_high : ℕ → ℕ
max_scratchpad_buffers_high w = field 21 5 w

abbrev pub max_scratchpad_buffers_low : ℕ → ℕ
max_scratchpad_buffers_low w = field 27 5 w

-- HCCPARAMS1
abbrev pub xhci_extended_capabilities_pointer : ℕ → ℕ
xhci_extended_capabilities_pointer w = field 16 16 w

-- `Offset` of DBOFF and of RTSOFF.
abbrev pub doorbell_offset : ℕ → ℕ
doorbell_offset w = field 2 30 w * 2 ^ 2

abbrev pub runtime_offset : ℕ → ℕ
runtime_offset w = field 5 27 w * 2 ^ 5
