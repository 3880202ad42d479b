-- ===== src/Registers/Interrupter.antt =====
-- `InterrupterRegisterSet`, its bitmaps, and the doorbell. A register is its offset in the set.
use mikanos_m1mac.Base.{ℕ, ◌*◌, ◌/◌, ◌^◌, field, set_field, Bool, bool_bit}

abbrev pub interrupter_set_size : ℕ
interrupter_set_size = 0x20

abbrev pub iman : ℕ
iman = 0x00

abbrev pub erstsz : ℕ
erstsz = 0x08

abbrev pub erstba : ℕ
erstba = 0x10

abbrev pub erdp : ℕ
erdp = 0x18

-- IMAN
abbrev pub set_interrupt_pending : Bool → ℕ → ℕ
set_interrupt_pending b w = set_field 0 1 (bool_bit b) w

abbrev pub set_interrupt_enable : Bool → ℕ → ℕ
set_interrupt_enable b w = set_field 1 1 (bool_bit b) w

-- ERSTSZ
abbrev pub table_size : ℕ → ℕ
table_size w = field 0 16 w

abbrev pub set_table_size : ℕ → ℕ → ℕ
set_table_size v w = set_field 0 16 v w

-- ERSTBA
abbrev pub table_pointer : ℕ → ℕ
table_pointer w = field 6 58 w * 2 ^ 6

abbrev pub set_table_pointer : ℕ → ℕ → ℕ
set_table_pointer p w = set_field 6 58 (p / 2 ^ 6) w

-- ERDP
abbrev pub dequeue_pointer : ℕ → ℕ
dequeue_pointer w = field 4 60 w * 2 ^ 4

abbrev pub set_dequeue_pointer : ℕ → ℕ → ℕ
set_dequeue_pointer p w = set_field 4 60 (p / 2 ^ 4) w

-- The word that `DoorbellRegister::Ring` writes.
abbrev pub doorbell_word : ℕ → ℕ → ℕ
doorbell_word target stream_id = set_field 16 16 stream_id (set_field 0 8 target 0)

abbrev pub doorbell_size : ℕ
doorbell_size = 4
