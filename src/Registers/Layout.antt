-- ===== src/Registers/Layout.antt =====
-- The bitmaps of kernel/usb/xhci/registers.hpp as declared: the widths of their fields in order, those
-- without a name included. Field `i` of a word starts behind the fields before it.
use mikanos_m1mac.Base.{
  ℕ, zero, suc, ◌+◌, ◌*◌, ◌^◌, ◌≡◌, refl, field, set_field, Bool, bool_bit, List, [], ◌∷◌, get_or,
  All, arith,
}
use mikanos_m1mac.Registers.Capability as Capability
use mikanos_m1mac.Registers.Operational as Operational
use mikanos_m1mac.Registers.PortStatus as PortStatus
use mikanos_m1mac.Registers.Interrupter as Interrupter
use mikanos_m1mac.Registers.Extended as Extended

abbrev pub Layout : Type 0
Layout = List ℕ

abbrev pub hcsparams1_bitmap : Layout
hcsparams1_bitmap = 8 ∷ 11 ∷ 5 ∷ 8 ∷ []

abbrev pub hcsparams2_bitmap : Layout
hcsparams2_bitmap = 4 ∷ 4 ∷ 13 ∷ 5 ∷ 1 ∷ 5 ∷ []

abbrev pub hcsparams3_bitmap : Layout
hcsparams3_bitmap = 8 ∷ 8 ∷ 16 ∷ []

abbrev pub hccparams1_bitmap : Layout
hccparams1_bitmap = 1 ∷ 1 ∷ 1 ∷ 1 ∷ 1 ∷ 1 ∷ 1 ∷ 1 ∷ 1 ∷ 1 ∷ 1 ∷ 1 ∷ 4 ∷ 16 ∷ []

abbrev pub dboff_bitmap : Layout
dboff_bitmap = 2 ∷ 30 ∷ []

abbrev pub rtsoff_bitmap : Layout
rtsoff_bitmap = 5 ∷ 27 ∷ []

abbrev pub hccparams2_bitmap : Layout
hccparams2_bitmap = 1 ∷ 1 ∷ 1 ∷ 1 ∷ 1 ∷ 1 ∷ 26 ∷ []

abbrev pub usbcmd_bitmap : Layout
usbcmd_bitmap = 1 ∷ 1 ∷ 1 ∷ 1 ∷ 3 ∷ 1 ∷ 1 ∷ 1 ∷ 1 ∷ 1 ∷ 1 ∷ 1 ∷ 18 ∷ []

abbrev pub usbsts_bitmap : Layout
usbsts_bitmap = 1 ∷ 1 ∷ 1 ∷ 1 ∷ 1 ∷ 3 ∷ 1 ∷ 1 ∷ 1 ∷ 1 ∷ 1 ∷ 19 ∷ []

abbrev pub crcr_bitmap : Layout
crcr_bitmap = 1 ∷ 1 ∷ 1 ∷ 1 ∷ 2 ∷ 58 ∷ []

abbrev pub dcbaap_bitmap : Layout
dcbaap_bitmap = 6 ∷ 26 ∷ []

abbrev pub config_bitmap : Layout
config_bitmap = 8 ∷ 1 ∷ 1 ∷ 22 ∷ []

abbrev pub portsc_bitmap : Layout
portsc_bitmap =
    1 ∷ 1 ∷ 1 ∷ 1 ∷ 1 ∷ 4 ∷ 1 ∷ 4 ∷ 2 ∷ 1 ∷ 1 ∷ 1 ∷ 1 ∷ 1 ∷ 1 ∷ 1 ∷ 1 ∷ 1 ∷ 1 ∷ 1 ∷ 1 ∷ 2 ∷ 1 ∷ 1
    ∷ []

abbrev pub portpmsc_bitmap : Layout
portpmsc_bitmap = 8 ∷ 8 ∷ 1 ∷ 15 ∷ []

abbrev pub portli_bitmap : Layout
portli_bitmap = 16 ∷ 4 ∷ 4 ∷ 8 ∷ []

abbrev pub porthlpmc_bitmap : Layout
porthlpmc_bitmap = 2 ∷ 8 ∷ 4 ∷ 18 ∷ []

abbrev pub iman_bitmap : Layout
iman_bitmap = 1 ∷ 1 ∷ 30 ∷ []

abbrev pub imod_bitmap : Layout
imod_bitmap = 16 ∷ 16 ∷ []

abbrev pub erstsz_bitmap : Layout
erstsz_bitmap = 16 ∷ 16 ∷ []

abbrev pub erstba_bitmap : Layout
erstba_bitmap = 6 ∷ 58 ∷ []

abbrev pub erdp_bitmap : Layout
erdp_bitmap = 3 ∷ 1 ∷ 60 ∷ []

abbrev pub doorbell_bitmap : Layout
doorbell_bitmap = 8 ∷ 8 ∷ 16 ∷ []

abbrev pub extended_register_bitmap : Layout
extended_register_bitmap = 8 ∷ 8 ∷ 16 ∷ []

abbrev pub usblegsup_bitmap : Layout
usblegsup_bitmap = 8 ∷ 8 ∷ 1 ∷ 7 ∷ 1 ∷ 7 ∷ []

-- Where a field starts, and its bits.
abbrev pub offset_of : Layout → ℕ → ℕ
offset_of [] i = 0
offset_of (w ∷ ws) zero = 0
offset_of (w ∷ ws) (suc i) = w + offset_of ws i

abbrev pub get : Layout → ℕ → ℕ → ℕ
get layout i = field (offset_of layout i) (get_or layout i 0)

abbrev pub put : Layout → ℕ → ℕ → ℕ → ℕ
put layout i = set_field (offset_of layout i) (get_or layout i 0)

abbrev pub total : Layout → ℕ
total [] = 0
total (w ∷ ws) = w + total ws

-- The bitmaps of 32 bits fill their words.
words_filled :
    All
      (λ layout. total layout ≡ 32)
      (hcsparams1_bitmap ∷ hcsparams2_bitmap ∷ hcsparams3_bitmap ∷ hccparams1_bitmap ∷ dboff_bitmap
        ∷ rtsoff_bitmap ∷ hccparams2_bitmap ∷ usbcmd_bitmap ∷ usbsts_bitmap ∷ config_bitmap
        ∷ portsc_bitmap ∷ portpmsc_bitmap ∷ portli_bitmap ∷ porthlpmc_bitmap ∷ iman_bitmap
        ∷ imod_bitmap ∷ erstsz_bitmap ∷ doorbell_bitmap ∷ extended_register_bitmap
        ∷ usblegsup_bitmap ∷ [])
words_filled = omega arith

-- Of those of 64 bits, that of DCBAAP alone leaves the upper half of its word out.
long_words_filled :
    All (λ layout. total layout ≡ 64) (crcr_bitmap ∷ erstba_bitmap ∷ erdp_bitmap ∷ [])
    × (total dcbaap_bitmap ≡ 32)
long_words_filled = omega arith

-- The fields of the capability registers stand where the bitmaps have them.
capability_fields :
    (w : ℕ)
    → (Capability.max_device_slots w ≡ get hcsparams1_bitmap 0 w)
      × (Capability.max_interrupters w ≡ get hcsparams1_bitmap 1 w)
      × (Capability.max_ports w ≡ get hcsparams1_bitmap 3 w)
      × (Capability.max_scratchpad_buffers_high w ≡ get hcsparams2_bitmap 3 w)
      × (Capability.max_scratchpad_buffers_low w ≡ get hcsparams2_bitmap 5 w)
      × (Capability.xhci_extended_capabilities_pointer w ≡ get hccparams1_bitmap 13 w)
      × (Capability.doorbell_offset w ≡ get dboff_bitmap 1 w * 2 ^ 2)
      × (Capability.runtime_offset w ≡ get rtsoff_bitmap 1 w * 2 ^ 5)
capability_fields w = (refl, refl, refl, refl, refl, refl, refl, refl)

-- So do those of the operational registers.
operational_fields :
    (b : Bool) (w : ℕ)
    → (Operational.set_run_stop b w ≡ put usbcmd_bitmap 0 (bool_bit b) w)
      × (Operational.set_host_controller_reset b w ≡ put usbcmd_bitmap 1 (bool_bit b) w)
      × (Operational.set_interrupter_enable b w ≡ put usbcmd_bitmap 2 (bool_bit b) w)
      × (Operational.set_host_system_error_enable b w ≡ put usbcmd_bitmap 3 (bool_bit b) w)
      × (Operational.set_enable_wrap_event b w ≡ put usbcmd_bitmap 8 (bool_bit b) w)
      × (Operational.host_controller_halted w ≡ get usbsts_bitmap 0 w)
      × (Operational.controller_not_ready w ≡ get usbsts_bitmap 9 w)
      × (Operational.set_ring_cycle_state b w ≡ put crcr_bitmap 0 (bool_bit b) w)
      × (Operational.set_command_stop b w ≡ put crcr_bitmap 1 (bool_bit b) w)
      × (Operational.set_command_abort b w ≡ put crcr_bitmap 2 (bool_bit b) w)
      × (Operational.ring_pointer w ≡ get crcr_bitmap 5 w * 2 ^ 6)
      × (Operational.contexts_pointer w ≡ get dcbaap_bitmap 1 w * 2 ^ 6)
operational_fields b w = (refl, refl, refl, refl, refl, refl, refl, refl, refl, refl, refl, refl)

-- And those of PORTSC.
port_fields :
    (w : ℕ)
    → (PortStatus.current_connect_status w ≡ get portsc_bitmap 0 w)
      × (PortStatus.port_enabled_disabled w ≡ get portsc_bitmap 1 w)
      × (PortStatus.over_current_active w ≡ get portsc_bitmap 3 w)
      × (PortStatus.port_reset w ≡ get portsc_bitmap 4 w)
      × (PortStatus.port_link_state w ≡ get portsc_bitmap 5 w)
      × (PortStatus.port_power w ≡ get portsc_bitmap 6 w)
      × (PortStatus.port_speed w ≡ get portsc_bitmap 7 w)
      × (PortStatus.port_indicator_control w ≡ get portsc_bitmap 8 w)
      × (PortStatus.connect_status_change w ≡ get portsc_bitmap 10 w)
      × (PortStatus.port_enabled_disabled_change w ≡ get portsc_bitmap 11 w)
      × (PortStatus.warm_port_reset_change w ≡ get portsc_bitmap 12 w)
      × (PortStatus.over_current_change w ≡ get portsc_bitmap 13 w)
      × (PortStatus.port_reset_change w ≡ get portsc_bitmap 14 w)
      × (PortStatus.port_link_state_change w ≡ get portsc_bitmap 15 w)
      × (PortStatus.port_config_error_change w ≡ get portsc_bitmap 16 w)
port_fields w =
    (refl, refl, refl, refl, refl, refl, refl, refl, refl, refl, refl, refl, refl, refl, refl)

-- And those of the interrupter, of the doorbell and of USBLEGSUP.
interrupter_fields :
    (b : Bool) (w : ℕ)
    → (Interrupter.set_interrupt_pending b w ≡ put iman_bitmap 0 (bool_bit b) w)
      × (Interrupter.set_interrupt_enable b w ≡ put iman_bitmap 1 (bool_bit b) w)
      × (Interrupter.table_size w ≡ get erstsz_bitmap 0 w)
      × (Interrupter.table_pointer w ≡ get erstba_bitmap 1 w * 2 ^ 6)
      × (Interrupter.dequeue_pointer w ≡ get erdp_bitmap 2 w * 2 ^ 4)
      × (Interrupter.doorbell_word w 7 ≡ put doorbell_bitmap 2 7 (put doorbell_bitmap 0 w 0))
      × (Extended.capability_id w ≡ get extended_register_bitmap 0 w)
      × (Extended.next_pointer w ≡ get extended_register_bitmap 1 w)
      × (Extended.hc_bios_owned_semaphore w ≡ get usblegsup_bitmap 2 w)
      × (Extended.hc_os_owned_semaphore w ≡ get usblegsup_bitmap 4 w)
interrupter_fields b w = (refl, refl, refl, refl, refl, refl, refl, refl, refl, refl)
