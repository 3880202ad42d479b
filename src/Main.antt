-- ===== src/Main.antt =====
-- kernel/main.cpp and logger.cpp: how the kernel starts. The texts of the messages, which `vsprintf`
-- makes, are not modelled; `conf` is the PCI configuration space, as in Pci.antt.
mod Examples
mod Boot
pub mod Choice
pub mod Runs
pub mod Kernel
use mikanos_m1mac.Base.{
  ℕ, zero, suc, ◌+◌, ◌-◌, ◌/◌, bit_and, ◌==◌, ltb, ◌&&◌, if◌then◌else◌, Bool, true, false, List, [],
  ◌∷◌, ◌++◌, Option, none, some,
}
use mikanos_m1mac.Errors.{Code, success}
use mikanos_m1mac.Memory.{not64}
use mikanos_m1mac.Outcome.{Outcome, returned, ◌>>=◌}
use mikanos_m1mac.Mmio.{Mmio}
use mikanos_m1mac.Port.{is_connected}
use mikanos_m1mac.EventRing.{Dma, EventRing}
use mikanos_m1mac.Pci.{
  Device, match_interface, read_vendor_id, read_conf_reg, write_conf_reg, read_bar,
}
use mikanos_m1mac.Screen.{Pixel, PixelColor, fill_rectangle, draw_rectangle}
use mikanos_m1mac.Screen.Console.{Console, put_string}
use mikanos_m1mac.Controller.{Devices, State, Base, port_at}
use mikanos_m1mac.Controller.Ports.{configure_port}
use mikanos_m1mac.Controller.Dispatch.{process_event}

pub data LogLevel : Type 0 where
  error warn info debug : LogLevel

abbrev pub level_value : LogLevel → ℕ
level_value error = 3
level_value warn = 4
level_value info = 6
level_value debug = 7

-- `Log`, with the text that is made of its arguments; `log_level` is the threshold.
unfoldable pub log : List ℕ → LogLevel → LogLevel → List ℕ → Console → List Pixel × Console
log font_data log_level level text console =
    if ltb (level_value log_level) (level_value level)
    then ([], console)
    else put_string font_data text console

abbrev pub desktop_bg_color : PixelColor
desktop_bg_color = record { r = 45; g = 118; b = 237 }

-- What `KernelMain` draws first, on a screen of at least 50 lines.
unfoldable pub draw_desktop : ℕ → ℕ → List Pixel
draw_desktop width height =
    fill_rectangle (record { x = 0; y = 0 }) (record { x = width; y = height - 50 })
      desktop_bg_color
    ++ (fill_rectangle (record { x = 0; y = height - 50 }) (record { x = width; y = 50 })
          (record { r = 1; g = 8; b = 17 })
        ++ (fill_rectangle (record { x = 0; y = height - 50 }) (record { x = width / 5; y = 50 })
              (record { r = 80; g = 80; b = 80 })
            ++ draw_rectangle (record { x = 10; y = height - 40 }) (record { x = 30; y = 30 })
                (record { r = 160; g = 160; b = 160 })))

abbrev pub intel : ℕ
intel = 0x8086

-- `& ~0xf` on the value of the BAR.
abbrev pub mmio_base_of : ℕ → ℕ
mmio_base_of bar = bit_and bar (not64 0xf)

module _ (conf : ℕ → ℕ) where
  abbrev pub is_intel : Device → Bool
  is_intel dev = intel == read_vendor_id conf dev.bus dev.device dev.function

  abbrev pub is_xhc : Device → Bool
  is_xhc dev = match_interface dev.class_code 0x0c 0x03 0x30

  abbrev pub is_ehc : Device → Bool
  is_ehc dev = match_interface dev.class_code 0x0c 0x03 0x20

  -- The loop that looks for a controller: one of Intel ends it.
  unfoldable pub choose_xhc : List Device → Option Device → Option Device
  choose_xhc [] xhc_dev = xhc_dev
  choose_xhc (dev ∷ devices) xhc_dev =
      let rest = choose_xhc devices (if is_xhc dev then some dev else xhc_dev) in
      if is_xhc dev && is_intel dev then some dev else rest

  -- The loop of `SwitchEhci2Xhci`.
  unfoldable pub has_intel_ehc : List Device → Bool
  has_intel_ehc [] = false
  has_intel_ehc (dev ∷ devices) =
      let rest = has_intel_ehc devices in if is_ehc dev && is_intel dev then true else rest

  -- `SwitchEhci2Xhci`: the writes to the configuration space.
  unfoldable pub switch_ehci2xhci : List Device → Device → List (ℕ × ℕ)
  switch_ehci2xhci devices xhc_dev =
      if has_intel_ehc devices
      then write_conf_reg xhc_dev 0xd8 (read_conf_reg conf xhc_dev 0xdc)
        ∷ write_conf_reg xhc_dev 0xd0 (read_conf_reg conf xhc_dev 0xd4)
        ∷ []
      else []

  -- The address of the registers, also where the BAR is not readable: its value is then 0.
  unfoldable pub xhc_mmio_base : Device → ℕ
  xhc_mmio_base xhc_dev = mmio_base_of (read_bar conf xhc_dev 0).value

module _ {ℓ κ} {H : Type ℓ} {D : Type κ} (mmio : Mmio H) (ops : Devices D) (base : Base)
    (fuel : ℕ) where
  -- A port of the loop: the message reads PORTSC, then the test does. An error is only reported.
  unfoldable pub configure_one : ℕ → State H D → Outcome (State H D)
  configure_one i s =
      let shown = is_connected mmio (port_at base i) s.hardware in
      let connected = is_connected mmio (port_at base i) shown.1 in
      let s' : State H D = record s { hardware = connected.1 } in
      if connected.0
      then (configure_port mmio base fuel i s' >>= λ r. returned r.1)
      else returned s'

  -- The loop over the ports, from `i` on, for `n` of them.
  unfoldable pub configure_ports : ℕ → ℕ → State H D → Outcome (State H D)
  configure_ports i zero s = returned s
  configure_ports i (suc n) s = configure_one i s >>= configure_ports (i + 1) n

  -- `n` rounds of the loop that never ends: an error is only reported.
  unfoldable pub process_events :
      Dma H → ℕ → EventRing → State H D → Outcome (EventRing × State H D)
  process_events dma zero ring s = returned (ring, s)
  process_events dma (suc n) ring s =
      process_event mmio ops base fuel dma ring s >>= λ r. process_events dma n r.1 r.2
