-- ===== src/Controller/Startup.antt =====
-- The constructor of `Controller`, `Initialize` and `Run`. A register that is waited for is read until
-- the hardware changes it, on fuel.
use mikanos_m1mac.Base.{
  ℕ, zero, suc, ◌+◌, u8, u16, ◌==◌, ltb, ◌||◌, not, if◌then◌else◌, Bool, true, false, List, [], ◌∷◌,
  Option, bit_or, ◌<<<◌, set,
}
use mikanos_m1mac.Errors.{Code, success, is_error}
use mikanos_m1mac.Outcome.{Outcome, returned, undefined, ◌>>=◌}
use mikanos_m1mac.Memory.{alloc_array, alloc_mem}
use mikanos_m1mac.Mmio.{Mmio, read_field, modify, spin, element}
use mikanos_m1mac.Registers.Capability.{
  caplength, hcsparams1, hcsparams2, hccparams1, rtsoff, max_ports, max_scratchpad_buffers_high,
  max_scratchpad_buffers_low, runtime_offset,
}
use mikanos_m1mac.Registers.Operational.{
  usbcmd, usbsts, crcr, dcbaap, config, set_run_stop, host_controller_reset,
  set_host_controller_reset, set_interrupter_enable, set_host_system_error_enable,
  set_enable_wrap_event, host_controller_halted, controller_not_ready, set_ring_cycle_state,
  set_command_stop, set_command_abort, set_ring_pointer, set_contexts_pointer,
  set_max_device_slots_enabled,
}
use mikanos_m1mac.Registers.Interrupter.{
  interrupter_set_size, iman, set_interrupt_pending, set_interrupt_enable,
}
use mikanos_m1mac.Registers.Extended.{
  hc_bios_owned_semaphore, hc_os_owned_semaphore, set_hc_os_owned_semaphore, first, find_capability,
}
use mikanos_m1mac.Port.{test_bit}
use mikanos_m1mac.Slots.{DeviceManager}
use mikanos_m1mac.Slots as Slots
use mikanos_m1mac.Ring.{Ring, address}
use mikanos_m1mac.Ring as CommandRing
use mikanos_m1mac.EventRing.{Dma, EventRing}
use mikanos_m1mac.EventRing as EventRing
use mikanos_m1mac.Controller.{Base}

-- What is initialised: the members of `Controller`, `device_contexts` being the address that
-- `DeviceContexts()` returns, with the scratchpad pages and the end of the used memory.
pub record Start {ℓ} (H : Type ℓ) : Type ℓ where
  pub hardware : H
  pub alloc_ptr : ℕ
  pub manager : DeviceManager
  pub device_contexts : ℕ
  pub scratchpad : List (Option ℕ)
  pub command_ring : Ring
  pub event_ring : EventRing

abbrev pub device_size : ℕ
device_size = 8

-- USBCMD to stop the controller, which is left running only if it is halted already.
abbrev pub halt_word : Bool → ℕ → ℕ
halt_word halted w =
    let w' =
      set_enable_wrap_event false
        (set_host_system_error_enable false (set_interrupter_enable false w)) in
    if halted then w' else set_run_stop false w'

abbrev pub command_ring_word : ℕ → ℕ → ℕ
command_ring_word buf w =
    set_ring_pointer buf
      (set_command_abort false (set_command_stop false (set_ring_cycle_state true w)))

-- `if (auto err = ...) { return err; }`
abbrev pub and_then {ℓ} :
    {S : Type ℓ} → Outcome (Code × S) → (S → Outcome (Code × S)) → Outcome (Code × S)
and_then m k = m >>= λ r. if is_error r.0 then returned r else k r.1

-- The pages of the scratchpad.
unfoldable pub alloc_pages : ℕ → ℕ → ℕ → List (Option ℕ) × ℕ
alloc_pages memory_pool zero alloc_ptr = ([], alloc_ptr)
alloc_pages memory_pool (suc n) alloc_ptr =
    let page = alloc_mem memory_pool 4096 4096 4096 alloc_ptr in
    let rest = alloc_pages memory_pool n page.1 in (page.0 ∷ rest.0, rest.1)

module _ {ℓ} {H : Type ℓ} (mmio : Mmio H) (fuel : ℕ) where
  -- `Controller(mmio_base)`, with `max_ports_`.
  unfoldable pub new : ℕ → H → Base × ℕ × H
  new mmio_base h =
      let len = mmio.read (mmio_base + caplength) h in
      let ports = read_field mmio max_ports (mmio_base + hcsparams1) len.1 in
      (record { mmio_base = mmio_base; op = mmio_base + u8 len.0 }, ports.0, ports.1)

  abbrev pub is_firmware_busy : ℕ → H → Bool × H
  is_firmware_busy reg h =
      let r = mmio.read reg h in
      ((hc_bios_owned_semaphore r.0 == 1) || not (hc_os_owned_semaphore r.0 == 1), r.1)

  unfoldable pub take_ownership : ℕ → H → Outcome H
  take_ownership reg h =
      let r = mmio.read reg h in
      let taken =
        spin fuel (is_firmware_busy reg) (mmio.write reg (set_hc_os_owned_semaphore 1 r.0) r.1) in
      if hc_os_owned_semaphore r.0 == 1 then returned r.1 else taken

  unfoldable pub request_hc_ownership : ℕ → ℕ → H → Outcome H
  request_hc_ownership mmio_base hccp h =
      find_capability mmio 1 fuel (first mmio_base hccp) h >>= λ found.
      if found.0 == 0 then returned found.1 else take_ownership found.0 found.1

  abbrev pub is_running : ℕ → H → Bool × H
  is_running op h =
      let halted = test_bit mmio host_controller_halted (op + usbsts) h in (not halted.0, halted.1)

  unfoldable pub halt : ℕ → H → Outcome H
  halt op h =
      let command = mmio.read (op + usbcmd) h in
      let halted = test_bit mmio host_controller_halted (op + usbsts) command.1 in
      spin fuel (is_running op) (mmio.write (op + usbcmd) (halt_word halted.0 command.0) halted.1)

  unfoldable pub reset_controller : ℕ → H → Outcome H
  reset_controller op h =
      spin fuel (test_bit mmio host_controller_reset (op + usbcmd))
        (modify mmio (set_host_controller_reset true) (op + usbcmd) h)
      >>= spin fuel (test_bit mmio controller_not_ready (op + usbsts))

  -- `Run`
  unfoldable pub run : ℕ → H → Outcome H
  run op h =
      spin fuel (test_bit mmio host_controller_halted (op + usbsts))
        (mmio.read (op + usbcmd) (modify mmio (set_run_stop true) (op + usbcmd) h)).1

  module _ (memory_pool : ℕ) (dma : Dma H) (base : Base) where
    -- `devmgr_.Initialize`; the array of contexts is its second block.
    unfoldable pub initialize_devices : Start H → Outcome (Code × Start H)
    initialize_devices s =
        let made = Slots.initialize memory_pool device_size s.manager s.alloc_ptr in
        let first_block = alloc_array memory_pool 8 (device_size + 1) 0 0 s.alloc_ptr in
        let contexts = alloc_array memory_pool 8 (device_size + 1) 64 4096 first_block.1 in
        returned (
          made.0,
          record s { manager = made.1; alloc_ptr = made.2; device_contexts = address contexts.0 },
        )

    -- The ownership, the halt and the reset; the log message reads HCSPARAMS1.
    unfoldable pub bring_down : Start H → Outcome (Start H)
    bring_down s =
        let hccp = mmio.read (base.mmio_base + hccparams1) s.hardware in
        request_hc_ownership base.mmio_base hccp.0 hccp.1
        >>= halt base.op
        >>= reset_controller base.op
        >>= λ h. returned (record s {
          hardware =
              modify mmio (set_max_device_slots_enabled device_size) (base.op + config)
                (mmio.read (base.mmio_base + hcsparams1) h).1;
        })

    -- A null array of pages is written to.
    unfoldable pub make_scratchpad : Start H → Outcome (Start H)
    make_scratchpad s =
        let params = mmio.read (base.mmio_base + hcsparams2) s.hardware in
        let count = u16 (
          bit_or (max_scratchpad_buffers_low params.0)
            (max_scratchpad_buffers_high params.0 <<< 5)) in
        let buffers = alloc_array memory_pool 8 count 64 4096 s.alloc_ptr in
        let pages = alloc_pages memory_pool count buffers.1 in
        let s' : Start H = record s { hardware = params.1 } in
        if not (ltb 0 count)
        then returned s'
        else if address buffers.0 == 0
        then undefined
        else returned (record s' {
          scratchpad = pages.0;
          alloc_ptr = pages.1;
          manager = record s.manager {
            device_context_pointers = set s.manager.device_context_pointers 0 (address buffers.0);
          };
        })

    -- DCBAAP, and the address of the first interrupter, which is found before the rings are made.
    unfoldable pub set_contexts : Start H → ℕ × Start H
    set_contexts s =
        let offset =
          read_field mmio runtime_offset (base.mmio_base + rtsoff)
            (mmio.write (base.op + dcbaap) (set_contexts_pointer s.device_contexts 0) s.hardware) in
        (
          element (base.mmio_base + offset.0 + 0x20) interrupter_set_size 0,
          record s { hardware = offset.1 },
        )

    -- After `cr_.Initialize`: the ring is told to the controller.
    unfoldable pub with_command_ring : Start H → Code × Ring × ℕ → Outcome (Code × Start H)
    with_command_ring s made =
        let s' : Start H = record s { command_ring = made.1; alloc_ptr = made.2 } in
        if is_error made.0
        then returned (made.0, s')
        else returned (
          success,
          record s' {
            hardware =
                modify mmio (command_ring_word (address made.1.buf)) (base.op + crcr) s.hardware;
          },
        )

    unfoldable pub make_command_ring : Start H → Outcome (Code × Start H)
    make_command_ring s =
        with_command_ring s (CommandRing.initialize memory_pool 32 s.command_ring s.alloc_ptr)

    unfoldable pub make_event_ring : ℕ → Start H → Outcome (Code × Start H)
    make_event_ring interrupter s =
        let made =
          EventRing.initialize mmio dma memory_pool 32 interrupter s.event_ring s.alloc_ptr
            s.hardware in
        returned (made.0, record s { event_ring = made.1; alloc_ptr = made.2; hardware = made.3 })

    unfoldable pub enable_interrupts : ℕ → Start H → Outcome (Code × Start H)
    enable_interrupts interrupter s = returned (
      success,
      record s {
        hardware = modify mmio (set_interrupter_enable true) (base.op + usbcmd) (
            modify mmio (λ w. set_interrupt_enable true (set_interrupt_pending true w))
              (interrupter + iman) s.hardware);
      },
    )

    -- `Initialize`
    unfoldable pub initialize : Start H → Outcome (Code × Start H)
    initialize s = and_then (initialize_devices s) (λ s1.
        bring_down s1 >>= make_scratchpad >>= λ s2.
        let told = set_contexts s2 in
        and_then (make_command_ring told.1)
          (λ s3. and_then (make_event_ring told.0 s3) (enable_interrupts told.0)))
