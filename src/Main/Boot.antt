-- ===== src/Main/Boot.antt =====
-- `KernelMain` with one controller, in slot 1 of bus 0, that has one port, with a device on it. All
-- events are about that port.
use mikanos_m1mac.Base.{ℕ, ◌%◌, ◌==◌, ◌&&◌, ltb, if◌then◌else◌, false, none, [], replicate, arith}
use mikanos_m1mac.Errors.{success}
use mikanos_m1mac.Outcome.{returned, undefined, Holds}
use mikanos_m1mac.Mmio.{Mmio}
use mikanos_m1mac.Context.{zero_words}
use mikanos_m1mac.Pci.{Device}
use mikanos_m1mac.Pci.Scan.{Found}
use mikanos_m1mac.EventRing.{Dma, EventRing, front}
use mikanos_m1mac.Controller.{Devices, State, Base}
use mikanos_m1mac.Controller.Process.{NamesPort, next_event}
use mikanos_m1mac.Controller.Startup.{Start}
use mikanos_m1mac.Main.Kernel.{kernel_main, Phased, kernel_main-Phased}

-- Slot 0 holds another device, and the slots behind slot 1 are empty.
abbrev conf : ℕ → ℕ
conf address =
    if address == 0x8000_0808
    then 0x0c03_3000
    else if address == 0x8000_0810
    then 0x1000
    else if ltb address 0x8000_1000
    then 0
    else 0xffff_ffff

-- The state is 1 when the controller runs.
abbrev answer : ℕ → ℕ → ℕ
answer address running =
    if address == 0x1000
    then 0x20
    else if address == 0x1004
    then 0x0100_0000
    else if address == 0x1024
    then if running == 0 then 1 else 0
    else if address == 0x1420
    then 0x0020_0003
    else 0

abbrev mmio : Mmio ℕ
mmio = record {
  read = λ address h. (answer address h, h);
  write = λ address w h. if (address == 0x1020) && (w % 2 == 1) then 1 else h;
}

abbrev dma : Dma ℕ
dma = record {
  trb = λ p h. record { d0 = 0x100_0000; d1 = 0; d2 = 0; d3 = 0x8801 };
  clear = λ p n h. h;
}

abbrev ops : Devices ℕ
ops = record {
  alloc_device = λ slot doorbell d. returned (success, d);
  has_slot = λ slot d. false;
  load_dcbaa = λ slot d. returned (success, d);
  slot_context = λ slot d. zero_words;
  input_context = λ slot d. record {
    drop_context_flags = 0;
    add_context_flags = 0;
    configuration_value = 0;
    interface_number = 0;
    alternate_setting = 0;
    slot_context = zero_words;
    ep_contexts = replicate 31 zero_words;
  };
  set_input_context = λ slot context d. d;
  input_address = λ slot d. 0;
  alloc_transfer_ring = λ slot dci size d. undefined;
  start_initialize = λ slot d. returned (success, d);
  on_endpoints_configured = λ slot d. returned (success, d);
  on_transfer_event = λ slot trb d. returned (success, d);
  is_initialized = λ slot d. false;
  endpoint_configs = λ slot d. [];
}

abbrev start : Start ℕ
start = record {
  hardware = 0;
  alloc_ptr = 0x100000;
  manager = record { device_context_pointers = []; max_slots = 0; devices = [] };
  device_contexts = 0;
  scratchpad = [];
  command_ring = record { buf = none; mem = []; buf_size = 0; cycle_bit = false; write_index = 0 };
  event_ring = record {
    buf = none;
    buf_size = 0;
    cycle_bit = false;
    erst = none;
    ring_segment_base_address = 0;
    ring_segment_size = 0;
    interrupter = 0;
  };
}

abbrev no_device : Device
no_device = record {
  bus = 0;
  device = 0;
  function = 0;
  header_type = 0;
  class_code = record { base = 0; sub = 0; interface = 0 };
}

abbrev unscanned : Found
unscanned = record { devices = replicate 32 no_device; num_device = 0 }

event-NamesPort :
    (base : Base) (ring : EventRing) (s : State ℕ ℕ)
    → NamesPort (next_event mmio ops base 2 dma ring s)
unfolding front
event-NamesPort base ring s = λ kind zero_port. omega (arith, zero_port)

kernel_main-Phased_example :
    Holds
      (Phased conf mmio ops dma 2 0x100000 (λ writes h. h) (λ s. 0))
      (kernel_main conf mmio ops dma 2 0x100000 (λ writes h. h) (λ s. 0) 3 unscanned start)
kernel_main-Phased_example =
    kernel_main-Phased conf mmio ops dma 2 0x100000 (λ writes h. h) (λ s. 0) event-NamesPort 3
      unscanned start
