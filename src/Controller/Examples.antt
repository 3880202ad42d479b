-- ===== src/Controller/Examples.antt =====
-- Two ports, hardware whose registers all hold one word, and the theorems on them.
use mikanos_m1mac.Base.{
  ℕ, suc, ◌^◌, ◌≡◌, ◌≤◌, refl, ap, get_or-replicate, true, false, [], ◌∷◌, ◌<◌, replicate, some,
  arith,
}
use mikanos_m1mac.Errors.{success}
use mikanos_m1mac.Outcome.{returned, undefined}
use mikanos_m1mac.Mmio.{Mmio, spin}
use mikanos_m1mac.Port.{reset, clear_port_reset_change}
use mikanos_m1mac.Context.{
  zero_words, ep_type, max_packet_size, ep_interval, transfer_ring_buffer, dequeue_cycle_state,
  error_count,
}
use mikanos_m1mac.Endpoint.{interrupt}
use mikanos_m1mac.Descriptor.{EndpointDescriptor}
use mikanos_m1mac.Usb.{make_ep_config}
use mikanos_m1mac.Controller.Bounds.{most_significant_bit-bounds}
use mikanos_m1mac.Controller.Contexts.{endpoint_fields}
use mikanos_m1mac.Controller.Endpoints.{
  bsr, most_significant_bit, convert_interval, describe_endpoint, attach_ring,
}
use mikanos_m1mac.Trb.{Trb, zero_trb, trb_dynamic_cast, trb_type, cycle_bit}
use mikanos_m1mac.Trb.EnableSlotCommand as EnableSlotCommand
use mikanos_m1mac.Trb.CommandCompletionEvent as CommandCompletionEvent
use mikanos_m1mac.Ring.{Ring, push}
use mikanos_m1mac.Ring.Invariant.{IsRing}
use mikanos_m1mac.Ring.Writes.{push-address}
use mikanos_m1mac.Ring.Pushes.{Pushes, push-Pushes}
use mikanos_m1mac.EventRing.{
  Dma, EventRing, has_front, front, pop, read_dequeue_pointer, write_dequeue_pointer,
}
use mikanos_m1mac.Controller.{
  not_connected, waiting_addressed, resetting_port, enabling_slot, addressing_device, Devices,
  State, Base, trb_at, phase, send_command, ring_doorbell,
}
use mikanos_m1mac.Controller.Ports.{reset_port, enable_slot, configure_port}
use mikanos_m1mac.Controller.Dispatch.{dispatch, process_event}
use mikanos_m1mac.Controller.Events.{on_port_status_change}
use mikanos_m1mac.Controller.Waiting.{issuer-push}
use mikanos_m1mac.Controller.Reachable.{
  Step, Reach, IsBoot, rank, one_port_addressed, phases_ordered,
}

-- Every register reads as the word: connected, enabled, the reset over and done.
abbrev mmio : Mmio ℕ
mmio = record { read = λ _ h. (h, h); write = λ _ _ h. h }

abbrev portsc : ℕ
portsc = 0x0020_0003

-- There is no device.
abbrev ops : Devices ℕ
ops = record {
  alloc_device = λ _ _ d. returned (success, d);
  has_slot = λ _ d. false;
  load_dcbaa = λ _ d. returned (success, d);
  slot_context = λ _ d. zero_words;
  input_context = λ _ d. record {
    drop_context_flags = 0;
    add_context_flags = 0;
    configuration_value = 0;
    interface_number = 0;
    alternate_setting = 0;
    slot_context = zero_words;
    ep_contexts = replicate 31 zero_words;
  };
  set_input_context = λ _ _ d. d;
  input_address = λ _ d. 0;
  alloc_transfer_ring = λ _ _ _ d. undefined;
  start_initialize = λ _ d. returned (success, d);
  on_endpoints_configured = λ _ d. returned (success, d);
  on_transfer_event = λ _ _ d. returned (success, d);
  is_initialized = λ _ d. false;
  endpoint_configs = λ _ d. [];
}

abbrev base : Base
base = record { mmio_base = 0x1_0000; op = 0x1_0020 }

-- The next event is about port 1.
abbrev dma : Dma ℕ
dma = record {
  trb = λ _ _. record { d0 = 0x100_0000; d1 = 0; d2 = 0; d3 = 0x8801 };
  clear = λ _ _ h. h;
}

abbrev ring : EventRing
ring = record {
  buf = some 0x20_0000;
  buf_size = 32;
  cycle_bit = true;
  erst = some 0x20_1000;
  ring_segment_base_address = 0x20_0000;
  ring_segment_size = 32;
  interrupter = 0x2_0020;
}

abbrev boot : State ℕ ℕ
boot = record {
  hardware = portsc;
  devices = 0;
  command_ring = record {
    buf = some 0x10_0000;
    mem = replicate 4 zero_trb;
    buf_size = 4;
    cycle_bit = true;
    write_index = 0;
  };
  port_config_phase = replicate 256 not_connected;
  addressing_port = 0;
}

boot-IsBoot : IsBoot mmio ops base 2 dma boot
boot-IsBoot = (refl, refl)

abbrev port_one : ℕ
port_one = 1

-- Port 1 is reset, port 2 waits, and then the reset of port 1 is over.
abbrev one_reset : State ℕ ℕ
one_reset = record boot {
  port_config_phase = not_connected ∷ resetting_port ∷ replicate 254 not_connected;
  addressing_port = 1;
}

abbrev one_waits : State ℕ ℕ
one_waits = record one_reset {
  port_config_phase =
      not_connected ∷ resetting_port ∷ waiting_addressed ∷ replicate 253 not_connected;
}

abbrev one_enabled : State ℕ ℕ
one_enabled = record one_reset {
  port_config_phase =
      not_connected ∷ enabling_slot ∷ waiting_addressed ∷ replicate 253 not_connected;
  command_ring = (push EnableSlotCommand.new boot.command_ring).1;
}

configure-one : configure_port mmio base 2 1 boot ≡ returned (success, one_reset)
unfolding configure_port reset_port reset spin
configure-one = refl

configure-two : configure_port mmio base 2 2 one_reset ≡ returned (success, one_waits)
unfolding configure_port reset_port reset spin
configure-two = refl

process-event :
    process_event mmio ops base 2 dma ring one_waits ≡ returned (success, ring, one_enabled)
unfolding process_event has_front front read_dequeue_pointer pop write_dequeue_pointer dispatch
    trb_dynamic_cast on_port_status_change enable_slot clear_port_reset_change send_command
    ring_doorbell
process-event = refl

first_steps : Reach mmio ops base 2 dma (ring, boot) (ring, one_waits)
first_steps =
    Reach.then (Step.configure 1 (omega arith) (omega arith) configure-one)
      (Reach.then (Step.configure 2 (omega arith) (omega arith) configure-two) Reach.here)

last_step : Reach mmio ops base 2 dma (ring, one_waits) (ring, one_enabled)
unfolding front
last_step = Reach.then (Step.event (λ _. omega arith) process-event) Reach.here

one_port_addressed_example : (port_one ≡ port_one) × (port_one ≡ one_waits.addressing_port)
one_port_addressed_example =
    one_port_addressed mmio ops base 2 dma (ring, boot) (ring, one_waits) boot-IsBoot first_steps
      port_one port_one refl refl

phases_ordered_example : rank (phase 1 one_waits) ≤ rank (phase 1 one_enabled)
phases_ordered_example =
    phases_ordered mmio ops base 2 dma (ring, boot) (ring, one_waits) boot-IsBoot first_steps
      (ring, one_enabled) last_step 1

abbrev port_event : Trb
port_event = record { d0 = 0x100_0000; d1 = 0; d2 = 0; d3 = 0x8801 }

-- The device of port 1 is in slot 1, and its address has been assigned; ports 2 and 3 wait, and port 2
-- is unplugged.
abbrev one_device : Devices ℕ
one_device = record ops {
  has_slot = λ _ d. true;
  slot_context = λ _ d. 0 ∷ 0x1_0000 ∷ 0 ∷ 0 ∷ 0 ∷ 0 ∷ 0 ∷ 0 ∷ [];
}

abbrev unplugged : State ℕ ℕ
unplugged = record one_waits {
  hardware = 0;
  port_config_phase =
      not_connected
      ∷ addressing_device
      ∷ waiting_addressed
      ∷ waiting_addressed
      ∷ replicate 252 not_connected;
}

abbrev port_three : Trb
port_three = record { d0 = 0x300_0000; d1 = 0; d2 = 0; d3 = 0x8801 }

-- The ring of the initial state, one push before its end.
abbrev nearly_full : Ring
nearly_full = (push EnableSlotCommand.new (push EnableSlotCommand.new boot.command_ring).1).1

abbrev completion : Trb
completion = CommandCompletionEvent.set_pointer 0x10_0020 CommandCompletionEvent.new

boot-IsRing : IsRing boot.command_ring
boot-IsRing = record {
  two_slots = omega arith;
  small = omega arith;
  memory = refl;
  in_range = omega arith;
  aligned = omega arith;
  base = omega arith;
  behind = λ i lt. absurd (omega arith);
  ahead = λ i _ _. ap cycle_bit (get_or-replicate 4 i zero_trb);
}

abbrev enable : Trb
enable = EnableSlotCommand.new

first_push : Pushes enable boot.command_ring (push enable boot.command_ring).1
first_push = push-Pushes enable boot.command_ring (omega arith) boot-IsRing (omega arith)

second_push : Pushes enable (push enable boot.command_ring).1 nearly_full
second_push =
    push-Pushes enable (push enable boot.command_ring).1 (omega arith) first_push.ring
      (omega (arith, first_push.moved, first_push.same_size))

pointer_eq : CommandCompletionEvent.pointer completion ≡ (push enable nearly_full).0
pointer_eq = omega (
  arith,
  push-address enable nearly_full,
  first_push.moved,
  second_push.moved,
  first_push.same_buf,
  second_push.same_buf,
)

issuer-push_example :
    trb_type (
      trb_at (push EnableSlotCommand.new nearly_full).1 (CommandCompletionEvent.pointer completion))
    ≡ trb_type EnableSlotCommand.new
issuer-push_example =
    issuer-push EnableSlotCommand.new completion nearly_full (omega arith) second_push.ring
      pointer_eq

tenth_bit : let k = most_significant_bit 10 in (2 ^ k ≤ 10) × (10 < 2 ^ suc k) × (k < 32)
tenth_bit = most_significant_bit-bounds 10 (omega arith) (omega arith)

-- The interrupt endpoint 1, for input, of a mouse at full speed, read every 10 milliseconds.
abbrev mouse_endpoint : EndpointDescriptor
mouse_endpoint = record {
  endpoint_address = 0x81;
  attributes = 3;
  max_packet_size = 8;
  interval = 10;
}

endpoint_fields_example :
    let c = attach_ring 0x10_0040 (
      describe_endpoint 1
        (make_ep_config mouse_endpoint)
        (7 ∷ 0xffff_ffff ∷ 5 ∷ 0 ∷ 1 ∷ 0 ∷ 0 ∷ 0 ∷ [])) in
    (ep_type c ≡ 7)
    × (max_packet_size c ≡ 8)
    × ((2 ^ ep_interval c ≤ 80) × (80 < 2 ^ suc (ep_interval c)))
    × (transfer_ring_buffer c ≡ 0x10_0040)
    × (dequeue_cycle_state c ≡ 1)
    × (error_count c ≡ 3)
endpoint_fields_example =
    endpoint_fields 7 0xffff_ffff 5 0 1 (0 ∷ 0 ∷ 0 ∷ []) 0x10_0040 1 mouse_endpoint refl
      (omega arith) (omega arith) (omega arith) (omega arith) (omega arith)

-- The highest bit of 10 is bit 3.
convert_interval-mouse : convert_interval 1 interrupt 10 ≡ 6
unfolding convert_interval bsr
convert_interval-mouse = refl
