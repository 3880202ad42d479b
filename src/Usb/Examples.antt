-- ===== src/Usb/Examples.antt =====
-- A configuration with one interface, and one that its zero length makes endless.
use mikanos_m1mac.Base.{
  ℕ, zero, suc, ◌≤◌, ◌<◌, ◌≡◌, refl, List, [], ◌∷◌, arith, replicate, true, false, get_or, Option,
  some, none, Bool,
}
use mikanos_m1mac.Descriptor.{byte, EndpointDescriptor, number}
use mikanos_m1mac.Endpoint.{ep_number, is_in, EndpointConfig, control, interrupt}
use mikanos_m1mac.Outcome.{Outcome, out_of_fuel, returned, undefined}
use mikanos_m1mac.Usb.{
  Device, next, next_of, make_ep_config, read_endpoints, new_class_driver, find_interface,
}
use mikanos_m1mac.Usb.Reader.{start, Finds, next_of-Finds, next_of-endless}

-- The configuration of a boot keyboard: configuration, interface, HID and endpoint descriptors.
abbrev pub keyboard_configuration : List ℕ
keyboard_configuration =
    9 ∷ 2 ∷ 34 ∷ 0 ∷ 1 ∷ 1 ∷ 0 ∷ 160 ∷ 50 ∷ 9 ∷ 4 ∷ 0 ∷ 0 ∷ 1 ∷ 3 ∷ 1 ∷ 1 ∷ 0 ∷ 9 ∷ 33 ∷ 17 ∷ 1 ∷ 0
    ∷ 1 ∷ 34 ∷ 63 ∷ 0 ∷ 7 ∷ 5 ∷ 0x81 ∷ 3 ∷ 8 ∷ 0 ∷ 10 ∷ []

at_end : (n : ℕ) → start keyboard_configuration 34 n ≡ 34
at_end zero = refl
at_end (suc n) = at_end n

keyboard_positive :
    (n : ℕ)
    → start keyboard_configuration 0 n < 34
    → 1 ≤ byte keyboard_configuration (start keyboard_configuration 0 n)
keyboard_positive zero h = omega arith
keyboard_positive (suc zero) h = omega arith
keyboard_positive (suc (suc zero)) h = omega arith
keyboard_positive (suc (suc (suc zero))) h = omega arith
keyboard_positive (suc (suc (suc (suc n)))) h = absurd (omega (arith, h, at_end n))

next_of-Finds_example :
    Finds 5 keyboard_configuration 34 0 (next_of 5 keyboard_configuration 34 35 0)
next_of-Finds_example =
    next_of-Finds 5 keyboard_configuration 34 35 0 keyboard_positive (omega arith) (omega arith)

abbrev stuck : List ℕ
stuck = 0 ∷ 2 ∷ 9 ∷ 4 ∷ []

next_of-endless_example : next_of 4 stuck 4 1000 0 ≡ out_of_fuel
next_of-endless_example = next_of-endless 4 stuck 4 1000 0 refl (omega arith) refl

abbrev interrupt_endpoint : EndpointDescriptor
interrupt_endpoint = record {
  endpoint_address = 0x81;
  attributes = 3;
  max_packet_size = 8;
  interval = 7;
}

interrupt_endpoint_read :
    (ep_number (make_ep_config interrupt_endpoint).ep_id ≡ number interrupt_endpoint)
    × (is_in (make_ep_config interrupt_endpoint).ep_id ≡ true)
unfolding make_ep_config
interrupt_endpoint_read = (refl, refl)

abbrev pub no_config : EndpointConfig
no_config = record { ep_id = 0; ep_type = control; max_packet_size = 0; interval = 0 }

abbrev fresh : Device
fresh = record {
  drivers = [];
  class_drivers = replicate 16 none;
  num_configurations = 1;
  config_index = 0;
  is_initialized = false;
  initialize_phase = 2;
  ep_configs = replicate 16 no_config;
  num_ep_configs = 0;
}

abbrev summary : Outcome (Bool × Device) → Option (Bool × Option ℕ × EndpointConfig × ℕ)
summary (returned (found, dev)) =
    some (
      found,
      get_or dev.class_drivers 1 none,
      get_or dev.ep_configs 0 no_config,
      dev.num_ep_configs,
    )
summary out_of_fuel = none
summary undefined = none

-- Endpoint 1, for input, is given to the new keyboard driver.
keyboard_found :
    summary (find_interface true true keyboard_configuration 34 40 0 fresh)
    ≡ some (
      true,
      some 0,
      record { ep_id = 3; ep_type = interrupt; max_packet_size = 8; interval = 10 },
      1,
    )
unfolding find_interface next_of next read_endpoints new_class_driver make_ep_config
keyboard_found = refl
