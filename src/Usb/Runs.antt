-- ===== src/Usb/Runs.antt =====
-- The initialisation of a keyboard, from the new device to its last phase.
use mikanos_m1mac.Base.{ℕ, ◌+◌, refl, true, false, some, none, List, [], ◌∷◌, replicate}
use mikanos_m1mac.Errors.{Code, success}
use mikanos_m1mac.Endpoint.{interrupt}
use mikanos_m1mac.Outcome.{Outcome, returned, Returns}
use mikanos_m1mac.Hid as Hid
use mikanos_m1mac.Usb.{
  Device, keyboard, next, next_of, make_ep_config, read_endpoints, new_class_driver, find_interface,
}
use mikanos_m1mac.Usb.Phases.{
  Control, get_descriptor_request, set_configuration_request, start_initialize, initialize_phase1,
  initialize_phase2, on_control_completed,
}
use mikanos_m1mac.Usb.Ready.{IsReady}
use mikanos_m1mac.Usb.Order.{
  new_device, Reached, attached, started, completed, set_configuration-Returns,
}
use mikanos_m1mac.Usb.Examples.{keyboard_configuration, no_config}

-- The requests are counted.
abbrev counted : Control ℕ
counted = record {
  control_in = λ ep_id setup_data len n. (success, n + 1);
  control_out = λ ep_id setup_data n. (success, n + 1);
}

abbrev no_forward : ℕ → Device → ℕ → Outcome (Code × Device × ℕ)
no_forward i dev d = returned (success, dev, d)

abbrev device_bytes : List ℕ
device_bytes = 18 ∷ 1 ∷ 0 ∷ 2 ∷ 0 ∷ 0 ∷ 0 ∷ 8 ∷ 0 ∷ 0 ∷ 0 ∷ 0 ∷ 0 ∷ 0 ∷ 0 ∷ 0 ∷ 0 ∷ 1 ∷ []

abbrev in_phase : ℕ → Device
in_phase n = record (new_device 1 0 (replicate 16 no_config) 0) { initialize_phase = n }

abbrev configured : Device
configured = record {
  drivers = record { kind = keyboard; base = Hid.new 0 8; num_observers = 1 } ∷ [];
  class_drivers = none ∷ some 0 ∷ replicate 14 none;
  num_configurations = 1;
  config_index = 0;
  is_initialized = false;
  initialize_phase = 3;
  ep_configs =
      record { ep_id = 3; ep_type = interrupt; max_packet_size = 8; interval = 10 }
      ∷ replicate 15 no_config;
  num_ep_configs = 1;
}

new_reached : Reached counted true true (in_phase 0)
new_reached = attached 1 0 0 (replicate 16 no_config) refl

started_reached : Reached counted true true (in_phase 1)
unfolding start_initialize
started_reached = started 0 new_reached

second_reached : Reached counted true true (in_phase 2)
unfolding on_control_completed initialize_phase1
second_reached =
    completed no_forward [] 40 (get_descriptor_request 1 0 256) (some device_bytes) 18 1 {d' = 2}
      started_reached refl refl

third_reached : Reached counted true true configured
unfolding on_control_completed initialize_phase2 find_interface next_of next read_endpoints
    new_class_driver make_ep_config
third_reached =
    completed no_forward [] 40 (get_descriptor_request 2 0 256) (some keyboard_configuration) 34 2
      {d' = 3} second_reached refl refl

set_configuration-Returns_example :
    Returns
      (λ (code, dev', d'). IsReady (code, dev'))
      (on_control_completed counted true true no_forward [] 40
        (set_configuration_request 1)
        none
        0
        configured
        3)
set_configuration-Returns_example =
    set_configuration-Returns counted true true no_forward [] 40 (set_configuration_request 1) none
      0 3 third_reached refl refl refl
