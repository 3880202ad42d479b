-- ===== src/Usb/Phases.antt =====
-- The phases of the initialisation in kernel/usb/device.cpp, and what a completed control transfer
-- does in each.
use mikanos_m1mac.Base.{
  ℕ, ◌==◌, not, if◌then◌else◌, Bool, true, false, Option, none, some, List, [], ◌∷◌, get_or,
  get_elem?, take, set, bit_or, ◌<<<◌, u16,
}
use mikanos_m1mac.Errors.{
  Code, success, invalid_descriptor, invalid_phase, not_implemented, no_waiter,
}
use mikanos_m1mac.Descriptor.{
  is_kind, device_kind, configuration_kind, device_descriptor, configuration_descriptor,
}
use mikanos_m1mac.Endpoint.{EndpointConfig, ep_number, default_control_pipe_id}
use mikanos_m1mac.SetupData.{
  SetupData, setup_Eq, request_bits, to_device, standard_request, get_descriptor, set_configuration,
}
use mikanos_m1mac.SetupData as Setup
use mikanos_m1mac.Hid as Hid
use mikanos_m1mac.ArrayMap.{Slot, get}
use mikanos_m1mac.Outcome.{Outcome, returned, out_of_fuel, undefined, ◌>>=◌}
use mikanos_m1mac.Usb.{Device, ClassDriver, find_interface}

-- `GetDescriptor` and `SetConfiguration`, as requests.
abbrev pub get_descriptor_request : ℕ → ℕ → ℕ → SetupData
get_descriptor_request desc_type desc_index len = record {
  request_type = request_bits Setup.dir_in standard_request to_device;
  request = get_descriptor;
  value = bit_or (u16 (desc_type <<< 8)) desc_index;
  index = 0;
  length = u16 len;
}

abbrev pub set_configuration_request : ℕ → SetupData
set_configuration_request config_value = record {
  request_type = request_bits Setup.dir_out standard_request to_device;
  request = set_configuration;
  value = config_value;
  index = 0;
  length = 0;
}

-- The calls of `ControlIn`, into the device's own buffer, and of `ControlOut`, without data.
pub record Control {ℓ} (D : Type ℓ) : Type ℓ where
  pub control_in : ℕ → SetupData → ℕ → D → Code × D
  pub control_out : ℕ → SetupData → D → Code × D

abbrev pub buffer_size : ℕ
buffer_size = 256

module _ {ℓ} {D : Type ℓ} (requests : Control D) where
  abbrev pub ask_descriptor : ℕ → ℕ → D → Code × D
  ask_descriptor desc_type desc_index =
      requests.control_in default_control_pipe_id
        (get_descriptor_request desc_type desc_index buffer_size) buffer_size

  unfoldable pub start_initialize : Device → D → Code × Device × D
  start_initialize dev d =
      let out = ask_descriptor device_kind 0 d in
      (out.0, record dev { is_initialized = false; initialize_phase = 1 }, out.1)

  unfoldable pub initialize_phase1 : List ℕ → Device → D → Code × Device × D
  initialize_phase1 buf dev d =
      let out = ask_descriptor configuration_kind 0 d in
      (
        out.0,
        record dev {
          num_configurations = (device_descriptor buf 0).num_configurations;
          config_index = 0;
          initialize_phase = 2;
        },
        out.1,
      )

  -- After the search for an interface.
  abbrev pub configure : ℕ → D → Outcome (Bool × Device) → Outcome (Code × Device × D)
  configure value d out_of_fuel = out_of_fuel
  configure value d undefined = undefined
  configure value d (returned (false, dev)) = returned (success, dev, d)
  configure value d (returned (true, dev)) =
      let out = requests.control_out default_control_pipe_id (set_configuration_request value) d in
      returned (out.0, record dev { initialize_phase = 3 }, out.1)

  unfoldable pub initialize_phase2 :
      Bool → Bool → ℕ → List ℕ → ℕ → Device → D → Outcome (Code × Device × D)
  initialize_phase2 keys mice fuel buf len dev d =
      if not (is_kind configuration_kind buf 0)
      then returned (invalid_descriptor, dev, d)
      else configure (configuration_descriptor buf 0).configuration_value d
          (find_interface keys mice buf len fuel 0 dev)

-- The driver at that place is told of the endpoint.
abbrev pub tell : ℕ → EndpointConfig → Device → Option ClassDriver → Outcome Device
tell i conf dev none = undefined
tell i conf dev (some c) =
    returned (record dev {
      drivers = set dev.drivers i (record c { base = Hid.set_endpoint conf c.base });
    })

-- `SetEndpoint` of the driver at that place.
abbrev pub set_driver_endpoint : Option ℕ → EndpointConfig → Device → Outcome Device
set_driver_endpoint none conf dev = undefined
set_driver_endpoint (some i) conf dev = tell i conf dev (get_elem? dev.drivers i)

-- The loop of `InitializePhase3`, over the configurations to come.
unfoldable pub set_endpoints : List EndpointConfig → Device → Outcome Device
set_endpoints [] dev = returned dev
set_endpoints (conf ∷ confs) dev =
    set_driver_endpoint (get_or dev.class_drivers (ep_number conf.ep_id) none) conf dev >>= λ dev'.
    set_endpoints confs dev'

-- The end of the last phase.
abbrev pub finish : Device → Outcome (Code × Device)
finish dev = returned (success, record dev { initialize_phase = 4; is_initialized = true })

unfoldable pub initialize_phase3 : Device → Outcome (Code × Device)
initialize_phase3 dev = set_endpoints (take dev.num_ep_configs dev.ep_configs) dev >>= finish

module _ {ℓ} {D : Type ℓ} (dev : Device) (d : D) where
  -- The request is looked at first, and then the kind of the descriptor.
  abbrev pub described :
      Option (List ℕ)
      → Bool
      → ℕ
      → (List ℕ → Outcome (Code × Device × D))
      → Outcome (Code × Device × D)
  described bytes false kind phase = returned (invalid_phase, dev, d)
  described none true kind phase = undefined
  described (some bytes) true kind phase =
      if is_kind kind bytes 0 then phase bytes else returned (invalid_phase, dev, d)

  -- The class driver that waits for the answer to a request takes over.
  abbrev pub forward_to :
      (ℕ → Device → D → Outcome (Code × Device × D)) → Option ℕ → Outcome (Code × Device × D)
  forward_to forward none = returned (no_waiter, dev, d)
  forward_to forward (some driver) = forward driver dev d

abbrev pub with_state {ℓ} : {D : Type ℓ} → D → Code × Device → Outcome (Code × Device × D)
with_state d (c, dev) = returned (c, dev, d)

module _ {ℓ} {D : Type ℓ} (requests : Control D) (keys mice : Bool) where
  -- `OnControlCompleted`. A null buffer is `none`; `forward`, the class driver's own
  -- `OnControlCompleted`, takes over when the device is initialised and a driver waits.
  unfoldable pub on_control_completed :
      (ℕ → Device → D → Outcome (Code × Device × D))
      → List (Slot SetupData ℕ)
      → ℕ
      → SetupData
      → Option (List ℕ)
      → ℕ
      → Device
      → D
      → Outcome (Code × Device × D)
  on_control_completed forward waiters fuel setup_data buf len dev d =
      if dev.is_initialized
      then forward_to dev d forward (get setup_data waiters)
      else if dev.initialize_phase == 1
      then described dev d buf (setup_data.request == get_descriptor) device_kind
          (λ bytes. returned (initialize_phase1 requests bytes dev d))
      else if dev.initialize_phase == 2
      then described dev d buf (setup_data.request == get_descriptor) configuration_kind
          (λ bytes. initialize_phase2 requests keys mice fuel bytes len dev d)
      else if dev.initialize_phase == 3
      then if setup_data.request == set_configuration
        then initialize_phase3 dev >>= with_state d
        else returned (invalid_phase, dev, d)
      else returned (not_implemented, dev, d)
