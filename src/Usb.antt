-- ===== src/Usb.antt =====
-- kernel/usb/device.cpp: how a USB device is initialised from its descriptors. The loops over
-- descriptors are on fuel; `undefined` stands for a null pointer that is followed and for a write
-- behind an array. `ControlIn` and `ControlOut`, virtual functions, are an interface. A class driver
-- is a place in `drivers`, so that the endpoints that share it see one driver.
pub mod Classes
pub mod Order
pub mod Phases
pub mod Reader
pub mod Ready
pub mod Served
mod Examples
mod Runs
use mikanos_m1mac.Base.{
  ℕ, zero, suc, ◌+◌, ◌*◌, ◌%◌, ◌^◌, ltb, leb, ◌==◌, ◌&&◌, not, if◌then◌else◌, Bool, true, false,
  Option, none, some, List, [], ◌∷◌, ◌++◌, get_or, get_elem?, take, set, length, bit_and, u8, u16,
}
use mikanos_m1mac.Errors.{
  Code, success, invalid_descriptor, invalid_phase, not_implemented, no_waiter,
}
use mikanos_m1mac.Descriptor.{
  byte, is_kind, device_kind, configuration_kind, interface_kind, endpoint_kind, device_descriptor,
  configuration_descriptor, interface_descriptor, endpoint_descriptor, InterfaceDescriptor,
  EndpointDescriptor, number, dir_in, transfer_type,
}
use mikanos_m1mac.Endpoint.{
  EndpointConfig, EndpointType, control, isochronous, bulk, interrupt, endpoint_id, ep_number,
  default_control_pipe_id,
}
use mikanos_m1mac.SetupData.{
  SetupData, request_bits, to_device, standard_request, get_descriptor, set_configuration,
}
use mikanos_m1mac.SetupData as Setup
use mikanos_m1mac.Hid as Hid
use mikanos_m1mac.Outcome.{Outcome, returned, out_of_fuel, undefined}

-- `ConfigurationDescriptorReader::Next`, with `p_` as an offset: the descriptor, and the new `p_`.
unfoldable pub next : List ℕ → ℕ → ℕ → Option ℕ × ℕ
next buf len p = let p' = p + byte buf p in (if ltb p' len then some p' else none, p')

-- `Next<T>`: the next descriptor of that kind.
unfoldable pub next_of : ℕ → List ℕ → ℕ → ℕ → ℕ → Outcome (Option ℕ × ℕ)
next_of kind buf len zero p = out_of_fuel
next_of kind buf len (suc fuel) p =
    let rest = next_of kind buf len fuel (next buf len p).1 in
    elim (next buf len p).0 [
      | none ↦ returned (none, (next buf len p).1)
      | some q ↦ if is_kind kind buf q then returned (some q, (next buf len p).1) else rest
    ]

-- `static_cast<EndpointType>` of two bits.
abbrev pub endpoint_type : ℕ → EndpointType
endpoint_type zero = control
endpoint_type (suc zero) = isochronous
endpoint_type (suc (suc zero)) = bulk
endpoint_type (suc (suc (suc _))) = interrupt

unfoldable pub make_ep_config : EndpointDescriptor → EndpointConfig
make_ep_config d = record {
  ep_id = endpoint_id (number d) (dir_in d == 1);
  ep_type = endpoint_type (transfer_type d);
  max_packet_size = d.max_packet_size;
  interval = d.interval;
}

pub data DriverKind : Type 0 where
  keyboard mouse : DriverKind

pub record ClassDriver : Type 0 where
  pub kind : DriverKind
  pub base : Hid.Driver
  pub num_observers : ℕ

pub record Device : Type 0 where
  pub drivers : List ClassDriver
  pub class_drivers : List (Option ℕ)
  pub num_configurations : ℕ
  pub config_index : ℕ
  pub is_initialized : Bool
  pub initialize_phase : ℕ
  pub ep_configs : List EndpointConfig
  pub num_ep_configs : ℕ

-- `NewClassDriver`; the arguments say whether the two `default_observer`s are set.
unfoldable pub new_class_driver : Bool → Bool → InterfaceDescriptor → Option ClassDriver
new_class_driver key_observer mouse_observer d =
    if (d.interface_class == 3) && (d.interface_sub_class == 1)
    then if d.interface_protocol == 1
      then some (record {
        kind = keyboard;
        base = Hid.new d.interface_number 8;
        num_observers = if key_observer then 1 else 0;
      })
      else if d.interface_protocol == 2
      then some (record {
        kind = mouse;
        base = Hid.new d.interface_number 3;
        num_observers = if mouse_observer then 1 else 0;
      })
      else none
    else none

-- An endpoint of the interface that `driver` serves.
abbrev pub add_endpoint : ℕ → EndpointConfig → Device → Device
add_endpoint driver conf dev = record dev {
  ep_configs = set dev.ep_configs dev.num_ep_configs conf;
  num_ep_configs = dev.num_ep_configs + 1;
  class_drivers = set dev.class_drivers (ep_number conf.ep_id) (some driver);
}

-- The loop over the endpoints of the interface.
unfoldable pub read_endpoints : List ℕ → ℕ → ℕ → ℕ → ℕ → ℕ → Device → Outcome Device
read_endpoints buf len driver num_endpoints zero p dev = out_of_fuel
read_endpoints buf len driver num_endpoints (suc fuel) p dev =
    let q = (next buf len p).1 in
    let conf = make_ep_config (endpoint_descriptor buf q) in
    let dev' = if is_kind endpoint_kind buf q then add_endpoint driver conf dev else dev in
    let rest = read_endpoints buf len driver num_endpoints fuel q dev' in
    if ltb dev.num_ep_configs num_endpoints
    then elim (next buf len p).0 [
      | none ↦ undefined
      | some _ ↦
          if is_kind endpoint_kind buf q && leb 16 dev.num_ep_configs then undefined else rest
    ]
    else returned dev

abbrev pub offset_of : Outcome (Option ℕ × ℕ) → ℕ
offset_of (returned (q, p)) = p
offset_of out_of_fuel = 0
offset_of undefined = 0

abbrev pub with_driver : Outcome Device → Outcome (Bool × Device)
with_driver (returned dev) = returned (true, dev)
with_driver out_of_fuel = out_of_fuel
with_driver undefined = undefined

-- A driver for the interface at `q`, when there is one, with the interface's endpoints.
abbrev pub take_interface :
    Option ClassDriver
    → List ℕ
    → ℕ
    → ℕ
    → ℕ
    → ℕ
    → Device
    → Outcome (Bool × Device)
    → Outcome (Bool × Device)
take_interface none buf len fuel q p dev rest = rest
take_interface (some driver) buf len fuel q p dev rest = with_driver (
    read_endpoints buf len (length dev.drivers) (interface_descriptor buf q).num_endpoints fuel p
      (record dev { drivers = dev.drivers ++ driver ∷ []; num_ep_configs = 0 }))

-- What follows the search for an interface.
abbrev pub with_interface :
    Outcome (Option ℕ × ℕ)
    → (InterfaceDescriptor → Option ClassDriver)
    → List ℕ
    → ℕ
    → ℕ
    → Device
    → Outcome (Bool × Device)
    → Outcome (Bool × Device)
with_interface out_of_fuel driver_for buf len fuel dev rest = out_of_fuel
with_interface undefined driver_for buf len fuel dev rest = undefined
with_interface (returned (none, p)) driver_for buf len fuel dev rest = returned (false, dev)
with_interface (returned (some q, p)) driver_for buf len fuel dev rest =
    take_interface (driver_for (interface_descriptor buf q)) buf len fuel q p dev rest

-- The loop over the interfaces, up to the first one with a driver; with whether there was one.
unfoldable pub find_interface : Bool → Bool → List ℕ → ℕ → ℕ → ℕ → Device → Outcome (Bool × Device)
find_interface keys mice buf len zero p dev = out_of_fuel
find_interface keys mice buf len (suc fuel) p dev =
    let found = next_of interface_kind buf len (suc fuel) p in
    let rest = find_interface keys mice buf len fuel (offset_of found) dev in
    with_interface found (new_class_driver keys mice) buf len (suc fuel) dev rest
