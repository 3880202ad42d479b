-- ===== src/Descriptor.antt =====
-- kernel/usb/descriptor.hpp: descriptors in a buffer of bytes, each at an offset.
use mikanos_m1mac.Base.{
  ℕ, Bool, ◌+◌, ◌*◌, ◌^◌, leb, ◌==◌, if◌then◌else◌, Option, none, some, List, get_or, field,
}

abbrev pub byte : List ℕ → ℕ → ℕ
byte buf p = get_or buf p 0

-- A little-endian `uint16_t`.
abbrev pub half : List ℕ → ℕ → ℕ
half buf p = byte buf p + byte buf (p + 1) * 2 ^ 8

pub record DeviceDescriptor : Type 0 where
  pub usb_release : ℕ
  pub device_class : ℕ
  pub device_sub_class : ℕ
  pub device_protocol : ℕ
  pub max_packet_size : ℕ
  pub vendor_id : ℕ
  pub product_id : ℕ
  pub device_release : ℕ
  pub manufacturer : ℕ
  pub product : ℕ
  pub serial_number : ℕ
  pub num_configurations : ℕ

abbrev pub device_kind : ℕ
device_kind = 1

abbrev pub device_descriptor : List ℕ → ℕ → DeviceDescriptor
device_descriptor buf p = record {
  usb_release = half buf (p + 2);
  device_class = byte buf (p + 4);
  device_sub_class = byte buf (p + 5);
  device_protocol = byte buf (p + 6);
  max_packet_size = byte buf (p + 7);
  vendor_id = half buf (p + 8);
  product_id = half buf (p + 10);
  device_release = half buf (p + 12);
  manufacturer = byte buf (p + 14);
  product = byte buf (p + 15);
  serial_number = byte buf (p + 16);
  num_configurations = byte buf (p + 17);
}

pub record ConfigurationDescriptor : Type 0 where
  pub total_length : ℕ
  pub num_interfaces : ℕ
  pub configuration_value : ℕ
  pub configuration_id : ℕ
  pub attributes : ℕ
  pub max_power : ℕ

abbrev pub configuration_kind : ℕ
configuration_kind = 2

abbrev pub configuration_descriptor : List ℕ → ℕ → ConfigurationDescriptor
configuration_descriptor buf p = record {
  total_length = half buf (p + 2);
  num_interfaces = byte buf (p + 4);
  configuration_value = byte buf (p + 5);
  configuration_id = byte buf (p + 6);
  attributes = byte buf (p + 7);
  max_power = byte buf (p + 8);
}

pub record InterfaceDescriptor : Type 0 where
  pub interface_number : ℕ
  pub alternate_setting : ℕ
  pub num_endpoints : ℕ
  pub interface_class : ℕ
  pub interface_sub_class : ℕ
  pub interface_protocol : ℕ
  pub interface_id : ℕ

abbrev pub interface_kind : ℕ
interface_kind = 4

abbrev pub interface_descriptor : List ℕ → ℕ → InterfaceDescriptor
interface_descriptor buf p = record {
  interface_number = byte buf (p + 2);
  alternate_setting = byte buf (p + 3);
  num_endpoints = byte buf (p + 4);
  interface_class = byte buf (p + 5);
  interface_sub_class = byte buf (p + 6);
  interface_protocol = byte buf (p + 7);
  interface_id = byte buf (p + 8);
}

pub record EndpointDescriptor : Type 0 where
  pub endpoint_address : ℕ
  pub attributes : ℕ
  pub max_packet_size : ℕ
  pub interval : ℕ

abbrev pub endpoint_kind : ℕ
endpoint_kind = 5

abbrev pub endpoint_descriptor : List ℕ → ℕ → EndpointDescriptor
endpoint_descriptor buf p = record {
  endpoint_address = byte buf (p + 2);
  attributes = byte buf (p + 3);
  max_packet_size = half buf (p + 4);
  interval = byte buf (p + 6);
}

-- The bit fields of `endpoint_address` and `attributes`.
abbrev pub number : EndpointDescriptor → ℕ
number d = field 0 4 d.endpoint_address

abbrev pub dir_in : EndpointDescriptor → ℕ
dir_in d = field 7 1 d.endpoint_address

abbrev pub transfer_type : EndpointDescriptor → ℕ
transfer_type d = field 0 2 d.attributes

pub record HidDescriptor : Type 0 where
  pub hid_release : ℕ
  pub country_code : ℕ
  pub num_descriptors : ℕ

abbrev pub hid_kind : ℕ
hid_kind = 33

abbrev pub hid_descriptor : List ℕ → ℕ → HidDescriptor
hid_descriptor buf p = record {
  hid_release = half buf (p + 2);
  country_code = byte buf (p + 4);
  num_descriptors = byte buf (p + 5);
}

-- `GetClassDescriptor`: the offset of an entry behind the six bytes of the struct, three each.
abbrev pub get_class_descriptor : List ℕ → ℕ → ℕ → Option ℕ
get_class_descriptor buf p index =
    if leb (hid_descriptor buf p).num_descriptors index then none else some (p + 6 + 3 * index)

-- `DescriptorDynamicCast`, whose result is null or its argument.
abbrev pub is_kind : ℕ → List ℕ → ℕ → Bool
is_kind kind buf p = byte buf (p + 1) == kind
