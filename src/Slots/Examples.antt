-- ===== src/Slots/Examples.antt =====
-- A manager of two slots, with a device in slot 2.
use mikanos_m1mac.Base.{ℕ, replicate, refl, some, none, [], ◌∷◌, ◌==◌, if◌then◌else◌}
use mikanos_m1mac.Slots.{
  Device, DeviceManager, blank, alloc_device, find_by_port, initialize, with_devices, with_contexts,
  load_dcbaa,
}
use mikanos_m1mac.Memory.{alloc_array, alloc_mem, place, align, ceil, skip_boundary}
use mikanos_m1mac.Slots.Tables.{
  IsTable, Reached, booted, stepped, allocated, loaded, Reached-IsTable,
}
use mikanos_m1mac.Slots.Laws.{Found, find_by_port-Found, Allocated, alloc_device-Allocated}

abbrev second : Device
second = record { address = 0x2000; slot_id = 2; state = blank }

abbrev manager : DeviceManager
manager = record {
  device_context_pointers = 0 ∷ 0 ∷ 0 ∷ [];
  max_slots = 2;
  devices = none ∷ none ∷ some second ∷ [];
}

-- The device at the address 0x2000 is at port 7.
abbrev port_of : ℕ → ℕ
port_of p = if p == 0x2000 then 7 else 0

find_by_port-Found_example :
    Found (λ dev. port_of dev.address == 7) 1 2 manager.devices (find_by_port port_of 7 manager)
find_by_port-Found_example = find_by_port-Found port_of 7 manager

alloc_device-Allocated_example :
    Allocated 0x10_0000 640 blank 1 manager 0x10_0000
      (alloc_device 0x10_0000 640 blank 1 manager 0x10_0000)
alloc_device-Allocated_example = alloc_device-Allocated 0x10_0000 640 blank 1 manager 0x10_0000 refl

-- A manager of eight slots with a device in slot 1, whose context is loaded.
abbrev served : DeviceManager
served = record {
  device_context_pointers = 0 ∷ 0x10_0100 ∷ replicate 7 0;
  max_slots = 8;
  devices =
      none ∷ some (record { address = 0x10_0100; slot_id = 1; state = blank }) ∷ replicate 7 none;
}

abbrev nothing : DeviceManager
nothing = record { device_context_pointers = []; max_slots = 0; devices = [] }

abbrev empty : DeviceManager
empty = record {
  device_context_pointers = replicate 9 0;
  max_slots = 8;
  devices = replicate 9 none;
}

empty_reached : Reached 0x10_0000 empty
unfolding initialize with_devices with_contexts alloc_array alloc_mem place align ceil skip_boundary
empty_reached = booted nothing 8 0x10_0000 0x10_00c8 refl

abbrev allocated_first : DeviceManager
allocated_first = record empty { devices = served.devices }

allocated_reached : Reached 0x10_0000 allocated_first
unfolding alloc_device alloc_array alloc_mem place align ceil skip_boundary
allocated_reached = stepped empty_reached (allocated 640 blank 1 0x10_00c8 0x10_0380 refl)

served_reached : Reached 0x10_0000 served
unfolding load_dcbaa
served_reached = stepped allocated_reached (loaded 0 1 refl)

Reached-IsTable_example : IsTable served
Reached-IsTable_example = Reached-IsTable 0x10_0000 served_reached
