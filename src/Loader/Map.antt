-- ===== src/Loader/Map.antt =====
-- MikanLoaderPkg/Main.c: the memory map and the file that it is written to.
use Prim.Native.String.{String}
use mikanos_m1mac.Base.{ℕ, zero, suc, ◌+◌, ◌%◌, ◌^◌, u64, ltb, ◌==◌, if◌then◌else◌}
use mikanos_m1mac.Outcome.{Outcome, returned, out_of_fuel}
use mikanos_m1mac.Loader.Firmware.{
  Firmware, LineArguments, MemoryType, reserved_memory_type, loader_code, loader_data,
  boot_services_code, boot_services_data, runtime_services_code, runtime_services_data,
  conventional_memory, unusable_memory, acpi_reclaim_memory, acpi_memory_nvs, memory_mapped_io,
  memory_mapped_io_port_space, pal_code, persistent_memory, max_memory_type, other_memory_type,
  efi_buffer_too_small,
}

pub record MemoryMap : Type 0 where
  pub buffer_size : ℕ
  pub buffer : ℕ
  pub map_size : ℕ
  pub map_key : ℕ
  pub descriptor_size : ℕ
  pub descriptor_version : ℕ

abbrev pub get_memory_type_unicode : MemoryType → String
get_memory_type_unicode reserved_memory_type = "EfiReservedMemoryType"
get_memory_type_unicode loader_code = "EfiLoaderCode"
get_memory_type_unicode loader_data = "EfiLoaderData"
get_memory_type_unicode boot_services_code = "EfiBootServicesCode"
get_memory_type_unicode boot_services_data = "EfiBootServicesData"
get_memory_type_unicode runtime_services_code = "EfiRuntimeServicesCode"
get_memory_type_unicode runtime_services_data = "EfiRuntimeServicesData"
get_memory_type_unicode conventional_memory = "EfiConventionalMemory"
get_memory_type_unicode unusable_memory = "EfiUnusableMemory"
get_memory_type_unicode acpi_reclaim_memory = "EfiACPIReclaimMemory"
get_memory_type_unicode acpi_memory_nvs = "EfiACPIMemoryNVS"
get_memory_type_unicode memory_mapped_io = "EfiMemoryMappedIO"
get_memory_type_unicode memory_mapped_io_port_space = "EfiMemoryMappedIOPortSpace"
get_memory_type_unicode pal_code = "EfiPalCode"
get_memory_type_unicode persistent_memory = "EfiPersistentMemory"
get_memory_type_unicode max_memory_type = "EfiMaxMemoryType"
get_memory_type_unicode other_memory_type = "InvalidMemoryType"

module _ {ℓ} {F : Type ℓ} (firmware : Firmware F) where
  unfoldable pub get_memory_map : MemoryMap → F → ℕ × MemoryMap × F
  get_memory_map map f =
      let out = firmware.get_memory_map map.buffer_size map.buffer f in
      if map.buffer == 0 then (efi_buffer_too_small, map, f) else (
        out.0.status,
        record map {
          map_size = out.0.map_size;
          map_key = out.0.map_key;
          descriptor_size = out.0.descriptor_size;
          descriptor_version = out.0.descriptor_version;
        },
        out.1,
      )

  -- A line: it is asked of `AsciiPrint`, whose first argument is the format. That is the array `buf`,
  -- and what the file gets is `buf`.
  abbrev pub write_line : ℕ → ℕ → ℕ → ℕ → F → F
  write_line buf i iter file f =
      let desc = firmware.memory_descriptor iter f in
      let arguments : LineArguments = record {
        index = i;
        name = get_memory_type_unicode desc.type;
        descriptor = record desc { attribute = desc.attribute % 2 ^ 20 };
      } in
      let line = firmware.ascii_print buf arguments f in firmware.write_file file line.0 buf line.1

  -- The loop of `SaveMemoryMap` from `iter` on, after `i` rounds.
  unfoldable pub write_descriptors : ℕ → ℕ → ℕ → ℕ → MemoryMap → ℕ → F → Outcome F
  write_descriptors zero buf i iter map file f = out_of_fuel
  write_descriptors (suc fuel) buf i iter map file f =
      let rest =
        write_descriptors fuel buf (i + 1) (u64 (iter + map.descriptor_size)) map file
          (write_line buf i iter file f) in
      if ltb iter (u64 (map.buffer + map.map_size)) then rest else returned f

  -- The header, at its address and of its length, and a line for each descriptor.
  unfoldable pub save_memory_map : ℕ → ℕ → ℕ × ℕ → MemoryMap → ℕ → F → Outcome F
  save_memory_map fuel buf (header, header_length) map file f =
      write_descriptors fuel buf 0 map.buffer map file
        (firmware.print (firmware.write_file file header_length header f))
