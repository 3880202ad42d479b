-- ===== src/Loader/Firmware.antt =====
-- What the boot loader calls of the UEFI firmware: the services with a state `F` of the firmware's,
-- the memory included. A status is the word that a service returns. The names of the firmware's own
-- constants stand for them.
use Prim.Native.String.{String}
use mikanos_m1mac.Base.{ℕ, ◌+◌, ◌^◌, leb, Bool, List}
use mikanos_m1mac.Loader.{MemoryLibrary, Elf64Phdr}

-- `EFI_SUCCESS`, `EFI_BUFFER_TOO_SMALL`, and `EFI_ERROR`: the highest bit.
abbrev pub efi_success : ℕ
efi_success = 0

abbrev pub efi_buffer_too_small : ℕ
efi_buffer_too_small = 2 ^ 63 + 5

abbrev pub efi_error : ℕ → Bool
efi_error status = leb (2 ^ 63) status

pub data Protocol : Type 0 where
  loaded_image simple_file_system graphics_output : Protocol

-- The two files, with the modes in which they are opened.
pub data BootFile : Type 0 where
  memmap_file kernel_file : BootFile

pub data MemoryType : Type 0 where
  reserved_memory_type loader_code loader_data boot_services_code boot_services_data : MemoryType
  runtime_services_code runtime_services_data conventional_memory unusable_memory : MemoryType
  acpi_reclaim_memory acpi_memory_nvs memory_mapped_io memory_mapped_io_port_space : MemoryType
  pal_code persistent_memory max_memory_type other_memory_type : MemoryType

pub data GraphicsPixelFormat : Type 0 where
  red_green_blue_8 blue_green_red_8 bit_mask blt_only format_max other_format : GraphicsPixelFormat

-- `EFI_MEMORY_DESCRIPTOR`, what the loader reads of it; and its line's arguments: the number, the name
-- of the type, and the descriptor.
pub record MemoryDescriptor : Type 0 where
  pub type : MemoryType
  pub physical_start : ℕ
  pub number_of_pages : ℕ
  pub attribute : ℕ

pub record LineArguments : Type 0 where
  pub index : ℕ
  pub name : String
  pub descriptor : MemoryDescriptor

-- What `GetMemoryMap` leaves in the variables that it is given.
pub record MapReply : Type 0 where
  pub status : ℕ
  pub map_size : ℕ
  pub map_key : ℕ
  pub descriptor_size : ℕ
  pub descriptor_version : ℕ

-- `gop->Mode`, with its `Info`.
pub record GraphicsMode : Type 0 where
  pub frame_buffer_base : ℕ
  pub pixels_per_scan_line : ℕ
  pub horizontal_resolution : ℕ
  pub vertical_resolution : ℕ
  pub pixel_format : GraphicsPixelFormat

pub record Firmware {ℓ} (F : Type ℓ) : Type ℓ where
  -- `Print`, whatever its text.
  pub print : F → F
  pub memory_descriptor : ℕ → F → MemoryDescriptor
  -- `AsciiPrint` with the format at an address, and arguments: how many characters it has printed.
  pub ascii_print : ℕ → LineArguments → F → ℕ × F
  -- The size and the address of the buffer.
  pub get_memory_map : ℕ → ℕ → F → MapReply × F
  pub open_protocol : Protocol → ℕ → F → ℕ × F
  pub device_handle : ℕ → F → ℕ
  pub open_volume : ℕ → F → ℕ × F
  pub locate_graphics : F → ℕ × F
  pub graphics_mode : ℕ → F → GraphicsMode
  pub open_file : ℕ → BootFile → F → ℕ × ℕ × F
  -- The file, the length and the address of what is written.
  pub write_file : ℕ → ℕ → ℕ → F → F
  pub close_file : ℕ → F → ℕ × F
  -- The size of the buffer for the information; the size of the file.
  pub get_file_size : ℕ → ℕ → F → ℕ × ℕ × F
  pub read_file : ℕ → ℕ → ℕ → F → ℕ × F
  pub allocate_pool : ℕ → F → ℕ × ℕ × F
  pub free_pool : ℕ → F → ℕ × F
  -- Pages at an address.
  pub allocate_pages : ℕ → ℕ → F → ℕ × F
  pub exit_boot_services : ℕ → ℕ → F → ℕ × F
  pub memory : MemoryLibrary F
  pub load64 : ℕ → F → ℕ
  -- The program headers of the file at an address.
  pub program_headers : ℕ → F → List Elf64Phdr
