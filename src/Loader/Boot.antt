-- ===== src/Loader/Boot.antt =====
-- `UefiMain` of MikanLoaderPkg/Main.c, its parts in order.
use Prim.Native.String.{String}
use mikanos_m1mac.Base.{ℕ, ◌+◌, ◌*◌, ◌==◌, u64, if◌then◌else◌, Option, none, some}
use mikanos_m1mac.Outcome.{Outcome, returned, out_of_fuel, undefined}
use mikanos_m1mac.Loader.{calc_load_address_range, num_pages, copy_load_segments}
use mikanos_m1mac.Loader.Firmware.{
  Firmware, loaded_image, simple_file_system, graphics_output, memmap_file, kernel_file,
  GraphicsMode, GraphicsPixelFormat, red_green_blue_8, blue_green_red_8, bit_mask, blt_only,
  format_max, other_format, efi_success, efi_error,
}
use mikanos_m1mac.Loader.Map.{MemoryMap, get_memory_map, save_memory_map}

-- frame_buffer_config.hpp
pub data PixelFormat : Type 0 where
  pixel_rgb_resv_8 pixel_bgr_resv_8 : PixelFormat

pub record FrameBufferConfig : Type 0 where
  pub frame_buffer : ℕ
  pub pixels_per_scan_line : ℕ
  pub horizontal_resolution : ℕ
  pub vertical_resolution : ℕ
  pub pixel_format : PixelFormat

-- How it ends: in `Halt` or another loop without end; in the kernel, at an address and with its
-- argument; without end in a loop that runs on fuel; or by what is undefined.
pub data Boot {ℓ} (F : Type ℓ) : Type ℓ where
  halted : F → Boot F
  entered : ℕ → FrameBufferConfig → F → Boot F
  unfinished : Boot F
  fault : Boot F

-- Where the loader's variables are, and the sizes of the firmware's structures.
pub record Layout : Type 0 where
  pub image_handle : ℕ
  pub memmap_buf : ℕ
  pub line_buf : ℕ
  pub header : ℕ × ℕ
  pub file_info_size : ℕ

abbrev pub pixel_format_of : GraphicsPixelFormat → Option PixelFormat
pixel_format_of red_green_blue_8 = some pixel_rgb_resv_8
pixel_format_of blue_green_red_8 = some pixel_bgr_resv_8
pixel_format_of _ = none

abbrev pub get_pixel_format_unicode : GraphicsPixelFormat → String
get_pixel_format_unicode red_green_blue_8 = "PIxelRedGreenBlueReserved8BItPerColor"
get_pixel_format_unicode blue_green_red_8 = "PixelBlueGreenRedReserved8BitPerColor"
get_pixel_format_unicode bit_mask = "PixelBitMask"
get_pixel_format_unicode blt_only = "PIxelBltOnly"
get_pixel_format_unicode format_max = "PixelFormatMax"
get_pixel_format_unicode other_format = "InvalidPixelFormat"

module _ {ℓ} {F : Type ℓ} (firmware : Firmware F) where
  -- `if (EFI_ERROR(status)) { Print(...); Halt(); }`
  unfoldable pub check : ℕ → F → (F → Boot F) → Boot F
  check status f next = if efi_error status then halted (firmware.print f) else next f

  -- The statuses of the three calls are not looked at.
  unfoldable pub open_root_dir : ℕ → F → ℕ × ℕ × F
  open_root_dir image_handle f =
      let image = firmware.open_protocol loaded_image image_handle f in
      let fs =
        firmware.open_protocol simple_file_system (firmware.device_handle image.0 image.1)
          image.1 in
      let root = firmware.open_volume fs.0 fs.1 in (efi_success, root.0, root.1)

  -- `gop_handles[0]`, when there is an array.
  unfoldable pub open_gop : F → Option (ℕ × ℕ × F)
  open_gop f =
      let handles = firmware.locate_graphics f in
      let gop =
        firmware.open_protocol graphics_output (firmware.load64 handles.0 handles.1) handles.1 in
      if handles.0 == 0
      then none
      else some (efi_success, gop.0, (firmware.free_pool handles.0 gop.1).1)

  -- The jump, when the format is one that the kernel knows.
  unfoldable pub jump : Option PixelFormat → ℕ → GraphicsMode → F → Boot F
  jump none entry_addr mode f = halted (firmware.print f)
  jump (some format) entry_addr mode f =
      entered entry_addr
        (record {
          frame_buffer = mode.frame_buffer_base;
          pixels_per_scan_line = mode.pixels_per_scan_line;
          horizontal_resolution = mode.horizontal_resolution;
          vertical_resolution = mode.vertical_resolution;
          pixel_format = format;
        })
        f

  unfoldable pub enter_kernel : ℕ → ℕ → F → Boot F
  enter_kernel first gop f =
      let mode = firmware.graphics_mode gop f in
      jump (pixel_format_of mode.pixel_format) (firmware.load64 (u64 (first + 24)) f) mode f

  -- After `ExitBootServices` has failed: once more, with a new map. The message about the map, unlike
  -- the others, does not halt.
  unfoldable pub exit_again : Layout → MemoryMap → F → (F → Boot F) → Boot F
  exit_again layout map f next =
      let again = get_memory_map firmware map f in
      let warned = if efi_error again.0 then firmware.print again.2 else again.2 in
      let exit = firmware.exit_boot_services layout.image_handle again.1.map_key warned in
      check exit.0 exit.1 next

  unfoldable pub leave_firmware : Layout → MemoryMap → F → (F → Boot F) → Boot F
  leave_firmware layout map f next =
      let exit = firmware.exit_boot_services layout.image_handle map.map_key f in
      let again = exit_again layout map exit.1 next in
      if efi_error exit.0 then again else next exit.1

  -- The pages for the kernel's segments, and the segments.
  unfoldable pub place_kernel : ℕ → F → (ℕ → F → Boot F) → Boot F
  place_kernel kernel_buffer f next =
      let headers = firmware.program_headers kernel_buffer f in
      let range = calc_load_address_range headers in
      let pages = firmware.allocate_pages (num_pages range) range.0 f in
      check pages.0 pages.1 λ f.
        let copied = firmware.print (copy_load_segments firmware.memory kernel_buffer headers f) in
        let freed = firmware.free_pool kernel_buffer copied in check freed.0 freed.1 (next range.0)

  -- The file into a buffer of its size.
  unfoldable pub read_kernel : Layout → ℕ → F → (ℕ → F → Boot F) → Boot F
  read_kernel layout root f next =
      let (status, file, f) = firmware.open_file root kernel_file f in
      check status f λ f.
        let (status, size, f) = firmware.get_file_size file layout.file_info_size f in
        check status f λ f.
          let (status, buffer, f) = firmware.allocate_pool size f in
          check status f λ f.
            let (status, f) = firmware.read_file file size buffer f in check status f (next buffer)

  unfoldable pub with_saved : Outcome F → ℕ → (F → Boot F) → Boot F
  with_saved (returned f) file next =
      let (status, f) = firmware.close_file file f in check status f next
  with_saved out_of_fuel file next = unfinished
  with_saved undefined file next = fault

  unfoldable pub write_memory_map : ℕ → Layout → MemoryMap → ℕ → F → (F → Boot F) → Boot F
  write_memory_map fuel layout map root f next =
      let (status, file, f) = firmware.open_file root memmap_file f in
      check status f λ f.
        with_saved (save_memory_map firmware fuel layout.line_buf layout.header map file f) file
          next

  unfoldable pub with_gop : Option (ℕ × ℕ × F) → (ℕ → F → Boot F) → Boot F
  with_gop none next = fault
  with_gop (some (status, gop, f)) next = check status f (next gop)

  unfoldable pub uefi_main : ℕ → Layout → F → Boot F
  uefi_main fuel layout f =
      let memmap : MemoryMap = record {
        buffer_size = 4096 * 4;
        buffer = layout.memmap_buf;
        map_size = 0;
        map_key = 0;
        descriptor_size = 0;
        descriptor_version = 0;
      } in
      let (status, map, f) = get_memory_map firmware memmap (firmware.print f) in
      check status f λ f.
        let (status, root, f) = open_root_dir layout.image_handle f in
        check status f λ f. write_memory_map fuel layout map root f λ f.
          with_gop (open_gop f) λ gop f.
            read_kernel layout root (firmware.print (firmware.print f)) λ buffer f.
              place_kernel buffer f λ first f. leave_firmware layout map f (enter_kernel first gop)
