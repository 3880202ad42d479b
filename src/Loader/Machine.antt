-- ===== src/Loader/Machine.antt =====
-- Firmware whose state is the key of its memory map: an allocation makes a new key, and
-- `ExitBootServices` takes only the present one.
use mikanos_m1mac.Base.{ℕ, ◌+◌, ◌^◌, ◌≡◌, refl, ltb, ◌==◌, if◌then◌else◌, [], ◌∷◌}
use mikanos_m1mac.Loader.{calc_load_address_range, copy_segment, copy_load_segments}
use mikanos_m1mac.Loader.Firmware.{
  Firmware, efi_buffer_too_small, conventional_memory, blue_green_red_8,
}
use mikanos_m1mac.Loader.Map.{get_memory_map, save_memory_map, write_descriptors}
use mikanos_m1mac.Loader.Boot.{
  Layout, pixel_bgr_resv_8, entered, check, open_root_dir, open_gop, jump, enter_kernel, exit_again,
  leave_firmware, place_kernel, read_kernel, with_saved, write_memory_map, with_gop, uefi_main,
}
use mikanos_m1mac.Loader.Handover.{Enters, HandedOver, uefi_main-Enters}

abbrev invalid : ℕ
invalid = 2 ^ 63 + 2

abbrev firmware : Firmware ℕ
firmware = record {
  print = λ f. f;
  memory_descriptor = λ _ _. record {
    type = conventional_memory;
    physical_start = 0;
    number_of_pages = 1;
    attribute = 0;
  };
  ascii_print = λ _ _ f. (0, f);
  get_memory_map = λ n _ f. (
    record {
      status = if ltb n 96 then efi_buffer_too_small else 0;
      map_size = 96;
      map_key = f;
      descriptor_size = 48;
      descriptor_version = 1;
    },
    f,
  );
  open_protocol = λ _ _ f. (1, f);
  device_handle = λ _ _. 1;
  open_volume = λ _ f. (1, f);
  locate_graphics = λ f. (0x500, f);
  graphics_mode = λ _ _. record {
    frame_buffer_base = 0x80000000;
    pixels_per_scan_line = 800;
    horizontal_resolution = 800;
    vertical_resolution = 600;
    pixel_format = blue_green_red_8;
  };
  open_file = λ _ _ f. (0, 1, f);
  write_file = λ _ _ _ f. f;
  close_file = λ _ f. (0, f);
  get_file_size = λ _ _ f. (0, 0x4000, f);
  read_file = λ _ _ _ f. (0, f);
  allocate_pool = λ _ f. (0, 0x600, f + 1);
  free_pool = λ _ f. (0, f);
  allocate_pages = λ _ _ f. (0, f + 1);
  exit_boot_services = λ _ key f. (if key == f then 0 else invalid, f);
  memory = record { copy_mem = λ _ _ _ f. f; set_mem = λ _ _ _ f. f };
  load64 = λ a _. if a == 0x101018 then 0x101120 else 0;
  program_headers = λ _ _.
      record { p_type = 1; p_offset = 0; p_vaddr = 0x101000; p_filesz = 0x1b9; p_memsz = 0x1b9 }
      ∷ [];
}

abbrev layout : Layout
layout = record {
  image_handle = 1;
  memmap_buf = 0x7000;
  line_buf = 0xb000;
  header = (0xc000, 66);
  file_info_size = 104;
}

-- The boot services are always there, since `ExitBootServices` is the last call.
abbrev Always : ℕ → Type 0
Always f = Unit

uefi_main-Enters_example : Enters (HandedOver firmware layout) (uefi_main firmware 16385 layout 7)
uefi_main-Enters_example = uefi_main-Enters firmware layout 16385 7

-- The first key is stale, after two allocations, and the second is taken.
kernel_entered :
    uefi_main firmware 5 layout 7
    ≡ entered 0x101120
        (record {
          frame_buffer = 0x80000000;
          pixels_per_scan_line = 800;
          horizontal_resolution = 800;
          vertical_resolution = 600;
          pixel_format = pixel_bgr_resv_8;
        })
        9
unfolding uefi_main check get_memory_map open_root_dir write_memory_map save_memory_map
    write_descriptors with_saved open_gop with_gop read_kernel place_kernel calc_load_address_range
    copy_load_segments copy_segment leave_firmware exit_again enter_kernel jump
kernel_entered = refl
