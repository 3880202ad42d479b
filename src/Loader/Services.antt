-- ===== src/Loader/Services.antt =====
-- The firmware's services as the loader relies on them.
use mikanos_m1mac.Base.{ℕ, ◌^◌, ◌≤◌, ◌<◌, ◌≡◌, ◌≢◌, ◌*◌, true, false, some}
use mikanos_m1mac.Loader.{calc_load_address_range, num_pages}
use mikanos_m1mac.Loader.Firmware.{
  Firmware, Protocol, BootFile, memmap_file, kernel_file, LineArguments, efi_error,
}
use mikanos_m1mac.Loader.Boot.{PixelFormat, Layout, pixel_format_of, open_root_dir, open_gop}

module _ {ℓ} {F : Type ℓ} (firmware : Firmware F) (layout : Layout) where
  abbrev pub root_at : F → ℕ
  root_at f = (open_root_dir firmware layout.image_handle f).1

  -- `up` says that the boot services are there. They stay so through every call but an
  -- `ExitBootServices` that succeeds.
  pub record StaysUp (up : F → Type 0) : Type ℓ where
    pub print : (f : F) → up f → up (firmware.print f)
    pub ascii_print : (b : ℕ) (a : LineArguments) (f : F) → up f → up (firmware.ascii_print b a f).1
    pub get_memory_map : (n b : ℕ) (f : F) → up f → up (firmware.get_memory_map n b f).1
    pub open_protocol : (p : Protocol) (h : ℕ) (f : F) → up f → up (firmware.open_protocol p h f).1
    pub open_volume : (fs : ℕ) (f : F) → up f → up (firmware.open_volume fs f).1
    pub locate_graphics : (f : F) → up f → up (firmware.locate_graphics f).1
    pub open_file : (r : ℕ) (n : BootFile) (f : F) → up f → up (firmware.open_file r n f).2
    pub write_file : (h n b : ℕ) (f : F) → up f → up (firmware.write_file h n b f)
    pub close_file : (h : ℕ) (f : F) → up f → up (firmware.close_file h f).1
    pub get_file_size : (h n : ℕ) (f : F) → up f → up (firmware.get_file_size h n f).2
    pub read_file : (h n b : ℕ) (f : F) → up f → up (firmware.read_file h n b f).1
    pub allocate_pool : (n : ℕ) (f : F) → up f → up (firmware.allocate_pool n f).2
    pub free_pool : (p : ℕ) (f : F) → up f → up (firmware.free_pool p f).1
    pub allocate_pages : (n p : ℕ) (f : F) → up f → up (firmware.allocate_pages n p f).1
    pub copy_mem : (d s n : ℕ) (f : F) → up f → up (firmware.memory.copy_mem d s n f)
    pub set_mem : (d n v : ℕ) (f : F) → up f → up (firmware.memory.set_mem d n v f)
    pub refused :
        (key : ℕ) (f : F)
        → up f
        → efi_error (firmware.exit_boot_services layout.image_handle key f).0 ≡ true
        → up (firmware.exit_boot_services layout.image_handle key f).1

  -- While the boot services are there, those that the loader calls succeed on the handles and buffers
  -- that they have given: the volume holds both files, there is memory for the kernel's file, and the
  -- pages of its segments are free. The memory map fits the loader's buffer of 16384 bytes, and its
  -- descriptors have a size; `ExitBootServices` takes the key of a map that has just been given, and
  -- may refuse an older one. There is a screen, in a format that the kernel knows.
  pub record IsWorking (up : F → Type 0) : Type ℓ where
    pub stays : StaysUp up
    pub map_given :
        (f : F)
        → up f
        → let r = (firmware.get_memory_map (4096 * 4) layout.memmap_buf f).0 in
          (efi_error r.status ≡ false)
          × (r.map_size ≤ 4096 * 4)
          × (0 < r.descriptor_size)
          × (r.descriptor_size < 2 ^ 32)
    pub exited :
        (f : F)
        → up f
        → let r = firmware.get_memory_map (4096 * 4) layout.memmap_buf f in
          efi_error (firmware.exit_boot_services layout.image_handle r.0.map_key r.1).0 ≡ false
    pub opened :
        (file : BootFile) (f0 f : F)
        → up f
        → efi_error (firmware.open_file (root_at f0) file f).0 ≡ false
    pub closed :
        (f0 f1 f : F)
        → up f
        → efi_error (firmware.close_file (firmware.open_file (root_at f0) memmap_file f1).1 f).0
          ≡ false
    pub sized :
        (f0 f1 f : F)
        → up f
        → efi_error
            (firmware.get_file_size
              (firmware.open_file (root_at f0) kernel_file f1).1
              layout.file_info_size
              f).0
          ≡ false
    pub pooled :
        (file : ℕ) (f0 f : F)
        → up f
        → efi_error
            (firmware.allocate_pool (firmware.get_file_size file layout.file_info_size f0).1 f).0
          ≡ false
    pub readable :
        (size : ℕ) (f0 f1 f2 f : F)
        → up f
        → efi_error
            (firmware.read_file
              (firmware.open_file (root_at f0) kernel_file f1).1
              size
              (firmware.allocate_pool size f2).1
              f).0
          ≡ false
    pub paged :
        (buffer : ℕ) (f : F)
        → up f
        → let range = calc_load_address_range (firmware.program_headers buffer f) in
          efi_error (firmware.allocate_pages (num_pages range) range.0 f).0 ≡ false
    pub freed :
        (size : ℕ) (f0 f : F)
        → up f
        → efi_error (firmware.free_pool (firmware.allocate_pool size f0).1 f).0 ≡ false
    pub screen : (f : F) → up f → (firmware.locate_graphics f).0 ≢ 0
    pub known :
        (status gop key : ℕ) (f0 f1 f : F)
        → open_gop firmware f0 ≡ some (status, gop, f1)
        → up f
        → let exit = firmware.exit_boot_services layout.image_handle key f in
          efi_error exit.0 ≡ false
          → (format : PixelFormat) × (pixel_format_of
                (firmware.graphics_mode gop exit.1).pixel_format
              ≡ some format)
