-- ===== src/Loader/Handover.antt =====
-- The state in which the kernel is entered.
use mikanos_m1mac.Base.{
  ℕ, ◌+◌, ◌≡◌, ◌⊎◌, refl, u64, true, false, Bool-cases, Option, none, some, inl, inr, if◌then◌else◌,
}
use mikanos_m1mac.Outcome.{Outcome, returned, out_of_fuel, undefined}
use mikanos_m1mac.Loader.Firmware.{Firmware, efi_error}
use mikanos_m1mac.Loader.{calc_load_address_range, num_pages, copy_load_segments}
use mikanos_m1mac.Loader.Map.{MemoryMap, get_memory_map}
use mikanos_m1mac.Loader.Boot.{
  PixelFormat, FrameBufferConfig, Boot, jump, open_gop, with_gop, with_saved, halted, entered,
  unfinished, fault, Layout, pixel_format_of, check, enter_kernel, exit_again, leave_firmware,
  place_kernel, read_kernel, write_memory_map, uefi_main,
}

-- What holds when the kernel is entered, if it is.
abbrev pub Enters {ℓ κ} : {F : Type ℓ} → (ℕ → FrameBufferConfig → F → Type κ) → Boot F → Type κ
Enters P (halted f) = Unit
Enters P (entered a c f) = P a c f
Enters P unfinished = Unit
Enters P fault = Unit

module _ {ℓ} {F : Type ℓ} (firmware : Firmware F) (layout : Layout) where
  -- The file has been read into a buffer from the pool, and the state is the one behind that.
  abbrev pub WasRead : ℕ → F → Type ℓ
  WasRead buffer f =
      (file : ℕ) × (size : ℕ) × (before : F) × let pool = firmware.allocate_pool size before in
        let read = firmware.read_file file size buffer pool.2 in
        (efi_error pool.0 ≡ false) × (buffer ≡ pool.1) × (efi_error read.0 ≡ false) × (f ≡ read.1)

  -- The pages from `first` on were given, for the program headers of such a file; its segments have
  -- been copied, and the buffer has been freed.
  abbrev pub WasPlaced : ℕ → F → Type ℓ
  WasPlaced first f =
      (buffer : ℕ) × (before : F) × WasRead buffer before
      × let headers = firmware.program_headers buffer before in
        let range = calc_load_address_range headers in
        let pages = firmware.allocate_pages (num_pages range) range.0 before in
        let copied = firmware.print (copy_load_segments firmware.memory buffer headers pages.1) in
        (efi_error pages.0 ≡ false) × (first ≡ range.0) × (f ≡ (firmware.free_pool buffer copied).1)

  -- The graphics output protocol that `OpenGOP` has found.
  abbrev pub WasOpened : ℕ → Type ℓ
  WasOpened gop =
      (before : F) × (status : ℕ) × (after : F) × (open_gop firmware before
        ≡ some (status, gop, after))

  -- The call of `ExitBootServices` with that key and in the state `before` comes first after `f`, or
  -- after a call that has failed and a new memory map, whose key it is.
  abbrev pub Leaves : F → ℕ → F → Type ℓ
  Leaves f key before =
      (before ≡ f)
      ⊎ ((map : MemoryMap) × let stale =
              firmware.exit_boot_services layout.image_handle map.map_key f in
            let again = get_memory_map firmware map stale.1 in
            (efi_error stale.0 ≡ true)
            × (key ≡ again.1.map_key)
            × (before ≡ (if efi_error again.0 then firmware.print again.2 else again.2)))

  -- `ExitBootServices` has just succeeded, after the kernel was placed, and nothing has been called
  -- since; the address is the word at byte 24 of the place, and the argument describes the screen of
  -- the protocol as it is now.
  abbrev pub HandedOver : ℕ → FrameBufferConfig → F → Type ℓ
  HandedOver a c f =
      (first : ℕ) × (placed : F) × WasPlaced first placed
      × (gop : ℕ) × WasOpened gop
      × (key : ℕ) × (before : F) × Leaves placed key before
      × let exit = firmware.exit_boot_services layout.image_handle key before in
        let mode = firmware.graphics_mode gop f in
        (efi_error exit.0 ≡ false)
        × (exit.1 ≡ f)
        × (a ≡ firmware.load64 (u64 (first + 24)) f)
        × (c.frame_buffer ≡ mode.frame_buffer_base)
        × (c.pixels_per_scan_line ≡ mode.pixels_per_scan_line)
        × (c.horizontal_resolution ≡ mode.horizontal_resolution)
        × (c.vertical_resolution ≡ mode.vertical_resolution)
        × (pixel_format_of mode.pixel_format ≡ some c.pixel_format)

  check-Enters :
      (status : ℕ) (f : F) (next : F → Boot F)
      → (efi_error status ≡ false → Enters HandedOver (next f))
      → Enters HandedOver (check firmware status f next)
  unfolding check
  check-Enters status f next h = elim (Bool-cases (efi_error status)) [
    | inl bad ↦ rw bad tt
    | inr good ↦ rw good (h good)
  ]

  jump-Enters :
      (o : Option PixelFormat) (first gop key : ℕ) (placed before : F)
      → WasPlaced first placed
      → WasOpened gop
      → Leaves placed key before
      → let exit = firmware.exit_boot_services layout.image_handle key before in
        let mode = firmware.graphics_mode gop exit.1 in
        efi_error exit.0 ≡ false
        → pixel_format_of mode.pixel_format ≡ o
        → Enters HandedOver
            (jump firmware o (firmware.load64 (u64 (first + 24)) exit.1) mode exit.1)
  unfolding jump
  jump-Enters none first gop key placed before p g l good e = tt
  jump-Enters (some format) first gop key placed before p g l good e =
      (first, placed, p, gop, g, key, before, l, (good, refl, refl, refl, refl, refl, refl, e))

  leave_firmware-Enters :
      (map : MemoryMap) (first gop : ℕ) (f : F)
      → WasPlaced first f
      → WasOpened gop
      → Enters HandedOver (leave_firmware firmware layout map f (enter_kernel firmware first gop))
  unfolding leave_firmware exit_again enter_kernel
  leave_firmware-Enters map first gop f p g =
      elim (Bool-cases
        (efi_error (firmware.exit_boot_services layout.image_handle map.map_key f).0)) [
          | inl stale ↦ rw stale (
              check-Enters _ _ _ (λ good.
                jump-Enters _ first gop _ f _ p g (inr (map, (stale, refl, refl))) good refl))
          | inr good ↦ rw good (jump-Enters _ first gop map.map_key f f p g (inl refl) good refl)
        ]

  place_kernel-Enters :
      (buffer : ℕ) (f : F) (next : ℕ → F → Boot F)
      → WasRead buffer f
      → ((first : ℕ) (f' : F) → WasPlaced first f' → Enters HandedOver (next first f'))
      → Enters HandedOver (place_kernel firmware buffer f next)
  unfolding place_kernel
  place_kernel-Enters buffer f next r h =
      check-Enters _ _ _
        (λ given. check-Enters _ _ _ (λ _. h _ _ (buffer, f, r, (given, refl, refl))))

  read_kernel-Enters :
      (root : ℕ) (f : F) (next : ℕ → F → Boot F)
      → ((buffer : ℕ) (f' : F) → WasRead buffer f' → Enters HandedOver (next buffer f'))
      → Enters HandedOver (read_kernel firmware layout root f next)
  unfolding read_kernel
  read_kernel-Enters root f next h = check-Enters _ _ _ (λ _. check-Enters _ _ _ (λ _.
      check-Enters _ _ _
        (λ pooled. check-Enters _ _ _ (λ good. h _ _ (_, _, _, (pooled, refl, good, refl))))))

  with_gop-Enters :
      (o : Option (ℕ × ℕ × F)) (f : F) (next : ℕ → F → Boot F)
      → open_gop firmware f ≡ o
      → ((gop : ℕ) (f' : F) → WasOpened gop → Enters HandedOver (next gop f'))
      → Enters HandedOver (with_gop firmware o next)
  unfolding with_gop
  with_gop-Enters none f next e h = tt
  with_gop-Enters (some (status, gop, f')) f next e h =
      check-Enters status f' (next gop) (λ _. h gop f' (f, status, f', e))

  with_saved-Enters :
      (m : Outcome F) (file : ℕ) (next : F → Boot F)
      → ((f' : F) → Enters HandedOver (next f'))
      → Enters HandedOver (with_saved firmware m file next)
  unfolding with_saved
  with_saved-Enters (returned f) file next h = check-Enters _ _ _ (λ _. h _)
  with_saved-Enters out_of_fuel file next h = tt
  with_saved-Enters undefined file next h = tt

  -- Whatever the firmware does: if the kernel is entered, then directly after a call of
  -- `ExitBootServices` that has succeeded: the first one, or the second, with the key of the map that
  -- was asked for when the first had failed. It is entered at the address at byte 24 of the first of
  -- the pages that were given for the segments of the file that was read, after those were copied, and
  -- with the mode of that moment of the screen that `OpenGOP` found, in one of the two formats that it
  -- knows.
  pub uefi_main-Enters : (fuel : ℕ) (f : F) → Enters HandedOver (uefi_main firmware fuel layout f)
  unfolding uefi_main write_memory_map
  uefi_main-Enters fuel f = check-Enters _ _ _ (λ _. check-Enters _ _ _ (λ _.
      check-Enters _ _ _ (λ _. with_saved-Enters _ _ _ (λ f. with_gop-Enters _ f _ refl (λ gop f g.
        read_kernel-Enters _ _ _ (λ buffer f r.
          place_kernel-Enters _ _ _ r (λ first f p. leave_firmware-Enters _ first gop f p g)))))))
