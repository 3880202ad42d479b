-- ===== src/Loader/Examples.antt =====
-- MikanLoaderPkg/Main.c on a kernel with code, data that is partly zero, and a note that is not loaded.
use mikanos_m1mac.Base.{◌≡◌, refl, List, [], ◌∷◌, All, arith}
use mikanos_m1mac.Loader.{
  Elf64Phdr, calc_load_address_range, num_pages, copy_segment, copy_load_segments,
}
use mikanos_m1mac.Loader.Range.{write_log, IsWithin, copy_load_segments-Within}

abbrev code : Elf64Phdr
code = record {
  p_type = 1;
  p_offset = 0x1000;
  p_vaddr = 0x101000;
  p_filesz = 0x1b9;
  p_memsz = 0x1b9;
}

abbrev data_segment : Elf64Phdr
data_segment = record {
  p_type = 1;
  p_offset = 0x2000;
  p_vaddr = 0x102000;
  p_filesz = 0x10;
  p_memsz = 0x2010;
}

abbrev note : Elf64Phdr
note = record { p_type = 4; p_offset = 0; p_vaddr = 0; p_filesz = 0x20; p_memsz = 0 }

abbrev kernel : List Elf64Phdr
kernel = note ∷ data_segment ∷ code ∷ []

kernel_range : calc_load_address_range kernel ≡ (0x101000, 0x104010)
unfolding calc_load_address_range
kernel_range = refl

kernel_pages : num_pages (calc_load_address_range kernel) ≡ 4
unfolding calc_load_address_range
kernel_pages = refl

-- The last write comes first.
kernel_copied :
    copy_load_segments write_log 0x5000 kernel []
    ≡ (0x1011b9, 0) ∷ (0x101000, 0x1b9) ∷ (0x102010, 0x2000) ∷ (0x102000, 0x10) ∷ []
unfolding copy_load_segments copy_segment
kernel_copied = refl

copy_load_segments-Within_example :
    All (IsWithin (calc_load_address_range kernel)) (copy_load_segments write_log 0x5000 kernel [])
copy_load_segments-Within_example =
    copy_load_segments-Within 0x5000 kernel
      ((λ e. omega (arith, e)), ((λ _. omega arith), ((λ _. omega arith), tt)))
