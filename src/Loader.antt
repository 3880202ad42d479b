-- ===== src/Loader.antt =====
-- MikanLoaderPkg/Main.c: how the boot loader places the kernel's segments in memory. `M` is the memory;
-- `CopyMem` and `SetMem` are functions of the firmware's library, and so an interface.
mod Examples
mod Machine
pub mod Firmware
pub mod Map
pub mod Boot
pub mod Handover
pub mod Services
pub mod Working
pub mod Range
use mikanos_m1mac.Base.{
  ℕ, ◌+◌, ◌-◌, ◌/◌, ◌^◌, min, max, u64, ◌==◌, not, if◌then◌else◌, List, [], ◌∷◌,
}

-- `Elf64_Phdr`, the fields that are read.
pub record Elf64Phdr : Type 0 where
  pub p_type : ℕ
  pub p_offset : ℕ
  pub p_vaddr : ℕ
  pub p_filesz : ℕ
  pub p_memsz : ℕ

abbrev pub pt_load : ℕ
pt_load = 1

-- The two addresses of `CalcLoadAddressRange`, over the headers that are left.
abbrev pub calc_range : List Elf64Phdr → ℕ → ℕ → ℕ × ℕ
calc_range [] first last = (first, last)
calc_range (phdr ∷ phdrs) first last =
    let loads = phdr.p_type == pt_load in
    calc_range phdrs (if loads then min first phdr.p_vaddr else first)
      (if loads then max last (u64 (phdr.p_vaddr + phdr.p_memsz)) else last)

unfoldable pub calc_load_address_range : List Elf64Phdr → ℕ × ℕ
calc_load_address_range phdrs = calc_range phdrs (2 ^ 64 - 1) 0

-- The pages that are asked for.
abbrev pub num_pages : ℕ × ℕ → ℕ
num_pages (first, last) = u64 (last + (2 ^ 64 - first) + 0xfff) / 0x1000

-- To an address, from an address, a length; and an address, a length, a byte.
pub record MemoryLibrary {ℓ} (M : Type ℓ) : Type ℓ where
  pub copy_mem : ℕ → ℕ → ℕ → M → M
  pub set_mem : ℕ → ℕ → ℕ → M → M

module _ {ℓ} {M : Type ℓ} (library : MemoryLibrary M) where
  -- One segment; what the file does not hold is 0.
  unfoldable pub copy_segment : ℕ → Elf64Phdr → M → M
  copy_segment ehdr phdr m =
      library.set_mem (u64 (phdr.p_vaddr + phdr.p_filesz))
        (u64 (phdr.p_memsz + (2 ^ 64 - phdr.p_filesz))) 0
        (library.copy_mem phdr.p_vaddr (u64 (ehdr + phdr.p_offset)) phdr.p_filesz m)

  unfoldable pub copy_load_segments : ℕ → List Elf64Phdr → M → M
  copy_load_segments ehdr [] m = m
  copy_load_segments ehdr (phdr ∷ phdrs) m =
      copy_load_segments ehdr phdrs (if phdr.p_type == pt_load then copy_segment ehdr phdr m else m)
