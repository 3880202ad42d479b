-- ===== src/Loader/Range.antt =====
-- The pages that the loader asks for, against what it then writes.
use mikanos_m1mac.Base.{
  ℕ, ◌+◌, ◌*◌, ◌-◌, ◌^◌, ◌<◌, ◌≤◌, ◌≡◌, min, max, u64, ◌==◌, if◌then◌else◌, Bool-cases, List, [],
  ◌∷◌, inl, inr, All, ==_iff, arith,
}
use mikanos_m1mac.Loader.{
  Elf64Phdr, pt_load, calc_range, calc_load_address_range, num_pages, MemoryLibrary, copy_segment,
  copy_load_segments,
}

-- A segment that is loaded is no longer in the file than in memory, and ends a page below 2 ^ 64.
abbrev pub Fits : Elf64Phdr → Type 0
Fits phdr =
    phdr.p_type ≡ pt_load
    → (phdr.p_filesz ≤ phdr.p_memsz) × (phdr.p_vaddr + phdr.p_memsz + 0xfff < 2 ^ 64)

-- A write as its first address and its length.
abbrev pub write_log : MemoryLibrary (List (ℕ × ℕ))
write_log = record {
  copy_mem = λ to from length log. (to, length) ∷ log;
  set_mem = λ to length byte log. (to, length) ∷ log;
}

-- The write lies in the pages of a range of addresses.
abbrev pub IsWithin : ℕ × ℕ → ℕ × ℕ → Type 0
IsWithin range (to, length) = (range.0 ≤ to) × (to + length ≤ range.0 + 0x1000 * num_pages range)

abbrev step_first : Elf64Phdr → ℕ → ℕ
step_first phdr first = if phdr.p_type == pt_load then min first phdr.p_vaddr else first

abbrev step_last : Elf64Phdr → ℕ → ℕ
step_last phdr last =
    if phdr.p_type == pt_load then max last (u64 (phdr.p_vaddr + phdr.p_memsz)) else last

narrows :
    (phdrs : List Elf64Phdr) (first last : ℕ)
    → ((calc_range phdrs first last).0 ≤ first) × (last ≤ (calc_range phdrs first last).1)
narrows [] first last = omega arith
narrows (phdr ∷ phdrs) first last =
    ground (arith, narrows phdrs (step_first phdr first) (step_last phdr last))

step_last-below :
    (phdr : Elf64Phdr) (last : ℕ)
    → Fits phdr
    → last + 0xfff < 2 ^ 64
    → step_last phdr last + 0xfff < 2 ^ 64
step_last-below phdr last fit below = elim (Bool-cases (phdr.p_type == pt_load)) [
  | inl e ↦ let (_, ends) = fit ((==_iff _ _).0 e) in rw e (ground arith)
  | inr e ↦ rw e below
]

calc_range-below :
    (phdrs : List Elf64Phdr) (first last : ℕ)
    → All Fits phdrs
    → last + 0xfff < 2 ^ 64
    → (calc_range phdrs first last).1 + 0xfff < 2 ^ 64
calc_range-below [] first last fits below = below
calc_range-below (phdr ∷ phdrs) first last (fit, fits) below =
    calc_range-below phdrs (step_first phdr first) (step_last phdr last) fits
      (step_last-below phdr last fit below)

-- What is loaded lies between the two addresses.
abbrev Holds : ℕ × ℕ → Elf64Phdr → Type 0
Holds range phdr =
    phdr.p_type ≡ pt_load → (range.0 ≤ phdr.p_vaddr) × (phdr.p_vaddr + phdr.p_memsz ≤ range.1)

front_held :
    (phdr : Elf64Phdr) (phdrs : List Elf64Phdr) (first last : ℕ)
    → Fits phdr
    → Holds (calc_range (phdr ∷ phdrs) first last) phdr
front_held phdr phdrs first last fit e =
    let (_, ends) = fit e in
    ground (arith, narrows phdrs (step_first phdr first) (step_last phdr last))

calc_range-Holds :
    (phdrs : List Elf64Phdr) (first last : ℕ)
    → All Fits phdrs
    → All (Holds (calc_range phdrs first last)) phdrs
calc_range-Holds [] first last fits = tt
calc_range-Holds (phdr ∷ phdrs) first last (fit, fits) = (
  front_held phdr phdrs first last fit,
  calc_range-Holds phdrs (step_first phdr first) (step_last phdr last) fits,
)

copy_segment-Within :
    (range : ℕ × ℕ) (ehdr : ℕ) (phdr : Elf64Phdr) (log : List (ℕ × ℕ))
    → range.1 + 0xfff < 2 ^ 64
    → Holds range phdr
    → Fits phdr
    → phdr.p_type ≡ pt_load
    → All (IsWithin range) log
    → All (IsWithin range) (copy_segment write_log ehdr phdr log)
unfolding copy_segment
copy_segment-Within range ehdr phdr log below held fit e logged =
    let (inside, ends) = held e in let (short, fits) = fit e in (omega arith, (omega arith, logged))

copies-Within :
    (range : ℕ × ℕ) (ehdr : ℕ) (phdrs : List Elf64Phdr) (log : List (ℕ × ℕ))
    → range.1 + 0xfff < 2 ^ 64
    → All (Holds range) phdrs
    → All Fits phdrs
    → All (IsWithin range) log
    → All (IsWithin range) (copy_load_segments write_log ehdr phdrs log)
unfolding copy_load_segments
copies-Within range ehdr [] log below held fits logged = logged
copies-Within range ehdr (phdr ∷ phdrs) log below (held, rest) (fit, fits) logged =
    copies-Within range ehdr phdrs _ below rest fits (elim (Bool-cases (phdr.p_type == pt_load)) [
      | inl e ↦
          rw e (copy_segment-Within range ehdr phdr log below held fit ((==_iff _ _).0 e) logged)
      | inr e ↦ rw e logged
    ])

-- When no segment that is loaded is longer in the file than in memory, and each ends at least a page
-- below 2 ^ 64,
-- `CopyLoadSegments` writes only in the pages that the loader has asked for, whatever the segments'
-- order, gaps and alignment.
pub copy_load_segments-Within :
    (ehdr : ℕ) (phdrs : List Elf64Phdr)
    → All Fits phdrs
    → All (IsWithin (calc_load_address_range phdrs)) (copy_load_segments write_log ehdr phdrs [])
unfolding calc_load_address_range
copy_load_segments-Within ehdr phdrs fits =
    copies-Within (calc_range phdrs (2 ^ 64 - 1) 0) ehdr phdrs []
      (calc_range-below phdrs (2 ^ 64 - 1) 0 fits (omega arith))
      (calc_range-Holds phdrs (2 ^ 64 - 1) 0 fits) fits tt
