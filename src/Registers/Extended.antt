-- ===== src/Registers/Extended.antt =====
-- The list of extended capabilities (registers.cpp), and USBLEGSUP. An iterator is an address, 0 at
-- the end; a displacement counts words of four bytes.
use mikanos_m1mac.Base.{ℕ, zero, suc, ◌+◌, ◌*◌, ◌==◌, if◌then◌else◌, field, set_field}
use mikanos_m1mac.Outcome.{Outcome, returned, out_of_fuel}
use mikanos_m1mac.Mmio.{Mmio}
use mikanos_m1mac.Registers.Capability.{xhci_extended_capabilities_pointer}

-- ExtendedRegister
abbrev pub capability_id : ℕ → ℕ
capability_id w = field 0 8 w

abbrev pub next_pointer : ℕ → ℕ
next_pointer w = field 8 8 w

-- USBLEGSUP
abbrev pub hc_bios_owned_semaphore : ℕ → ℕ
hc_bios_owned_semaphore w = field 16 1 w

abbrev pub hc_os_owned_semaphore : ℕ → ℕ
hc_os_owned_semaphore w = field 24 1 w

abbrev pub set_hc_os_owned_semaphore : ℕ → ℕ → ℕ
set_hc_os_owned_semaphore v w = set_field 24 1 v w

abbrev pub add_or_null : ℕ → ℕ → ℕ
add_or_null p d = if d == 0 then 0 else p + 4 * d

-- `begin`
abbrev pub first : ℕ → ℕ → ℕ
first mmio_base hccp = add_or_null mmio_base (xhci_extended_capabilities_pointer hccp)

-- `std::find_if` for a capability with that number; 0 where there is none.
unfoldable pub find_capability {ℓ} : {H : Type ℓ} → Mmio H → ℕ → ℕ → ℕ → H → Outcome (ℕ × H)
find_capability mmio id zero p h = out_of_fuel
find_capability mmio id (suc fuel) p h =
    let r = mmio.read p h in
    let again = mmio.read p r.1 in
    let rest = find_capability mmio id fuel (add_or_null p (next_pointer again.0)) again.1 in
    if p == 0 then returned (0, h) else if capability_id r.0 == id then returned (p, r.1) else rest
