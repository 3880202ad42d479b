-- ===== src/Pci/Total.antt =====
-- The scan ends: `devices` is full after 32 devices, and each bridge that is followed takes a place
-- first, so that a depth of 33 buses is enough whatever the configuration space says.
use mikanos_m1mac.Base.{
  ℕ, zero, suc, ◌+◌, ◌≤◌, ◌<◌, ◌≡◌, ◌≢◌, refl, ◌∙◌, ◌==◌, ==_iff, if◌then◌else◌, Bool, true, false,
  Bool-cases, none, some, List, [], ◌∷◌, set, get_or, length, length-set, get_or-set_self,
  get_or-set_ne, ◌⊎◌, inl, inr, arith, ℕ_discrete,
}
use mikanos_m1mac.Errors.{Code, success, full}
use mikanos_m1mac.Pci.{
  Device, match_sub, is_single_function_device, read_vendor_id, read_header_type, read_class_code,
}
use mikanos_m1mac.Pci.Scan.{
  Found, max_devices, add_device, Scanned, ◌>>=◌, upto, device_at, secondary_bus, is_absent,
  scan_function, scan_functions, scan_device, scan_devices, scan_bus, scan_buses, scan_all_bus,
}

abbrev pub no_device : Device
no_device = record {
  bus = 0;
  device = 0;
  function = 0;
  header_type = 0;
  class_code = record { base = 0; sub = 0; interface = 0 };
}

module _ (conf : ℕ → ℕ) where
  -- An entry describes a function that answers, as the configuration space shows it.
  pub record IsPresent (d : Device) : Type 0 where
    pub answers : read_vendor_id conf d.bus d.device d.function ≢ 0xffff
    pub shown : d ≡ device_at conf d.bus d.device d.function

  pub record IsFound (s : Found) : Type 0 where
    pub room : length s.devices ≡ max_devices
    pub within : s.num_device ≤ max_devices
    pub present : (i : ℕ) → i < s.num_device → IsPresent (get_or s.devices i no_device)

  -- From `lo` devices on, a scan returns, with more devices or as many; the only error is that the
  -- array is full, and then it is.
  abbrev pub Returns : ℕ → Scanned → Type 0
  Returns lo none = ⊥
  Returns lo (some (c, s)) =
      IsFound s
      × (lo ≤ s.num_device)
      × ((c ≡ success) ⊎ ((c ≡ full) × (s.num_device ≡ max_devices)))

  Returns-mono : (lo hi : ℕ) (r : Scanned) → lo ≤ hi → Returns hi r → Returns lo r
  Returns-mono lo hi none h p = p
  Returns-mono lo hi (some (c, s)) h p = (p.0, omega (arith, p.1), p.2)

  >>=-Returns :
      (lo : ℕ) (m : Scanned) (k : Found → Scanned)
      → Returns lo m
      → ((s : Found) → IsFound s → lo ≤ s.num_device → Returns s.num_device (k s))
      → Returns lo (m >>= k)
  >>=-Returns lo none k p q = p
  >>=-Returns lo (some (success, s)) k p q = Returns-mono lo s.num_device (k s) p.1 (q s p.0 p.1)
  >>=-Returns lo (some (c, s)) k p q = p

  -- A place is taken, or there is none.
  abbrev Added : Found → Code × Found → Type 0
  Added s (c, s') =
      IsFound s'
      × (((c ≡ success) × (s'.num_device ≡ s.num_device + 1))
          ⊎ ((c ≡ full) × (s'.num_device ≡ s.num_device) × (s.num_device ≡ max_devices)))

  pushed-IsFound :
      (d : Device) (s : Found)
      → IsPresent d
      → IsFound s
      → s.num_device < max_devices
      → IsFound (record { devices = set s.devices s.num_device d; num_device = s.num_device + 1 })
  pushed-IsFound d s p v h = record {
    room = length-set s.devices s.num_device d ∙ v.room;
    within = omega arith;
    present = λ i below. elim (ℕ_discrete s.num_device i) [
      | yes e ↦
          rw (← e, get_or-set_self s.devices s.num_device d no_device (omega (arith, v.room))) p
      | no ne ↦
          rw (get_or-set_ne s.devices s.num_device i d no_device ne) (v.present i (omega arith))
    ];
  }

  add_device-Added : (d : Device) (s : Found) → IsPresent d → IsFound s → Added s (add_device d s)
  unfolding add_device
  add_device-Added d s p v = elim (Bool-cases (s.num_device == max_devices)) [
    | inl e ↦ rw e (v, inr (refl, refl, (==_iff s.num_device max_devices).0 e))
    | inr ne ↦ rw ne (pushed-IsFound d s p v (ground (arith, v.within)), inl (refl, refl))
  ]

  -- What a scan of a bus must do with the fuel that is left.
  abbrev Scans : ℕ → (ℕ → Found → Scanned) → Type 0
  Scans fuel scan =
      (bus : ℕ) (s : Found)
      → IsFound s
      → max_devices < fuel + s.num_device
      → Returns s.num_device (scan bus s)

  module _ (fuel : ℕ) (scan : ℕ → Found → Scanned) (scans : Scans fuel scan) where
    scan_function-Returns :
        (bus device function : ℕ) (s : Found)
        → is_absent conf bus device function ≡ false
        → IsFound s
        → max_devices < suc fuel + s.num_device
        → Returns s.num_device (scan_function conf scan bus device function s)
    unfolding scan_function
    scan_function-Returns bus device function s here v h =
        go (add_device (device_at conf bus device function) s)
          (add_device-Added (device_at conf bus device function) s present v)
      where
        present : IsPresent (device_at conf bus device function)
        present = record { answers = λ e. ground arith; shown = refl }

        go :
            (out : Code × Found)
            → Added s out
            → Returns s.num_device (
                some out >>= λ s'.
                (let below = scan (secondary_bus conf bus device function) s' in
                  if match_sub (read_class_code conf bus device function) 0x06 0x04
                  then below
                  else some (success, s')))
        go (c, s') (v', inl (e, more)) =
            rw e
              (elim (Bool-cases (match_sub (read_class_code conf bus device function) 0x06 0x04)) [
                | inl bridge ↦ rw bridge (
                    Returns-mono s.num_device s'.num_device _ (omega arith)
                      (scans (secondary_bus conf bus device function) s' v' (omega arith)))
                | inr leaf ↦ rw leaf (v', omega arith, inl refl)
              ])
        go (c, s') (v', inr (e, same, top)) = rw e (v', omega arith, inr (refl, omega arith))

    -- Skip, or scan what answers.
    unless_absent :
        (bus device function : ℕ) (s : Found) (m : Scanned)
        → IsFound s
        → (is_absent conf bus device function ≡ false → Returns s.num_device m)
        → Returns s.num_device (if is_absent conf bus device function then some (success, s) else m)
    unless_absent bus device function s m v p =
        elim (Bool-cases (is_absent conf bus device function)) [
          | inl absent ↦ rw absent (v, omega arith, inl refl)
          | inr here ↦ rw here (p here)
        ]

    scan_functions-Returns :
        (bus device : ℕ) (functions : List ℕ) (s : Found)
        → IsFound s
        → max_devices < suc fuel + s.num_device
        → Returns s.num_device (scan_functions conf scan bus device functions s)
    unfolding scan_functions
    scan_functions-Returns bus device [] s v h = (v, omega arith, inl refl)
    scan_functions-Returns bus device (function ∷ functions) s v h =
        >>=-Returns s.num_device _ _
          (unless_absent bus device function s _ v
            λ here. scan_function-Returns bus device function s here v h)
          λ s' v' more. scan_functions-Returns bus device functions s' v' (omega arith)

    scan_device-Returns :
        (bus device : ℕ) (s : Found)
        → is_absent conf bus device 0 ≡ false
        → IsFound s
        → max_devices < suc fuel + s.num_device
        → Returns s.num_device (scan_device conf scan bus device s)
    unfolding scan_device
    scan_device-Returns bus device s here v h =
        >>=-Returns s.num_device _ _ (scan_function-Returns bus device 0 s here v h) λ s' v' more.
          elim (Bool-cases (is_single_function_device (read_header_type conf bus device 0))) [
            | inl single ↦ rw single (v', omega arith, inl refl)
            | inr several ↦
                rw several (scan_functions-Returns bus device (upto 1 7) s' v' (omega arith))
          ]

    scan_devices-Returns :
        (bus : ℕ) (devices : List ℕ) (s : Found)
        → IsFound s
        → max_devices < suc fuel + s.num_device
        → Returns s.num_device (scan_devices conf scan bus devices s)
    unfolding scan_devices
    scan_devices-Returns bus [] s v h = (v, omega arith, inl refl)
    scan_devices-Returns bus (device ∷ devices) s v h =
        >>=-Returns s.num_device _ _
          (unless_absent bus device 0 s _ v λ here. scan_device-Returns bus device s here v h)
          λ s' v' more. scan_devices-Returns bus devices s' v' (omega arith)

  scan_bus-Returns : (fuel : ℕ) → Scans fuel (λ bus s. scan_bus conf fuel bus s)
  unfolding scan_bus
  scan_bus-Returns zero bus s v h = absurd (omega (arith, v.within))
  scan_bus-Returns (suc fuel) bus s v h =
      scan_devices-Returns fuel (λ b t. scan_bus conf fuel b t) (scan_bus-Returns fuel) bus
        (upto 0 32) s v h

  scan_buses-Returns :
      (fuel : ℕ) (functions : List ℕ) (s : Found)
      → IsFound s
      → max_devices < fuel
      → Returns s.num_device (scan_buses conf fuel functions s)
  unfolding scan_buses
  scan_buses-Returns fuel [] s v h = (v, omega arith, inl refl)
  scan_buses-Returns fuel (function ∷ functions) s v h =
      >>=-Returns s.num_device _ _ (step (is_absent conf 0 0 function))
        λ s' v' more. scan_buses-Returns fuel functions s' v' h
    where
      step :
          (absent : Bool)
          → Returns s.num_device
              (if absent then some (success, s) else scan_bus conf fuel function s)
      step true = (v, omega arith, inl refl)
      step false = scan_bus-Returns fuel function s v (omega arith)

-- With a depth of 33 buses as fuel, and so with any more, `ScanAllBus` returns, whatever the
-- configuration space holds, bridges that lead back to their own bus included. At most 32 devices
-- are found; each answers, and is recorded as the configuration space shows it; and the only error
-- is kFull, with 32 devices found.
pub scan_all_bus-Returns :
    (conf : ℕ → ℕ) (fuel : ℕ) (s : Found)
    → length s.devices ≡ max_devices
    → max_devices < fuel
    → Returns conf 0 (scan_all_bus conf fuel s)
unfolding scan_all_bus
scan_all_bus-Returns conf fuel s room h =
    elim (Bool-cases (is_single_function_device (read_header_type conf 0 0 0))) [
      | inl single ↦ rw single (scan_bus-Returns conf fuel 0 cleared v (omega arith))
      | inr several ↦ rw several (scan_buses-Returns conf fuel (upto 1 7) cleared v h)
    ]
  where
    cleared : Found
    cleared = record s { num_device = 0 }

    v : IsFound conf cleared
    v = record { room = room; within = omega arith; present = λ i below. absurd (omega arith) }
