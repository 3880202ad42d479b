-- ===== src/Usb/Served.antt =====
-- Every endpoint that a configuration has given the device has a driver, so that `InitializePhase3`
-- never follows a null pointer.
use mikanos_m1mac.Base.{
  ℕ, zero, suc, ◌+◌, ◌<◌, ◌≡◌, refl, sym, ap, subst, ◌∙◌, ltb, leb, ◌&&◌, if◌then◌else◌, Bool, true,
  false, Option, none, some, List, [], ◌∷◌, ◌++◌, get_or, take, set, length, length-set,
  length-append, get_or-set_self, get_or-set_ne, All, arith, ℕ_discrete,
}
use mikanos_m1mac.Descriptor.{
  byte, is_kind, endpoint_kind, endpoint_descriptor, interface_descriptor, interface_kind,
  InterfaceDescriptor,
}
use mikanos_m1mac.Endpoint.{EndpointConfig, ep_number}
use mikanos_m1mac.Outcome.{Outcome, returned, out_of_fuel, undefined, Holds}
use mikanos_m1mac.Usb.{
  Device, ClassDriver, next, make_ep_config, add_endpoint, read_endpoints, find_interface,
  take_interface, with_driver, with_interface, next_of, new_class_driver, offset_of,
}
use mikanos_m1mac.Usb.Reader.{make_ep_config-fields}

abbrev pub HasDriver : Device → EndpointConfig → Type 0
HasDriver dev conf =
    (i : ℕ) × (get_or dev.class_drivers (ep_number conf.ep_id) none ≡ some i)
    × (i < length dev.drivers)

-- The arrays have 16 entries.
pub record IsSized (dev : Device) : Type 0 where
  pub drivers_size : length dev.class_drivers ≡ 16
  pub configs_size : length dev.ep_configs ≡ 16

-- Every endpoint read so far has a driver.
pub record IsServed (dev : Device) : Type 0 where
  pub sized : IsSized dev
  pub served : All (HasDriver dev) (take dev.num_ep_configs dev.ep_configs)

take-set_last {ℓ} :
    {A : Type ℓ} (xs : List A) (n : ℕ) (a : A)
    → n < length xs
    → take (suc n) (set xs n a) ≡ take n xs ++ a ∷ []
take-set_last [] n a h = absurd (omega arith)
take-set_last (x ∷ xs) zero a h = refl
take-set_last (x ∷ xs) (suc n) a h = ap (λ r. x ∷ r) (take-set_last xs n a (omega arith))

All-append_last {ℓ κ} :
    {A : Type ℓ} (P : A → Type κ) (xs : List A) (a : A) → All P xs → P a → All P (xs ++ a ∷ [])
All-append_last P [] a h ha = (ha, tt)
All-append_last P (x ∷ xs) a (h, hs) ha = (h, All-append_last P xs a hs ha)

pub All-map {ℓ κ μ} :
    {A : Type ℓ} (P : A → Type κ) (Q : A → Type μ) (xs : List A)
    → ((a : A) → P a → Q a)
    → All P xs
    → All Q xs
All-map P Q [] f h = tt
All-map P Q (x ∷ xs) f (h, hs) = (f x h, All-map P Q xs f hs)

-- An endpoint more, for a driver that there is.
add_endpoint-IsServed :
    (driver : ℕ) (conf : EndpointConfig) (dev : Device)
    → IsServed dev
    → driver < length dev.drivers
    → dev.num_ep_configs < 16
    → ep_number conf.ep_id < 16
    → IsServed (add_endpoint driver conf dev)
add_endpoint-IsServed driver conf dev v there room low = record {
  sized = record {
    drivers_size = length-set dev.class_drivers _ _ ∙ v.sized.drivers_size;
    configs_size = length-set dev.ep_configs _ _ ∙ v.sized.configs_size;
  };
  served =
      subst (All (HasDriver dev'))
        (sym (
            take-set_last dev.ep_configs dev.num_ep_configs conf
              (omega (arith, v.sized.configs_size)))
          ∙ ap (λ n. take n (set dev.ep_configs dev.num_ep_configs conf)) next_num)
        (All-append_last (HasDriver dev') (take dev.num_ep_configs dev.ep_configs) conf
          (All-map (HasDriver dev) (HasDriver dev') (take dev.num_ep_configs dev.ep_configs) kept
            v.served)
          (driver, here, there));
}
  where
    dev' : Device
    dev' = add_endpoint driver conf dev

    next_num : suc dev.num_ep_configs ≡ dev.num_ep_configs + 1
    next_num = omega arith

    here :
        get_or
          (set dev.class_drivers (ep_number conf.ep_id) (some driver))
          (ep_number conf.ep_id)
          none
        ≡ some driver
    here =
        get_or-set_self dev.class_drivers (ep_number conf.ep_id) (some driver) none
          (omega (arith, v.sized.drivers_size))

    kept : (c : EndpointConfig) → HasDriver dev c → HasDriver (add_endpoint driver conf dev) c
    kept c (i, e, lt) = elim (ℕ_discrete (ep_number conf.ep_id) (ep_number c.ep_id)) [
      | yes same ↦ (driver, rw (← same) here, there)
      | no other ↦ (
        i,
        get_or-set_ne dev.class_drivers (ep_number conf.ep_id) (ep_number c.ep_id) (some driver)
              none other
            ∙ e,
        lt,
      )
    ]

read_number-low :
    (buf : List ℕ) (q : ℕ) → ep_number (make_ep_config (endpoint_descriptor buf q)).ep_id < 16
read_number-low buf q = omega (arith, (make_ep_config-fields (endpoint_descriptor buf q)).0)

pub if-Holds {ℓ κ} :
    {A : Type ℓ} (P : A → Type κ) (t : Bool) (m n : Outcome A)
    → (t ≡ true → Holds P m)
    → (t ≡ false → Holds P n)
    → Holds P (if t then m else n)
if-Holds P true m n h k = h refl
if-Holds P false m n h k = k refl

next-Holds {ℓ κ} :
    {A : Type ℓ} (P : A → Type κ) (t : Bool) (q : ℕ) (m : Outcome A)
    → Holds P m
    → Holds P (elim (if t then some q else none) [ none ↦ undefined | some _ ↦ m ])
next-Holds P true q m h = h
next-Holds P false q m h = tt

read_one-IsServed :
    (t : Bool) (driver : ℕ) (conf : EndpointConfig) (dev : Device)
    → IsServed dev
    → driver < length dev.drivers
    → (t && leb 16 dev.num_ep_configs) ≡ false
    → ep_number conf.ep_id < 16
    → IsServed (if t then add_endpoint driver conf dev else dev)
      × (driver < length (if t then add_endpoint driver conf dev else dev).drivers)
read_one-IsServed true driver conf dev v there room low =
    (add_endpoint-IsServed driver conf dev v there (ground arith) low, there)
read_one-IsServed false driver conf dev v there room low = (v, there)

-- Reading the endpoints of an interface, for a driver that there is.
read_endpoints-IsServed :
    (buf : List ℕ) (len driver num_endpoints fuel p : ℕ) (dev : Device)
    → IsServed dev
    → driver < length dev.drivers
    → Holds IsServed (read_endpoints buf len driver num_endpoints fuel p dev)
unfolding read_endpoints next
read_endpoints-IsServed buf len driver n zero p dev v there = tt
read_endpoints-IsServed buf len driver n (suc fuel) p dev v there =
    let q = p + byte buf p in
    let conf = make_ep_config (endpoint_descriptor buf q) in
    let dev' = if is_kind endpoint_kind buf q then add_endpoint driver conf dev else dev in
    let rest = read_endpoints buf len driver n fuel q dev' in
    if-Holds IsServed (ltb dev.num_ep_configs n) _ (returned dev)
      (λ _.
        next-Holds IsServed (ltb q len) q
          (if is_kind endpoint_kind buf q && leb 16 dev.num_ep_configs then undefined else rest)
          (if-Holds IsServed (is_kind endpoint_kind buf q && leb 16 dev.num_ep_configs) undefined
            rest (λ _. tt)
            (λ room.
              let (v', there') =
                read_one-IsServed (is_kind endpoint_kind buf q) driver conf dev v there room
                  (read_number-low buf q) in
              read_endpoints-IsServed buf len driver n fuel q dev' v' there')))
      (λ _. v)

-- What the search for an interface may return: the endpoints of one that has a driver, or the device
-- as it was.
abbrev pub Found : Device → Bool × Device → Type 0
Found dev (true, dev') = IsServed dev'
Found dev (false, dev') = dev' ≡ dev

with_driver-Found :
    (dev : Device) (m : Outcome Device) → Holds IsServed m → Holds (Found dev) (with_driver m)
with_driver-Found dev (returned dev') h = h
with_driver-Found dev out_of_fuel h = tt
with_driver-Found dev undefined h = tt

take_interface-Found :
    (o : Option ClassDriver) (buf : List ℕ) (len fuel q p : ℕ) (dev : Device)
    (rest : Outcome (Bool × Device))
    → IsSized dev
    → Holds (Found dev) rest
    → Holds (Found dev) (take_interface o buf len fuel q p dev rest)
take_interface-Found none buf len fuel q p dev rest v h = h
take_interface-Found (some driver) buf len fuel q p dev rest v h = with_driver-Found dev _ (
    read_endpoints-IsServed buf len (length dev.drivers) (interface_descriptor buf q).num_endpoints
      fuel p (record dev { drivers = dev.drivers ++ driver ∷ []; num_ep_configs = 0 })
      (record {
        sized = record { drivers_size = v.drivers_size; configs_size = v.configs_size };
        served = tt;
      })
      (omega (arith, length-append dev.drivers (driver ∷ []))))

with_interface-Found :
    (found : Outcome (Option ℕ × ℕ)) (driver_for : InterfaceDescriptor → Option ClassDriver)
    (buf : List ℕ) (len fuel : ℕ) (dev : Device) (rest : Outcome (Bool × Device))
    → IsSized dev
    → Holds (Found dev) rest
    → Holds (Found dev) (with_interface found driver_for buf len fuel dev rest)
with_interface-Found out_of_fuel driver_for buf len fuel dev rest v h = tt
with_interface-Found undefined driver_for buf len fuel dev rest v h = tt
with_interface-Found (returned (none, p)) driver_for buf len fuel dev rest v h = refl
with_interface-Found (returned (some q, p)) driver_for buf len fuel dev rest v h =
    take_interface-Found (driver_for (interface_descriptor buf q)) buf len fuel q p dev rest v h

pub find_interface-Found :
    (keys mice : Bool) (buf : List ℕ) (len fuel p : ℕ) (dev : Device)
    → IsSized dev
    → Holds (Found dev) (find_interface keys mice buf len fuel p dev)
unfolding find_interface
find_interface-Found keys mice buf len zero p dev v = tt
find_interface-Found keys mice buf len (suc fuel) p dev v =
    let found = next_of interface_kind buf len (suc fuel) p in
    with_interface-Found found (new_class_driver keys mice) buf len (suc fuel) dev _ v
      (find_interface-Found keys mice buf len fuel (offset_of found) dev v)
