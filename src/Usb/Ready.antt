-- ===== src/Usb/Ready.antt =====
-- The phases of the initialisation when every endpoint has a driver (`Usb/Served`): they keep that,
-- and `InitializePhase3` gives every driver its endpoint and ends.
use mikanos_m1mac.Base.{
  ℕ, zero, suc, ◌<◌, ◌≡◌, refl, sym, subst, ◌==◌, not, Bool, true, false, Option, none, some, List,
  [], ◌∷◌, get_elem?, take, set, length, length-set, All, arith,
}
use mikanos_m1mac.Errors.{Code, success}
use mikanos_m1mac.Descriptor.{is_kind, device_kind, configuration_kind, configuration_descriptor}
use mikanos_m1mac.Endpoint.{EndpointConfig}
use mikanos_m1mac.Outcome.{
  Outcome, returned, out_of_fuel, undefined, Holds, Returns, ◌>>=◌, >>=-Returns,
}
use mikanos_m1mac.SetupData.{SetupData, setup_Eq, get_descriptor, set_configuration}
use mikanos_m1mac.ArrayMap.{Slot, get}
use mikanos_m1mac.Hid as Hid
use mikanos_m1mac.Usb.{Device, ClassDriver}
use mikanos_m1mac.Usb.Phases.{
  tell, set_driver_endpoint, set_endpoints, initialize_phase1, initialize_phase2, initialize_phase3,
  configure, finish, described, forward_to, with_state, on_control_completed, Control,
}
use mikanos_m1mac.Usb.Served.{
  IsServed, IsSized, HasDriver, Found, All-map, find_interface-Found, if-Holds,
}

get_elem?-lt {ℓ} :
    {A : Type ℓ} (xs : List A) (i : ℕ) → i < length xs → (a : A) × (get_elem? xs i ≡ some a)
get_elem?-lt [] i h = absurd (omega arith)
get_elem?-lt (x ∷ xs) zero h = (x, refl)
get_elem?-lt (x ∷ xs) (suc i) h = get_elem?-lt xs i (omega arith)

-- A driver has been told of an endpoint.
abbrev told : List ClassDriver → ℕ → ClassDriver → EndpointConfig → List ClassDriver
told drivers i c conf = set drivers i (record c { base = Hid.set_endpoint conf c.base })

told-HasDriver :
    (dev : Device) (i : ℕ) (c : ClassDriver) (conf conf' : EndpointConfig)
    → HasDriver dev conf'
    → HasDriver (record dev { drivers = told dev.drivers i c conf }) conf'
told-HasDriver dev i c conf conf' (j, e, lt) =
    (j, e, subst (λ n. j < n) (sym (length-set dev.drivers i _)) lt)

-- `SetEndpoint` keeps the numbers and the places of the drivers.
set_driver_endpoint-Returns :
    (i : ℕ) (conf : EndpointConfig) (confs : List EndpointConfig) (dev : Device)
    → i < length dev.drivers
    → IsServed dev
    → All (HasDriver dev) confs
    → Returns
        (λ dev'. IsServed dev' × All (HasDriver dev') confs)
        (set_driver_endpoint (some i) conf dev)
set_driver_endpoint-Returns i conf confs dev lt v hs =
    let (c, there) = get_elem?-lt dev.drivers i lt in
    subst (λ o. Returns (λ dev'. IsServed dev' × All (HasDriver dev') confs) (tell i conf dev o))
      (sym there)
      (
        record {
          sized = record {
            drivers_size = v.sized.drivers_size;
            configs_size = v.sized.configs_size;
          };
          served = All-map (HasDriver dev) _ _ (told-HasDriver dev i c conf) v.served;
        },
        All-map (HasDriver dev) _ confs (told-HasDriver dev i c conf) hs,
      )

set_endpoints-Returns :
    (confs : List EndpointConfig) (dev : Device)
    → IsServed dev
    → All (HasDriver dev) confs
    → Returns IsServed (set_endpoints confs dev)
unfolding set_endpoints
set_endpoints-Returns [] dev v h = v
set_endpoints-Returns (conf ∷ confs) dev v ((i, e, lt), hs) = rw e (
    >>=-Returns (λ dev'. IsServed dev' × All (HasDriver dev') confs) IsServed
      (set_driver_endpoint (some i) conf dev) (set_endpoints confs)
      (set_driver_endpoint-Returns i conf confs dev lt v hs)
      (λ dev' (v', hs'). set_endpoints-Returns confs dev' v' hs'))

-- A device that the last phase has left.
abbrev pub IsReady : Code × Device → Type 0
IsReady (c, dev) =
    (c ≡ success) × (dev.is_initialized ≡ true) × (dev.initialize_phase ≡ 4) × IsServed dev

-- When every endpoint of a configuration that has been read has a driver, `InitializePhase3` follows
-- no null pointer: it returns success, and the device is initialised.
pub initialize_phase3-Returns :
    (dev : Device) → IsServed dev → Returns IsReady (initialize_phase3 dev)
unfolding initialize_phase3
initialize_phase3-Returns dev v =
    >>=-Returns IsServed IsReady (set_endpoints (take dev.num_ep_configs dev.ep_configs) dev) finish
      (set_endpoints-Returns (take dev.num_ep_configs dev.ep_configs) dev v v.served)
      (λ dev' v'. (
        refl,
        refl,
        refl,
        record {
          sized = record {
            drivers_size = v'.sized.drivers_size;
            configs_size = v'.sized.configs_size;
          };
          served = v'.served;
        },
      ))

-- The arrays have 16 entries, and in the last phase every endpoint has a driver.
pub record IsSound (dev : Device) : Type 0 where
  pub sized : IsSized dev
  pub served :
      dev.initialize_phase ≡ 3 → All (HasDriver dev) (take dev.num_ep_configs dev.ep_configs)

module _ {ℓ} {D : Type ℓ} where
  -- What a phase leaves.
  abbrev pub Serves : Code × Device × D → Type 0
  Serves (c, dev, d) = IsSound dev

  described-Serves :
      (dev : Device) (d : D) (buf : Option (List ℕ)) (asked : Bool) (kind : ℕ)
      (phase : List ℕ → Outcome (Code × Device × D))
      → IsSound dev
      → ((bytes : List ℕ) → Holds Serves (phase bytes))
      → Holds Serves (described dev d buf asked kind phase)
  described-Serves dev d buf false kind phase v h = v
  described-Serves dev d none true kind phase v h = tt
  described-Serves dev d (some bytes) true kind phase v h =
      if-Holds Serves (is_kind kind bytes 0) (phase bytes) _ (λ _. h bytes) (λ _. v)

  forward_to-Serves :
      (dev : Device) (d : D) (forward : ℕ → Device → D → Outcome (Code × Device × D))
      (driver : Option ℕ)
      → IsSound dev
      → ((i : ℕ) → Holds Serves (forward i dev d))
      → Holds Serves (forward_to dev d forward driver)
  forward_to-Serves dev d forward none v h = v
  forward_to-Serves dev d forward (some i) v h = h i

  with_state-Serves :
      (d : D) (m : Outcome (Code × Device)) → Returns IsReady m → Holds Serves (m >>= with_state d)
  with_state-Serves d (returned (c, dev)) (_, _, e, v) = record {
    sized = v.sized;
    served = λ h. absurd (omega (arith, e, h));
  }
  with_state-Serves d out_of_fuel h = tt
  with_state-Serves d undefined h = tt

  module _ (requests : Control D) (keys mice : Bool) where
    configure-Serves :
        (value : ℕ) (dev : Device) (d : D) (m : Outcome (Bool × Device))
        → IsSound dev
        → Holds (Found dev) m
        → Holds Serves (configure requests value d m)
    configure-Serves value dev d out_of_fuel v h = tt
    configure-Serves value dev d undefined v h = tt
    configure-Serves value dev d (returned (false, dev')) v h = subst IsSound (sym h) v
    configure-Serves value dev d (returned (true, dev')) v h = record {
      sized = record { drivers_size = h.sized.drivers_size; configs_size = h.sized.configs_size };
      served = λ _. h.served;
    }

    initialize_phase1-Serves :
        (buf : List ℕ) (dev : Device) (d : D)
        → IsSound dev
        → Serves (initialize_phase1 requests buf dev d)
    unfolding initialize_phase1
    initialize_phase1-Serves buf dev d v = record {
      sized = record { drivers_size = v.sized.drivers_size; configs_size = v.sized.configs_size };
      served = λ h. absurd (omega (arith, h));
    }

    initialize_phase2-Serves :
        (fuel : ℕ) (buf : List ℕ) (len : ℕ) (dev : Device) (d : D)
        → IsSound dev
        → Holds Serves (initialize_phase2 requests keys mice fuel buf len dev d)
    unfolding initialize_phase2
    initialize_phase2-Serves fuel buf len dev d v =
        if-Holds Serves (not (is_kind configuration_kind buf 0)) _ _ (λ _. v)
          (λ _.
            configure-Serves (configuration_descriptor buf 0).configuration_value dev d _ v
              (find_interface-Found keys mice buf len fuel 0 dev v.sized))

    -- A completed control transfer, whatever the device sent and in whatever phase it comes, leaves
    -- a device whose endpoints all have a driver when it is in the last phase, if the class driver to
    -- which an initialised device forwards it does.
    pub on_control_completed-Serves :
        (forward : ℕ → Device → D → Outcome (Code × Device × D)) (waiters : List (Slot SetupData ℕ))
        (fuel : ℕ) (setup_data : SetupData) (buf : Option (List ℕ)) (len : ℕ) (dev : Device) (d : D)
        → IsSound dev
        → (dev.is_initialized ≡ true → (i : ℕ) → Holds Serves (forward i dev d))
        → Holds Serves
            (on_control_completed requests keys mice forward waiters fuel setup_data buf len dev d)
    unfolding on_control_completed
    on_control_completed-Serves forward waiters fuel setup_data buf len dev d v h =
        if-Holds Serves dev.is_initialized _ _
          (λ ready. forward_to-Serves dev d forward (get setup_data waiters) v (h ready))
          (λ _.
            if-Holds Serves (dev.initialize_phase == 1) _ _
              (λ _.
                described-Serves dev d buf (setup_data.request == get_descriptor) device_kind _ v
                  (λ bytes. initialize_phase1-Serves bytes dev d v))
              (λ _.
                if-Holds Serves (dev.initialize_phase == 2) _ _
                  (λ _.
                    described-Serves dev d buf (setup_data.request == get_descriptor)
                      configuration_kind _ v
                      (λ bytes. initialize_phase2-Serves fuel bytes len dev d v))
                  (λ _.
                    if-Holds Serves (dev.initialize_phase == 3) _ _
                      (λ third.
                        if-Holds Serves (setup_data.request == set_configuration) _ _
                          (λ _. with_state-Serves d (initialize_phase3 dev) (
                            initialize_phase3-Returns dev
                              (record { sized = v.sized; served = v.served (ground arith) })))
                          (λ _. v))
                      (λ _. v))))
