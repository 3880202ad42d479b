-- ===== src/Usb/Order.antt =====
-- The control transfers that complete on a device of kernel/usb/device.cpp, in the order in which they
-- do, as a step relation.
use mikanos_m1mac.Base.{
  ℕ, ◌≡◌, refl, sym, subst, Bool, false, Option, none, List, [], replicate, length, arith,
  false≢true, ◌∙◌,
}
use mikanos_m1mac.Errors.{Code}
use mikanos_m1mac.Endpoint.{EndpointConfig}
use mikanos_m1mac.Outcome.{Outcome, returned, Holds, Returns, >>=-Returns}
use mikanos_m1mac.SetupData.{SetupData, set_configuration}
use mikanos_m1mac.ArrayMap.{Slot}
use mikanos_m1mac.Usb.{Device}
use mikanos_m1mac.Usb.Phases.{
  Control, start_initialize, initialize_phase3, on_control_completed, with_state,
}
use mikanos_m1mac.Usb.Ready.{
  IsReady, IsSound, Serves, initialize_phase3-Returns, on_control_completed-Serves,
}

-- `Device` as its constructor leaves it; the fields without an initialiser are whatever they are.
abbrev pub new_device : ℕ → ℕ → List EndpointConfig → ℕ → Device
new_device num_configurations config_index configs num_ep_configs = record {
  drivers = [];
  class_drivers = replicate 16 none;
  num_configurations = num_configurations;
  config_index = config_index;
  is_initialized = false;
  initialize_phase = 0;
  ep_configs = configs;
  num_ep_configs = num_ep_configs;
}

abbrev after {ℓ} : {D : Type ℓ} → Code × Device × D → Device
after (code, dev, d) = dev

module _ {ℓ} {D : Type ℓ} (requests : Control D) (keys mice : Bool) where
  -- The devices that are reached before the initialisation is over: from a new one, by
  -- `StartInitialize` and by completed transfers, with any setup data, buffer and length.
  pub data Reached : Device → Type ℓ where
    attached :
        (num_configurations config_index num_ep_configs : ℕ) (configs : List EndpointConfig)
        → length configs ≡ 16
        → Reached (new_device num_configurations config_index configs num_ep_configs)
    started :
        {dev : Device} (d : D) → Reached dev → Reached (after (start_initialize requests dev d))
    completed :
        {dev : Device} (forward : ℕ → Device → D → Outcome (Code × Device × D))
        (waiters : List (Slot SetupData ℕ)) (fuel : ℕ) (setup_data : SetupData)
        (buf : Option (List ℕ)) (len : ℕ) (d : D) {code : Code} {dev' : Device} {d' : D}
        → Reached dev
        → dev.is_initialized ≡ false
        → on_control_completed requests keys mice forward waiters fuel setup_data buf len dev d
          ≡ returned (code, dev', d')
        → Reached dev'

  Reached-IsSound : {dev : Device} → Reached dev → IsSound dev
  unfolding start_initialize
  Reached-IsSound (attached n c m configs size) = record {
    sized = record { drivers_size = refl; configs_size = size };
    served = λ h. absurd (omega (arith, h));
  }
  Reached-IsSound (started d r) =
      let v = Reached-IsSound r in
      record {
        sized = record { drivers_size = v.sized.drivers_size; configs_size = v.sized.configs_size };
        served = λ h. absurd (omega (arith, h));
      }
  Reached-IsSound
        (completed {dev = dev} forward waiters fuel setup_data buf len d {dev' = dev'} r early e) =
      subst (Holds Serves) e (
        on_control_completed-Serves requests keys mice forward waiters fuel setup_data buf len dev d
          (Reached-IsSound r) (λ ready. absurd (false≢true (sym early ∙ ready))))

  -- A device that `StartInitialize` and completed transfers, whatever they bring and in whatever
  -- order, have led from a new one to the phase 3, and that is not initialised yet, follows no null
  -- pointer when `SET_CONFIGURATION` completes: the result is success, and the device is initialised,
  -- with a driver for every endpoint.
  pub set_configuration-Returns :
      {dev : Device} (forward : ℕ → Device → D → Outcome (Code × Device × D))
      (waiters : List (Slot SetupData ℕ)) (fuel : ℕ) (setup_data : SetupData)
      (buf : Option (List ℕ)) (len : ℕ) (d : D)
      → Reached dev
      → dev.is_initialized ≡ false
      → dev.initialize_phase ≡ 3
      → setup_data.request ≡ set_configuration
      → Returns
          (λ (code, dev', d'). IsReady (code, dev'))
          (on_control_completed requests keys mice forward waiters fuel setup_data buf len dev d)
  unfolding on_control_completed
  set_configuration-Returns {dev = dev} forward waiters fuel setup_data buf len d r early third
        asked =
      simp (early, third, asked)
        (>>=-Returns IsReady (λ (code, dev', d'). IsReady (code, dev')) (initialize_phase3 dev)
          (with_state d)
          (initialize_phase3-Returns dev (record {
            sized = (Reached-IsSound r).sized;
            served = (Reached-IsSound r).served third;
          }))
          (λ (code, dev') h. h))
