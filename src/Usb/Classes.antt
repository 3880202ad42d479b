-- ===== src/Usb/Classes.antt =====
-- `OnEndpointsConfigured` and `OnInterruptCompleted` of kernel/usb/device.cpp: the calls of the class
-- drivers, which are by endpoint number. `parent` is what a driver calls of its device.
use mikanos_m1mac.Base.{
  ℕ, if◌then◌else◌, Option, none, some, List, [], ◌∷◌, get_or, get_elem?, set, map, replicate,
}
use mikanos_m1mac.Errors.{Code, success, is_error, no_waiter}
use mikanos_m1mac.Endpoint.{ep_number}
use mikanos_m1mac.Outcome.{Outcome, returned, undefined}
use mikanos_m1mac.Hid.{ParentDevice}
use mikanos_m1mac.Hid as Hid
use mikanos_m1mac.Hid.Mouse.{on_mouse_data}
use mikanos_m1mac.Usb.{Device, ClassDriver, DriverKind, keyboard, mouse}

-- A call of an observer, which is a number here: of a keyboard with a key, of a mouse with the two
-- displacements.
pub data Report : Type 0 where
  pushed : ℕ → ℕ → Report
  moved : ℕ → ℕ → ℕ → Report

abbrev pub key_report : ℕ × ℕ → Report
key_report (observer, key) = pushed observer key

abbrev pub mouse_report : ℕ × ℕ × ℕ → Report
mouse_report (observer, x, y) = moved observer x y

-- `OnDataReceived`, a virtual function.
unfoldable pub on_data_received : DriverKind → ℕ → Hid.Driver → List Report
on_data_received keyboard num_observers d = map key_report (Hid.on_keyboard_data num_observers d)
on_data_received mouse num_observers d =
    map mouse_report (on_mouse_data (record { driver = d; observers = replicate num_observers 0 }))

abbrev pub update_driver : ℕ → ClassDriver → Hid.Driver → Device → Device
update_driver i c base dev = record dev { drivers = set dev.drivers i (record c { base = base }) }

module _ {ℓ} {D : Type ℓ} (parent : ParentDevice D) where
  -- The loop over `class_drivers_`: a driver that serves two endpoints is called twice.
  unfoldable pub configure_drivers : List (Option ℕ) → Device → D → Outcome (Code × Device × D)
  configure_drivers [] dev d = returned (success, dev, d)
  configure_drivers (none ∷ rest) dev d = configure_drivers rest dev d
  configure_drivers (some i ∷ rest) dev d = elim (get_elem? dev.drivers i) [
    | none ↦ undefined
    | some c ↦
        let out = Hid.on_endpoints_configured parent c.base d in
        let dev' = update_driver i c out.1 dev in
        let others = configure_drivers rest dev' out.2 in
        if is_error out.0 then returned (out.0, dev', out.2) else others
  ]

  unfoldable pub on_endpoints_configured : Device → D → Outcome (Code × Device × D)
  on_endpoints_configured dev d = configure_drivers dev.class_drivers dev d

  -- With the calls of the observers.
  unfoldable pub on_interrupt_completed :
      ℕ → ℕ → Device → D → Outcome (List Report × Code × Device × D)
  on_interrupt_completed ep_id len dev d = elim (get_or dev.class_drivers (ep_number ep_id) none) [
    | none ↦ returned ([], no_waiter, dev, d)
    | some i ↦ elim (get_elem? dev.drivers i) [
      | none ↦ undefined
      | some c ↦
          let out =
            Hid.on_interrupt_completed parent (on_data_received c.kind c.num_observers) ep_id len
              c.base d in
          returned (out.0, out.1, update_driver i c out.2 dev, out.3)
    ]
  ]
