-- ===== src/Port/Examples.antt =====
-- A port with power, connected and enabled, with a change of its connection that is not read yet.
use mikanos_m1mac.Base.{◌≡◌}
use mikanos_m1mac.Registers.PortStatus.{
  port_enabled_disabled, port_reset, port_link_state, port_power, port_indicator_control,
  connect_status_change, port_enabled_disabled_change, warm_port_reset_change, over_current_change,
  port_reset_change, port_link_state_change, port_config_error_change, wake_enables,
}
use mikanos_m1mac.Port.{reset_word}
use mikanos_m1mac.Port.Laws.{reset_word-fields}

powered_reset :
    let v = reset_word 0x0022_0603 in
    (port_reset v ≡ 1)
    × (connect_status_change v ≡ 1)
    × (port_enabled_disabled v ≡ 0)
    × (port_enabled_disabled_change v ≡ 0)
    × (warm_port_reset_change v ≡ 0)
    × (over_current_change v ≡ 0)
    × (port_reset_change v ≡ 0)
    × (port_link_state_change v ≡ 0)
    × (port_config_error_change v ≡ 0)
    × (port_power v ≡ 1)
    × (port_link_state v ≡ 0)
    × (port_indicator_control v ≡ 0)
    × (wake_enables v ≡ 0)
powered_reset = reset_word-fields 0x0022_0603
