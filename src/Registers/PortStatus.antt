-- ===== src/Registers/PortStatus.antt =====
-- `PortRegisterSet` and PORTSC.
use mikanos_m1mac.Base.{ℕ, field, set_field}

-- `sizeof(PortRegisterSet)`; PORTSC comes first.
abbrev pub port_set_size : ℕ
port_set_size = 16

abbrev pub current_connect_status : ℕ → ℕ
current_connect_status w = field 0 1 w

abbrev pub port_enabled_disabled : ℕ → ℕ
port_enabled_disabled w = field 1 1 w

abbrev pub over_current_active : ℕ → ℕ
over_current_active w = field 3 1 w

abbrev pub port_reset : ℕ → ℕ
port_reset w = field 4 1 w

abbrev pub port_link_state : ℕ → ℕ
port_link_state w = field 5 4 w

abbrev pub port_power : ℕ → ℕ
port_power w = field 9 1 w

abbrev pub port_speed : ℕ → ℕ
port_speed w = field 10 4 w

abbrev pub port_indicator_control : ℕ → ℕ
port_indicator_control w = field 14 2 w

abbrev pub connect_status_change : ℕ → ℕ
connect_status_change w = field 17 1 w

abbrev pub port_enabled_disabled_change : ℕ → ℕ
port_enabled_disabled_change w = field 18 1 w

abbrev pub warm_port_reset_change : ℕ → ℕ
warm_port_reset_change w = field 19 1 w

abbrev pub over_current_change : ℕ → ℕ
over_current_change w = field 20 1 w

abbrev pub port_reset_change : ℕ → ℕ
port_reset_change w = field 21 1 w

abbrev pub port_link_state_change : ℕ → ℕ
port_link_state_change w = field 22 1 w

abbrev pub port_config_error_change : ℕ → ℕ
port_config_error_change w = field 23 1 w

abbrev pub wake_enables : ℕ → ℕ
wake_enables w = field 25 3 w

-- The bits whose number is written as 1 to clear them.
abbrev pub set_connect_status_change : ℕ → ℕ → ℕ
set_connect_status_change v w = set_field 17 1 v w

abbrev pub set_port_reset_change : ℕ → ℕ → ℕ
set_port_reset_change v w = set_field 21 1 v w
