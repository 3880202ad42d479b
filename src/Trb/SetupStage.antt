-- ===== src/Trb/SetupStage.antt =====
-- `SetupStageTRB` of kernel/usb/xhci/trb.hpp.
use mikanos_m1mac.Base.{ℕ, field, set_field}
use mikanos_m1mac.Trb.{Trb, zero_trb}

abbrev pub type : ℕ
type = 2

abbrev pub no_data_stage : ℕ
no_data_stage = 0

abbrev pub out_data_stage : ℕ
out_data_stage = 2

abbrev pub in_data_stage : ℕ
in_data_stage = 3

-- The request travels in the TRB itself, as 8 bytes of immediate data.
abbrev pub new : Trb
new = record zero_trb { d2 = set_field 0 17 8 0; d3 = set_field 6 1 1 (set_field 10 6 type 0) }

abbrev pub request_type : Trb → ℕ
request_type t = field 0 8 t.d0

abbrev pub set_request_type : ℕ → Trb → Trb
set_request_type v t = record t { d0 = set_field 0 8 v t.d0 }

abbrev pub request : Trb → ℕ
request t = field 8 8 t.d0

abbrev pub set_request : ℕ → Trb → Trb
set_request v t = record t { d0 = set_field 8 8 v t.d0 }

abbrev pub value : Trb → ℕ
value t = field 16 16 t.d0

abbrev pub set_value : ℕ → Trb → Trb
set_value v t = record t { d0 = set_field 16 16 v t.d0 }

abbrev pub index : Trb → ℕ
index t = field 0 16 t.d1

abbrev pub set_index : ℕ → Trb → Trb
set_index v t = record t { d1 = set_field 0 16 v t.d1 }

abbrev pub length : Trb → ℕ
length t = field 16 16 t.d1

abbrev pub set_length : ℕ → Trb → Trb
set_length v t = record t { d1 = set_field 16 16 v t.d1 }

abbrev pub transfer_type : Trb → ℕ
transfer_type t = field 16 2 t.d3

abbrev pub set_transfer_type : ℕ → Trb → Trb
set_transfer_type v t = record t { d3 = set_field 16 2 v t.d3 }
