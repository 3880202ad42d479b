-- ===== src/Trb.antt =====
-- kernel/usb/xhci/trb.hpp: a transfer request block is four 32-bit words, which each class of TRBs
-- reads as bit fields. The children hold the classes; here is what they share.
pub mod AddressDeviceCommand
pub mod CommandCompletionEvent
pub mod ConfigureEndpointCommand
pub mod DataStage
pub mod EnableSlotCommand
pub mod Link
pub mod NoOp
pub mod NoOpCommand
pub mod Normal
pub mod PortStatusChangeEvent
pub mod SetupStage
pub mod StatusStage
pub mod StopEndpointCommand
pub mod TransferEvent
pub mod Laws
pub mod Names
mod Examples
use mikanos_m1mac.Base.{
  ℕ, ◌+◌, ◌*◌, ◌/◌, ◌^◌, ◌<◌, u32, field, set_field, ◌==◌, if◌then◌else◌, Option, none, some,
}

-- `std::array<uint32_t, 4> data`, which a TRB starts with at zero.
pub record Trb : Type 0 where
  pub d0 : ℕ
  pub d1 : ℕ
  pub d2 : ℕ
  pub d3 : ℕ

abbrev pub zero_trb : Trb
zero_trb = record { d0 = 0; d1 = 0; d2 = 0; d3 = 0 }

pub record IsWords (t : Trb) : Type 0 where
  pub word0 : t.d0 < 2 ^ 32
  pub word1 : t.d1 < 2 ^ 32
  pub word2 : t.d2 < 2 ^ 32
  pub word3 : t.d3 < 2 ^ 32

-- The fields of `union TRB`: a 64-bit parameter over the first two words, and the type and the
-- cycle bit in the last.
abbrev pub parameter : Trb → ℕ
parameter t = t.d0 + t.d1 * 2 ^ 32

abbrev pub set_parameter : ℕ → Trb → Trb
set_parameter p t = record t { d0 = u32 p; d1 = u32 (p / 2 ^ 32) }

abbrev pub cycle_bit : Trb → ℕ
cycle_bit t = field 0 1 t.d3

abbrev pub trb_type : Trb → ℕ
trb_type t = field 10 6 t.d3

-- `bits.trb_type = Type` on the zero words.
abbrev pub of_type : ℕ → Trb
of_type type = record zero_trb { d3 = set_field 10 6 type 0 }

-- The 60-bit pointer fields, which leave the low four bits out.
abbrev pub pointer60 : Trb → ℕ
pointer60 t = field 4 60 (parameter t) * 2 ^ 4

abbrev pub set_pointer60 : ℕ → Trb → Trb
set_pointer60 p t = set_parameter (set_field 4 60 (p / 2 ^ 4) (parameter t)) t

-- `TRBDynamicCast<ToType>`, with `ToType::Type` as an argument.
unfoldable pub trb_dynamic_cast : ℕ → Trb → Option Trb
trb_dynamic_cast type t = if type == trb_type t then some t else none
