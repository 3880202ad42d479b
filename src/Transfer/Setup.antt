-- ===== src/Transfer/Setup.antt =====
-- A request in a setup stage, and back; and the data stage.
use mikanos_m1mac.Base.{ℕ, ◌^◌, ◌<◌, ◌≡◌, Bool, true, false, arith}
use mikanos_m1mac.Trb.{Trb, IsWords, trb_type}
use mikanos_m1mac.Trb.DataStage as DataStage
use mikanos_m1mac.Ring.Writes.{stamp}
use mikanos_m1mac.SetupData.{SetupData}
use mikanos_m1mac.Transfer.{make_setup_stage_trb, make_data_stage_trb}
use mikanos_m1mac.Transfer.Event.{setup_data_of}

-- The widths of the members.
pub record IsSetup (s : SetupData) : Type 0 where
  pub request_type_byte : s.request_type < 2 ^ 8
  pub request_byte : s.request < 2 ^ 8
  pub value_word : s.value < 2 ^ 16
  pub index_word : s.index < 2 ^ 16
  pub length_word : s.length < 2 ^ 16

-- A request comes back from the setup stage that it was put in, whatever the transfer type and the
-- cycle bit.
pub setup_data_of-make :
    (s : SetupData) (transfer_type : ℕ) (cycle : Bool)
    → IsSetup s
    → setup_data_of (stamp cycle (make_setup_stage_trb s transfer_type)) ≡ s
unfolding setup_data_of make_setup_stage_trb
setup_data_of-make s transfer_type cycle v =
    λ i. record { request_type = p0 i; request = p1 i; value = p2 i; index = p3 i; length = p4 i }
  where
    out : SetupData
    out = setup_data_of (stamp cycle (make_setup_stage_trb s transfer_type))

    p0 : out.request_type ≡ s.request_type
    p0 = omega (arith, v.request_type_byte, v.request_byte, v.value_word)

    p1 : out.request ≡ s.request
    p1 = omega (arith, v.request_type_byte, v.request_byte, v.value_word)

    p2 : out.value ≡ s.value
    p2 = omega (arith, v.request_type_byte, v.request_byte, v.value_word)

    p3 : out.index ≡ s.index
    p3 = omega (arith, v.index_word, v.length_word)

    p4 : out.length ≡ s.length
    p4 = omega (arith, v.index_word, v.length_word)

pub make_setup_stage-IsWords :
    (s : SetupData) (transfer_type : ℕ) → IsWords (make_setup_stage_trb s transfer_type)
unfolding make_setup_stage_trb
make_setup_stage-IsWords s transfer_type = record {
  word0 = omega arith;
  word1 = omega arith;
  word2 = omega arith;
  word3 = omega arith;
}

pub make_setup_stage-type :
    (s : SetupData) (transfer_type : ℕ) (cycle : Bool)
    → trb_type (stamp cycle (make_setup_stage_trb s transfer_type)) ≡ 2
unfolding make_setup_stage_trb
make_setup_stage-type s transfer_type true = omega arith
make_setup_stage-type s transfer_type false = omega arith

-- The data stage of `ControlIn`.
abbrev pub data_in : ℕ → ℕ → Trb
data_in buf len = DataStage.set_interrupt_on_completion true (make_data_stage_trb buf len true)

pub data_in-IsWords : (buf len : ℕ) → IsWords (data_in buf len)
unfolding make_data_stage_trb
data_in-IsWords buf len = record {
  word0 = omega arith;
  word1 = omega arith;
  word2 = omega arith;
  word3 = omega arith;
}

pub data_in-fields :
    (buf len : ℕ) (cycle : Bool)
    → buf < 2 ^ 64
    → len < 2 ^ 17
    → (trb_type (stamp cycle (data_in buf len)) ≡ 3)
      × (DataStage.pointer (stamp cycle (data_in buf len)) ≡ buf)
      × (DataStage.trb_transfer_length (stamp cycle (data_in buf len)) ≡ len)
unfolding make_data_stage_trb
data_in-fields buf len true hb hl = (omega arith, omega arith, omega arith)
data_in-fields buf len false hb hl = (omega arith, omega arith, omega arith)
