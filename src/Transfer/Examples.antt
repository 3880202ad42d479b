-- ===== src/Transfer/Examples.antt =====
-- GET_DESCRIPTOR on the default control pipe of a fresh device.
use mikanos_m1mac.Base.{
  ℕ, nat_Eq, ◌+◌, ◌-◌, ◌*◌, ◌/◌, ◌%◌, ◌<◌, ◌≡◌, refl, ap, true, some, none, [], ◌∷◌,
  get_or-replicate, replicate, arith,
}
use mikanos_m1mac.Errors.{success}
use mikanos_m1mac.Trb.{Trb, zero_trb}
use mikanos_m1mac.Trb.TransferEvent as TransferEvent
use mikanos_m1mac.ArrayMap.{Slot, get}
use mikanos_m1mac.Ring.{Ring, address}
use mikanos_m1mac.Ring.Writes.{stamp}
use mikanos_m1mac.Ring.Invariant.{IsRing, slot}
use mikanos_m1mac.SetupData.{SetupData}
use mikanos_m1mac.Transfer.{Device, control_in, make_setup_stage_trb, blank}
use mikanos_m1mac.Transfer.Event.{Completions, on_transfer_event, minus32, setup_data_of}
use mikanos_m1mac.Transfer.Setup.{IsSetup, setup_data_of-make}
use mikanos_m1mac.Transfer.Control.{CanSend, sent, forget, control_in-completes}

abbrev request : SetupData
request = record { request_type = 0x80; request = 6; value = 0x0100; index = 0; length = 18 }

request-IsSetup : IsSetup request
request-IsSetup = record {
  request_type_byte = omega arith;
  request_byte = omega arith;
  value_word = omega arith;
  index_word = omega arith;
  length_word = omega arith;
}

setup_data_of-make_example : setup_data_of (stamp true (make_setup_stage_trb request 3)) ≡ request
setup_data_of-make_example = setup_data_of-make request 3 true request-IsSetup

abbrev ring : Ring
ring = record {
  buf = some 0x1000;
  mem = replicate 32 zero_trb;
  buf_size = 32;
  cycle_bit = true;
  write_index = 0;
}

ring-IsRing : IsRing ring
ring-IsRing = record {
  two_slots = omega arith;
  small = omega arith;
  memory = refl;
  in_range = omega arith;
  aligned = refl;
  base = omega arith;
  behind = λ i h. absurd (omega arith);
  ahead = λ i low high. ap (λ (t : Trb). t.d3 / 1 % 2) (get_or-replicate 32 i zero_trb);
}

abbrev vacant : Slot ℕ ℕ
vacant = record { first = none; second = 0 }

abbrev device : Device
device = record {
  state = blank;
  event_waiters = [];
  transfer_rings = some ring ∷ replicate 30 none;
  setup_stage_map = replicate 16 vacant;
  doorbells = [];
}

vacant_map : get 0x1010 device.setup_stage_map ≡ none
unfolding get
vacant_map = refl

device-CanSend : CanSend 1 0x2000 256 0 request ring device
device-CanSend = record {
  number = omega arith;
  ring = ring-IsRing;
  attached = refl;
  some_buf = λ e. omega arith;
  buf_word = omega arith;
  len_bits = omega arith;
  request = request-IsSetup;
  stages = omega arith;
  unused = vacant_map;
  free = omega arith;
}

-- Completion code 1, nothing left, slot 1, endpoint 1; the data stage is at 0x1010.
abbrev event : Trb
event = record { d0 = 0x1010; d1 = 0; d2 = 0x0100_0000; d3 = 0x0101_8001 }

abbrev memory : ℕ → Trb
memory p = slot (sent request 0x2000 256 ring) ((p - 0x1000) / 16)

abbrev ignore : Completions
ignore = record {
  on_control = λ ep s buf len d. (success, d);
  on_interrupt = λ ep buf len d. (success, d);
}

shown :
    (i : ℕ)
    → i < ring.buf_size
    → memory (address ring.buf + 16 * i) ≡ slot (sent request 0x2000 256 ring) i
shown i h =
    ap (λ n. slot (sent request 0x2000 256 ring) n) {x = (0x1000 + 16 * i - 0x1000) / 16} {y = i}
      (omega arith)

control_in-completes_example :
    ((control_in 1 request 0x2000 256 0 device).0 ≡ success)
    × (on_transfer_event memory ignore event (control_in 1 request 0x2000 256 0 device).1
        ≡ ignore.on_control
            (TransferEvent.endpoint_id event)
            request
            0x2000
            (minus32 256 (TransferEvent.trb_transfer_length event))
            (forget 1 0x2000 256 0 request ring device device-CanSend
              (control_in 1 request 0x2000 256 0 device).1))
control_in-completes_example =
    control_in-completes 1 0x2000 256 0 request ring device device-CanSend memory ignore event shown
      refl refl
