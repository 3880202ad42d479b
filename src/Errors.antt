-- ===== src/Errors.antt =====
-- kernel/error.hpp: the error codes. `MAKE_ERROR` adds a file and a line, which only messages show,
-- so a result is its code; `success` is the code that converts to `false`.
use Prim.Native.String.{String}
use mikanos_m1mac.Base.{ℕ, Bool, true, false, Option, List, [], ◌∷◌, get_elem?}

pub data Code : Type 0 where
  success full empty no_enough_memory index_out_of_range host_controller_not_halted : Code
  invalid_slot_id port_not_connected invalid_endpoint_number transfer_ring_not_set : Code
  already_allocated not_implemented invalid_descriptor buffer_too_small unknown_device : Code
  no_corresponding_setup_stage transfer_failed invalid_phase unknown_xhci_speed_id no_waiter : Code
  last_of_code : Code

pub Code-discrete : Discrete Code
Code-discrete = hlevel

-- `operator bool`
abbrev pub is_error : Code → Bool
is_error success = false
is_error _ = true

-- `static_cast<int>(code)`
abbrev pub code_index : Code → ℕ
code_index success = 0
code_index full = 1
code_index empty = 2
code_index no_enough_memory = 3
code_index index_out_of_range = 4
code_index host_controller_not_halted = 5
code_index invalid_slot_id = 6
code_index port_not_connected = 7
code_index invalid_endpoint_number = 8
code_index transfer_ring_not_set = 9
code_index already_allocated = 10
code_index not_implemented = 11
code_index invalid_descriptor = 12
code_index buffer_too_small = 13
code_index unknown_device = 14
code_index no_corresponding_setup_stage = 15
code_index transfer_failed = 16
code_index invalid_phase = 17
code_index unknown_xhci_speed_id = 18
code_index no_waiter = 19
code_index last_of_code = 20

abbrev pub code_names : List String
code_names =
    "kSuccess" ∷ "kFull" ∷ "kEmpty" ∷ "kNoEnoughMemory" ∷ "kIndexOutOfRange"
    ∷ "kHostControllerNotHalted" ∷ "kInvalidSlotID" ∷ "kPortNotConnected" ∷ "kInvalidEndpointNumber"
    ∷ "kTransferRingNotSet" ∷ "kAlreadyAllocated" ∷ "kNotImplemented" ∷ "kInvalidDescriptor"
    ∷ "kBufferTooSmall" ∷ "kUnknownDevice" ∷ "kNoCorrespondingSetupStage" ∷ "kTransferFailed"
    ∷ "kInvalidPhase" ∷ "kUnknownXHCISpeedID" ∷ "kNoWaiter" ∷ []

-- `none` is a read behind the array.
unfoldable pub name : Code → Option String
name code = get_elem? code_names (code_index code)

-- `WithError<T>`
pub record WithError {ℓ} (T : Type ℓ) : Type ℓ where
  pub value : T
  pub error : Code
