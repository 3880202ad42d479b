-- ===== src/Trb/Names.antt =====
-- kernel/usb/xhci/trb.cpp: the names of completion codes and of types, for messages.
use Prim.Native.String.{String}
use mikanos_m1mac.Base.{◌<◌, ◌≡◌, refl, List, [], ◌∷◌, length, some, get_elem?, arith}
use mikanos_m1mac.Trb.{Trb, trb_type}
use mikanos_m1mac.Trb.Normal as Normal
use mikanos_m1mac.Trb.SetupStage as SetupStage
use mikanos_m1mac.Trb.DataStage as DataStage
use mikanos_m1mac.Trb.StatusStage as StatusStage
use mikanos_m1mac.Trb.Link as Link
use mikanos_m1mac.Trb.NoOp as NoOp
use mikanos_m1mac.Trb.EnableSlotCommand as EnableSlotCommand
use mikanos_m1mac.Trb.AddressDeviceCommand as AddressDeviceCommand
use mikanos_m1mac.Trb.ConfigureEndpointCommand as ConfigureEndpointCommand
use mikanos_m1mac.Trb.StopEndpointCommand as StopEndpointCommand
use mikanos_m1mac.Trb.NoOpCommand as NoOpCommand
use mikanos_m1mac.Trb.TransferEvent as TransferEvent
use mikanos_m1mac.Trb.CommandCompletionEvent as CommandCompletionEvent
use mikanos_m1mac.Trb.PortStatusChangeEvent as PortStatusChangeEvent

-- `kTRBCompletionCodeToName`
abbrev pub completion_code_names : List String
completion_code_names =
    "Invalid" ∷ "Success" ∷ "Data Buffer Error" ∷ "Babble Detected Error" ∷ "USB Transaction Error"
    ∷ "TRB Error" ∷ "Stall Error" ∷ "Resource Error" ∷ "Bandwidth Error"
    ∷ "No Slots Available Error" ∷ "Invalid Stream Type Error" ∷ "Slot Not Enabled Error"
    ∷ "Endpoint Not Enabled Error" ∷ "Short Packet" ∷ "Ring Underrun" ∷ "Ring Overrun"
    ∷ "VF Event Ring Full Error" ∷ "Parameter Error" ∷ "Bandwidth Overrun Error"
    ∷ "Context State Error" ∷ "No ping Response Error" ∷ "Event Ring Full Error"
    ∷ "Incompatible Device Error" ∷ "Missed Service Error" ∷ "Command Ring Stopped"
    ∷ "Command Aborted" ∷ "Stopped" ∷ "Stopped - Length Invalid" ∷ "Stopped - Short Packet"
    ∷ "Max Exit Latency Too Large Error" ∷ "Reserved" ∷ "Isoch Buffer Overrun" ∷ "Event Lost Error"
    ∷ "Undefined Error" ∷ "Invalid Stream ID Error" ∷ "Secondary Bandwidth Error"
    ∷ "Split Transaction Error" ∷ []

-- `kTRBTypeToName`
abbrev pub type_names : List String
type_names =
    "Reserved" ∷ "Normal" ∷ "Setup Stage" ∷ "Data Stage" ∷ "Status Stage" ∷ "Isoch" ∷ "Link"
    ∷ "EventData" ∷ "No-Op" ∷ "Enable Slot Command" ∷ "Disable Slot Command"
    ∷ "Address Device Command" ∷ "Configure Endpoint Command" ∷ "Evaluate Context Command"
    ∷ "Reset Endpoint Command" ∷ "Stop Endpoint Command" ∷ "Set TR Dequeue Pointer Command"
    ∷ "Reset Device Command" ∷ "Force Event Command" ∷ "Negotiate Bandwidth Command"
    ∷ "Set Latency Tolerance Value Command" ∷ "Get Port Bandwidth Command" ∷ "Force Header Command"
    ∷ "No Op Command" ∷ "Reserved" ∷ "Reserved" ∷ "Reserved" ∷ "Reserved" ∷ "Reserved" ∷ "Reserved"
    ∷ "Reserved" ∷ "Reserved" ∷ "Transfer Event" ∷ "Command Completion Event"
    ∷ "Port Status Change Event" ∷ "Bandwidth Request Event" ∷ "Doorbell Event"
    ∷ "Host Controller Event" ∷ "Device Notification Event" ∷ "MFINDEX Wrap Event" ∷ "Reserved"
    ∷ "Reserved" ∷ "Reserved" ∷ "Reserved" ∷ "Reserved" ∷ "Reserved" ∷ "Reserved" ∷ "Reserved"
    ∷ "Vendor Defined" ∷ "Vendor Defined" ∷ "Vendor Defined" ∷ "Vendor Defined" ∷ "Vendor Defined"
    ∷ "Vendor Defined" ∷ "Vendor Defined" ∷ "Vendor Defined" ∷ "Vendor Defined" ∷ "Vendor Defined"
    ∷ "Vendor Defined" ∷ "Vendor Defined" ∷ "Vendor Defined" ∷ "Vendor Defined" ∷ "Vendor Defined"
    ∷ "Vendor Defined" ∷ []

-- The six bits of a type cannot index past the table.
type_named : (t : Trb) → (length type_names ≡ 64) × (trb_type t < length type_names)
type_named t = omega arith

-- The types of the classes stand where their names do.
types_named :
    (get_elem? type_names Normal.type ≡ some "Normal")
    × (get_elem? type_names SetupStage.type ≡ some "Setup Stage")
    × (get_elem? type_names DataStage.type ≡ some "Data Stage")
    × (get_elem? type_names StatusStage.type ≡ some "Status Stage")
    × (get_elem? type_names Link.type ≡ some "Link")
    × (get_elem? type_names NoOp.type ≡ some "No-Op")
    × (get_elem? type_names EnableSlotCommand.type ≡ some "Enable Slot Command")
    × (get_elem? type_names AddressDeviceCommand.type ≡ some "Address Device Command")
    × (get_elem? type_names ConfigureEndpointCommand.type ≡ some "Configure Endpoint Command")
    × (get_elem? type_names StopEndpointCommand.type ≡ some "Stop Endpoint Command")
    × (get_elem? type_names NoOpCommand.type ≡ some "No Op Command")
    × (get_elem? type_names TransferEvent.type ≡ some "Transfer Event")
    × (get_elem? type_names CommandCompletionEvent.type ≡ some "Command Completion Event")
    × (get_elem? type_names PortStatusChangeEvent.type ≡ some "Port Status Change Event")
types_named = (refl, refl, refl, refl, refl, refl, refl, refl, refl, refl, refl, refl, refl, refl)
