-- ===== src/Lib.antt =====
-- The kernel of MikanOS: a PCI scan finds the USB host controller (xHCI), whose driver enumerates the
-- devices and gives their reports to class drivers; a frame buffer shows a text console and a mouse
-- cursor. Modelled are the parts below; numbers are natural numbers, and a machine word's wrap-around
-- is written out.
--
-- Memory      kernel/usb/memory.cpp: alloc_mem is AllocMem, alloc_array is AllocArray. The state is
--             alloc_ptr; the address of memory_pool is a parameter.
-- ArrayMap    kernel/usb/arraymap.hpp: get, put and delete on the table of slots, for any type of
--             keys with an equality.
-- Errors      kernel/error.hpp: the error codes, their names, and WithError.
-- Trb         kernel/usb/xhci/trb.hpp: the four words of a TRB, and in its children each class with
--             its type, constructor and bit fields.
-- Ring        kernel/usb/xhci/ring.cpp: Ring::Initialize, CopyToLast and Push over the memory of the
--             ring. Ring.Reader is the consumer of such a ring as the xHCI specification has it: it
--             reads a slot when the cycle bit is its own, and follows link TRBs.
-- SetupData   kernel/usb/setupdata.hpp: control requests.
-- Endpoint    kernel/usb/endpoint.hpp: endpoint addresses and configurations.
-- Descriptor  kernel/usb/descriptor.hpp: descriptors in a buffer of bytes.
-- Transfer    kernel/usb/xhci/device.cpp: ControlIn, ControlOut, InterruptIn and InterruptOut push
--             TRBs on a Ring and enter the issuing TRB in an ArrayMap; Transfer.Event is
--             OnTransferEventReceived, which finds the request again.
-- Usb         kernel/usb/device.cpp: the descriptor reader, the choice of a class driver and the
--             phases of initialisation. Usb.Order has the completed transfers as a step relation, Served
--             and Ready follow the endpoints and their drivers through it.
-- Slots       kernel/usb/xhci/devmgr.cpp: DeviceManager, with the memory of Memory; where a free slot
--             and an empty pool make the code follow a null pointer, the result is none. Slots.Tables
--             follows the tables through the calls.
-- Hid         kernel/usb/classdriver/hid.cpp, keyboard.cpp and mouse.cpp: the HID drivers' phases, which
--             keys a keyboard report pushes, and how a mouse report moves the cursor.
-- Pci         kernel/pci.cpp: reads of the configuration space, a function of CONFIG_ADDRESS that is a
--             parameter, and the scan for devices.
-- Screen      kernel/graphics.cpp, font.cpp, console.cpp and mouse.cpp: drawing as the list of the
--             pixels that are written, the console's rows and the cursor's moves. Screen.Lines has the
--             console as a list of lines, and Paint, Ink, Display, Seen and Printed follow what is seen
--             on the screen at one place; Frame and Bytes are the bytes of the frame buffer behind it.
-- Outcome     results of code that may loop without end or follow a null pointer.
-- Mmio        kernel/register.hpp: memory-mapped registers. The hardware is a parameter with a state of
--             its own, which reads change too.
-- Registers   kernel/usb/xhci/registers.hpp and registers.cpp: offsets and bit fields, the list of
--             extended capabilities, and in Registers.Layout the bitmaps as declared.
-- Port        kernel/usb/xhci/port.cpp: the tests of PORTSC, Reset and the clearing of change bits.
-- Context     kernel/usb/xhci/context.hpp: slot, endpoint and input contexts as words.
-- EventRing   kernel/usb/xhci/ring.cpp: EventRing. EventRing.Laws has the controller as the
--             writer, and EventRing.Start what Initialize leaves.
-- Controller  kernel/usb/xhci/xhci.cpp: Ports is ResetPort, EnableSlot and ConfigurePort; Address is
--             AddressDevice, InitializeDevice and CompleteConfiguration; Endpoints is
--             ConfigureEndpoints; Events has the three OnEvent; Dispatch is ProcessEvent; Startup is
--             Initialize and Run. Devices is the interface to the devices in their slots. Phases,
--             Effects, Progress, Handlers, Addressed, Process and Reachable follow the phases of the
--             ports through each function and through runs.
-- Main        kernel/main.cpp and logger.cpp: the choice of the controller, the two loops of
--             KernelMain, and the filter of Log. Main.Kernel is KernelMain from the scan of the buses on.
-- Loader      MikanLoaderPkg/Main.c: CalcLoadAddressRange, the number of pages that are asked for, and
--             CopyLoadSegments, over the list of the program headers; CopyMem and SetMem are an
--             interface. Loader.Range has the instance that records what is written. Loader.Boot is
--             UefiMain over the firmware's services, an interface in Loader.Firmware; Loader.Map is
--             the memory map and its file; Handover and Working are about how the kernel is entered,
--             and Services is what the loader relies on.
-- Base        what the parts share: tests and lists over the native numbers, words, bit fields, and
--             the operators & and | at variables.
--
-- Fuel: scan_bus takes the depth of bridges as fuel, and 33 is enough, since each bridge takes one of
-- the 32 places in the array of devices first. next_of, read_endpoints and find_interface take a number
-- of steps; for next_of, as many as bytes are left and one more are enough where no descriptor has
-- length 0, and with such a descriptor, unless it is of the kind looked for, no number is enough.
--
-- A loop that waits for a register runs on fuel; it is enough when the hardware changes the register
-- within that many reads, which only the hardware can promise.
--
-- Not modelled: the firmware, which the loader calls, the texts of messages, which vsprintf makes, and the construction of
-- the global objects. The memory for class drivers is taken to be there. What the C++ language leaves
-- undefined, such as a null pointer that is followed, is a result of its own; a transfer to endpoint
-- address 0, which has no ring, is taken to find none. In Controller the devices are any that fit the
-- interface: it is not yet filled by the models of Slots, Transfer and Usb. A command completion that
-- does not point to the command ring finds a TRB of zeros.
pub mod ArrayMap
pub mod Base
pub mod Context
pub mod Controller
pub mod Descriptor
pub mod Endpoint
pub mod Errors
pub mod EventRing
pub mod Hid
pub mod Loader
pub mod Main
pub mod Memory
pub mod Mmio
pub mod Outcome
pub mod Pci
pub mod Port
pub mod Registers
pub mod Ring
pub mod Screen
pub mod SetupData
pub mod Slots
pub mod Transfer
pub mod Trb
pub mod Usb
