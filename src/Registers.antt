-- ===== src/Registers.antt =====
-- kernel/usb/xhci/registers.hpp: where the registers of the controller are, and their bit fields, as
-- far as the driver uses them.
pub mod Capability
pub mod Operational
pub mod PortStatus
pub mod Interrupter
pub mod Extended
pub mod Layout
