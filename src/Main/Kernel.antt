-- ===== src/Main/Kernel.antt =====
-- `KernelMain` of kernel/main.cpp, from the scan of the PCI buses to the loop over events. Its drawing
-- is `draw_desktop`, and its messages are left out.
use mikanos_m1mac.Base.{
  ℕ, ◌<◌, refl, if◌then◌else◌, List, take, replicate, Option, none, some, arith,
}
use mikanos_m1mac.Outcome.{Outcome, returned, out_of_fuel, ◌>>=◌, Holds, then-Holds, >>=-Holds}
use mikanos_m1mac.Mmio.{Mmio}
use mikanos_m1mac.Pci.{Device}
use mikanos_m1mac.Pci.Scan.{Found, Scanned, scan_all_bus}
use mikanos_m1mac.EventRing.{Dma, EventRing}
use mikanos_m1mac.Controller.{Devices, State, Base, not_connected}
use mikanos_m1mac.Controller.Phases.{IsPhased}
use mikanos_m1mac.Controller.Process.{NamesPort, next_event}
use mikanos_m1mac.Controller.Startup.{Start, initialize, run, new}
use mikanos_m1mac.Main.{
  is_intel, choose_xhc, switch_ehci2xhci, xhc_mmio_base, configure_ports, process_events,
}
use mikanos_m1mac.Main.Runs.{kernel-Ready}

-- `configure` writes to the PCI configuration space, and `devices_of` is the view of the device
-- manager that `Devices` gives, once it is initialised.
module _ {ℓ κ} {H : Type ℓ} {D : Type κ} (conf : ℕ → ℕ) (mmio : Mmio H) (ops : Devices D)
    (dma : Dma H) (fuel memory_pool : ℕ) (configure : List (ℕ × ℕ) → H → H)
    (devices_of : Start H → D) where
  -- The controller's part of the kernel's state, when the ports are looked at for the first time.
  abbrev pub driver : H → Start H → State H D
  driver h s = record {
    hardware = h;
    devices = devices_of s;
    command_ring = s.command_ring;
    port_config_phase = replicate 256 not_connected;
    addressing_port = 0;
  }

  -- `Initialize` and `Run`, and the loops over the ports and over so many events. The result of
  -- `Initialize` is only reported.
  unfoldable pub drive : ℕ → List Device → Device → Start H → Outcome (EventRing × State H D)
  drive rounds devices xhc_dev s =
      let made = new mmio fuel (xhc_mmio_base conf xhc_dev) s.hardware in
      let h =
        if is_intel conf xhc_dev
        then configure (switch_ehci2xhci conf devices xhc_dev) made.2
        else made.2 in
      initialize mmio fuel memory_pool dma made.0 (record s { hardware = h }) >>= λ r.
      run mmio fuel made.0.op r.1.hardware >>= λ h'.
      configure_ports mmio ops made.0 fuel 1 made.1 (driver h' r.1)
      >>= process_events mmio ops made.0 fuel dma rounds r.1.event_ring

  -- Without a controller the kernel halts.
  unfoldable pub with_xhc :
      ℕ → List Device → Option Device → Start H → Outcome (Option (EventRing × State H D))
  with_xhc rounds devices none s = returned none
  with_xhc rounds devices (some xhc_dev) s =
      drive rounds devices xhc_dev s >>= λ r. returned (some r)

  -- The result of the scan is only reported.
  unfoldable pub after_scan : ℕ → Scanned → Start H → Outcome (Option (EventRing × State H D))
  after_scan rounds none s = out_of_fuel
  after_scan rounds (some (code, found)) s =
      let devices = take found.num_device found.devices in
      with_xhc rounds devices (choose_xhc conf devices none) s

  unfoldable pub kernel_main : ℕ → Found → Start H → Outcome (Option (EventRing × State H D))
  kernel_main rounds found s = after_scan rounds (scan_all_bus conf 33 found) s

  -- Not more than one port is between its reset and its address, and that is the addressing port.
  abbrev pub Phased : Option (EventRing × State H D) → Type 0
  Phased none = Unit
  Phased (some (ring, s)) = IsPhased s.port_config_phase s.addressing_port

  few_ports : (mmio_base : ℕ) (h : H) → (new mmio fuel mmio_base h).1 < 256
  unfolding new
  few_ports mmio_base h = omega arith

  module _
      (names : (base : Base) (ring : EventRing) (s : State H D)
        → NamesPort (next_event mmio ops base fuel dma ring s)) where
    drive-Phased :
        (rounds : ℕ) (devices : List Device) (xhc_dev : Device) (s : Start H)
        → Holds
            (λ r. IsPhased r.1.port_config_phase r.1.addressing_port)
            (drive rounds devices xhc_dev s)
    unfolding drive
    drive-Phased rounds devices xhc_dev s =
        let base = (new mmio fuel (xhc_mmio_base conf xhc_dev) s.hardware).0 in
        then-Holds _ (initialize mmio fuel memory_pool dma base _) _ (λ r.
          then-Holds _ (run mmio fuel base.op r.1.hardware) _ (λ h'.
            kernel-Ready mmio ops base fuel dma _ rounds r.1.event_ring (driver h' r.1)
              (few_ports _ s.hardware) (refl, refl) (names base)))

    with_xhc-Phased :
        (rounds : ℕ) (devices : List Device) (found : Option Device) (s : Start H)
        → Holds Phased (with_xhc rounds devices found s)
    unfolding with_xhc
    with_xhc-Phased rounds devices none s = tt
    with_xhc-Phased rounds devices (some xhc_dev) s =
        >>=-Holds _ Phased (drive rounds devices xhc_dev s) _
          (drive-Phased rounds devices xhc_dev s) (λ r h. h)

    after_scan-Phased :
        (rounds : ℕ) (scanned : Scanned) (s : Start H) → Holds Phased (after_scan rounds scanned s)
    unfolding after_scan
    after_scan-Phased rounds none s = tt
    after_scan-Phased rounds (some (code, found)) s = with_xhc-Phased rounds _ _ s

    -- Where `KernelMain`, from the scan of the buses through any number of events, gets that far:
    -- whatever the configuration space, the hardware and the devices hold, no port but the addressing
    -- port is between its reset and its address, as long as the events about ports name one.
    pub kernel_main-Phased :
        (rounds : ℕ) (found : Found) (s : Start H) → Holds Phased (kernel_main rounds found s)
    unfolding kernel_main
    kernel_main-Phased rounds found s = after_scan-Phased rounds _ s
