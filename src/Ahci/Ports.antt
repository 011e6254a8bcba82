-- ===== src/Ahci/Ports.antt =====
-- Which ports have a disk: `find_ahci_controller` and `find_ready_ports` of
-- kernel/io/ahci/ahci.cpp. That the registers are mapped is a condition of the caller's.
use esz_os.Base.{
  ℕ, zero, suc, ◌+◌, ◌/◌, ◌%◌, ◌^◌, Bool, false, not, ◌&&◌, ◌==◌, if◌then◌else◌, Option, none, some,
}
use esz_os.Pci.{PciDevice}
use esz_os.Ahci.{AhciPort, Monitor, Ahci, prepare_port}

-- The loop over the found devices.
unfoldable pub controller_from : ℕ → ℕ → (ℕ → PciDevice) → Option PciDevice
controller_from zero i devices = none
controller_from (suc left) i devices =
    let rest = controller_from left (i + 1) devices in
    if (devices i).class_code == 0x1 && (devices i).subclass == 0x6 then some (devices i) else rest

unfoldable pub find_ahci_controller : ℕ → (ℕ → PciDevice) → Option PciDevice
unfolding controller_from
find_ahci_controller amount devices = controller_from amount 0 devices

-- The ports and the driver, and the ready ports so far.
pub record PortScan : Type 0 where
  pub ports : ℕ → AhciPort
  pub driver : Ahci
  pub ready_ports : ℕ → ℕ
  pub ready_port_count : ℕ

unfoldable pub put_port : (ℕ → AhciPort) → ℕ → AhciPort → ℕ → AhciPort
put_port ports i p k = if k == i then p else ports k

-- What the loop does for a port that the controller has.
unfoldable pub try_port : (ℕ → Monitor) → (ℕ → ℕ) → ℕ → PortScan → PortScan
unfolding put_port
try_port monitors signature i sc =
    let (prepared, (port, s)) = prepare_port (monitors i) (sc.ports i) 0 (sc.driver) in
    let sc' = record sc { ports = put_port (sc.ports) i port; driver = s } in
    if not prepared then sc' else if not (signature i == 0x101) then sc' else record sc' {
      ready_ports = λ k. if k == sc.ready_port_count then i else sc.ready_ports k;
      ready_port_count = sc.ready_port_count + 1;
    }

unfoldable pub ports_from : ℕ → ℕ → ℕ → (ℕ → Monitor) → (ℕ → ℕ) → PortScan → PortScan
unfolding try_port
ports_from zero i pi monitors signature sc = sc
ports_from (suc left) i pi monitors signature sc =
    ports_from left (i + 1) pi monitors signature
      (if pi / 2 ^ i % 2 == 1 then try_port monitors signature i sc else sc)

-- `success` is the answer of map_pages.
unfoldable pub find_ready_ports : Bool → ℕ → (ℕ → Monitor) → (ℕ → ℕ) → PortScan → Bool × PortScan
unfolding ports_from
find_ready_ports success pi monitors signature sc =
    let sc' = ports_from 32 0 pi monitors signature sc in
    if not success then (false, sc) else (not (sc'.ready_port_count == 0), sc')
