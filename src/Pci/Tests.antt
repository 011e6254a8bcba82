-- ===== src/Pci/Tests.antt =====
-- An example for the scan of the PCI bus.
use esz_os.Base.{ℕ, ◌≡◌, ◌==◌, if◌then◌else◌, length}
use esz_os.Pci.{PciDevice, read_device, count_pci_devices, get_pci_devices}
use esz_os.Pci.Present.{AreDescribed, present_below}
use esz_os.Pci.Scan.{get_pci_devices-AreDescribed}

-- One device, an AHCI controller at bus 0, device 2.
abbrev one_controller : ℕ → ℕ
one_controller address =
    if address == 0x80001000
    then 0x29228086
    else if address == 0x80001008
    then 0x01060102
    else 0xFFFFFFFF

abbrev fresh_entries : ℕ → PciDevice
unfolding read_device
fresh_entries k = read_device one_controller 0 0 0

get_pci_devices-AreDescribed_example :
    (count_pci_devices one_controller ≡ length (present_below one_controller 65536))
    × ((get_pci_devices one_controller fresh_entries).device_counter
        ≡ count_pci_devices one_controller)
    × AreDescribed one_controller
        ((get_pci_devices one_controller fresh_entries).found_pci_devices)
        (present_below one_controller 65536)
get_pci_devices-AreDescribed_example = get_pci_devices-AreDescribed one_controller fresh_entries
