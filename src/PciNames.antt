-- ===== src/PciNames.antt =====
-- The names of PCI classes: kernel/helper/pci_class_names/pci_class_names.cpp. One definition per
-- inner switch; `resolve_class_name` is the outer one.
pub mod Laws
use Prim.Native.String.{String}
use esz_os.Base.{ℕ, ◌==◌, if◌then◌else◌}

pub record PciClassInfo : Type 0 where
  pub class_name : String
  pub sub_class_name : String

unfoldable pub unclassified_name : ℕ → String
unclassified_name code =
    if code == 0x0
    then "Non-VGA-Compatible Unclassified Device"
    else if code == 0x1
    then "VGA-Compatible Unclassified Device"
    else ""

unfoldable pub mass_storage_name : ℕ → String
mass_storage_name code =
    if code == 0x0
    then "SCSI Bus Controller"
    else if code == 0x1
    then "IDE Controller"
    else if code == 0x2
    then "Floppy Disk Controller"
    else if code == 0x3
    then "IPI Bus Controller"
    else if code == 0x4
    then "RAID Controller"
    else if code == 0x5
    then "ATA Controller"
    else if code == 0x6
    then "Serial ATA Controller"
    else if code == 0x7
    then "Serial Attached SCSI Controller"
    else if code == 0x8
    then "Non-Volatile Memory Controller"
    else if code == 0x80
    then "Other"
    else ""

unfoldable pub network_name : ℕ → String
network_name code =
    if code == 0x0
    then "Ethernet Controller"
    else if code == 0x1
    then "Token Ring Controller"
    else if code == 0x2
    then "FDDI Controller"
    else if code == 0x3
    then "ATM Controller"
    else if code == 0x4
    then "ISDN Controller"
    else if code == 0x5
    then "WorldFip Controller"
    else if code == 0x6
    then "PICMG 2.14 Multi Computing Controller"
    else if code == 0x7
    then "Infiniband Controller"
    else if code == 0x8
    then "Fabric Controller"
    else if code == 0x80
    then "Other"
    else ""

unfoldable pub display_name : ℕ → String
display_name code =
    if code == 0x0
    then "VGA Compatible Controller"
    else if code == 0x1
    then "XGA Controller"
    else if code == 0x2
    then "3D Controller (Not VGA-Compatible)"
    else if code == 0x80
    then "Other"
    else ""

unfoldable pub multimedia_name : ℕ → String
multimedia_name code =
    if code == 0x0
    then "Multimedia Video Controller"
    else if code == 0x1
    then "Multimedia Audio Controller"
    else if code == 0x2
    then "Computer Telephony Device"
    else if code == 0x3
    then "Audio Device"
    else if code == 0x80
    then "Other"
    else ""

unfoldable pub memory_name : ℕ → String
memory_name code =
    if code == 0x0
    then "RAM Controller"
    else if code == 0x1
    then "Flash Controller"
    else if code == 0x80
    then "Other"
    else ""

unfoldable pub bridge_name : ℕ → String
bridge_name code =
    if code == 0x0
    then "Host Bridge"
    else if code == 0x1
    then "ISA Bridge"
    else if code == 0x2
    then "EISA Bridge"
    else if code == 0x3
    then "MCA Bridge"
    else if code == 0x4
    then "PCI-to-PCI Bridge"
    else if code == 0x5
    then "PCMCIA Bridge"
    else if code == 0x6
    then "NuBus Bridge"
    else if code == 0x7
    then "CardBus Bridge"
    else if code == 0x8
    then "RACEway Bridge"
    else if code == 0x9
    then "PCI-to-PCI Bridge"
    else if code == 0xA
    then "InfiniBand-to-PCI Host Bridge"
    else if code == 0x80
    then "Other"
    else ""

unfoldable pub communication_name : ℕ → String
communication_name code =
    if code == 0x0
    then "Serial Controller"
    else if code == 0x1
    then "Parallel Controller"
    else if code == 0x2
    then "Multiport Serial Controller"
    else if code == 0x3
    then "Modem"
    else if code == 0x4
    then "IEEE 488.1/2 (GPIB) Controller"
    else if code == 0x5
    then "Smart Card Controller"
    else if code == 0x80
    then "Other"
    else ""

unfoldable pub base_system_name : ℕ → String
base_system_name code =
    if code == 0x0
    then "PIC"
    else if code == 0x1
    then "DMA Controller"
    else if code == 0x2
    then "Timer"
    else if code == 0x3
    then "RTC Controller"
    else if code == 0x4
    then "PCI Hot-Plug Controller"
    else if code == 0x5
    then "SD Host controller"
    else if code == 0x6
    then "IOMMU"
    else if code == 0x80
    then "Other"
    else ""

unfoldable pub input_device_name : ℕ → String
input_device_name code =
    if code == 0x0
    then "Keyboard Controller"
    else if code == 0x1
    then "Digitizer Pen"
    else if code == 0x2
    then "Mouse Controller"
    else if code == 0x3
    then "Scanner Controller"
    else if code == 0x4
    then "Gameport Controller"
    else if code == 0x80
    then "Other"
    else ""

unfoldable pub docking_name : ℕ → String
docking_name code = if code == 0x0 then "Generic" else if code == 0x80 then "Other" else ""

unfoldable pub processor_name : ℕ → String
processor_name code =
    if code == 0x0
    then "386"
    else if code == 0x1
    then "486"
    else if code == 0x2
    then "Pentium"
    else if code == 0x3
    then "Pentium Pro"
    else if code == 0x10
    then "Alpha"
    else if code == 0x20
    then "PowerPC"
    else if code == 0x30
    then "MIPS"
    else if code == 0x40
    then "Co-Processor"
    else if code == 0x80
    then "Other"
    else ""

unfoldable pub serial_bus_name : ℕ → String
serial_bus_name code =
    if code == 0x0
    then "FireWire (IEEE 1394) Controller"
    else if code == 0x1
    then "ACCESS Bus Controller"
    else if code == 0x2
    then "SSA"
    else if code == 0x3
    then "USB Controller"
    else if code == 0x4
    then "Fibre Channel"
    else if code == 0x5
    then "SMBus Controller"
    else if code == 0x6
    then "InfiniBand Controller"
    else if code == 0x7
    then "IPMI Interface"
    else if code == 0x8
    then "SERCOS Interface (IEC 61491)"
    else if code == 0x9
    then "CANbus Controller"
    else if code == 0x80
    then "Other"
    else ""

unfoldable pub wireless_name : ℕ → String
wireless_name code =
    if code == 0x0
    then "iRDA Compatible Controller"
    else if code == 0x1
    then "Consumer IR Controller"
    else if code == 0x10
    then "RF Controller"
    else if code == 0x11
    then "Bluetooth Controller"
    else if code == 0x12
    then "Broadband Controller"
    else if code == 0x20
    then "Ethernet Controller (802.1a)"
    else if code == 0x21
    then "Ethernet Controller (802.1b)"
    else if code == 0x80
    then "Other"
    else ""

unfoldable pub intelligent_name : ℕ → String
intelligent_name code = if code == 0x0 then "I2O" else ""

unfoldable pub satellite_name : ℕ → String
satellite_name code =
    if code == 0x1
    then "Satellite TV Controller"
    else if code == 0x2
    then "Satellite Audio Controller"
    else if code == 0x3
    then "Satellite Voice Controller"
    else if code == 0x4
    then "Satellite Data Controller"
    else ""

unfoldable pub encryption_name : ℕ → String
encryption_name code =
    if code == 0x0
    then "Network and Computing Encryption/Decryption"
    else if code == 0x10
    then "Entertainment Encryption/Decryption"
    else if code == 0x80
    then "Other"
    else ""

unfoldable pub signal_processing_name : ℕ → String
signal_processing_name code =
    if code == 0x0
    then "DPIO Modules"
    else if code == 0x1
    then "Performance Counters"
    else if code == 0x10
    then "Communication Synchronizer"
    else if code == 0x20
    then "Signal Processing Management"
    else if code == 0x80
    then "Other"
    else ""

-- The class names, in the order of the cases.
unfoldable pub class_name_of : ℕ → String
class_name_of code =
    if code == 0x0
    then "Unclassified"
    else if code == 0x1
    then "Mass Storage Controller"
    else if code == 0x2
    then "Network Controller"
    else if code == 0x3
    then "Display Controller"
    else if code == 0x4
    then "Multimedia Controller"
    else if code == 0x5
    then "Memory Controller"
    else if code == 0x6
    then "Bridge Device"
    else if code == 0x7
    then "Simple Communication Controller"
    else if code == 0x8
    then "Base System Peripheral"
    else if code == 0x9
    then "Input Device Controller"
    else if code == 0xA
    then "Docking Station"
    else if code == 0xB
    then "Processor"
    else if code == 0xC
    then "Serial Bus Controller"
    else if code == 0xD
    then "Wireless Controller"
    else if code == 0xE
    then "Intelligent Controller"
    else if code == 0xF
    then "Satellite Communication Controller"
    else if code == 0x10
    then "Encryption Controller"
    else if code == 0x11
    then "Signal Processing Controller"
    else if code == 0x12
    then "Processing Accelerator"
    else if code == 0x13
    then "Non-Essential Instrumentation"
    else if code == 0x40
    then "Co-Processor"
    else if code == 0xFF
    then "Unassigned Class (Vendor specific)"
    else ""

unfoldable pub sub_class_name_of : ℕ → ℕ → String
unfolding unclassified_name mass_storage_name network_name display_name multimedia_name memory_name
    bridge_name communication_name base_system_name input_device_name docking_name processor_name
    serial_bus_name wireless_name intelligent_name satellite_name encryption_name
    signal_processing_name
sub_class_name_of class_code sub_class =
    if class_code == 0x0
    then unclassified_name sub_class
    else if class_code == 0x1
    then mass_storage_name sub_class
    else if class_code == 0x2
    then network_name sub_class
    else if class_code == 0x3
    then display_name sub_class
    else if class_code == 0x4
    then multimedia_name sub_class
    else if class_code == 0x5
    then memory_name sub_class
    else if class_code == 0x6
    then bridge_name sub_class
    else if class_code == 0x7
    then communication_name sub_class
    else if class_code == 0x8
    then base_system_name sub_class
    else if class_code == 0x9
    then input_device_name sub_class
    else if class_code == 0xA
    then docking_name sub_class
    else if class_code == 0xB
    then processor_name sub_class
    else if class_code == 0xC
    then serial_bus_name sub_class
    else if class_code == 0xD
    then wireless_name sub_class
    else if class_code == 0xE
    then intelligent_name sub_class
    else if class_code == 0xF
    then satellite_name sub_class
    else if class_code == 0x10
    then encryption_name sub_class
    else if class_code == 0x11
    then signal_processing_name sub_class
    else ""

unfoldable pub resolve_class_name : ℕ → ℕ → PciClassInfo
unfolding class_name_of sub_class_name_of
resolve_class_name class_code sub_class = record {
  class_name = class_name_of class_code;
  sub_class_name = sub_class_name_of class_code sub_class;
}
