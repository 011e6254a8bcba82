-- ===== src/Pci.antt =====
-- The scan of the PCI bus: kernel/io/pci/pci.cpp and pci.h. `config` is the configuration space:
-- what the read port gives after an address was written to the other port.
pub mod Present
pub mod Scan
mod Tests
use esz_os.Base.{
  ℕ, zero, suc, ◌+◌, ◌*◌, ◌/◌, ◌%◌, ◌^◌, Bool, true, false, not, ◌==◌, if◌then◌else◌, u8,
}

-- The fields do not overlap for a bus below 256, a device below 32 and a function below 8, so that
-- the sum is what the source joins by `|`.
unfoldable pub calc_address : ℕ → ℕ → ℕ → ℕ
calc_address bus device funct = 0x80000000 + bus * 2 ^ 16 + device * 2 ^ 11 + funct * 2 ^ 8

unfoldable pub pci_read : (ℕ → ℕ) → ℕ → ℕ → ℕ → ℕ → ℕ
unfolding calc_address
pci_read config bus device funct offset = config (calc_address bus device funct + offset / 4 * 4)

unfoldable pub is_device_present : ℕ → Bool
is_device_present value = not (value % 2 ^ 16 == 0xFFFF)

pub record PciDevice : Type 0 where
  pub vendor_id : ℕ
  pub device_id : ℕ
  pub command : ℕ
  pub status : ℕ
  pub revision_id : ℕ
  pub prog_if : ℕ
  pub subclass : ℕ
  pub class_code : ℕ
  pub cache_line_size : ℕ
  pub latency_timer : ℕ
  pub header_type : ℕ
  pub completion_code : ℕ
  pub bist_reserved : ℕ
  pub start_bist : ℕ
  pub bist_capable : ℕ
  pub bar : ℕ → ℕ
  pub cardbus_cis_pointer : ℕ
  pub subsystem_vendor_id : ℕ
  pub subsystem_id : ℕ
  pub expansion_rom_base_address : ℕ
  pub capabilities_pointer : ℕ
  pub interrupt_line : ℕ
  pub interrupt_pin : ℕ
  pub min_gnt : ℕ
  pub max_lat : ℕ

-- The entry that the loop fills for one function of a device.
unfoldable pub read_device : (ℕ → ℕ) → ℕ → ℕ → ℕ → PciDevice
unfolding pci_read
read_device config bus device funct =
    let reg0 = pci_read config bus device funct 0 in
    let reg1 = pci_read config bus device funct 4 in
    let reg2 = pci_read config bus device funct 8 in
    let reg3 = pci_read config bus device funct 12 in
    let reg11 = pci_read config bus device funct 44 in
    let reg15 = pci_read config bus device funct 60 in
    record {
      vendor_id = reg0 % 2 ^ 16;
      device_id = reg0 / 2 ^ 16 % 2 ^ 16;
      command = reg1 % 2 ^ 16;
      status = reg1 / 2 ^ 16 % 2 ^ 16;
      revision_id = u8 reg2;
      prog_if = u8 (reg2 / 2 ^ 8);
      subclass = u8 (reg2 / 2 ^ 16);
      class_code = u8 (reg2 / 2 ^ 24);
      cache_line_size = u8 reg3;
      latency_timer = u8 (reg3 / 2 ^ 8);
      header_type = u8 (reg3 / 2 ^ 16);
      completion_code = reg3 / 2 ^ 24 % 2 ^ 4;
      bist_reserved = reg3 / 2 ^ 28 % 2 ^ 2;
      start_bist = reg3 / 2 ^ 30 % 2;
      bist_capable = reg3 / 2 ^ 31 % 2;
      bar = λ i. pci_read config bus device funct (16 + i * 4);
      cardbus_cis_pointer = pci_read config bus device funct 40;
      subsystem_vendor_id = reg11 % 2 ^ 16;
      subsystem_id = reg11 / 2 ^ 16 % 2 ^ 16;
      expansion_rom_base_address = pci_read config bus device funct 48;
      capabilities_pointer = u8 (pci_read config bus device funct 52);
      interrupt_line = u8 reg15;
      interrupt_pin = u8 (reg15 / 2 ^ 8);
      min_gnt = u8 (reg15 / 2 ^ 16);
      max_lat = u8 (reg15 / 2 ^ 24);
    }

unfoldable pub count_step : (ℕ → ℕ) → ℕ → ℕ → ℕ → ℕ → ℕ
unfolding pci_read is_device_present
count_step config bus device funct device_counter =
    if is_device_present (pci_read config bus device funct 0)
    then device_counter + 1
    else device_counter

-- The three nested loops of the first scan.
unfoldable pub count_functs : (ℕ → ℕ) → ℕ → ℕ → ℕ → ℕ → ℕ → ℕ
unfolding count_step
count_functs config zero bus device funct device_counter = device_counter
count_functs config (suc left) bus device funct device_counter =
    count_functs config left bus device (funct + 1)
      (count_step config bus device funct device_counter)

unfoldable pub count_devices : (ℕ → ℕ) → ℕ → ℕ → ℕ → ℕ → ℕ
unfolding count_functs
count_devices config zero bus device device_counter = device_counter
count_devices config (suc left) bus device device_counter =
    count_devices config left bus (device + 1) (count_functs config 8 bus device 0 device_counter)

unfoldable pub count_buses : (ℕ → ℕ) → ℕ → ℕ → ℕ → ℕ
unfolding count_devices
count_buses config zero bus device_counter = device_counter
count_buses config (suc left) bus device_counter =
    count_buses config left (bus + 1) (count_devices config 32 bus 0 device_counter)

unfoldable pub count_pci_devices : (ℕ → ℕ) → ℕ
unfolding count_buses
count_pci_devices config = count_buses config 256 0 0

-- The array and the counter.
pub record Found : Type 0 where
  pub found_pci_devices : ℕ → PciDevice
  pub device_counter : ℕ

unfoldable pub put_device : (ℕ → PciDevice) → ℕ → PciDevice → ℕ → PciDevice
put_device devices k d i = if i == k then d else devices i

unfoldable pub get_step : (ℕ → ℕ) → ℕ → ℕ → ℕ → Found → Found
unfolding pci_read is_device_present read_device put_device
get_step config bus device funct s =
    if not (is_device_present (pci_read config bus device funct 0)) then s else record {
      found_pci_devices =
          put_device (s.found_pci_devices) (s.device_counter) (read_device config bus device funct);
      device_counter = s.device_counter + 1;
    }

-- The three nested loops of the second scan.
unfoldable pub get_functs : (ℕ → ℕ) → ℕ → ℕ → ℕ → ℕ → Found → Found
unfolding get_step
get_functs config zero bus device funct s = s
get_functs config (suc left) bus device funct s =
    get_functs config left bus device (funct + 1) (get_step config bus device funct s)

unfoldable pub get_devices : (ℕ → ℕ) → ℕ → ℕ → ℕ → Found → Found
unfolding get_functs
get_devices config zero bus device s = s
get_devices config (suc left) bus device s =
    get_devices config left bus (device + 1) (get_functs config 8 bus device 0 s)

unfoldable pub get_buses : (ℕ → ℕ) → ℕ → ℕ → Found → Found
unfolding get_devices
get_buses config zero bus s = s
get_buses config (suc left) bus s = get_buses config left (bus + 1) (get_devices config 32 bus 0 s)

unfoldable pub get_pci_devices : (ℕ → ℕ) → (ℕ → PciDevice) → Found
unfolding get_buses
get_pci_devices config fresh =
    get_buses config 256 0 record { found_pci_devices = fresh; device_counter = 0 }

-- The answer, the amount and the array; `fresh` stands in the memory that malloc returns.
unfoldable pub init_pci : (ℕ → ℕ) → (ℕ → PciDevice) → Bool × (ℕ × (ℕ → PciDevice))
unfolding count_pci_devices get_pci_devices
init_pci config fresh =
    let amount = count_pci_devices config in
    (not (amount == 0), (amount, (get_pci_devices config fresh).found_pci_devices))
