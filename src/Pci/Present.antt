-- ===== src/Pci/Present.antt =====
-- The functions on a PCI bus and their entries, as the configuration space has them, and one step of
-- each scan of kernel/io/pci/pci.cpp.
use esz_os.Base.{
  ℕ, zero, suc, ◌+◌, ◌*◌, ◌/◌, ◌%◌, ◌<◌, ◌≡◌, inl, inr, ◌∙◌, ap, sym, subst, arith, Bool, true,
  false, not, ◌==◌, if◌then◌else◌, List, [], ◌∷◌, length, Bool-cases,
}
use esz_os.Pci.{
  PciDevice, Found, calc_address, pci_read, is_device_present, read_device, count_step, put_device,
  get_step,
}

-- The address of function `k`, counted through all buses: 8 functions a device, 32 devices a bus.
abbrev pub address_of : ℕ → ℕ
address_of k = 2147483648 + 256 * k

-- A function is present unless its vendor is 0xFFFF.
abbrev pub is_present : (ℕ → ℕ) → ℕ → Bool
is_present config k = not (config (address_of k) % 65536 == 65535)

-- What a register of function `k` has.
abbrev pub register : (ℕ → ℕ) → ℕ → ℕ → ℕ
register config k n = config (address_of k + 4 * n)

-- The entry has what the registers of function `k` say.
pub record Describes (config : ℕ → ℕ) (k : ℕ) (d : PciDevice) : Type 0 where
  pub vendor : d.vendor_id ≡ register config k 0 % 65536
  pub device : d.device_id ≡ register config k 0 / 65536 % 65536
  pub command : d.command ≡ register config k 1 % 65536
  pub status : d.status ≡ register config k 1 / 65536 % 65536
  pub revision : d.revision_id ≡ register config k 2 % 256
  pub interface : d.prog_if ≡ register config k 2 / 256 % 256
  pub subclass : d.subclass ≡ register config k 2 / 65536 % 256
  pub class_code : d.class_code ≡ register config k 2 / 16777216 % 256
  pub line_size : d.cache_line_size ≡ register config k 3 % 256
  pub latency : d.latency_timer ≡ register config k 3 / 256 % 256
  pub header : d.header_type ≡ register config k 3 / 65536 % 256
  pub test_code : d.completion_code ≡ register config k 3 / 16777216 % 16
  pub test_reserved : d.bist_reserved ≡ register config k 3 / 268435456 % 4
  pub test_start : d.start_bist ≡ register config k 3 / 1073741824 % 2
  pub test_capable : d.bist_capable ≡ register config k 3 / 2147483648 % 2
  pub bars : (i : ℕ) → d.bar i ≡ register config k (4 + i)
  pub cardbus : d.cardbus_cis_pointer ≡ register config k 10
  pub subsystem_vendor : d.subsystem_vendor_id ≡ register config k 11 % 65536
  pub subsystem : d.subsystem_id ≡ register config k 11 / 65536 % 65536
  pub rom : d.expansion_rom_base_address ≡ register config k 12
  pub capabilities : d.capabilities_pointer ≡ register config k 13 % 256
  pub line : d.interrupt_line ≡ register config k 15 % 256
  pub pin : d.interrupt_pin ≡ register config k 15 / 256 % 256
  pub grant : d.min_gnt ≡ register config k 15 / 65536 % 256
  pub longest : d.max_lat ≡ register config k 15 / 16777216 % 256

-- The first `n` entries describe the functions of the list, the last one first.
abbrev pub AreDescribed : (ℕ → ℕ) → (ℕ → PciDevice) → List ℕ → Type 0
AreDescribed config devices [] = Unit {0}
AreDescribed config devices (k ∷ ks) =
    Describes config k (devices (length ks)) × AreDescribed config devices ks

-- The functions below `n` that are present, the last one first.
abbrev pub present_below : (ℕ → ℕ) → ℕ → List ℕ
present_below config zero = []
present_below config (suc k) =
    if is_present config k then k ∷ present_below config k else present_below config k

pci_read_lem :
    (config : ℕ → ℕ) (bus device funct k n : ℕ)
    → bus * 256 + device * 8 + funct ≡ k
    → pci_read config bus device funct (4 * n) ≡ register config k n
unfolding pci_read calc_address
pci_read_lem config bus device funct k n e = ap config (omega (arith, e))

pub read_device-Describes :
    (config : ℕ → ℕ) (bus device funct k : ℕ)
    → bus * 256 + device * 8 + funct ≡ k
    → Describes config k (read_device config bus device funct)
unfolding read_device
read_device-Describes config bus device funct k e =
    let reg : (n : ℕ) → pci_read config bus device funct (4 * n) ≡ register config k n =
      λ n. pci_read_lem config bus device funct k n e in
    record {
      vendor = ap (λ x. x % 65536) (reg 0);
      device = ap (λ x. x / 65536 % 65536) (reg 0);
      command = ap (λ x. x % 65536) (reg 1);
      status = ap (λ x. x / 65536 % 65536) (reg 1);
      revision = ap (λ x. x % 256) (reg 2);
      interface = ap (λ x. x / 256 % 256) (reg 2);
      subclass = ap (λ x. x / 65536 % 256) (reg 2);
      class_code = ap (λ x. x / 16777216 % 256) (reg 2);
      line_size = ap (λ x. x % 256) (reg 3);
      latency = ap (λ x. x / 256 % 256) (reg 3);
      header = ap (λ x. x / 65536 % 256) (reg 3);
      test_code = ap (λ x. x / 16777216 % 16) (reg 3);
      test_reserved = ap (λ x. x / 268435456 % 4) (reg 3);
      test_start = ap (λ x. x / 1073741824 % 2) (reg 3);
      test_capable = ap (λ x. x / 2147483648 % 2) (reg 3);
      bars = λ i.
          let at : 16 + i * 4 ≡ 4 * (4 + i) = omega arith in
          ap (pci_read config bus device funct) at ∙ reg (4 + i);
      cardbus = reg 10;
      subsystem_vendor = ap (λ x. x % 65536) (reg 11);
      subsystem = ap (λ x. x / 65536 % 65536) (reg 11);
      rom = reg 12;
      capabilities = ap (λ x. x % 256) (reg 13);
      line = ap (λ x. x % 256) (reg 15);
      pin = ap (λ x. x / 256 % 256) (reg 15);
      grant = ap (λ x. x / 65536 % 256) (reg 15);
      longest = ap (λ x. x / 16777216 % 256) (reg 15);
    }

put_device_ne :
    (devices : ℕ → PciDevice) (k : ℕ) (d : PciDevice) (i : ℕ)
    → i < k
    → put_device devices k d i ≡ devices i
unfolding put_device
put_device_ne devices k d i lt =
    let z : (i == k) ≡ false = ground (arith, lt) in ap (λ b. if b then d else devices i) z

put_device_self : (devices : ℕ → PciDevice) (k : ℕ) (d : PciDevice) → put_device devices k d k ≡ d
unfolding put_device
put_device_self devices k d =
    let z : (k == k) ≡ true = ground arith in ap (λ b. if b then d else devices k) z

AreDescribed-ext :
    (config : ℕ → ℕ) (a b : ℕ → PciDevice) (ks : List ℕ)
    → ((i : ℕ) → i < length ks → b i ≡ a i)
    → AreDescribed config a ks
    → AreDescribed config b ks
AreDescribed-ext config a b [] same p = tt
AreDescribed-ext config a b (k ∷ ks) same (p, rest) = (
  subst (Describes config k) (sym (same (length ks) (omega arith))) p,
  AreDescribed-ext config a b ks (λ i lt. same i (omega (arith, lt))) rest,
)

-- Counter and entries after the functions below `k`.
abbrev pub HasFound : (ℕ → ℕ) → ℕ → Found → Type 0
HasFound config k s =
    (s.device_counter ≡ length (present_below config k))
    × AreDescribed config (s.found_pci_devices) (present_below config k)

module _ (config : ℕ → ℕ) (bus device funct k : ℕ) (at : bus * 256 + device * 8 + funct ≡ k) where
  present_lem : is_device_present (pci_read config bus device funct 0) ≡ is_present config k
  unfolding is_device_present
  present_lem =
      let start : 2147483648 + 256 * k + 4 * 0 ≡ 2147483648 + 256 * k = omega arith in
      ap (λ x. not (x % 65536 == 65535))
        (pci_read_lem config bus device funct k 0 at ∙ ap config start)

  pub count_step_lem :
      count_step config bus device funct (length (present_below config k))
      ≡ length (present_below config (suc k))
  unfolding count_step
  count_step_lem =
      let n = length (present_below config k) in
      let next : n + 1 ≡ suc n = omega arith in
      elim (Bool-cases (is_present config k)) [
        | inl there ↦
            ap (λ b. if b then n + 1 else n) (present_lem ∙ there)
            ∙ next
            ∙ sym (
                ap (λ b. length (if b then k ∷ present_below config k else present_below config k))
                  there)
        | inr gone ↦
            ap (λ b. if b then n + 1 else n) (present_lem ∙ gone)
            ∙ sym (
                ap (λ b. length (if b then k ∷ present_below config k else present_below config k))
                  gone)
      ]

  stored : Found → Found
  stored s = record {
    found_pci_devices =
        put_device (s.found_pci_devices) (s.device_counter) (read_device config bus device funct);
    device_counter = s.device_counter + 1;
  }

  pub get_step-HasFound :
      (s : Found)
      → HasFound config k s
      → HasFound config (suc k) (get_step config bus device funct s)
  unfolding get_step stored
  get_step-HasFound s (e, rest) =
      let ks = present_below config k in
      let d = read_device config bus device funct in
      let devices' = put_device (s.found_pci_devices) (s.device_counter) d in
      let P : Bool → Bool → Type 0 = λ b c.
        let r = if not b then s else stored s in
        let l = if c then k ∷ ks else ks in
        (r.device_counter ≡ length l) × AreDescribed config (r.found_pci_devices) l in
      elim (Bool-cases (is_present config k)) [
        | inl there ↦
            subst (λ c. P (is_device_present (pci_read config bus device funct 0)) c) (sym there)
              (subst (λ b. P b true) (sym (present_lem ∙ there))
                (
                  omega (arith, e),
                  (
                    subst (λ n. Describes config k (devices' n)) e
                        (subst (Describes config k)
                          (sym (put_device_self (s.found_pci_devices) (s.device_counter) d))
                          (read_device-Describes config bus device funct k at)),
                    AreDescribed-ext config (s.found_pci_devices) devices' ks
                        (λ i lt.
                          put_device_ne (s.found_pci_devices) (s.device_counter) d i
                            (omega (arith, lt, e)))
                        rest,
                  ),
                ))
        | inr gone ↦
            subst (λ c. P (is_device_present (pci_read config bus device funct 0)) c) (sym gone)
              (subst (λ b. P b false) (sym (present_lem ∙ gone)) (e, rest))
      ]
