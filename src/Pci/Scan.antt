-- ===== src/Pci/Scan.antt =====
-- What the two scans of kernel/io/pci/pci.cpp find, and that they agree.
use esz_os.Base.{ℕ, zero, suc, ◌+◌, ◌*◌, ◌≡◌, refl, ◌∙◌, ap, sym, subst, arith, length}
use esz_os.Pci.{
  PciDevice, Found, count_functs, count_devices, count_buses, count_pci_devices, get_step,
  get_functs, get_devices, get_buses, get_pci_devices,
}
use esz_os.Pci.Present.{AreDescribed, present_below, HasFound, count_step_lem, get_step-HasFound}

module _ (config : ℕ → ℕ) where
  abbrev number : ℕ → ℕ
  number k = length (present_below config k)

  count_functs_lem :
      (left bus device funct k : ℕ)
      → bus * 256 + device * 8 + funct ≡ k
      → count_functs config left bus device funct (number k) ≡ number (k + left)
  unfolding count_functs
  count_functs_lem zero bus device funct k at = let z : k ≡ k + 0 = omega arith in ap number z
  count_functs_lem (suc left) bus device funct k at =
      let z : suc k + left ≡ k + suc left = omega arith in
      ap (count_functs config left bus device (funct + 1))
        (count_step_lem config bus device funct k at)
      ∙ count_functs_lem left bus device (funct + 1) (suc k) (omega (arith, at))
      ∙ ap number z

  count_devices_lem :
      (left bus device k : ℕ)
      → bus * 256 + device * 8 ≡ k
      → count_devices config left bus device (number k) ≡ number (k + left * 8)
  unfolding count_devices
  count_devices_lem zero bus device k at = let z : k ≡ k + 0 = omega arith in ap number z
  count_devices_lem (suc left) bus device k at =
      let z : k + 8 + left * 8 ≡ k + suc left * 8 = omega arith in
      ap (count_devices config left bus (device + 1))
        (count_functs_lem 8 bus device 0 k (omega (arith, at)))
      ∙ count_devices_lem left bus (device + 1) (k + 8) (omega (arith, at))
      ∙ ap number z

  count_buses_lem :
      (left bus k : ℕ)
      → bus * 256 ≡ k
      → count_buses config left bus (number k) ≡ number (k + left * 256)
  unfolding count_buses
  count_buses_lem zero bus k at = let z : k ≡ k + 0 = omega arith in ap number z
  count_buses_lem (suc left) bus k at =
      let z : k + 256 + left * 256 ≡ k + suc left * 256 = omega arith in
      ap (count_buses config left (bus + 1)) (count_devices_lem 32 bus 0 k (omega (arith, at)))
      ∙ count_buses_lem left (bus + 1) (k + 256) (omega (arith, at))
      ∙ ap number z

  get_functs-HasFound :
      (left bus device funct k : ℕ) (s : Found)
      → bus * 256 + device * 8 + funct ≡ k
      → HasFound config k s
      → HasFound config (k + left) (get_functs config left bus device funct s)
  unfolding get_functs
  get_functs-HasFound zero bus device funct k s at h =
      let z : k ≡ k + 0 = omega arith in subst (λ n. HasFound config n s) z h
  get_functs-HasFound (suc left) bus device funct k s at h =
      let z : suc k + left ≡ k + suc left = omega arith in
      let after = get_step config bus device funct s in
      subst (λ n. HasFound config n (get_functs config left bus device (funct + 1) after)) z
        (get_functs-HasFound left bus device (funct + 1) (suc k) after (omega (arith, at))
          (get_step-HasFound config bus device funct k at s h))

  get_devices-HasFound :
      (left bus device k : ℕ) (s : Found)
      → bus * 256 + device * 8 ≡ k
      → HasFound config k s
      → HasFound config (k + left * 8) (get_devices config left bus device s)
  unfolding get_devices
  get_devices-HasFound zero bus device k s at h =
      let z : k ≡ k + 0 = omega arith in subst (λ n. HasFound config n s) z h
  get_devices-HasFound (suc left) bus device k s at h =
      let z : k + 8 + left * 8 ≡ k + suc left * 8 = omega arith in
      let after = get_functs config 8 bus device 0 s in
      subst (λ n. HasFound config n (get_devices config left bus (device + 1) after)) z
        (get_devices-HasFound left bus (device + 1) (k + 8) after (omega (arith, at))
          (get_functs-HasFound 8 bus device 0 k s (omega (arith, at)) h))

  get_buses-HasFound :
      (left bus k : ℕ) (s : Found)
      → bus * 256 ≡ k
      → HasFound config k s
      → HasFound config (k + left * 256) (get_buses config left bus s)
  unfolding get_buses
  get_buses-HasFound zero bus k s at h =
      let z : k ≡ k + 0 = omega arith in subst (λ n. HasFound config n s) z h
  get_buses-HasFound (suc left) bus k s at h =
      let z : k + 256 + left * 256 ≡ k + suc left * 256 = omega arith in
      let after = get_devices config 32 bus 0 s in
      subst (λ n. HasFound config n (get_buses config left (bus + 1) after)) z
        (get_buses-HasFound left (bus + 1) (k + 256) after (omega (arith, at))
          (get_devices-HasFound 32 bus 0 k s (omega (arith, at)) h))

-- The first scan counts the functions that are present among the 65536 of all buses. The second
-- stores as many entries, so that they fit into the array that was allocated between the two: one
-- for each function that is present, in their order, with all fields as its own registers say. The configuration space is the same at both scans.
pub get_pci_devices-AreDescribed :
    (config : ℕ → ℕ) (fresh : ℕ → PciDevice)
    → (count_pci_devices config ≡ length (present_below config 65536))
      × ((get_pci_devices config fresh).device_counter ≡ count_pci_devices config)
      × AreDescribed config
          ((get_pci_devices config fresh).found_pci_devices)
          (present_below config 65536)
unfolding get_pci_devices count_pci_devices
get_pci_devices-AreDescribed config fresh =
    let counted = count_buses_lem config 256 0 0 refl in
    let (number, described) =
      get_buses-HasFound config 256 0 0 (record { found_pci_devices = fresh; device_counter = 0 })
        refl (refl, tt) in
    (counted, number ∙ sym counted, described)
