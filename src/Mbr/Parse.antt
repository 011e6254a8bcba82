-- ===== src/Mbr/Parse.antt =====
-- `parse_mbr` of kernel/storage/partitioning/mbr/mbr.cpp.
use esz_os.Base.{
  ℕ, zero, suc, ◌+◌, ◌*◌, ◌^◌, ◌<◌, ◌≤◌, ◌≡◌, ◌≢◌, ◌⊎◌, ◌↔◌, inl, inr, refl, ◌∙◌, ap, sym, subst,
  arith, Bool, true, false, ◌&&◌, ◌||◌, not, ◌==◌, leb, ltb, if◌then◌else◌, Buffer, Stores32,
  read_u32, read_u32-Stores32, eq_or_ne, by_if,
}
use esz_os.Mbr.{
  Partitions, PartitionInfo, FilesystemType, unknown, empty, gpt_protective, fat12, fat16, fat32,
  ntfs, ext, put, mark_empty, parse_entry, empty_from, parse_from, parse_mbr, partition_type,
  entry_start_lba, entry_sector_amount, entry_partition_type, entry_boot_flag,
}

empty_from_lem :
    (left i : ℕ) (out : Partitions) (j : ℕ)
    → empty_from left i out j ≡ (if leb i j && ltb j (i + left) then mark_empty (out j) else out j)
unfolding empty_from put
empty_from_lem zero i out j = ground arith
empty_from_lem (suc left) i out j =
    let next = empty_from_lem left (i + 1) (put out i (mark_empty (out i))) j in
    elim (eq_or_ne j i) [
      | inl e ↦ ground (arith, next, ap (λ x. mark_empty (out x)) e)
      | inr ne ↦ ground (arith, next)
    ]

parse_from_lem :
    (left i : ℕ) (m : Buffer) (out : Partitions) (j : ℕ)
    → parse_from left i m out j
      ≡ (if leb i j && ltb j (i + left) then parse_entry m (0x1BE + 16 * j) else out j)
unfolding parse_from put
parse_from_lem zero i m out j = ground arith
parse_from_lem (suc left) i m out j =
    let next = parse_from_lem left (i + 1) m (put out i (parse_entry m (0x1BE + 16 * i))) j in
    elim (eq_or_ne j i) [
      | inl e ↦ ground (arith, next, ap (λ x. parse_entry m (0x1BE + 16 * x)) e)
      | inr ne ↦ ground (arith, next)
    ]

-- The type codes of the partition table for each kind of filesystem.
abbrev pub HasCode : ℕ → FilesystemType → Type 0
HasCode code empty = code ≡ 0
HasCode code fat12 = code ≡ 1
HasCode code fat16 = (code ≡ 4) ⊎ (code ≡ 6)
HasCode code ntfs = code ≡ 7
HasCode code fat32 = (code ≡ 11) ⊎ (code ≡ 12)
HasCode code ext = code ≡ 131
HasCode code gpt_protective = code ≡ 238
HasCode code unknown =
    (code ≢ 0)
    × (code ≢ 1)
    × (code ≢ 4)
    × (code ≢ 6)
    × (code ≢ 7)
    × (code ≢ 11)
    × (code ≢ 12)
    × (code ≢ 131)
    × (code ≢ 238)

partition_type-HasCode : (code : ℕ) → HasCode code (partition_type code)
unfolding partition_type
partition_type-HasCode code =
    let t7 = if code == 0x00 then empty else unknown in
    let t6 = if code == 0x07 then ntfs else t7 in
    let t5 = if code == 0x83 then ext else t6 in
    let t4 = if code == 0xEE then gpt_protective else t5 in
    let t3 = if code == 0x0B || code == 0x0C then fat32 else t4 in
    let t2 = if code == 0x06 || code == 0x04 then fat16 else t3 in
    let P = HasCode code in
    by_if P (code == 0x01) fat12 t2 (λ e. ground (arith, e))
      λ a.
        by_if P (code == 0x06 || code == 0x04) fat16 t3 (λ e. ground (arith, e))
          λ b.
            by_if P (code == 0x0B || code == 0x0C) fat32 t4 (λ e. ground (arith, e))
              λ c.
                by_if P (code == 0xEE) gpt_protective t5 (λ e. ground (arith, e))
                  λ d.
                    by_if P (code == 0x83) ext t6 (λ e. ground (arith, e))
                      λ f.
                        by_if P (code == 0x07) ntfs t7 (λ e. ground (arith, e))
                          λ g.
                            by_if P (code == 0x00) empty unknown (λ e. ground (arith, e))
                              (λ h. ground (arith, a, b, c, d, f, g, h))

-- What the 16 bytes of an entry from `a` on say.
pub record IsEntry (m : Buffer) (a : ℕ) (info : PartitionInfo) : Type 0 where
  pub first_sector :
      info.start_lba ≡ m (a + 8) + 256 * m (a + 9) + 65536 * m (a + 10) + 16777216 * m (a + 11)
  pub sectors :
      info.sector_count ≡ m (a + 12) + 256 * m (a + 13) + 65536 * m (a + 14) + 16777216 * m (a + 15)
  pub code : HasCode (m (a + 4)) (info.type_of)
  pub active : (info.bootable ≡ true) ↔ (m a ≡ 128)

parse_entry-IsEntry : (m : Buffer) (a : ℕ) → IsEntry m a (parse_entry m a)
unfolding parse_entry entry_start_lba entry_sector_amount entry_partition_type entry_boot_flag
    read_u32
parse_entry-IsEntry m a = record {
  first_sector = ground arith;
  sectors = ground arith;
  code = partition_type-HasCode (m (a + 4));
  active = (λ h. ground (arith, h), λ h. ground (arith, h));
}

-- A partition of which only the type was changed, to empty.
pub record IsEmptied (old info : PartitionInfo) : Type 0 where
  pub no_type : info.type_of ≡ empty
  pub same_start : info.start_lba ≡ old.start_lba
  pub same_count : info.sector_count ≡ old.sector_count
  pub same_flag : info.bootable ≡ old.bootable

-- Partition `j` after `parse_mbr` gave `accepted`.
abbrev pub IsParsed : Buffer → Partitions → ℕ → Bool → PartitionInfo → Type 0
IsParsed m out j accepted info =
    ((4 ≤ j) × (info ≡ out j))
    ⊎ (((j < 4) × (accepted ≡ true) × IsEntry m (446 + 16 * j) info)
        ⊎ ((j < 4) × (accepted ≡ false) × IsEmptied (out j) info))

parse_from-IsParsed :
    (m : Buffer) (out : Partitions) (j : ℕ) → IsParsed m out j true (parse_from 4 0 m out j)
parse_from-IsParsed m out j = subst (IsParsed m out j true) (sym (parse_from_lem 4 0 m out j)) (
    by_if (IsParsed m out j true) (leb 0 j && ltb j 4) _ _
      (λ e. inr (inl (ground (arith, e), refl, parse_entry-IsEntry m (446 + 16 * j))))
      (λ e. inl (ground (arith, e), refl)))

empty_from-IsParsed :
    (m : Buffer) (out : Partitions) (j : ℕ) → IsParsed m out j false (empty_from 4 0 out j)
unfolding mark_empty
empty_from-IsParsed m out j = subst (IsParsed m out j false) (sym (empty_from_lem 4 0 out j)) (
    by_if (IsParsed m out j false) (leb 0 j && ltb j 4) _ _
      (λ e. inr (
        inr (
          ground (arith, e),
          refl,
          record { no_type = refl; same_start = refl; same_count = refl; same_flag = refl },
        )))
      (λ e. inl (ground (arith, e), refl)))

-- `parse_mbr` accepts a sector exactly if it ends with the signature 0x55 0xAA. Then each of the
-- four partitions has the first sector, the number of sectors, the type and the boot flag that its
-- 16 bytes of the table say; otherwise each is marked empty and keeps its other fields. Nothing
-- behind the fourth is touched.
pub parse_mbr_lem :
    (m : Buffer) (out : Partitions) (j : ℕ)
    → (((parse_mbr m out).1 ≡ true) ↔ ((m 510 ≡ 0x55) × (m 511 ≡ 0xAA)))
      × IsParsed m out j ((parse_mbr m out).1) ((parse_mbr m out).0 j)
unfolding parse_mbr
parse_mbr_lem m out j = (
  (λ h. ground (arith, h), λ h. ground (arith, h)),
  by_if (λ (r : Partitions × Bool). IsParsed m out j (r.1) (r.0 j))
      (not (m 510 == 0x55) || not (m 511 == 0xAA)) _ _ (λ _. empty_from-IsParsed m out j)
      (λ _. parse_from-IsParsed m out j),
)

-- A table entry whose little-endian fields say `lba` and `sectors` is read as a partition of these.
pub parse_mbr-Stores32 :
    (m : Buffer) (out : Partitions) (j lba sectors : ℕ)
    → m 510 ≡ 0x55
    → m 511 ≡ 0xAA
    → j < 4
    → Stores32 m (0x1BE + 16 * j + 8) lba
    → Stores32 m (0x1BE + 16 * j + 12) sectors
    → lba < 2 ^ 32
    → sectors < 2 ^ 32
    → (((parse_mbr m out).0 j).start_lba ≡ lba) × (((parse_mbr m out).0 j).sector_count ≡ sectors)
unfolding parse_mbr parse_entry entry_start_lba entry_sector_amount
parse_mbr-Stores32 m out j lba sectors low high lt a b small few =
    let e : (parse_mbr m out).0 j ≡ parse_entry m (0x1BE + 16 * j) =
      ground (arith, parse_from_lem 4 0 m out j) in
    (
      ap (λ p. p.start_lba) e ∙ read_u32-Stores32 m (0x1BE + 16 * j + 8) lba a small,
      ap (λ p. p.sector_count) e ∙ read_u32-Stores32 m (0x1BE + 16 * j + 12) sectors b few,
    )
