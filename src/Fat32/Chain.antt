-- ===== src/Fat32/Chain.antt =====
-- What `read_cluster_chain` of kernel/storage/filesystem/fat32/fat32.cpp reads.
use esz_os.Base.{
  ◌*◌, ℕ, zero, suc, ◌+◌, ◌-◌, ◌/◌, ◌%◌, ◌^◌, ◌<◌, ◌≤◌, ◌≡◌, ◌⊎◌, refl, ◌∙◌, ap, sym, arith, true,
  false, ◌&&◌, ltb, leb, if◌then◌else◌, Buffer, read_u32, u32, u64, store_self, store_ne, Option,
  none, some, List, [], ◌∷◌, length, Bool-cases, subst, inl, inr,
}
use esz_os.Fat32.{
  terminate, as_pointer, Fat32Context, read_sectors, cluster_to_lba, cluster_index,
  get_next_cluster, get_fat_sector_to_read, is_data_cluster, copy_into, read_chain,
  read_cluster_chain, fat32_read,
}

-- A volume as the driver expects it: sectors of 512 bytes, which are those of the device, and
-- clusters of whole sectors; the data region starts inside 64 bits.
pub record IsVolume (context : Fat32Context) : Type 0 where
  pub sectors : context.bytes_per_sector ≡ 512
  pub clusters : context.cluster_size_in_bytes ≡ context.sectors_per_cluster * 512
  pub start : context.data_region_start_lba < 2 ^ 63

module _ (disk : Buffer) (context : Fat32Context) where
  -- What the file allocation table has for a cluster: 28 bits of the four bytes at its place.
  abbrev pub fat_entry : ℕ → ℕ
  fat_entry c =
      let a = context.fat_start_lba * 512 + 4 * c in
      (disk a + 256 * disk (a + 1) + 65536 * disk (a + 2) + 16777216 * disk (a + 3)) % 2 ^ 28

  -- The table leads from `c` over these clusters to a number that stands for no cluster. The first
  -- cluster of the data region is number 2, and the sectors of each are counted in 32 bits.
  abbrev pub Links : ℕ → List ℕ → Type 0
  Links c [] = (c < 2) ⊎ (0x0FFFFFF8 ≤ c)
  Links c (x ∷ xs) =
      (c ≡ x)
      × (2 ≤ c)
      × (c < 0x0FFFFFF8)
      × ((c - 2) * context.sectors_per_cluster < 2 ^ 32)
      × Links (fat_entry c) xs

  -- Byte `q` of the clusters one after the other, and their size.
  unfoldable pub byte_of : List ℕ → ℕ → ℕ
  byte_of [] q = 0
  byte_of (x ∷ xs) q =
      let first = context.data_region_start_lba + (x - 2) * context.sectors_per_cluster in
      if ltb q (context.sectors_per_cluster * 512)
      then disk (first * 512 + q)
      else byte_of xs (q - context.sectors_per_cluster * 512)

  unfoldable pub size_of : List ℕ → ℕ
  size_of [] = 0
  size_of (x ∷ xs) = context.sectors_per_cluster * 512 + size_of xs

  -- The content has the bytes of the clusters from `offset` on, and those of `out` around them.
  pub record HasRead (clusters : List ℕ) (offset : ℕ) (out content : Buffer) : Type 0 where
    pub inside : (q : ℕ) → q < size_of clusters → content (offset + q) ≡ byte_of clusters q
    pub before : (q : ℕ) → q < offset → content q ≡ out q
    pub behind : (q : ℕ) → offset + size_of clusters ≤ q → content q ≡ out q

  copied_beside :
      (out : Buffer) (offset : ℕ) (from : Buffer) (size q : ℕ)
      → (q < offset) ⊎ (offset + size ≤ q)
      → copy_into out offset from size q ≡ out q
  unfolding copy_into
  copied_beside out offset from size q away = ground (arith, away)

  copied_here :
      (out : Buffer) (offset : ℕ) (from : Buffer) (size q : ℕ)
      → q < size
      → copy_into out offset from size (offset + q) ≡ from q
  unfolding copy_into
  copied_here out offset from size q lt =
      let z : offset + q - offset ≡ q = omega arith in
      subst (λ x. copy_into out offset from size (offset + q) ≡ from x) z (ground arith)

  module _ (volume : IsVolume context) where
    next_cluster_lem : (c : ℕ) → c < 0x0FFFFFF8 → get_next_cluster disk context c ≡ fat_entry c
    unfolding get_next_cluster get_fat_sector_to_read read_sectors read_u32
    next_cluster_lem c small =
        let b = context.bytes_per_sector in
        let at : (u32 (c * 4) / b + context.fat_start_lba) * 512 + u32 (c * 4) % b / 4 * 4
            ≡ context.fat_start_lba * 512 + 4 * c =
          subst
            (λ z.
              (u32 (c * 4) / z + context.fat_start_lba) * 512 + u32 (c * 4) % z / 4 * 4
              ≡ context.fat_start_lba * 512 + 4 * c)
            (sym (volume.sectors)) (omega (arith, small)) in
        let o = u32 (c * 4) % b / 4 * 4 in
        let f = (u32 (c * 4) / b + context.fat_start_lba) * 512 in
        let e1 : f + (o + 1) ≡ f + o + 1 = omega arith in
        let e2 : f + (o + 2) ≡ f + o + 2 = omega arith in
        let e3 : f + (o + 3) ≡ f + o + 3 = omega arith in rw (e1, e2, e3, at) (ground arith)

    first_sector_lem :
        (c : ℕ)
        → 2 ≤ c
        → c < 0x0FFFFFF8
        → (c - 2) * context.sectors_per_cluster < 2 ^ 32
        → cluster_to_lba context c
          ≡ context.data_region_start_lba + (c - 2) * context.sectors_per_cluster
    unfolding cluster_to_lba cluster_index
    first_sector_lem c low high small =
        let index : u32 (c + 2 ^ 32 - 2) ≡ c - 2 = omega (arith, low, high) in
        ap (λ i. u64 (context.data_region_start_lba + u32 (i * context.sectors_per_cluster))) index
        ∙ omega (arith, small, volume.start)

    joined :
        (c offset : ℕ) (out content : Buffer) (x : ℕ) (xs : List ℕ)
        → c ≡ x
        → cluster_to_lba context c
          ≡ context.data_region_start_lba + (c - 2) * context.sectors_per_cluster
        → HasRead xs
            (offset + context.sectors_per_cluster * 512)
            (copy_into out offset
              (read_sectors disk (cluster_to_lba context c))
              (context.sectors_per_cluster * 512))
            content
        → (q : ℕ) → q < size_of (x ∷ xs)
        → content (offset + q) ≡ byte_of (x ∷ xs) q
    unfolding byte_of size_of read_sectors
    joined c offset out content x xs e at has q lt =
        let size = context.sectors_per_cluster * 512 in
        let from = read_sectors disk (cluster_to_lba context c) in
        elim (Bool-cases (ltb q size)) [
          | inl here ↦ rw here (
              has.before (offset + q) (ground (arith, here))
              ∙ copied_here out offset from size q (ground (arith, here))
              ∙ ap (λ s. disk (s * 512 + q)) at
              ∙ ap
                  (λ y. disk (
                    (context.data_region_start_lba + (y - 2) * context.sectors_per_cluster) * 512
                    + q))
                  e)
          | inr later ↦
              let z : offset + size + (q - size) ≡ offset + q = ground (arith, later) in
              rw later (ap content (sym z) ∙ has.inside (q - size) (ground (arith, later)))
        ]

    read_chain-HasRead :
        (fuel c offset : ℕ) (out : Buffer) (clusters : List ℕ)
        → Links c clusters
        → length clusters < fuel
        → (content : Buffer) × (read_chain disk context fuel c offset out ≡ some content)
          × HasRead clusters offset out content
    unfolding read_chain size_of byte_of is_data_cluster
    read_chain-HasRead zero c offset out clusters links enough = absurd (omega arith)
    read_chain-HasRead (suc fuel) c offset out [] links enough =
        let no_data : (leb 2 c && ltb c 0x0FFFFFF8) ≡ false = ground (arith, links) in
        (
          out,
          rw (no_data, read_chain) refl,
          record {
            inside = λ q lt. absurd (omega arith);
            before = λ q lt. refl;
            behind = λ q le. refl;
          },
        )
    read_chain-HasRead (suc fuel) c offset out (x ∷ xs) (e, low, high, small, links) enough =
        let in_data : (leb 2 c && ltb c 0x0FFFFFF8) ≡ true = ground (arith, low, high) in
        let size = context.sectors_per_cluster * 512 in
        let from = read_sectors disk (cluster_to_lba context c) in
        let after = copy_into out offset from size in
        let (content, ends, has) =
          read_chain-HasRead fuel (fat_entry c) (offset + size) after xs links (omega arith) in
        (
          content,
          rw (in_data, volume.clusters, next_cluster_lem c high, read_chain) ends,
          record {
            inside = λ q lt.
                joined c offset out content x xs e (first_sector_lem c low high small) has q lt;
            before =
                λ q lt. has.before q (omega arith) ∙ copied_beside out offset from size q (inl lt);
            behind = λ q le.
                has.behind q (omega arith)
                ∙ copied_beside out offset from size q (inr (omega (arith, le)));
          },
        )

  -- What the caller is given: the bytes of the clusters up to the size, a terminator, and what
  -- stood in fresh memory behind the clusters.
  unfoldable pub IsFile : Buffer → List ℕ → ℕ → Option (Option Buffer) → Type 0
  unfolding byte_of
  IsFile fresh clusters size none = ⊥
  IsFile fresh clusters size (some none) = ⊥
  IsFile fresh clusters size (some (some content)) =
      (content size ≡ 0)
      × ((q : ℕ) → q < size → content q ≡ byte_of clusters q)
      × ((q : ℕ) → size_of clusters < q → content q ≡ fresh q)

-- A file is read as the clusters of its chain one after the other, up to the size, and a zero
-- behind; nothing behind the byte after the clusters is written, and the walk along a chain of
-- fewer than 2 ^ 28 clusters ends. The chain has just the clusters that the size needs, so that the
-- allocated memory holds them. The volume has sectors of 512 bytes, and every read of the disk
-- succeeds.
pub fat32_read-Links :
    (disk : Buffer) (context : Fat32Context) (fresh : Buffer) (first size : ℕ) (clusters : List ℕ)
    → IsVolume context
    → Links disk context first (first ∷ clusters)
    → length clusters + 1 < 2 ^ 28
    → size ≤ size_of disk context (first ∷ clusters)
    → size_of disk context (first ∷ clusters) < size + context.sectors_per_cluster * 512
    → IsFile disk context fresh (first ∷ clusters) size (fat32_read disk context fresh first size)
unfolding fat32_read read_cluster_chain IsFile terminate as_pointer is_data_cluster
fat32_read-Links disk context fresh first size clusters volume (e, low, high, small, links) short
      fits tight =
    let (content, ends, has) =
      read_chain-HasRead disk context volume (2 ^ 28) first 0 fresh (first ∷ clusters)
        (e, low, high, small, links) (omega arith) in
    let in_data : (leb 2 first && ltb first 0x0FFFFFF8) ≡ true = ground (arith, low, high) in
    rw (in_data, ends)
      (
        store_self content size 0,
        λ q lt.
            let z : 0 + q ≡ q = omega arith in
            store_ne content size 0 q (omega arith)
            ∙ ap content (sym z)
            ∙ has.inside q (omega arith),
        λ q le.
            store_ne content size 0 q (omega (arith, le, fits)) ∙ has.behind q (omega (arith, le)),
      )
