-- ===== src/Pmm/Init.antt =====
-- The set-up of the page bitmap: pmm_bitmap.cpp, and `get_memory_regions` of pmm.cpp.
use esz_os.Base.{
  ℕ, ◌+◌, ◌-◌, ◌*◌, ◌/◌, ◌^◌, ◌≤◌, ◌<◌, ◌≡◌, refl, inl, inr, Bool, true, false, not, arith, ◌==◌,
  ◌&&◌, ◌||◌, if◌then◌else◌, Buffer, IsBytes, Bool-cases, List, [], ◌∷◌, some,
}
use esz_os.Config.{page_size}
use esz_os.Math.{divide_round_up}
use esz_os.Memory.{memory_fill}
use esz_os.Memory.Fill.{memory_fill_lem, memory_fill-IsBytes}
use esz_os.Bitmap.{bit_read}
use esz_os.Bitmap.Bits.{bit_read-full}
use esz_os.Bitmap.Ranges.{in_range, write_bits-IsBytes, bit_read-write_bits}
use esz_os.Pmm.{
  Region, Pmm, bytes_of, see_region, get_memory_regions, pmm_free, pmm_malloc_page_range,
  init_bitmap_data, bitmap_region, get_free_location_for_bitmap,
}

module _ (usable : ℕ) where
  -- The pages of the usable regions, the last one rounded up.
  unfoldable pub covered : List Region → ℕ → Bool
  covered [] q = false
  covered (r ∷ rest) q =
      (r.kind == usable && in_range (r.base / page_size) (divide_round_up r.length page_size) q)
      || covered rest q

  init_bitmap_data_lem :
      (regions : List Region) (p : Pmm) (q : ℕ)
      → IsBytes (bytes_of p)
      → bit_read (bytes_of (init_bitmap_data usable regions p)) q
        ≡ (if covered regions q then false else bit_read (bytes_of p) q)
  unfolding init_bitmap_data covered pmm_free
  init_bitmap_data_lem [] p q ok = refl
  init_bitmap_data_lem (r ∷ rest) p q ok = elim (Bool-cases (r.kind == usable)) [
    | inl e ↦ rw e (
        ground (
          arith,
          init_bitmap_data_lem rest (pmm_free r.base r.length p).1 q
              (write_bits-IsBytes _ _ _ _ ok),
          bit_read-write_bits (divide_round_up r.length page_size) (r.base / page_size) false
              (bytes_of p) q ok,
        ))
    | inr e ↦ rw e (init_bitmap_data_lem rest p q ok)
  ]

  init_bitmap_data-IsBytes :
      (regions : List Region) (p : Pmm)
      → IsBytes (bytes_of p)
      → IsBytes (bytes_of (init_bitmap_data usable regions p))
  unfolding init_bitmap_data pmm_free
  init_bitmap_data-IsBytes [] p ok = ok
  init_bitmap_data-IsBytes (r ∷ rest) p ok = elim (Bool-cases (r.kind == usable)) [
    | inl e ↦ rw e (
        init_bitmap_data-IsBytes rest (pmm_free r.base r.length p).1
          (write_bits-IsBytes _ _ _ _ ok))
    | inr e ↦ rw e (init_bitmap_data-IsBytes rest p ok)
  ]

  count_kept :
      (regions : List Region) (p : Pmm)
      → (init_bitmap_data usable regions p).pmm_bitmap.count ≡ p.pmm_bitmap.count
  unfolding init_bitmap_data pmm_free
  count_kept [] p = refl
  count_kept (r ∷ rest) p = elim (Bool-cases (r.kind == usable)) [
    | inl e ↦ rw (e, init_bitmap_data) (count_kept rest (pmm_free r.base r.length p).1)
    | inr e ↦ rw (e, init_bitmap_data) (count_kept rest p)
  ]

  -- What the bits below `count` say when the set-up is done: the pages of the bitmap itself are
  -- used, all other pages of usable regions are free, and the rest is used.
  abbrev pub initial_bit : ℕ → Region → List Region → ℕ → Bool
  initial_bit req_size r regions q =
      in_range (r.base / page_size) (divide_round_up req_size page_size) q
      || not (covered regions q)

  -- If some usable region has room for the bitmap, the set-up succeeds, the bitmap counts the
  -- pages below the highest address, and a page whose bit lies in the bitmap is free exactly if a
  -- usable region covers it and the bitmap does not stand in it.
  pub get_free_location_for_bitmap_lem :
      (memory : Region → Buffer) (regions : List Region) (p : Pmm) (r : Region) (q : ℕ)
      → let count = p.highest_address / page_size in
        let req_size = divide_round_up count 8 in
        IsBytes (memory r)
        → bitmap_region usable req_size regions ≡ some r
        → q < 8 * req_size
        → (p' : Pmm) × (get_free_location_for_bitmap usable memory regions p ≡ some p')
          × (p'.pmm_bitmap.count ≡ count)
          × (bit_read (bytes_of p') q ≡ initial_bit req_size r regions q)
  unfolding get_free_location_for_bitmap pmm_malloc_page_range
  get_free_location_for_bitmap_lem memory regions p r q ok found below = (
    p',
    rw (found, get_free_location_for_bitmap),
    count_kept regions started,
    ground (
      arith,
      bit_read-write_bits (divide_round_up req_size page_size) (r.base / page_size) true
          (bytes_of freed) q (init_bitmap_data-IsBytes regions started filled-IsBytes),
      init_bitmap_data_lem regions started q filled-IsBytes,
      bit_read-full (bytes_of started) q
          (rw (memory_fill_lem (memory r) 0 0xFF req_size (q / 8) (omega arith)) (ground arith)),
    ),
  )
    where
      req_size : ℕ
      req_size = divide_round_up (p.highest_address / page_size) 8

      started : Pmm
      started = record p {
        pmm_bitmap = record {
          bytes = memory_fill (memory r) 0 0xFF req_size;
          count = p.highest_address / page_size;
        };
      }

      filled-IsBytes : IsBytes (bytes_of started)
      filled-IsBytes = memory_fill-IsBytes (memory r) 0 0xFF req_size (omega arith) ok

      freed : Pmm
      freed = init_bitmap_data usable regions started

      p' : Pmm
      p' = (pmm_malloc_page_range (r.base / page_size) (divide_round_up req_size page_size) freed).1

  unfoldable pub usable_bytes : List Region → ℕ
  usable_bytes [] = 0
  usable_bytes (r ∷ rest) = (if r.kind == usable then r.length else 0) + usable_bytes rest

  -- Every usable region ends at or below `h`.
  abbrev pub EndsBelow : ℕ → List Region → Type 0
  EndsBelow h [] = Unit {0}
  EndsBelow h (r ∷ rest) =
      ((if r.kind == usable then r.base + r.length else 0) ≤ h) × EndsBelow h rest

  see_region_lem :
      (r : Region) (p : Pmm)
      → (if r.kind == usable then r.base + r.length else 0) ≤ 2 ^ 64 - 1
      → p.total_usable_bytes + (if r.kind == usable then r.length else 0) < 2 ^ 64
      → let p' = see_region usable r p in
        (p'.total_usable_bytes ≡ p.total_usable_bytes + (if r.kind == usable then r.length else 0))
        × ((if r.kind == usable then r.base + r.length else 0) ≤ p'.highest_address)
        × (p.highest_address ≤ p'.highest_address)
  unfolding see_region
  see_region_lem r p ends fits = ground arith

  -- `get_memory_regions` adds up the lengths of the usable regions, and the highest address lies
  -- at or above the end of each of them and never falls, as long as no address and no sum passes
  -- 2 ^ 64.
  pub get_memory_regions_lem :
      (regions : List Region) (p : Pmm)
      → EndsBelow (2 ^ 64 - 1) regions
      → p.total_usable_bytes + usable_bytes regions < 2 ^ 64
      → let p' = get_memory_regions usable regions p in
        (p'.total_usable_bytes ≡ p.total_usable_bytes + usable_bytes regions)
        × EndsBelow p'.highest_address regions
        × (p.highest_address ≤ p'.highest_address)
  unfolding get_memory_regions usable_bytes
  get_memory_regions_lem [] p below fits = (omega arith, tt, omega arith)
  get_memory_regions_lem (r ∷ rest) p (here, later) fits =
      let (total, ends, grows) = see_region_lem r p here (omega arith) in
      let (total', all, grows') =
        get_memory_regions_lem rest (see_region usable r p) later (omega arith) in
      (omega arith, (omega arith, all), omega arith)
