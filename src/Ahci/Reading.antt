-- ===== src/Ahci/Reading.antt =====
-- Reading sectors: `AHCI_READ_DMA_EXT` of kernel/io/ahci/ahci.cpp, from the command that it builds
-- to the bytes that it returns.
use esz_os.Base.{
  ℕ, ◌+◌, ◌*◌, ◌/◌, ◌^◌, ◌<◌, ◌≤◌, ◌≡◌, ◌≢◌, ◌⊎◌, inl, inr, refl, ◌∙◌, ap, sym, arith, Bool, true,
  false, not, ◌||◌, ◌==◌, ltb, if◌then◌else◌, Buffer, IsBytes, Bool-cases,
}
use esz_os.Config.{page_size}
use esz_os.Math.{divide_round_up}
use esz_os.Math.Laws.{divide_round_up_page}
use esz_os.Pmm.{bytes_of, pmm_malloc_page, pmm_malloc_pages, pmm_malloc_failed}
use esz_os.Ahci.{
  read_dma_ext, CommandTable, Controller, Ahci, allocate_command_table, allocate_data_buffer,
  start_command, run_command, await_task_finish, data_size_of, copy_from, sector_command,
  with_command, ahci_read_dma_ext,
}
use esz_os.Ahci.Await.{ComesInTime, await_task_finish_iff}
use esz_os.Ahci.Building.{
  lba_of, IsDisk, sector_command_lem, sector_command_fields, page-IsLow, pages-IsLow,
  table_address_lem, table_pmm, data_address_lem, header_of, started_memory,
}

-- What a read is to give at byte `i` of the buffer: nothing new if an allocation failed, and
-- otherwise the bytes of the sectors.
abbrev pub IsRead : Buffer → ℕ → ℕ → Buffer → Ahci → ℕ → ℕ → Type 0
IsRead disk lba sector_quantity out s i byte =
    ((((allocate_command_table s).0 ≡ pmm_malloc_failed)
        ⊎ ((allocate_data_buffer (data_size_of sector_quantity) ((allocate_command_table s).1)).0
            ≡ pmm_malloc_failed))
      × (byte ≡ out i))
    ⊎ (byte ≡ (if ltb i (sector_quantity * 512) then disk (lba * 512 + i) else out i))

module _ (disk : Buffer) (controller : Controller) (d : IsDisk disk controller)
    (clb lba sector_quantity : ℕ) (out : Buffer) (s : Ahci) (i : ℕ) (small : lba < 2 ^ 48)
    (pos : 0 < sector_quantity) (few : sector_quantity ≤ 2 ^ 13)
    (low : s.pmm.pmm_bitmap.count ≤ 2 ^ 20) (ok : IsBytes (bytes_of (s.pmm)))
    (done : (await_task_finish (controller.busy) 0).0 ≡ true) where
  t : ℕ × Ahci
  t = allocate_command_table s

  size : ℕ
  size = data_size_of sector_quantity

  b : ℕ × Ahci
  unfolding t size
  b = allocate_data_buffer size (t.1)

  t-low : t.0 ≢ pmm_malloc_failed → t.0 < 2 ^ 32
  unfolding t
  t-low ne =
      let r = page-IsLow (s.pmm) low ok in
      let e = table_address_lem s in omega (arith, e, r.low (λ x. ne (e ∙ x)))

  b-low : b.0 ≢ pmm_malloc_failed → b.0 < 2 ^ 32
  unfolding t b size
  b-low ne =
      let r = page-IsLow (s.pmm) low ok in
      let n = divide_round_up (data_size_of sector_quantity) page_size in
      let exact : n ≡ (data_size_of sector_quantity + 4095) / 4096 =
        divide_round_up_page (data_size_of sector_quantity) (omega (arith, few)) in
      let e = data_address_lem (data_size_of sector_quantity) ((allocate_command_table s).1) in
      let q = table_pmm s in
      let l =
        pages-IsLow (pmm_malloc_page (s.pmm)).1 n (omega (arith, exact, pos, few))
          (omega (arith, exact, few)) (omega (arith, r.count, low)) (r.bytes) in
      let same : b.0 ≡ (pmm_malloc_pages n (pmm_malloc_page (s.pmm)).1).0 =
        e ∙ ap (λ p. (pmm_malloc_pages n p).0) q in
      omega (arith, same, l.low (λ x. ne (same ∙ x)))

  fill : CommandTable → CommandTable
  unfolding t b
  fill = sector_command read_dma_ext lba sector_quantity (b.0)

  after_wait : Bool → Ahci
  unfolding t b fill
  after_wait finished =
      start_command controller finished clb (with_command clb (t.0) false fill (b.1))

  after : Ahci
  unfolding after_wait
  after = after_wait true

  by_outcome : Bool → Bool → ℕ
  unfolding t b after_wait size
  by_outcome finished failed =
      let r : Buffer × Ahci =
        if failed
        then (out, b.1)
        else (copy_from out size ((after_wait finished).memory) (b.0), after_wait finished) in
      r.0 i

  by_failure : Bool → ℕ
  unfolding by_outcome after
  by_failure failed = by_outcome true failed

  read_bytes :
      t.0 ≢ pmm_malloc_failed
      → b.0 ≢ pmm_malloc_failed
      → by_failure false ≡ (if ltb i (sector_quantity * 512) then disk (lba * 512 + i) else out i)
  unfolding by_failure by_outcome after_wait copy_from after fill size
  read_bytes ne ne' =
      let low' = b-low ne' in
      let exact : size ≡ sector_quantity * 512 = omega (arith, few) in
      let (sector, number, length) =
        sector_command_lem read_dma_ext lba sector_quantity (b.0) (b.1.tables (t.0)) small pos
          few in
      let (region, upper, fis, bit, cmd, dev) =
        sector_command_fields read_dma_ext lba sector_quantity (b.0) (b.1.tables (t.0)) in
      let table = fill (b.1.tables (t.0)) in
      let at : table.dba + 2 ^ 32 * table.dbau + i ≡ b.0 + i = omega (arith, region, upper, low') in
      let memory = started_memory clb (t.0) false fill (b.1) controller (t-low ne) in
      let read =
        d.reads (header_of (t.0) false) table (b.1.memory) i refl refl refl fis bit cmd dev
          (omega (arith, number, length)) in
      elim (Bool-cases (ltb i (sector_quantity * 512))) [
        | inl inside ↦
            let inside' : ltb i (table.dbc + 1) ≡ true = ap (ltb i) length ∙ inside in
            ap (λ k. if ltb i k then after.memory (b.0 + i) else out i) exact
            ∙ ap (λ c. if c then after.memory (b.0 + i) else out i) inside
            ∙ ap (λ m. m (b.0 + i)) memory
            ∙ ap (controller.transfer (header_of (t.0) false) table (b.1.memory)) (sym at)
            ∙ read
            ∙ ap
                (λ c.
                  if c
                  then disk (lba_of table * 512 + i)
                  else b.1.memory (table.dba + 2 ^ 32 * table.dbau + i))
                inside'
            ∙ ap (λ l. disk (l * 512 + i)) sector
            ∙ sym (ap (λ c. if c then disk (lba * 512 + i) else out i) inside)
        | inr outside ↦
            ap (λ k. if ltb i k then after.memory (b.0 + i) else out i) exact
            ∙ ap (λ c. if c then after.memory (b.0 + i) else out i) outside
            ∙ sym (ap (λ c. if c then disk (lba * 512 + i) else out i) outside)
      ]

  by_failure_lem :
      ((ahci_read_dma_ext controller clb lba sector_quantity out s).0) i
      ≡ by_failure (t.0 == pmm_malloc_failed || b.0 == pmm_malloc_failed)
  unfolding ahci_read_dma_ext by_failure by_outcome t b after after_wait fill size run_command
  by_failure_lem =
      ap (λ finished. by_outcome finished (t.0 == pmm_malloc_failed || b.0 == pmm_malloc_failed))
        done

  pub by_failure-IsRead :
      IsRead disk lba sector_quantity out s i
        (((ahci_read_dma_ext controller clb lba sector_quantity out s).0) i)
  unfolding t b size by_failure
  by_failure-IsRead = elim (Bool-cases (t.0 == pmm_malloc_failed)) [
    | inl gone ↦
        let failed : (t.0 == pmm_malloc_failed || b.0 == pmm_malloc_failed) ≡ true =
          ap (λ c. c || b.0 == pmm_malloc_failed) gone in
        inl (inl (ground (arith, gone)), by_failure_lem ∙ ap by_failure failed)
    | inr there ↦ elim (Bool-cases (b.0 == pmm_malloc_failed)) [
      | inl gone ↦
          let failed : (t.0 == pmm_malloc_failed || b.0 == pmm_malloc_failed) ≡ true =
            ap (λ c. c || b.0 == pmm_malloc_failed) there ∙ gone in
          inl (inr (ground (arith, gone)), by_failure_lem ∙ ap by_failure failed)
      | inr there' ↦
          let done : (t.0 == pmm_malloc_failed || b.0 == pmm_malloc_failed) ≡ false =
            ap (λ c. c || b.0 == pmm_malloc_failed) there ∙ there' in
          inr (
            by_failure_lem
            ∙ ap by_failure done
            ∙ read_bytes (λ e. ground (arith, e, there)) (λ e. ground (arith, e, there')))
    ]
  ]

-- On a controller with a disk behind it that finishes the command at one of the first 3000 polls,
-- reading up to 8192 sectors gives just the bytes of these sectors and leaves the rest of the
-- buffer, or it leaves the whole buffer as an allocation failed. The sector is below 2 ^ 48, and the
-- physical pages lie below 4 GiB.
pub ahci_read_dma_ext-IsRead :
    (disk : Buffer) (controller : Controller) (clb lba sector_quantity : ℕ) (out : Buffer)
    (s : Ahci) (i : ℕ)
    → IsDisk disk controller
    → ComesInTime (λ time. not (controller.busy time)) 0
    → lba < 2 ^ 48
    → 0 < sector_quantity
    → sector_quantity ≤ 2 ^ 13
    → s.pmm.pmm_bitmap.count ≤ 2 ^ 20
    → IsBytes (bytes_of (s.pmm))
    → IsRead disk lba sector_quantity out s i
        (((ahci_read_dma_ext controller clb lba sector_quantity out s).0) i)
ahci_read_dma_ext-IsRead disk controller clb lba sector_quantity out s i d comes small pos few low
      ok =
    by_failure-IsRead disk controller d clb lba sector_quantity out s i small pos few low ok
      ((await_task_finish_iff (controller.busy) 0).1.1 comes)
