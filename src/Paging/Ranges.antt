-- ===== src/Paging/Ranges.antt =====
-- `map_pages` of kernel/memory/virtual/paging/paging.cpp.
use esz_os.Base.{
  ℕ, zero, suc, ◌+◌, ◌-◌, ◌*◌, ◌/◌, ◌%◌, ◌^◌, ◌<◌, ◌≤◌, ◌≡◌, ◌≢◌, inl, inr, refl, ◌∙◌, ap, subst,
  arith, Bool, true, false, ◌&&◌, u64, some, eq_or_ne,
}
use esz_os.Config.{page_size}
use esz_os.Math.{divide_round_up}
use esz_os.Paging.{PagingState, PagingFlags, map_page, map_from, map_pages}
use esz_os.Paging.Tables.{IsPaged}
use esz_os.Paging.Lookup.{IsTree}
use esz_os.Paging.Mapping.{frame_of, MapResult, map_page-MapResult}
use esz_os.Paging.Isolation.{map_page-Isolated}

-- The page of an address, as far as the tables look at it.
abbrev pub page_of : ℕ → ℕ
page_of v = v / 4096 % 2 ^ 36

pub MapResult-true :
    (root v p : ℕ) (r : Bool × PagingState)
    → MapResult root v p r
    → r.0 ≡ true
    → frame_of (r.1.tables) root v ≡ some (p / 4096 * 4096)
unfolding MapResult
MapResult-true root v p (true, s) m e = m.0
MapResult-true root v p (false, s) m e = absurd (ground (arith, e))

module _ (root virtual_address physical_address : ℕ) (flags : PagingFlags) where
  abbrev at : ℕ → ℕ
  at i = u64 (virtual_address + i * page_size)

  at_page : (i : ℕ) → page_of (at i) ≡ (virtual_address / 4096 + i) % 2 ^ 36
  at_page i = omega arith

  -- What the loop gives from page `i` on.
  record HasMapped (left i : ℕ) (success : Bool) (s : PagingState) (r : Bool × PagingState)
      : Type 0 where
    was : r.0 ≡ true → success ≡ true
    frames :
        (k : ℕ)
        → r.0 ≡ true
        → k < left
        → frame_of (r.1.tables) root (at (i + k))
          ≡ some ((physical_address + (i + k) * page_size) / 4096 * 4096)
    others :
        (v : ℕ)
        → ((k : ℕ) → k < left → page_of v ≢ page_of (at (i + k)))
        → frame_of (r.1.tables) root v ≡ frame_of (s.tables) root v
    level' : ℕ → ℕ
    paged : IsPaged level' root (r.1)
    tree : IsTree level' (r.1)

  map_from-HasMapped :
      (left i : ℕ) (success : Bool) (s : PagingState) (level : ℕ → ℕ)
      → IsPaged level root s
      → IsTree level s
      → i + left ≤ 2 ^ 36
      → physical_address + (i + left) * page_size ≤ 2 ^ 52
      → HasMapped left i success s
          (map_from left i root virtual_address physical_address flags success s)
  unfolding map_from
  map_from-HasMapped zero i success s level ok tree few low = record {
    was = λ e. e;
    frames = λ k e lt. absurd (omega (arith, lt));
    others = λ v ne. refl;
    level' = level;
    paged = ok;
    tree = tree;
  }
  map_from-HasMapped (suc left) i success s level ok tree few low =
      let here = map_page root (at i) (u64 (physical_address + i * page_size)) flags s in
      let iso =
        map_page-Isolated level root (at i) s ok tree (u64 (physical_address + i * page_size))
          flags in
      let done =
        map_page-MapResult level root (at i) (u64 (physical_address + i * page_size)) flags s ok
          (omega (arith, low)) in
      let after =
        map_from left (i + 1) root virtual_address physical_address flags (here.0 && success)
          (here.1) in
      let rest =
        map_from-HasMapped left (i + 1) (here.0 && success) (here.1) (iso.level') (iso.paged)
          (iso.tree) (omega (arith, few)) (omega (arith, low)) in
      record {
        was = λ e. ground (arith, rest.was e);
        frames = λ k e lt. elim (eq_or_ne k 0) [
          | inl z ↦
              let exact : u64 (physical_address + i * page_size) / 4096 * 4096
                  ≡ (physical_address + i * page_size) / 4096 * 4096 =
                omega (arith, low) in
              let kept =
                rest.others (at i) (λ n less same. absurd (omega (arith, less, same, few))) in
              let found =
                MapResult-true root (at i) (u64 (physical_address + i * page_size)) here done
                  (ground (arith, rest.was e)) in
              let same : i ≡ i + k = omega (arith, z) in
              subst
                (λ j.
                  frame_of (after.1.tables) root (at j)
                  ≡ some ((physical_address + j * page_size) / 4096 * 4096))
                same (kept ∙ found ∙ ap some exact)
          | inr ne ↦
              let same : i + 1 + (k - 1) ≡ i + k = omega (arith, ne) in
              subst
                (λ j.
                  frame_of (after.1.tables) root (at j)
                  ≡ some ((physical_address + j * page_size) / 4096 * 4096))
                same (rest.frames (k - 1) e (omega (arith, lt, ne)))
        ];
        others = λ v ne.
            rest.others v (λ k lt e. ne (k + 1) (omega (arith, lt)) (omega (arith, e)))
            ∙ iso.others v (λ e. ne 0 (omega arith) (omega (arith, e)));
        level' = rest.level';
        paged = rest.paged;
        tree = rest.tree;
      }

-- When `map_pages` says true, the processor finds, at every page of the range, the frame of the
-- physical address as far into the range: no later page of the range takes an earlier one away.
-- The range has at most 2 ^ 36 pages, the physical one ends at 2 ^ 52 at most, the tables before
-- form levels without large pages (`IsPaged`), and no table is reached by two entries (`IsTree`).
pub map_pages_frames :
    (level : ℕ → ℕ) (root virtual_address physical_address : ℕ) (flags : PagingFlags)
    (required_size : ℕ) (s : PagingState) (k : ℕ)
    → IsPaged level root s
    → IsTree level s
    → physical_address + divide_round_up required_size page_size * page_size ≤ 2 ^ 52
    → divide_round_up required_size page_size ≤ 2 ^ 36
    → (map_pages root virtual_address physical_address flags required_size s).0 ≡ true
    → k < divide_round_up required_size page_size
    → frame_of
        ((map_pages root virtual_address physical_address flags required_size s).1.tables)
        root
        (u64 (virtual_address + k * page_size))
      ≡ some ((physical_address + k * page_size) / 4096 * 4096)
unfolding map_pages
map_pages_frames level root virtual_address physical_address flags required_size s k ok tree low few
      done lt =
    let mapped =
      map_from-HasMapped root virtual_address physical_address flags
        (divide_round_up required_size page_size) 0 true s level ok tree (omega (arith, few))
        (omega (arith, low)) in
    let same : 0 + k ≡ k = omega arith in
    subst
      (λ j.
        frame_of ((map_pages root virtual_address physical_address flags required_size s).1.tables)
          root (u64 (virtual_address + j * page_size))
        ≡ some ((physical_address + j * page_size) / 4096 * 4096))
      same (mapped.frames k done lt)

-- `map_pages` leaves what the processor finds on every page out of the range, also where it fails.
pub map_pages_others :
    (level : ℕ → ℕ) (root virtual_address physical_address : ℕ) (flags : PagingFlags)
    (required_size : ℕ) (s : PagingState) (v : ℕ)
    → IsPaged level root s
    → IsTree level s
    → physical_address + divide_round_up required_size page_size * page_size ≤ 2 ^ 52
    → divide_round_up required_size page_size ≤ 2 ^ 36
    → ((k : ℕ)
        → k < divide_round_up required_size page_size
        → page_of v ≢ page_of (u64 (virtual_address + k * page_size)))
    → frame_of
        ((map_pages root virtual_address physical_address flags required_size s).1.tables)
        root
        v
      ≡ frame_of (s.tables) root v
unfolding map_pages
map_pages_others level root virtual_address physical_address flags required_size s v ok tree low few
      away =
    let mapped =
      map_from-HasMapped root virtual_address physical_address flags
        (divide_round_up required_size page_size) 0 true s level ok tree (omega (arith, few))
        (omega (arith, low)) in
    mapped.others v (λ j less e. away j less (omega (arith, e)))
