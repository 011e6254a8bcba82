-- ===== src/Memory/Words.antt =====
-- A 64-bit access is eight accesses to bytes.
use esz_os.Base.{
  ℕ, ◌+◌, ◌-◌, ◌*◌, ◌/◌, ◌%◌, ◌^◌, ◌<◌, ◌≡◌, refl, ap₂, ◌∙◌, arith, ltb, leb, ◌&&◌, if◌then◌else◌,
  Buffer, store, IsBytes, List, [], ◌∷◌, length,
}
use esz_os.Memory.{load64, store_bytes, store64, fill_bytes}

-- The number whose bytes are listed, the lowest first.
abbrev nest : List ℕ → ℕ
nest [] = 0
nest (b ∷ bs) = b + nest bs * 2 ^ 8

abbrev put : List ℕ → Buffer → ℕ → Buffer
put [] m a = m
put (b ∷ bs) m a = put bs (store m a b) (a + 1)

abbrev AllBytes : List ℕ → Type 0
AllBytes [] = Unit
AllBytes (b ∷ bs) = (b < 256) × AllBytes bs

store_bytes-nest :
    (bs : List ℕ) (m : Buffer) (a : ℕ)
    → AllBytes bs
    → store_bytes (length bs) m a (nest bs) ≡ put bs m a
unfolding store_bytes
store_bytes-nest [] m a fits = refl
store_bytes-nest (b ∷ bs) m a (fits, rest) =
    let e : (b + nest bs * 2 ^ 8) % 2 ^ 8 ≡ b = omega arith in
    let f : (b + nest bs * 2 ^ 8) / 2 ^ 8 ≡ nest bs = omega arith in
    ap₂ (λ u w. store_bytes (length bs) (store m a u) (a + 1) w) e f
    ∙ store_bytes-nest bs (store m a b) (a + 1) rest

-- Storing the word `value * 0x0101010101010101` stores the byte eight times.
pub store64-repeat :
    (m : Buffer) (a value : ℕ)
    → value < 256
    → store64 m a (value * 0x0101010101010101) ≡ fill_bytes 8 m a value
unfolding store64 fill_bytes
store64-repeat m a v fits =
    let bs = v ∷ v ∷ v ∷ v ∷ v ∷ v ∷ v ∷ v ∷ [] in
    let e : v * 0x0101010101010101 ≡ nest bs = omega arith in
    rw e (store_bytes-nest bs m a (omega arith))

-- A word that is loaded and stored moves eight bytes.
pub store64-load64 :
    (m : Buffer) (to from i : ℕ)
    → IsBytes m
    → store64 m to (load64 m from) i
      ≡ (if leb to i && ltb i (to + 8) then m (from + (i - to)) else m i)
unfolding store64 load64 store
store64-load64 m to from i ok =
    let bs =
      m from
      ∷ m (from + 1)
      ∷ m (from + 2)
      ∷ m (from + 3)
      ∷ m (from + 4)
      ∷ m (from + 5)
      ∷ m (from + 6)
      ∷ m (from + 7)
      ∷ [] in
    let e : load64 m from ≡ nest bs = omega arith in
    rw
      (
        e,
        store_bytes-nest bs m to (ok _, (ok _, (ok _, (ok _, (ok _, (ok _, (ok _, (ok _, tt)))))))),
      )
      (ground arith)
