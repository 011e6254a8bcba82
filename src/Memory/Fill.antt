-- ===== src/Memory/Fill.antt =====
-- `memory_fill` against its meaning byte by byte.
use esz_os.Base.{
  ℕ, zero, suc, ◌+◌, ◌*◌, ◌/◌, ◌%◌, ◌<◌, ◌≡◌, arith, ltb, leb, ◌&&◌, if◌then◌else◌, Buffer, store,
  IsBytes,
}
use esz_os.Memory.{fill_bytes, fill_words, memory_fill}
use esz_os.Memory.Words.{store64-repeat}

fill_bytes_lem :
    (n : ℕ) (m : Buffer) (a v i : ℕ)
    → fill_bytes n m a v i ≡ (if leb a i && ltb i (a + n) then v else m i)
unfolding fill_bytes store
fill_bytes_lem zero m a v i = ground arith
fill_bytes_lem (suc n) m a v i = ground (arith, fill_bytes_lem n (store m a v) (a + 1) v i)

fill_words_lem :
    (n : ℕ) (m : Buffer) (a v i : ℕ)
    → v < 256
    → fill_words n m a (v * 0x0101010101010101) i
      ≡ (if leb a i && ltb i (a + 8 * n) then v else m i)
unfolding fill_words
fill_words_lem zero m a v i fits = ground arith
fill_words_lem (suc n) m a v i fits =
    rw (store64-repeat m a v fits)
      (ground (arith, fill_words_lem n (fill_bytes 8 m a v) (a + 8) v i, fill_bytes_lem 8 m a v i))

-- `memory_fill` writes its byte to exactly the `n` cells from the target on, for every length.
pub memory_fill_lem :
    (m : Buffer) (target value n i : ℕ)
    → value < 256
    → memory_fill m target value n i ≡ (if leb target i && ltb i (target + n) then value else m i)
unfolding memory_fill
memory_fill_lem m a v n i fits =
    let words = fill_words (n / 8) m a (v * 0x0101010101010101) in
    ground (
      arith,
      fill_bytes_lem (n % 8) words (a + 8 * (n / 8)) v i,
      fill_words_lem (n / 8) m a v i fits,
    )

pub memory_fill-IsBytes :
    (m : Buffer) (target value n : ℕ)
    → value < 256
    → IsBytes m
    → IsBytes (memory_fill m target value n)
memory_fill-IsBytes m a v n fits ok i = ground (arith, memory_fill_lem m a v n i fits, ok i)
