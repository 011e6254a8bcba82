-- ===== src/Terminal/Moves.antt =====
-- The loops of kernel/terminal/terminal.cpp that make room and close a gap.
use esz_os.Base.{ℕ, zero, suc, ◌+◌, ◌-◌, ◌≡◌, ap, arith, ◌&&◌, ◌==◌, ltb, leb, if◌then◌else◌, sym}
use esz_os.Terminal.{shift_right, shift_left}

pub shift_right_lem :
    {A : Type 0}
    → (n from : ℕ) (a : ℕ → A) (q : ℕ)
    → shift_right n from a q ≡ (if ltb from q && leb q (from + n) then a (q - 1) else a q)
unfolding shift_right
shift_right_lem zero from a q = ground arith
shift_right_lem {A = A} (suc n) from a q =
    let b : ℕ → A = λ j. if j == from + suc n then a (from + n) else a j in
    let next = shift_right_lem n from b q in
    let e : (q ≡ from + suc n) → a (from + n) ≡ a (q - 1) =
      λ k. let m : from + n ≡ q - 1 = omega arith in ap a m in
    ground (arith, next, e)

pub shift_left_lem :
    {A : Type 0}
    → (n from : ℕ) (a : ℕ → A) (q : ℕ)
    → shift_left n from a q ≡ (if leb from q && ltb q (from + n) then a (q + 1) else a q)
unfolding shift_left
shift_left_lem zero from a q = ground arith
shift_left_lem {A = A} (suc n) from a q =
    let b : ℕ → A = λ j. if j == from then a (from + 1) else a j in
    let next = shift_left_lem n (from + 1) b q in
    let e : (q ≡ from) → a (from + 1) ≡ a (q + 1) = λ k. ap (λ x. a (x + 1)) (sym k) in
    ground (arith, next, e)
