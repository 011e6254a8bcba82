-- ===== src/History/Stored.antt =====
-- What the command history of kernel/terminal/cmd_history/cmd_history.cpp holds.
use esz_os.Base.{
  ℕ, zero, suc, ◌+◌, ◌-◌, ◌<◌, ◌≤◌, ◌≡◌, ◌≢◌, refl, ◌∙◌, arith, true, false, ◌==◌, ltb, leb,
  if◌then◌else◌, List, [], ◌∷◌, ◌++◌, length, length-append, Buffer, store, sym, subst, Bool-cases,
  inl, inr, Option, some, none,
}
use esz_os.Config.{max_command_history}
use esz_os.Str.{str_copy}
use esz_os.Str.Text.{Holds}
use esz_os.Str.Copy.{str_copy-Holds}
use esz_os.History.{
  History, put, shift_history, drop_oldest, append_command, add_command_to_history, arrow_up,
  arrow_down, set_go_through, shown_entry,
}

-- The texts stand in the entries from `i` on.
abbrev pub Stored : (ℕ → Buffer) → ℕ → List (List ℕ) → Type 0
Stored e i [] = Unit {0}
Stored e i (s ∷ ss) = Holds (e i) s × Stored e (i + 1) ss

Stored-ext :
    (e d : ℕ → Buffer) (i : ℕ) (ss : List (List ℕ))
    → ((k : ℕ) → i ≤ k → k < i + length ss → d k ≡ e k)
    → Stored e i ss
    → Stored d i ss
Stored-ext e d i [] same st = tt
Stored-ext e d i (s ∷ ss) same (h, st) = (
  subst (λ t. Holds t s) (sym (same i (omega arith) (omega arith))) h,
  Stored-ext e d (i + 1) ss (λ k le lt. same k (omega arith) (omega arith)) st,
)

put_ne : (e : ℕ → Buffer) (i : ℕ) (t : Buffer) (k : ℕ) → k ≢ i → put e i t k ≡ e k
unfolding put
put_ne e i t k ne = let z : (k == i) ≡ false = ground (arith, ne) in rw z refl

put_self : (e : ℕ → Buffer) (i : ℕ) (t : Buffer) → put e i t i ≡ t
unfolding put
put_self e i t = let z : (i == i) ≡ true = ground arith in rw z refl

shift_history_before : (n i : ℕ) (e : ℕ → Buffer) (k : ℕ) → k < i → shift_history n i e k ≡ e k
unfolding shift_history
shift_history_before zero i e k lt = refl
shift_history_before (suc n) i e k lt =
    shift_history_before n (i + 1) (put e i (str_copy (e i) (e (i + 1)))) k (omega arith)
    ∙ put_ne e i (str_copy (e i) (e (i + 1))) k (omega arith)

shift_history-Stored :
    (i : ℕ) (e : ℕ → Buffer) (ss : List (List ℕ))
    → Stored e (i + 1) ss
    → Stored (shift_history (length ss) i e) i ss
unfolding shift_history
shift_history-Stored i e [] st = tt
shift_history-Stored i e (s ∷ ss) (h, st) =
    let t = str_copy (e i) (e (i + 1)) in
    let d = put e i t in
    (
      subst (λ x. Holds x s)
          (sym (shift_history_before (length ss) (i + 1) d i (omega arith) ∙ put_self e i t))
          (str_copy-Holds (e i) (e (i + 1)) s h),
      shift_history-Stored (i + 1) d ss
          (Stored-ext e d (i + 1 + 1) ss (λ k le lt. put_ne e i t k (omega arith)) st),
    )

-- The history holds these commands, the oldest first, and no more than it has room for.
pub record Remembers (h : History) (commands : List (List ℕ)) : Type 0 where
  pub stored : Stored (h.entries) 0 commands
  pub counted : h.count ≡ length commands
  pub bounded : h.count ≤ max_command_history

Stored-append :
    (e : ℕ → Buffer) (i : ℕ) (ss : List (List ℕ)) (s : List ℕ)
    → Stored e i ss
    → Holds (e (i + length ss)) s
    → Stored e i (ss ++ (s ∷ []))
Stored-append e i [] s st h =
    let z : i + 0 ≡ i = omega arith in (subst (λ k. Holds (e k) s) z h, tt)
Stored-append e i (r ∷ ss) s (g, st) h =
    let z : i + suc (length ss) ≡ i + 1 + length ss = omega arith in
    (g, Stored-append e (i + 1) ss s st (subst (λ k. Holds (e k) s) z h))

append_command-Stored :
    (h : History) (command : Buffer) (ss : List (List ℕ)) (s : List ℕ)
    → Stored (h.entries) 0 ss
    → h.count ≡ length ss
    → Holds command s
    → Stored ((append_command command h).entries) 0 (ss ++ (s ∷ []))
unfolding append_command
append_command-Stored h command ss s st n held =
    let t = str_copy (h.entries (h.count)) command in
    let e = put (h.entries) (h.count) t in
    let z : h.count ≡ 0 + length ss = omega arith in
    let copied = str_copy-Holds (h.entries (h.count)) command s held in
    Stored-append e 0 ss s
      (Stored-ext (h.entries) e 0 ss (λ k le lt. put_ne (h.entries) (h.count) t k (omega arith)) st)
      (subst (λ k. Holds (e k) s) z
        (subst (λ x. Holds x s) (sym (put_self (h.entries) (h.count) t)) copied))

drop_oldest-Stored :
    (h : History) (c : List ℕ) (cs : List (List ℕ))
    → Remembers h (c ∷ cs)
    → Stored ((drop_oldest h).entries) 0 cs
unfolding drop_oldest
drop_oldest-Stored h c cs r =
    let n : h.count - 1 ≡ length cs = omega (arith, r.counted) in
    let (_, rest) = r.stored in
    let moved = shift_history (h.count - 1) 0 (h.entries) in
    let st =
      subst (λ k. Stored (shift_history k 0 (h.entries)) 0 cs) (sym n)
        (shift_history-Stored 0 (h.entries) cs rest) in
    Stored-ext moved (put moved (h.count - 1) (store (moved (h.count - 1)) 0 0)) 0 cs
      (λ k le lt. put_ne moved (h.count - 1) (store (moved (h.count - 1)) 0 0) k (omega arith)) st

-- The commands that stay when one is added: all, or all but the oldest if there is no room.
unfoldable pub kept_commands : List (List ℕ) → List (List ℕ)
kept_commands [] = []
kept_commands (s ∷ ss) = if leb max_command_history (length (s ∷ ss)) then ss else s ∷ ss

-- Adding a command to the history puts it behind the others; of a full history the oldest is
-- lost. There are never more than `MAX_COMMAND_HISTORY`.
pub add_command_to_history-Remembers :
    (h : History) (command : Buffer) (commands : List (List ℕ)) (s : List ℕ)
    → Remembers h commands
    → Holds command s
    → Remembers (add_command_to_history command h) (kept_commands commands ++ (s ∷ []))
unfolding add_command_to_history kept_commands drop_oldest append_command
add_command_to_history-Remembers h command [] s r held =
    let z : leb 100 (h.count) ≡ false = ground (arith, r.counted) in
    subst (λ b. Remembers (append_command command (if b then drop_oldest h else h)) (s ∷ []))
      (sym z)
      record {
        stored = append_command-Stored h command [] s tt (r.counted) held;
        counted = omega (arith, r.counted);
        bounded = omega (arith, r.counted);
      }
add_command_to_history-Remembers h command (c ∷ cs) s r held =
    elim (Bool-cases (leb 100 (suc (length cs)))) [
      | inr room ↦
          let z : leb 100 (h.count) ≡ false = ground (arith, r.counted, room) in
          let len = length-append (c ∷ cs) (s ∷ []) in
          rw (z, room)
            record {
              stored = append_command-Stored h command (c ∷ cs) s (r.stored) (r.counted) held;
              counted = omega (arith, r.counted, len);
              bounded = ground (arith, r.counted, room);
            }
      | inl full ↦
          let z : leb 100 (h.count) ≡ true = ground (arith, r.counted, full) in
          let len = length-append cs (s ∷ []) in
          let n : h.count - 1 ≡ length cs = omega (arith, r.counted) in
          rw (z, full)
            record {
              stored =
                  append_command-Stored (drop_oldest h) command cs s (drop_oldest-Stored h c cs r) n
                    held;
              counted = omega (arith, r.counted, len);
              bounded = ground (arith, r.counted, r.bounded);
            }
    ]

-- What an arrow key shows is one of the first `n` entries.
abbrev pub Inside : ℕ → Option (Option ℕ) → Type 0
Inside n none = Unit {0}
Inside n (some none) = Unit {0}
Inside n (some (some i)) = i < n

up_lem : (h : History) → h.go_through ≤ h.count → Inside (h.count) ((arrow_up h).1)
unfolding arrow_up set_go_through shown_entry
up_lem h le = elim (Bool-cases (h.count == 0)) [
  | inl z ↦ rw z tt
  | inr some_command ↦ elim (Bool-cases (ltb (h.go_through) (h.count))) [
    | inl older ↦ rw (some_command, older) (ground (arith, some_command, older))
    | inr oldest ↦ rw (some_command, oldest) tt
  ]
]

down_lem : (h : History) → h.go_through ≤ h.count → Inside (h.count) ((arrow_down h).1)
unfolding arrow_down set_go_through shown_entry
down_lem h le = elim (Bool-cases (h.go_through == 0)) [
  | inl z ↦ rw z tt
  | inr up ↦ elim (Bool-cases (h.go_through - 1 == 0)) [
    | inl newest ↦ rw (up, newest) tt
    | inr older ↦ rw (up, older) (ground (arith, up, older))
  ]
]

-- An arrow key shows an entry only of those that the history holds, and leaves the position
-- between the newest and the oldest command.
pub arrow_keys-Inside :
    (h : History)
    → h.go_through ≤ h.count
    → ((arrow_up h).0.go_through ≤ h.count)
      × Inside (h.count) ((arrow_up h).1)
      × ((arrow_down h).0.go_through ≤ h.count)
      × Inside (h.count) ((arrow_down h).1)
unfolding arrow_up arrow_down set_go_through shown_entry
arrow_keys-Inside h le = (ground arith, up_lem h le, ground arith, down_lem h le)
