-- ===== src/Shell/Dispatch.antt =====
-- How a line is split and its command found: kernel/shell/args.cpp.
use esz_os.Base.{
  ℕ, suc, ◌+◌, ◌-◌, ◌^◌, ◌<◌, ◌≤◌, ◌≡◌, ◌≢◌, inl, inr, refl, ◌∙◌, ap, sym, subst, arith, Bool, true,
  false, ◌==◌, ◌&&◌, not, ltb, leb, if◌then◌else◌, Buffer, store, store_ne, store_self, List, [],
  ◌∷◌, ◌++◌, length, length-append, get_elem?, Option, none, some, Bool-cases,
}
use esz_os.Str.{str_equal}
use esz_os.Str.Text.{Part, Holds, Part-ext, Part-left, Part-right}
use esz_os.Str.Length.{str_equal_iff}
use esz_os.Str.Copy.{store-Part}
use esz_os.Edit.Split.{Without}
use esz_os.Terminal.{InputLine, reset_line_input}
use esz_os.History.{History, add_command_to_history}
use esz_os.Shell.{
  Outcome, empty_line, too_long, unknown_command, executed, terminal_buffer_size,
  process_line_input_buffer, text_of, command_names, args_from, get_input_args, args_text,
  execute_from, execute_command,
}

-- Where no character is the terminator.
abbrev pub IsText : List ℕ → Type 0
IsText [] = Unit {0}
IsText (c ∷ s) = (c ≢ 0) × IsText s

is_text : List ℕ → Bool
is_text [] = true
is_text (c ∷ s) = not (c == 0) && is_text s

is_text-IsText : (s : List ℕ) → is_text s ≡ true → IsText s
unfolding is_text
is_text-IsText [] e = tt
is_text-IsText (c ∷ s) e = (ground (arith, e), is_text-IsText s (ground (arith, e)))

abbrev pub AreTexts : List (List ℕ) → Type 0
AreTexts [] = Unit {0}
AreTexts (s ∷ texts) = IsText s × (length s < 2 ^ 64) × AreTexts texts

text_of_suc : (c : ℕ) (s : List ℕ) (i : ℕ) → text_of (c ∷ s) (i + 1) ≡ text_of s i
unfolding text_of
text_of_suc c s i =
    let z : (i + 1 == 0) ≡ false = ground arith in
    let e : i + 1 - 1 ≡ i = omega arith in
    ap (λ b. if b then c else text_of s (i + 1 - 1)) z ∙ ap (text_of s) e

text_of-Part : (s : List ℕ) → IsText s → Part (text_of s) 0 s
unfolding text_of
text_of-Part [] t = tt
text_of-Part (c ∷ s) (ne, t) = (
  refl,
  ne,
  Part-ext (text_of s) (text_of (c ∷ s)) 0 1 s (text_of-Part s t) (λ k lt.
      let e : 1 + k ≡ k + 1 = omega arith in
      let z : 0 + k ≡ k = omega arith in
      ap (text_of (c ∷ s)) e ∙ text_of_suc c s k ∙ ap (text_of s) (sym z)),
)

text_of_end : (s : List ℕ) → text_of s (length s) ≡ 0
unfolding text_of
text_of_end [] = refl
text_of_end (c ∷ s) =
    let e : suc (length s) ≡ length s + 1 = omega arith in
    ap (text_of (c ∷ s)) e ∙ text_of_suc c s (length s) ∙ text_of_end s

text_of-Holds : (s : List ℕ) → IsText s → length s < 2 ^ 64 → Holds (text_of s) s
text_of-Holds s t short = record { chars = text_of-Part s t; ends = text_of_end s; short = short }

-- The command at the found place has the name `w`, or no command of the table has.
unfoldable pub IsDispatched : List (List ℕ) → ℕ → List ℕ → Option ℕ → Type 0
IsDispatched names i w (some k) = (i ≤ k) × (get_elem? names (k - i) ≡ some w)
IsDispatched [] i w none = Unit {0}
IsDispatched (name ∷ names) i w none = (w ≢ name) × IsDispatched names (i + 1) w none

execute_from-IsDispatched :
    (names : List (List ℕ)) (i : ℕ) (buffer : Buffer) (w : List ℕ)
    → Holds buffer w
    → AreTexts names
    → IsDispatched names i w (execute_from names i buffer)
unfolding execute_from IsDispatched
execute_from-IsDispatched [] i buffer w h t = tt
execute_from-IsDispatched (name ∷ names) i buffer w h (text, short, t) =
    let iff = str_equal_iff buffer (text_of name) w name h (text_of-Holds name text short) in
    elim (Bool-cases (str_equal buffer (text_of name))) [
      | inl e ↦
          let same : 0 ≡ i - i = omega arith in
          subst
            (λ b.
              IsDispatched (name ∷ names) i w
                (if b then some i else execute_from names (i + 1) buffer))
            (sym e)
            (
              omega arith,
              subst (λ n. get_elem? (name ∷ names) n ≡ some w) same (ap some (sym (iff.0 e))),
            )
      | inr other ↦
          subst
            (λ b.
              IsDispatched (name ∷ names) i w
                (if b then some i else execute_from names (i + 1) buffer))
            (sym other)
            (later (execute_from names (i + 1) buffer) (λ e. ground (arith, iff.1 e, other))
              (execute_from-IsDispatched names (i + 1) buffer w h t))
    ]
  where
    later :
        (o : Option ℕ)
        → w ≢ name
        → IsDispatched names (i + 1) w o
        → IsDispatched (name ∷ names) i w o
    later none ne r = (ne, r)
    later (some k) ne (le, e) =
        let same : suc (k - (i + 1)) ≡ k - i = omega (arith, le) in
        (omega (arith, le), subst (λ n. get_elem? (name ∷ names) n ≡ some w) same e)

are_texts : List (List ℕ) → Bool
are_texts [] = true
are_texts (s ∷ texts) = is_text s && (ltb (length s) (2 ^ 64) && are_texts texts)

are_texts-AreTexts : (texts : List (List ℕ)) → are_texts texts ≡ true → AreTexts texts
unfolding are_texts
are_texts-AreTexts [] e = tt
are_texts-AreTexts (s ∷ texts) e =
    let short : ltb (length s) (2 ^ 64) ≡ true = ground (arith, e) in
    (
      is_text-IsText s (ground (arith, e)),
      ground (arith, short),
      are_texts-AreTexts texts (ground (arith, e)),
    )

command_names-AreTexts : AreTexts command_names
unfolding are_texts is_text
command_names-AreTexts = are_texts-AreTexts command_names refl

execute_command-IsDispatched :
    (buffer : Buffer) (w : List ℕ)
    → Holds buffer w
    → IsDispatched command_names 0 w (execute_command buffer)
unfolding execute_command
execute_command-IsDispatched buffer w h =
    execute_from-IsDispatched command_names 0 buffer w h command_names-AreTexts

-- The first blank of a line ends the name, and the arguments stand behind it.
args_from_blank :
    (w a : List ℕ) (i : ℕ) (buffer : Buffer)
    → Part buffer i (w ++ (b' ' ∷ a))
    → Without b' ' w
    → args_from (length (w ++ (b' ' ∷ a))) i buffer
      ≡ (some (i + length w + 1), store buffer (i + length w) 0)
unfolding args_from
args_from_blank [] a i buffer (e, ne, part) t =
    let z : (buffer i == b' ') ≡ true = ground (arith, e) in
    let same : i ≡ i + 0 = omega arith in
    ap (λ b. if b then (some (i + 1), store buffer i 0) else args_from (length a) (i + 1) buffer) z
    ∙ ap (λ n. (some (n + 1), store buffer n 0)) same
args_from_blank (c ∷ w) a i buffer (e, ne, part) (other, t) =
    let z : (buffer i == b' ') ≡ false = ground (arith, e, other) in
    let same : i + 1 + length w ≡ i + suc (length w) = omega arith in
    ap
      (λ b.
        if b
        then (some (i + 1), store buffer i 0)
        else args_from (length (w ++ (b' ' ∷ a))) (i + 1) buffer)
      z
    ∙ args_from_blank w a (i + 1) buffer part t
    ∙ ap (λ n. (some (n + 1), store buffer n 0)) same

-- A line that is split holds its name, and its arguments are a text of their own.
abbrev pub IsSplit : List ℕ → List ℕ → Option ℕ × Buffer → Type 0
IsSplit w a r = Holds (r.1) w × Holds (args_text (r.0) (r.1)) a

store-IsSplit :
    (w a : List ℕ) (buffer : Buffer)
    → Holds buffer (w ++ (b' ' ∷ a))
    → IsSplit w a (some (0 + length w + 1), store buffer (0 + length w) 0)
store-IsSplit w a buffer h =
    let behind : Part buffer (0 + length w) (b' ' ∷ a) =
      Part-right buffer 0 w (b' ' ∷ a) (h.chars) in
    let n : length (w ++ (b' ' ∷ a)) ≡ length w + suc (length a) = length-append w (b' ' ∷ a) in
    (
      record {
        chars =
            store-Part buffer 0 (0 + length w) 0 w (Part-left buffer 0 w (b' ' ∷ a) (h.chars))
              (omega arith);
        ends =
            let z : 0 + length w ≡ length w = omega arith in
            ap (store buffer (0 + length w) 0) (sym z) ∙ store_self buffer (0 + length w) 0;
        short = omega (arith, h.short, n);
      },
      record {
        chars =
            Part-ext buffer (λ i. store buffer (0 + length w) 0 (0 + length w + 1 + i))
              (0 + length w + 1) 0 a (behind.2)
              (λ k lt.
                let z : 0 + length w + 1 + (0 + k) ≡ 0 + length w + 1 + k = omega arith in
                store_ne buffer (0 + length w) 0 (0 + length w + 1 + (0 + k)) (omega arith)
                ∙ ap buffer z);
        ends =
            let z : 0 + length w + 1 + length a ≡ length (w ++ (b' ' ∷ a)) = omega (arith, n) in
            store_ne buffer (0 + length w) 0 (0 + length w + 1 + length a) (omega arith)
            ∙ ap buffer z
            ∙ h.ends;
        short = omega (arith, h.short, n);
      },
    )

pub get_input_args-IsSplit :
    (w a : List ℕ) (buffer : Buffer)
    → Holds buffer (w ++ (b' ' ∷ a))
    → Without b' ' w
    → IsSplit w a (get_input_args (length (w ++ (b' ' ∷ a))) buffer)
unfolding get_input_args
get_input_args-IsSplit w a buffer h t =
    subst (IsSplit w a) (sym (args_from_blank w a 0 buffer (h.chars) t))
      (store-IsSplit w a buffer h)

-- What is to become of a line with the name `w` and the arguments `a`.
unfoldable pub IsRun : List ℕ → List ℕ → Outcome → Type 0
IsRun w a (executed k args) = (get_elem? command_names k ≡ some w) × Holds args a
IsRun w a unknown_command = IsDispatched command_names 0 w none
IsRun w a empty_line = ⊥
IsRun w a too_long = ⊥

module _ (w a : List ℕ) (l : InputLine) (h : History) where
  after : Option ℕ × Buffer → Option ℕ → Outcome × (InputLine × History)
  after r o = elim o [
    | none ↦ (
      unknown_command,
      (reset_line_input (record l { buffer = r.1 }), add_command_to_history (l.buffer) h),
    )
    | some k ↦ (
      executed k (args_text (r.0) (r.1)),
      (reset_line_input (record l { buffer = r.1 }), add_command_to_history (l.buffer) h),
    )
  ]

  -- The command is run, the line is empty, and the history has the whole line.
  pub record IsProcessed (r : Outcome × (InputLine × History)) : Type 0 where
    pub run : IsRun w a (r.0)
    pub emptied : r.1.0.input_length ≡ 0
    pub remembered : r.1.1 ≡ add_command_to_history (l.buffer) h

  after-IsProcessed :
      (r : Option ℕ × Buffer) (o : Option ℕ)
      → Holds (args_text (r.0) (r.1)) a
      → IsDispatched command_names 0 w o
      → IsProcessed (after r o)
  unfolding after IsRun reset_line_input IsDispatched
  after-IsProcessed (args, buffer) none holds d = record {
    run = d;
    emptied = refl;
    remembered = refl;
  }
  after-IsProcessed (args, buffer) (some k) holds (le, e) =
      let same : k - 0 ≡ k = omega arith in
      record {
        run = (subst (λ n. get_elem? command_names n ≡ some w) same e, holds);
        emptied = refl;
        remembered = refl;
      }

  by_length : Bool → Bool → Outcome × (InputLine × History)
  unfolding after
  by_length empty long =
      if empty
      then (empty_line, (reset_line_input l, h))
      else if long
      then (too_long, (reset_line_input l, h))
      else after (get_input_args (l.input_length) (l.buffer))
          (execute_command ((get_input_args (l.input_length) (l.buffer)).1))

  by_length_lem :
      process_line_input_buffer l h
      ≡ by_length (l.input_length == 0) (leb terminal_buffer_size (l.input_length))
  unfolding process_line_input_buffer by_length after
  by_length_lem = refl

  -- A line with a name, a blank and arguments, shorter than the buffer: the command of the table
  -- with just this name is run with just these arguments, or no command has the name; then the line
  -- is empty, and the history has the line as it was typed.
  pub process_line_input_buffer-IsProcessed :
      Holds (l.buffer) (w ++ (b' ' ∷ a))
      → l.input_length ≡ length (w ++ (b' ' ∷ a))
      → l.input_length < 256
      → Without b' ' w
      → IsProcessed (process_line_input_buffer l h)
  unfolding by_length
  process_line_input_buffer-IsProcessed holds len short t =
      let n : length (w ++ (b' ' ∷ a)) ≡ length w + suc (length a) = length-append w (b' ' ∷ a) in
      let some_there : (l.input_length == 0) ≡ false = ground (arith, len, n) in
      let fits : leb terminal_buffer_size (l.input_length) ≡ false = ground (arith, short) in
      let (named, args) =
        subst (λ n. IsSplit w a (get_input_args n (l.buffer))) (sym len)
          (get_input_args-IsSplit w a (l.buffer) holds t) in
      subst IsProcessed
        (sym (
          by_length_lem
          ∙ ap (λ b. by_length b (leb terminal_buffer_size (l.input_length))) some_there
          ∙ ap (by_length false) fits))
        (after-IsProcessed (get_input_args (l.input_length) (l.buffer))
          (execute_command ((get_input_args (l.input_length) (l.buffer)).1)) args
          (execute_command-IsDispatched ((get_input_args (l.input_length) (l.buffer)).1) w named))
