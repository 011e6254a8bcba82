-- ===== src/Screen/Printing.antt =====
-- `print_chars` of kernel/rendering/print/print.cpp: where the characters of a text come to stand.
use esz_os.Base.{
  ℕ, suc, ◌+◌, ◌<◌, ◌≡◌, ◌≢◌, refl, ◌∙◌, ap, arith, Bool, false, ◌==◌, leb, if◌then◌else◌, List, [],
  ◌∷◌, length, Buffer, Bool-cases, subst, sym, inl, inr,
}
use esz_os.Terminal.{put}
use esz_os.Str.Text.{Part, Holds}
use esz_os.Str.Length.{str_length-Holds}
use esz_os.Screen.{
  Line, Screen, set_cell, print_char, handle_automatic_newline, newline, print_from, print_chars,
}
use esz_os.Screen.Bounds.{IsReady}
use esz_os.Screen.Reaching.{after_char, print_char_lem, print_char-IsReady}
use esz_os.Screen.Scrolling.{put_line_self}

-- No carriage return and no line feed.
abbrev pub IsPlain : List ℕ → Type 0
IsPlain [] = Unit {0}
IsPlain (c ∷ s) = (c ≢ 13) × (c ≢ 10) × IsPlain s

-- The cells of the cursor's line from column `x` on, as texts.
abbrev pub text_at : Screen → ℕ → ℕ
text_at s x = ((s.lines (s.cursor_y)).cells x).text

fits_lem :
    (c color : ℕ) (interactable : Bool) (s : Screen)
    → IsReady s
    → s.cursor_x + 1 < s.max_chars
    → print_char c color interactable s ≡ after_char c color interactable s
unfolding handle_automatic_newline
fits_lem c color interactable s r room =
    let next = after_char c color interactable s in
    let no_break : leb (s.max_chars) (s.cursor_x + 1) ≡ false = ground (arith, room) in
    print_char_lem c color interactable s r ∙ ap (λ b. if b then newline next else next) no_break

char_text :
    (c color : ℕ) (interactable : Bool) (s : Screen) (x : ℕ)
    → text_at (after_char c color interactable s) x ≡ (if x == s.cursor_x then c else text_at s x)
unfolding set_cell put
char_text c color interactable s x =
    let line =
      set_cell (s.lines (s.cursor_y)) (s.cursor_x)
        record { color = color; text = c; interactable = interactable } in
    ap (λ (l : Line). (l.cells x).text) (put_line_self (s.lines) (s.cursor_y) line) ∙ cell_text
  where
    cell_text :
        (put
          ((s.lines (s.cursor_y)).cells)
          (s.cursor_x)
          record { color = color; text = c; interactable = interactable }
          x).text
        ≡ (if x == s.cursor_x then c else text_at s x)
    cell_text = elim (Bool-cases (x == s.cursor_x)) [
      | inl here ↦ rw here refl
      | inr away ↦ rw away refl
    ]

-- What printing the text `t` on a line with room for it did.
pub record HasPrinted (s : Screen) (t : List ℕ) (s' : Screen) : Type 0 where
  pub ready : IsReady s'
  pub same_line : s'.cursor_y ≡ s.cursor_y
  pub behind : s'.cursor_x ≡ s.cursor_x + length t
  pub shown : Part (text_at s') (s.cursor_x) t
  pub before : (x : ℕ) → x < s.cursor_x → text_at s' x ≡ text_at s x

opened :
    (left i : ℕ) (text : Buffer) (color : ℕ) (interactable : Bool) (s : Screen)
    → (text i == 13) ≡ false
    → (text i == 10) ≡ false
    → print_from (suc left) i text color interactable s
      ≡ print_from left (i + 1) text color interactable (print_char (text i) color interactable s)
unfolding print_from
opened left i text color interactable s a b = rw (a, b, print_from) refl

print_from-HasPrinted :
    (i : ℕ) (text : Buffer) (color : ℕ) (interactable : Bool) (s : Screen) (t : List ℕ)
    → IsReady s
    → IsPlain t
    → Part text i t
    → s.cursor_x + length t < s.max_chars
    → HasPrinted s t (print_from (length t) i text color interactable s)
unfolding print_from
print_from-HasPrinted i text color interactable s [] r plain part room = record {
  ready = r;
  same_line = refl;
  behind = omega arith;
  shown = tt;
  before = λ x lt. refl;
}
print_from-HasPrinted i text color interactable s (c ∷ t) r (ret, feed, plain) (e, ne, part) room =
    let no_ret : (text i == 13) ≡ false = ground (arith, e, ret) in
    let no_feed : (text i == 10) ≡ false = ground (arith, e, feed) in
    let step : print_char (text i) color interactable s ≡ after_char c color interactable s =
      ap (λ k. print_char k color interactable s) e
      ∙ fits_lem c color interactable s r (omega (arith, room)) in
    let n = after_char c color interactable s in
    let ready' : IsReady n =
      subst IsReady (fits_lem c color interactable s r (omega (arith, room)))
        (print_char-IsReady c color interactable s r) in
    let h =
      print_from-HasPrinted (i + 1) text color interactable n t ready' plain part
        (omega (arith, room)) in
    let rest = print_from (length t) (i + 1) text color interactable n in
    let same : print_from (suc (length t)) i text color interactable s ≡ rest =
      opened (length t) i text color interactable s no_ret no_feed
      ∙ ap (print_from (length t) (i + 1) text color interactable) step in
    subst (HasPrinted s (c ∷ t)) (sym same) record {
      ready = h.ready;
      same_line = h.same_line;
      behind = omega (arith, h.behind);
      shown = (
        h.before (s.cursor_x) (omega arith)
            ∙ char_text c color interactable s (s.cursor_x)
            ∙ ground arith,
        ne,
        h.shown,
      );
      before = λ x lt.
          h.before x (omega arith) ∙ char_text c color interactable s x ∙ ground (arith, lt);
    }

-- A text without line feeds and carriage returns that is shorter than the rest of the line is put
-- there, from the cursor on, and the cursor goes behind it; what stands before it stays.
pub print_chars-HasPrinted :
    (text : Buffer) (color : ℕ) (interactable : Bool) (s : Screen) (t : List ℕ)
    → IsReady s
    → Holds text t
    → IsPlain t
    → s.cursor_x + length t < s.max_chars
    → HasPrinted s t (print_chars text color interactable s)
unfolding print_chars
print_chars-HasPrinted text color interactable s t r h plain room =
    rw (str_length-Holds text t h)
      (print_from-HasPrinted 0 text color interactable s t r plain (h.chars) room)
