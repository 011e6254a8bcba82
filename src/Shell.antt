-- ===== src/Shell.antt =====
-- The command line: kernel/shell/args.cpp, the table of kernel/shell/commands/commands.cpp, the
-- search of kernel/shell/autocomplete/autocomplete.cpp, and `processLineInputBuffer` of
-- kernel/terminal/terminal.cpp. What the commands themselves do is not part of it.
pub mod Dispatch
mod Tests
use esz_os.Base.{
  ℕ, zero, suc, ◌+◌, ◌-◌, Bool, true, false, ◌==◌, ◌&&◌, not, ltb, leb, if◌then◌else◌, Buffer,
  store, List, [], ◌∷◌, Option, none, some,
}
use esz_os.Str.{str_length, str_equal, str_starts_with, str_add_char, malloc_str}
use esz_os.Terminal.{InputLine, reset_line_input}
use esz_os.History.{History, add_command_to_history}

-- A string of the program, behind which zeros stand.
unfoldable pub text_of : List ℕ → Buffer
text_of [] i = 0
text_of (c ∷ s) i = if i == 0 then c else text_of s (i - 1)

abbrev pub terminal_buffer_size : ℕ
terminal_buffer_size = 256

-- The names of the table, in its order.
abbrev pub command_names : List (List ℕ)
command_names =
    (b'h' ∷ b'e' ∷ b'l' ∷ b'p' ∷ [])
    ∷ (b'h' ∷ b'i' ∷ b's' ∷ b't' ∷ b'o' ∷ b'r' ∷ b'y' ∷ [])
    ∷ (b'e' ∷ b'c' ∷ b'h' ∷ b'o' ∷ [])
    ∷ (b'c' ∷ b'l' ∷ b'e' ∷ b'a' ∷ b'r' ∷ [])
    ∷ (b's' ∷ b'y' ∷ b's' ∷ b'i' ∷ b'n' ∷ b'f' ∷ b'o' ∷ [])
    ∷ (b'r' ∷ b'e' ∷ b'b' ∷ b'o' ∷ b'o' ∷ b't' ∷ [])
    ∷ (b'm' ∷ b'e' ∷ b'm' ∷ b'i' ∷ b'n' ∷ b'f' ∷ b'o' ∷ [])
    ∷ (b'u' ∷ b'p' ∷ b't' ∷ b'i' ∷ b'm' ∷ b'e' ∷ [])
    ∷ (b'p' ∷ b'c' ∷ b'i' ∷ b'i' ∷ b'n' ∷ b'f' ∷ b'o' ∷ [])
    ∷ (b'r' ∷ b'e' ∷ b'a' ∷ b'd' ∷ [])
    ∷ (b'd' ∷ b'r' ∷ b'i' ∷ b'v' ∷ b'e' ∷ b'i' ∷ b'n' ∷ b'f' ∷ b'o' ∷ [])
    ∷ (b'd' ∷ b'u' ∷ b'm' ∷ b'p' ∷ b's' ∷ b'e' ∷ b'c' ∷ b't' ∷ b'o' ∷ b'r' ∷ [])
    ∷ (b'c' ∷ b'd' ∷ [])
    ∷ (b'l' ∷ b's' ∷ [])
    ∷ (b'p' ∷ b'w' ∷ b'd' ∷ [])
    ∷ []

-- The loop of `getInputArgs`: where the arguments begin, if there are some, and the buffer.
unfoldable pub args_from : ℕ → ℕ → Buffer → Option ℕ × Buffer
args_from zero i buffer = (none, buffer)
args_from (suc left) i buffer =
    let rest = args_from left (i + 1) buffer in
    if buffer i == b' ' then (some (i + 1), store buffer i 0) else rest

unfoldable pub get_input_args : ℕ → Buffer → Option ℕ × Buffer
unfolding args_from
get_input_args input_length buffer = args_from input_length 0 buffer

-- The arguments as a text of their own.
abbrev pub args_text : Option ℕ → Buffer → Buffer
args_text none buffer i = 0
args_text (some from) buffer i = buffer (from + i)

-- The loop of `executeCommand`, at entry `i`: the entry that is executed.
unfoldable pub execute_from : List (List ℕ) → ℕ → Buffer → Option ℕ
unfolding text_of
execute_from [] i buffer = none
execute_from (name ∷ names) i buffer =
    let rest = execute_from names (i + 1) buffer in
    if str_equal buffer (text_of name) then some i else rest

unfoldable pub execute_command : Buffer → Option ℕ
unfolding execute_from
execute_command buffer = execute_from command_names 0 buffer

-- What became of a line.
pub data Outcome : Type 0 where
  empty_line too_long unknown_command : Outcome
  executed : ℕ → Buffer → Outcome

-- The input line, the history and the outcome; the answer of the command is not seen here.
unfoldable pub process_line_input_buffer : InputLine → History → Outcome × (InputLine × History)
unfolding get_input_args execute_command
process_line_input_buffer l h =
    let (args, buffer) = get_input_args (l.input_length) (l.buffer) in
    let with_args = record l { buffer = buffer } in
    let remembered = add_command_to_history (l.buffer) h in
    if l.input_length == 0
    then (empty_line, (reset_line_input l, h))
    else if leb terminal_buffer_size (l.input_length)
    then (too_long, (reset_line_input l, h))
    else elim (execute_command buffer) [
      | none ↦ (unknown_command, (reset_line_input with_args, remembered))
      | some k ↦ (executed k (args_text args buffer), (reset_line_input with_args, remembered))
    ]

-- The loop of `getCurrTokenFromBuffer` that looks for the blank before the cursor.
unfoldable pub token_start : ℕ → ℕ → Buffer → ℕ
token_start zero cursor buffer = 0
token_start (suc i) cursor buffer =
    let rest = token_start i cursor buffer in
    if buffer (suc i) == b' ' && not (suc i == cursor) then suc i else rest

unfoldable pub token_from : ℕ → ℕ → Buffer → Buffer → Buffer
token_from zero i buffer token = token
token_from (suc left) i buffer token =
    let rest = token_from left (i + 1) buffer (str_add_char token (buffer i)) in
    if buffer i == b' ' then token else rest

unfoldable pub get_curr_token_from_buffer : Buffer → ℕ → ℕ → Buffer → Buffer
unfolding token_start token_from
get_curr_token_from_buffer fresh cursor input_length buffer =
    let found = token_start cursor cursor buffer in
    let start = if found == 0 then 0 else found + 1 in
    token_from (input_length - start) start buffer (malloc_str fresh (input_length + 1))

-- The candidates of `handleTabAutoCompletion`, as indices of the table.
unfoldable pub candidates_from : List (List ℕ) → ℕ → Buffer → List ℕ
unfolding text_of
candidates_from [] i token = []
candidates_from (name ∷ names) i token =
    let rest = candidates_from names (i + 1) token in
    if str_starts_with (text_of name) token then i ∷ rest else rest
