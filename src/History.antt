-- ===== src/History.antt =====
-- The command history: kernel/terminal/cmd_history/cmd_history.cpp, and the arrow keys up and down
-- of `terminal_on_key` in kernel/terminal/terminal.cpp.
pub mod Stored
mod Tests
use esz_os.Base.{
  ℕ, zero, suc, ◌+◌, ◌-◌, Bool, true, false, ◌==◌, ltb, leb, if◌then◌else◌, Buffer, store, Option,
  some, none,
}
use esz_os.Config.{max_command_history}
use esz_os.Str.{str_copy, str_length}

pub record History : Type 0 where
  pub entries : ℕ → Buffer
  pub count : ℕ
  pub go_through : ℕ

unfoldable pub put : (ℕ → Buffer) → ℕ → Buffer → ℕ → Buffer
put entries i text j = if j == i then text else entries j

-- `str_copy(commandHistory[i], commandHistory[i + 1])` for `left` rounds.
unfoldable pub shift_history : ℕ → ℕ → (ℕ → Buffer) → ℕ → Buffer
shift_history zero i entries = entries
shift_history (suc left) i entries =
    shift_history left (i + 1) (put entries i (str_copy (entries i) (entries (i + 1))))

-- What the full history loses: its oldest command.
unfoldable pub drop_oldest : History → History
drop_oldest h =
    let moved = shift_history (h.count - 1) 0 (h.entries) in
    let last = h.count - 1 in
    record {
      entries = put moved last (store (moved last) 0 0);
      count = last;
      go_through = h.go_through;
    }

-- A row has 256 bytes, and its only caller checks the length of the line. In a longer text the copy
-- would go on in the next row, which is out of the model.
unfoldable pub append_command : Buffer → History → History
append_command command h = record {
  entries = put (h.entries) (h.count) (str_copy (h.entries (h.count)) command);
  count = h.count + 1;
  go_through = h.go_through;
}

unfoldable pub add_command_to_history : Buffer → History → History
unfolding append_command drop_oldest
add_command_to_history command h =
    append_command command (if leb max_command_history (h.count) then drop_oldest h else h)

-- The command that `handle_show_history` copies to the input.
unfoldable pub shown_entry : History → ℕ
shown_entry h = h.count - h.go_through

unfoldable pub set_go_through : ℕ → History → History
set_go_through n h = record { entries = h.entries; count = h.count; go_through = n }

-- The arrow keys: the new state, and what is shown. `none` is a key without effect, `some none`
-- clears the input, and `some (some i)` shows entry `i`.
unfoldable pub arrow_up : History → History × Option (Option ℕ)
unfolding set_go_through shown_entry
arrow_up h =
    let next = set_go_through (h.go_through + 1) h in
    if h.count == 0
    then (h, none)
    else if ltb (h.go_through) (h.count)
    then (next, some (some (shown_entry next)))
    else (h, none)

unfoldable pub arrow_down : History → History × Option (Option ℕ)
unfolding set_go_through shown_entry
arrow_down h =
    let next = set_go_through (h.go_through - 1) h in
    if h.go_through == 0
    then (h, none)
    else if next.go_through == 0
    then (next, some none)
    else (next, some (some (shown_entry next)))
