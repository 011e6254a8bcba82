-- ===== src/Filesystem.antt =====
-- The current directory: kernel/storage/filesystem/filesystem.cpp. The listing of a directory is
-- printed from `get_entries`; only its path is made here.
pub mod Changing
mod Tests
use esz_os.Base.{ℕ, suc, Bool, true, false, ◌==◌, if◌then◌else◌, Buffer, store, List, [], ◌∷◌}
use esz_os.Str.{str_copy, str_add}
use esz_os.Edit.{str_split, str_cut_end_malloc}
use esz_os.Edit.StringClass.{string_of}

abbrev pub slash_text : Buffer
slash_text i = if i == 0 then b'/' else 0

unfoldable pub is_absolute_path : Buffer → Bool
is_absolute_path path = path 0 == b'/'

-- What is done with the sections of a relative path: one is put behind the current path, more are
-- left for later.
unfoldable pub enter_sections : Buffer → List Buffer → Buffer → Buffer
enter_sections fresh [] current_path = current_path
enter_sections fresh (section ∷ []) current_path =
    str_add current_path (string_of fresh (section ∷ slash_text ∷ []))
enter_sections fresh (section ∷ next ∷ rest) current_path = current_path

-- `current_path` has MAX_PATH_LENGTH + 1 bytes. The source has no check of them, so that a longer
-- path goes on in the memory that follows, here as there.
unfoldable pub filesystem_change_directory : Buffer → Buffer → Buffer → Buffer
unfolding is_absolute_path enter_sections
filesystem_change_directory fresh path current_path =
    if path 0 == 0
    then store (store current_path 0 b'/') 1 0
    else if is_absolute_path path
    then str_copy current_path path
    else enter_sections fresh ((str_split fresh path b'/').0) current_path

-- The path that `filesystem_list` asks for: the current one without its last character.
unfoldable pub listed_path : Buffer → Buffer → Buffer
listed_path fresh current_path = str_cut_end_malloc fresh current_path 1
