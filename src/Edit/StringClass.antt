-- ===== src/Edit/StringClass.antt =====
-- The String class of kernel/types/string/string.h: a text put together from parts.
use esz_os.Base.{◌+◌, List, [], ◌∷◌, Buffer}
use esz_os.Str.{str_length, str_copy, malloc_str}
use esz_os.Number.{str_combine}

-- `to_cstr` of a text: a copy.
unfoldable pub to_cstr : Buffer → Buffer → Buffer
to_cstr fresh s = str_copy (malloc_str fresh (str_length s + 1)) s

-- The loop of the constructor over the parts.
unfoldable pub combine_from : Buffer → Buffer → List Buffer → Buffer
unfolding to_cstr
combine_from fresh content [] = content
combine_from fresh content (part ∷ parts) =
    combine_from fresh (str_combine fresh content (to_cstr fresh part)) parts

unfoldable pub string_of : Buffer → List Buffer → Buffer
unfolding combine_from
string_of fresh parts = combine_from fresh (malloc_str fresh 1) parts
