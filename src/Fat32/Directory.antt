-- ===== src/Fat32/Directory.antt =====
-- Directories of a FAT32 volume: `get_entries_in_dir`, `read_dir_entries`, `find_entry` and
-- `get_entries` of kernel/storage/filesystem/fat32/fat32.cpp. `fresh` is what stands in memory
-- that malloc returns, and `stack` what stands in local arrays.
use esz_os.Base.{
  ℕ, zero, suc, ◌+◌, ◌*◌, ◌/◌, ◌%◌, ◌^◌, Bool, true, false, ◌&&◌, ◌||◌, not, ◌==◌, if◌then◌else◌,
  Buffer, store, read_u16, read_u32, Option, none, some, List, [], ◌∷◌,
}
use esz_os.Str.{str_copy, str_add, str_equal}
use esz_os.Edit.{str_trim, str_to_lower, str_split, utf16_text_to_ascii}
use esz_os.Edit.StringClass.{string_of}
use esz_os.Fat32.{Fat32Context, read_sectors, cluster_to_lba, is_data_cluster, copy_into}

pub record Entry : Type 0 where
  pub name : Buffer
  pub size : ℕ
  pub is_directory : Bool
  pub first_cluster : ℕ
  pub found : Bool

-- What `get_entries_in_dir` changes: the entries found so far, and whether a long name came.
pub record Listing : Type 0 where
  pub out_entries : ℕ → Entry
  pub out_entry_count : ℕ
  pub got_long_name : Bool

-- An entry after memory_clear.
abbrev pub clear_entry : Entry
clear_entry = record {
  name = λ i. 0;
  size = 0;
  is_directory = false;
  first_cluster = 0;
  found = false;
}

-- The bytes from entry `i` of a directory on; an entry has 32 bytes.
unfoldable pub entry_at : Buffer → ℕ → Buffer
entry_at entries i k = entries (i * 32 + k)

-- Bit `n` of the attributes.
unfoldable pub attribute : Buffer → ℕ → Bool
attribute e n = e 11 / 2 ^ n % 2 == 1

unfoldable pub is_lfn : Buffer → Bool
unfolding attribute
is_lfn e = attribute e 0 && attribute e 1 && attribute e 2 && attribute e 3

abbrev pub is_end : Buffer → Bool
is_end e = e 0 == 0

-- The entries that the loop passes over: `.`, `..` and the label of the volume.
unfoldable pub is_skipped : Buffer → Bool
unfolding is_lfn attribute
is_skipped e =
    (e 0 == b'.' && e 1 == b' ')
    || (e 0 == b'.' && e 1 == b'.' && e 2 == b' ')
    || (not (is_lfn e) && attribute e 3)

abbrev pub shift_by : Buffer → ℕ → Buffer
shift_by e n k = e (n + k)

unfoldable pub long_name_part : Buffer → Buffer → Buffer
long_name_part fresh e = string_of fresh (
    utf16_text_to_ascii fresh (shift_by e 1) 5
    ∷ utf16_text_to_ascii fresh (shift_by e 14) 6
    ∷ utf16_text_to_ascii fresh (shift_by e 28) 2
    ∷ [])

-- `n` characters as a text, trimmed in place.
unfoldable pub trimmed_part : Buffer → Buffer → Buffer → ℕ → Buffer
trimmed_part fresh stack from n =
    let part = store (copy_into stack 0 from n) n 0 in str_copy part (str_trim fresh part)

abbrev pub dot_text : Buffer
dot_text i = if i == 0 then b'.' else 0

unfoldable pub short_name : Buffer → Buffer → Buffer → Buffer
unfolding trimmed_part
short_name fresh stack e =
    let name_part = trimmed_part fresh stack e 8 in
    let ext_part = trimmed_part fresh stack (shift_by e 8) 3 in
    if ext_part 0 == 0
    then str_to_lower fresh name_part
    else str_to_lower fresh (string_of fresh (name_part ∷ dot_text ∷ ext_part ∷ []))

unfoldable pub put_out : (ℕ → Entry) → ℕ → Entry → ℕ → Entry
put_out entries n e k = if k == n then e else entries k

unfoldable pub add_long_name : Buffer → Buffer → Listing → Listing
unfolding put_out
add_long_name fresh e l =
    let out = l.out_entries (l.out_entry_count) in
    record l {
      out_entries =
          put_out (l.out_entries) (l.out_entry_count)
            (record out { name = str_add (out.name) (long_name_part fresh e) });
      got_long_name = true;
    }

unfoldable pub add_file : Buffer → Buffer → Buffer → Listing → Listing
unfolding put_out attribute
add_file fresh stack e l =
    let out = l.out_entries (l.out_entry_count) in
    record {
      out_entries = put_out (l.out_entries) (l.out_entry_count) record {
        name = if l.got_long_name then out.name else str_copy (out.name) (short_name fresh stack e);
        size = read_u32 e 28;
        is_directory = attribute e 4;
        first_cluster = read_u16 e 20 * 2 ^ 16 + read_u16 e 26;
        found = out.found;
      };
      out_entry_count = l.out_entry_count + 1;
      got_long_name = false;
    }

unfoldable pub take_entry : Buffer → Buffer → Buffer → Listing → Listing
unfolding is_skipped is_lfn add_long_name add_file
take_entry fresh stack e l =
    if is_skipped e
    then l
    else if is_lfn e
    then add_long_name fresh e l
    else add_file fresh stack e l

-- The loop at entry `i`.
unfoldable pub entries_from : ℕ → ℕ → Buffer → Buffer → Buffer → Listing → Listing
unfolding take_entry entry_at
entries_from zero i fresh stack entries l = l
entries_from (suc left) i fresh stack entries l =
    let e = entry_at entries i in
    let rest = entries_from left (i + 1) fresh stack entries (take_entry fresh stack e l) in
    if is_end e then l else rest

unfoldable pub max_entries : Fat32Context → ℕ
max_entries context = context.cluster_size_in_bytes / 32

unfoldable pub get_entries_in_dir :
    Fat32Context → Buffer → Buffer → Buffer → (ℕ → Entry) → ℕ → (ℕ → Entry) × ℕ
unfolding entries_from max_entries
get_entries_in_dir context fresh stack entries out_entries out_entry_count =
    let l = entries_from (max_entries context) 0 fresh stack entries record {
      out_entries = out_entries;
      out_entry_count = out_entry_count;
      got_long_name = false;
    } in
    (l.out_entries, l.out_entry_count)

-- With the buffer that the callers clear for it.
unfoldable pub read_dir_entries : Buffer → Fat32Context → Buffer → Buffer → ℕ → (ℕ → Entry) × ℕ
unfolding get_entries_in_dir
read_dir_entries disk context fresh stack cluster =
    if is_data_cluster cluster
    then get_entries_in_dir context fresh stack (read_sectors disk (cluster_to_lba context cluster))
        (λ i. clear_entry) 0
    else (λ i. clear_entry, 0)

-- The loops that look for the first entry that passes a test.
unfoldable pub first_index : ℕ → ℕ → (ℕ → Bool) → Option ℕ
first_index zero j test = none
first_index (suc left) j test =
    let rest = first_index left (j + 1) test in if test j then some j else rest

abbrev pub is_named : (ℕ → Entry) → Buffer → ℕ → Bool
is_named entries section j = str_equal (entries j).name section

abbrev pub is_directory_named : (ℕ → Entry) → Buffer → ℕ → Bool
is_directory_named entries section j =
    (entries j).is_directory && str_equal (entries j).name section

abbrev pub as_found : (ℕ → Entry) → Option ℕ → Entry
as_found entries none = clear_entry
as_found entries (some j) = record (entries j) { found = true }

-- The loop over the sections of a path, and the search for the last one. The source keeps pointers
-- to MAX_PATH_DEPTH sections and has no check of their number; more than these it writes over other
-- memory, which is out of the model.
unfoldable pub resolve : Buffer → Fat32Context → Buffer → Buffer → List Buffer → ℕ → Entry
unfolding read_dir_entries first_index
resolve disk context fresh stack [] curr_cluster = clear_entry
resolve disk context fresh stack (section ∷ []) curr_cluster =
    let (entries, count) = read_dir_entries disk context fresh stack curr_cluster in
    as_found entries (first_index count 0 (is_named entries section))
resolve disk context fresh stack (section ∷ next ∷ rest) curr_cluster =
    let (entries, count) = read_dir_entries disk context fresh stack curr_cluster in
    elim (first_index count 0 (is_directory_named entries section)) [
      | none ↦ clear_entry
      | some j ↦ resolve disk context fresh stack (next ∷ rest) ((entries j).first_cluster)
    ]

unfoldable pub is_root_path : Buffer → Bool
is_root_path path = path 0 == b'/' && path 1 == 0

unfoldable pub normalized : Buffer → Buffer
normalized path = if path 0 == b'/' then shift_by path 1 else path

unfoldable pub find_entry : Buffer → Fat32Context → Buffer → Buffer → Buffer → Entry
unfolding normalized is_root_path resolve
find_entry disk context fresh stack path =
    let p = normalized path in
    if p 0 == 0 || is_root_path p
    then record clear_entry {
      is_directory = true;
      first_cluster = context.root_cluster;
      found = true;
    }
    else resolve disk context fresh stack ((str_split fresh p b'/').0) (context.root_cluster)

-- `none` stands for the null pointer with the count 0.
unfoldable pub get_entries :
    Buffer → Fat32Context → Buffer → Buffer → Buffer → Option ((ℕ → Entry) × ℕ)
unfolding find_entry read_dir_entries
get_entries disk context fresh stack path =
    let dir = find_entry disk context fresh stack path in
    if not (dir.found) || not (dir.is_directory)
    then none
    else some (read_dir_entries disk context fresh stack (dir.first_cluster))
