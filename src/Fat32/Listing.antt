-- ===== src/Fat32/Listing.antt =====
-- Which entries `get_entries_in_dir` of kernel/storage/filesystem/fat32/fat32.cpp lists.
use esz_os.Base.{
  ℕ, zero, suc, ◌+◌, ◌*◌, ◌/◌, ◌%◌, ◌^◌, ◌<◌, ◌≡◌, Bool, ◌&&◌, ◌||◌, ◌==◌, if◌then◌else◌, Buffer,
  read_u16, read_u32, List, [], ◌∷◌, length,
}
use esz_os.Fat32.Directory.{Entry, Listing, entry_at}

-- What a record is, by its bytes: `.` and `..`, and one with bit 3 of the attributes, which is the
-- label of the volume or a part of a long name. A record of a deleted file is not told apart.
abbrev pub is_no_file : Buffer → Bool
is_no_file e =
    (e 0 == 46 && e 1 == 32) || (e 0 == 46 && e 1 == 46 && e 2 == 32) || e 11 / 8 % 2 == 1

-- The records of files and directories up to the end of the directory, which is a record that
-- starts with 0.
unfoldable pub files_from : ℕ → ℕ → Buffer → List Buffer
files_from zero i entries = []
files_from (suc left) i entries =
    let e = entry_at entries i in
    let rest = files_from left (i + 1) entries in
    if e 0 == 0 then [] else if is_no_file e then rest else e ∷ rest

-- The entry has what the record says.
pub record IsEntryOf (out : Entry) (e : Buffer) : Type 0 where
  pub same_size : out.size ≡ read_u32 e 28
  pub same_kind : out.is_directory ≡ (e 11 / 16 % 2 == 1)
  pub same_cluster : out.first_cluster ≡ read_u16 e 20 * 2 ^ 16 + read_u16 e 26

abbrev pub AreEntriesOf : (ℕ → Entry) → ℕ → List Buffer → Type 0
AreEntriesOf out n [] = Unit {0}
AreEntriesOf out n (e ∷ files) = IsEntryOf (out n) e × AreEntriesOf out (n + 1) files

-- The entries and their number after a directory with these files was read.
pub record AreListed (out : ℕ → Entry) (count : ℕ) (files : List Buffer) (r : (ℕ → Entry) × ℕ)
    : Type 0 where
  pub number : r.1 ≡ count + length files
  pub entries : AreEntriesOf (r.0) count files
  pub earlier : (k : ℕ) → k < count → r.0 k ≡ out k

-- The files are listed behind what stood there.
pub record HasListed (l : Listing) (files : List Buffer) (l' : Listing) : Type 0 where
  pub count : l'.out_entry_count ≡ l.out_entry_count + length files
  pub listed : AreEntriesOf (l'.out_entries) (l.out_entry_count) files
  pub before : (k : ℕ) → k < l.out_entry_count → l'.out_entries k ≡ l.out_entries k
