-- ===== src/Filesystem/Changing.antt =====
-- Going into a directory: `filesystem_change_directory` of
-- kernel/storage/filesystem/filesystem.cpp.
use esz_os.Base.{
  ℕ, ◌+◌, ◌^◌, ◌<◌, ◌≤◌, ◌≡◌, refl, ◌∙◌, ap, sym, subst, arith, false, ◌==◌, if◌then◌else◌, List,
  [], ◌∷◌, ◌++◌, length, length-append, Buffer, store,
}
use esz_os.Config.{max_path_length}
use esz_os.Str.{str_copy}
use esz_os.Str.Text.{Holds}
use esz_os.Str.Copy.{str_add-Holds}
use esz_os.Edit.{str_split}
use esz_os.Edit.StringClass.{string_of}
use esz_os.Edit.Split.{Without, HoldsAll, str_split-single}
use esz_os.Edit.Joining.{joined, string_of-Holds}
use esz_os.Filesystem.{slash_text, is_absolute_path, enter_sections, filesystem_change_directory}

slash-Holds : Holds slash_text (b'/' ∷ [])
slash-Holds = record { chars = (refl, omega arith, tt); ends = refl; short = omega arith }

enter_sections-Holds :
    (fresh current_path : Buffer) (p name : List ℕ) (sections : List Buffer)
    → Holds current_path p
    → HoldsAll sections (name ∷ [])
    → length p + length name + 1 < 2 ^ 64
    → Holds (enter_sections fresh sections current_path) (p ++ (name ++ (b'/' ∷ [])))
unfolding enter_sections joined
enter_sections-Holds fresh current_path p name [] h all short = absurd all
enter_sections-Holds fresh current_path p name (section ∷ next ∷ rest) h all short = absurd (all.1)
enter_sections-Holds fresh current_path p name (section ∷ []) h all short =
    let n : length (name ++ (b'/' ∷ [])) ≡ length name + 1 = length-append name (b'/' ∷ []) in
    str_add-Holds current_path (string_of fresh (section ∷ slash_text ∷ [])) p (name ++ (b'/' ∷ []))
      h
      (string_of-Holds fresh (section ∷ slash_text ∷ []) (name ∷ (b'/' ∷ []) ∷ [])
        (all.0, (slash-Holds, tt)) (omega (arith, n, short)))
      (omega (arith, n, short))

-- Going into a directory by its name puts the name and a slash behind the current path, if the new
-- path has at most MAX_PATH_LENGTH characters. The name is not empty and has no slash.
pub filesystem_change_directory-Holds :
    (fresh path current_path : Buffer) (p name : List ℕ) (c : ℕ)
    → Holds current_path p
    → Holds path (c ∷ name)
    → Without b'/' (c ∷ name)
    → length p + length (c ∷ name) + 1 ≤ max_path_length
    → Holds (filesystem_change_directory fresh path current_path) (p ++ ((c ∷ name) ++ (b'/' ∷ [])))
unfolding filesystem_change_directory is_absolute_path
filesystem_change_directory-Holds fresh path current_path p name c h g t short =
    let (first, ne, _) = g.chars in
    let some_there : (path 0 == 0) ≡ false = ground (arith, first, ne) in
    let relative : (path 0 == b'/') ≡ false = ground (arith, first, t.0) in
    let entered = enter_sections fresh ((str_split fresh path b'/').0) current_path in
    subst (λ b. Holds b (p ++ ((c ∷ name) ++ (b'/' ∷ []))))
      (sym (
        ap
          (λ b.
            if b
            then store (store current_path 0 b'/') 1 0
            else if path 0 == b'/'
            then str_copy current_path path
            else entered)
          some_there
        ∙ ap (λ b. if b then str_copy current_path path else entered) relative))
      (enter_sections-Holds fresh current_path p (c ∷ name) ((str_split fresh path b'/').0) h
        (str_split-single fresh path b'/' (c ∷ name) g t) (omega (arith, short)))
