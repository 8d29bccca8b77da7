-- ===== src/BuildUtils/Log.antt =====
-- `name_dict` and `log_output_name` of python/build_utils.py, with `os.path.splitext` and the
-- sorting of names.
pub mod Names
pub mod Sorting
use gr_digitizers.Prelude.{
  ℕ, Bool, true, false, Option, none, some, List, [], ◌∷◌, ◌++◌, ◌==◌, ltb, if◌then◌else◌,
}
use gr_digitizers.Prelude.Str.{Str}
use gr_digitizers.Prelude.Dict.{Dict, lookup, insert}

abbrev later_split : ℕ → Option (Str × Str) → ℕ → Str → Option (Str × Str)
later_split x (some (a, b)) c s = some (x ∷ a, b)
later_split x none c s = if x == c then some ([], s) else none

-- What stands before and after the last `c`.
unfoldable pub split_last : ℕ → Str → Option (Str × Str)
split_last c [] = none
split_last c (x ∷ s) = later_split x (split_last c s) c s

abbrev after_slash : Str → Option (Str × Str) → Str
after_slash name (some (dir, base)) = base
after_slash name none = name

-- The file name behind the last `/`.
unfoldable pub basename : Str → Str
unfolding split_last
basename name = after_slash name (split_last b'/' name)

unfoldable pub only_dots : Str → Bool
only_dots [] = true
only_dots (c ∷ s) = if c == b'.' then only_dots s else false

abbrev ext_of : Option (Str × Str) → Str
ext_of none = []
ext_of (some (before, after)) = if only_dots before then [] else after

-- `os.path.splitext (name)[1][1:]`: the extension without its dot. Dots that begin a file's name
-- begin no extension.
unfoldable pub extension : Str → Str
unfolding basename split_last only_dots
extension name = ext_of (split_last b'.' (basename name))

abbrev pub NameDict : Type 0
NameDict = Dict (List Str)

-- `name_dict.get(ext, [])`, which is what `setdefault` returns.
unfoldable pub logged : Str → NameDict → List Str
unfolding lookup
logged ext d = elim (lookup ext d) [ some names ↦ names | none ↦ [] ]

unfoldable pub log_output_name : Str → NameDict → NameDict
unfolding logged insert extension
log_output_name name d = insert (extension name) (logged (extension name) d ++ (name ∷ [])) d

-- `s < t`, by the first character that differs.
unfoldable pub str_lt : Str → Str → Bool
str_lt [] [] = false
str_lt [] (_ ∷ _) = true
str_lt (_ ∷ _) [] = false
str_lt (a ∷ s) (b ∷ t) = if ltb a b then true else if a == b then str_lt s t else false

unfoldable pub insert_sorted : Str → List Str → List Str
unfolding str_lt
insert_sorted s [] = s ∷ []
insert_sorted s (t ∷ ts) = if str_lt t s then t ∷ insert_sorted s ts else s ∷ t ∷ ts

-- `files.sort ()`
unfoldable pub sort : List Str → List Str
unfolding insert_sorted
sort [] = []
sort (s ∷ ss) = insert_sorted s (sort ss)
