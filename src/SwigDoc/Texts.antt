-- ===== src/SwigDoc/Texts.antt =====
-- The names and texts of docs/doxygen/swig_doc.py.
pub mod Escapes
pub mod Names
use gr_digitizers.Prelude.{
  ℕ, Bool, true, false, Option, none, some, List, [], ◌∷◌, ◌++◌, ◌==◌, ltb, if◌then◌else◌,
}
use gr_digitizers.Prelude.Str.{Str, codes, join, strip, strip_bytes, contains}
use gr_digitizers.Doxy.Index.Export.{encode}
use gr_digitizers.Prelude.Result.{Result, ok, err, ◌>>=◌}

-- `s.split (c)`: the first part and the others.
unfoldable pub split_on : ℕ → Str → Str × List Str
split_on c [] = ([], [])
split_on c (x ∷ s) = let r = split_on c s in if x == c then ([], r.0 ∷ r.1) else (x ∷ r.0, r.1)

unfoldable pub py_name : Str → Str
unfolding split_on join
py_name name = join (codes "_") (split_on b'_' name).1

unfoldable pub make_name : Str → Str
unfolding split_on join
make_name name =
    (split_on b'_' name).0 ++ (codes "_make_" ++ join (codes "_") (split_on b'_' name).1)

-- `encode ('ascii', 'replace')`
unfoldable pub to_ascii : Str → Str
to_ascii [] = []
to_ascii (c ∷ s) = (if ltb c 128 then c else b'?') ∷ to_ascii s

-- `replace ('"', '\\"')`
unfoldable pub escape_quotes : Str → Str
escape_quotes [] = []
escape_quotes (c ∷ s) = let rest = escape_quotes s in if c == 34 then 92 ∷ 34 ∷ rest else c ∷ rest

abbrev or_empty : Option Str → Str
or_empty none = []
or_empty (some s) = s

unfoldable pub utoascii : Option Str → Str
unfolding to_ascii escape_quotes
utoascii text = escape_quotes (to_ascii (or_empty text))

abbrev unless_empty : Str → List Str
unless_empty [] = []
unless_empty (c ∷ s) = (c ∷ s) ∷ []

-- The body of `combine_descriptions`, on the two descriptions.
unfoldable pub combine : Str → Str → Str
unfolding strip strip_bytes join utoascii
combine bd dd =
    strip_bytes
      (utoascii (some (join (codes "\n\n") (unless_empty (strip bd) ++ unless_empty (strip dd)))))

-- `str (None)`
abbrev shown : Option Str → Str
shown none = codes "None"
shown (some s) = s

-- `'    {0} : {1}'.format (name, description)`. The result is a `str`, so a character that is not ASCII
-- raises `UnicodeEncodeError`.
unfoldable pub param_line : Option Str → Option Str → Result Str
unfolding encode
param_line name description =
    encode (codes "    " ++ (shown name ++ (codes " : " ++ shown description)))

-- `entry_templ.format (name=name, docstring=docstring)`, a `str` too.
unfoldable pub entry : Str → Str → Result Str
unfolding encode
entry name docstring =
    encode
      (codes "%feature(\"docstring\") " ++ (name ++ (codes " \"" ++ (docstring ++ codes "\""))))

-- An entry for a name, or nothing for an operator and for an empty docstring.
abbrev entry_unless_empty : Str → Str → Result Str
entry_unless_empty name [] = ok []
entry_unless_empty name (c ∷ s) = entry name (c ∷ s)

unfoldable pub entry_for : Str → Str → Result Str
unfolding entry contains
entry_for name docstring =
    if contains (codes "operator ") name then ok [] else entry_unless_empty name docstring
