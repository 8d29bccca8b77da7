-- ===== src/Doxy/Index/Literal.antt =====
-- How the index writes itself as a Python expression: `exportLiteral` and its parts in indexsuper.py,
-- and `parseLiteral`.
use gr_digitizers.Prelude.{ℕ, zero, suc, Option, none, some, List, [], ◌∷◌, ◌++◌}
use gr_digitizers.Prelude.Str.{Str, codes}
use gr_digitizers.Prelude.Result.{Result, ok, err, attribute_error}
use gr_digitizers.Prelude.Exec.{Exec, pure, lift, ◌>>=◌, ◌>>◌}
use gr_digitizers.Doxy.Dom.{Dom}
use gr_digitizers.Doxy.Quote.{quote_python}
use gr_digitizers.Doxy.Index.{MemberType, CompoundType, DoxygenType, build, new_doxygen}
use gr_digitizers.Doxy.Index.Export.{write, encode, show_indent}

-- `quote_python` of an attribute that may be `None`, which has no `find`.
unfoldable pub quote_python_optional : Option Str → Result Str
unfolding quote_python
quote_python_optional none = err attribute_error
quote_python_optional (some s) = ok (quote_python s)

-- A line of `exportLiteral`
unfoldable pub literal_line : Str → ℕ → Exec Str (Unit {0})
unfolding show_indent
literal_line s level = do show_indent level; write s

-- The lines that are left out for `None`. Only the kind is in quotes.
unfoldable pub literal_kind : Option Str → ℕ → Exec Str (Unit {0})
unfolding literal_line
literal_kind none level = pure tt
literal_kind (some kind) level = literal_line (codes "kind = \"" ++ (kind ++ codes "\",\n")) level

unfoldable pub literal_plain : Str → Option Str → ℕ → Exec Str (Unit {0})
unfolding literal_line
literal_plain key none level = pure tt
literal_plain key (some value) level =
    literal_line (key ++ (codes " = " ++ (value ++ codes ",\n"))) level

-- `exportLiteralAttributes` of members and compounds
unfoldable pub literal_kind_refid : Option Str → Option Str → ℕ → Exec Str (Unit {0})
unfolding literal_kind literal_plain
literal_kind_refid kind refid level = do
  literal_kind kind level
  literal_plain (codes "refid") refid level

unfoldable pub literal_name : Option Str → ℕ → Exec Str (Unit {0})
unfolding show_indent quote_python_optional encode
literal_name name level = do
  show_indent level
  q ← lift (quote_python_optional name)
  s ← lift (encode q)
  write (codes "name=" ++ (s ++ codes ",\n"))

-- The children of a member, which has content if it has a name.
unfoldable pub literal_member_children : Option Str → ℕ → Exec Str (Unit {0})
unfolding literal_name
literal_member_children none level = pure tt
literal_member_children (some name) level = literal_name (some name) level

unfoldable pub literal_member : MemberType → ℕ → Exec Str (Unit {0})
unfolding literal_kind_refid literal_member_children
literal_member m level = do
  literal_kind_refid m.kind m.refid (suc level)
  literal_member_children m.name (suc level)

-- The loop of `exportLiteralChildren`, for members and for compounds.
unfoldable pub literal_items :
    {A : Type 0} → Str → (A → ℕ → Exec Str (Unit {0})) → List A → ℕ → Exec Str (Unit {0})
unfolding literal_line
literal_items name literal [] level = pure tt
literal_items name literal (x ∷ xs) level = do
  literal_line (codes "model_." ++ (name ++ codes "(\n")) level
  literal x level
  literal_line (codes "),\n") level
  literal_items name literal xs level

unfoldable pub literal_compound : CompoundType → ℕ → Exec Str (Unit {0})
unfolding literal_kind_refid literal_name literal_line literal_items literal_member
literal_compound c level = do
  literal_kind_refid c.kind c.refid (suc level)
  literal_name c.name (suc level)
  literal_line (codes "member=[\n") (suc level)
  literal_items (codes "member") literal_member c.member (suc (suc level))
  literal_line (codes "],\n") (suc level)

-- `DoxygenType.exportLiteral`
unfoldable pub literal : DoxygenType → ℕ → Exec Str (Unit {0})
unfolding literal_plain literal_line literal_items literal_compound
literal d level = do
  literal_plain (codes "version") d.version (suc level)
  literal_line (codes "compound=[\n") (suc level)
  literal_items (codes "compound") literal_compound d.compound (suc (suc level))
  literal_line (codes "],\n") (suc level)

unfoldable pub parse_literal : Option Str → Result Dom → Exec Str DoxygenType
unfolding build literal
parse_literal default_name document = do
  root ← lift document
  d ← lift (build default_name root (new_doxygen default_name))
  write (codes "from index import *\n\n")
  write (codes "rootObj = doxygenindex(\n")
  literal d zero
  write (codes ")\n")
  pure d
