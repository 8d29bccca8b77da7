-- ===== src/Doxy/Index/Export.antt =====
-- How the index writes itself: `export` and its parts in indexsuper.py, and `parse` with its print-out.
use gr_digitizers.Prelude.{
  ℕ, zero, suc, Bool, true, false, ◌&&◌, Option, none, some, List, [], ◌∷◌, ◌++◌, ltb,
  if◌then◌else◌,
}
use gr_digitizers.Prelude.Str.{Str, codes}
use gr_digitizers.Prelude.Result.{Result, ok, err, value_error}
use gr_digitizers.Prelude.Exec.{Exec, pure, lift, modify, ◌>>=◌, ◌>>◌}
use gr_digitizers.Doxy.Dom.{Dom}
use gr_digitizers.Doxy.Quote.{quote_xml, quote_attrib}
use gr_digitizers.Doxy.Index.{MemberType, CompoundType, DoxygenType, build, new_doxygen}

-- What has been written to `outfile`, a file that takes every `unicode`.
abbrev pub write : Str → Exec Str (Unit {0})
write s = modify (λ out. out ++ s)

unfoldable pub is_ascii : Str → Bool
is_ascii [] = true
is_ascii (c ∷ s) = ltb c 128 && is_ascii s

-- `s.encode ('ascii')`; a `UnicodeEncodeError` is a `ValueError`.
unfoldable pub encode : Str → Result Str
unfolding is_ascii
encode s = if is_ascii s then ok s else err value_error

unfoldable pub spaces : ℕ → Str
spaces zero = []
spaces (suc n) = codes "    " ++ spaces n

-- `showIndent`: one write for each level.
unfoldable pub show_indent : ℕ → Exec Str (Unit {0})
show_indent zero = pure tt
show_indent (suc n) = do write (codes "    "); show_indent n

-- `quote_attrib` of an attribute that may be `None`.
abbrev pub quote_optional : Option Str → Str
quote_optional none = quote_attrib (codes "None")
quote_optional (some s) = quote_attrib s

abbrev pub is_some : Option Str → Bool
is_some none = false
is_some (some s) = true

module _ (namespace : Str) where
  -- The body of `export`, which the three classes share; `children` takes the next level.
  unfoldable pub export_element :
      Str → Str → Exec Str (Unit {0}) → Bool → (ℕ → Exec Str (Unit {0})) → ℕ → Exec Str (Unit {0})
  unfolding show_indent
  export_element name namespacedef attributes has_content children level = do
    show_indent level
    write (codes "<" ++ (namespace ++ (name ++ (codes " " ++ namespacedef))))
    attributes
    (if has_content
        then (do
          write (codes ">\n")
          children (suc level)
          show_indent level
          write (codes "</" ++ (namespace ++ (name ++ codes ">\n"))))
        else write (codes " />\n"))

  -- `exportAttributes` of members and compounds
  unfoldable pub export_kind_refid : Option Str → Option Str → Exec Str (Unit {0})
  unfolding encode
  export_kind_refid kind refid = do
    write (codes " kind=" ++ quote_optional kind)
    s ← lift (encode (quote_optional refid))
    write (codes " refid=" ++ s)

  -- The element `name` of members and compounds
  unfoldable pub export_name : Option Str → ℕ → Exec Str (Unit {0})
  unfolding show_indent encode quote_xml
  export_name none level = pure tt
  export_name (some name) level = do
    show_indent level
    s ← lift (encode (quote_xml name))
    write (
        codes "<"
        ++ (namespace ++ (codes "name>" ++ (s ++ (codes "</" ++ (namespace ++ codes "name>\n"))))))

  unfoldable pub export_member : Str → MemberType → ℕ → Exec Str (Unit {0})
  unfolding export_element export_kind_refid export_name
  export_member namespacedef m =
      export_element (codes "member") namespacedef (export_kind_refid m.kind m.refid)
        (is_some m.name) (export_name m.name)

  unfoldable pub export_members : List MemberType → ℕ → Exec Str (Unit {0})
  unfolding export_member
  export_members [] level = pure tt
  export_members (m ∷ ms) level = do export_member [] m level; export_members ms level

  -- The list of members is never `None`, so a compound always has content.
  unfoldable pub export_compound : Str → CompoundType → ℕ → Exec Str (Unit {0})
  unfolding export_element export_kind_refid export_name export_members
  export_compound namespacedef c =
      export_element (codes "compound") namespacedef (export_kind_refid c.kind c.refid) true
        (λ level. do export_name c.name level; export_members c.member level)

  unfoldable pub export_compounds : List CompoundType → ℕ → Exec Str (Unit {0})
  unfolding export_compound
  export_compounds [] level = pure tt
  export_compounds (c ∷ cs) level = do export_compound [] c level; export_compounds cs level

  unfoldable pub export_version : Option Str → Exec Str (Unit {0})
  unfolding encode
  export_version version = do
    s ← lift (encode (quote_optional version))
    write (codes " version=" ++ s)

  -- `DoxygenType.export`
  unfoldable pub export : Str → Str → DoxygenType → ℕ → Exec Str (Unit {0})
  unfolding export_element export_version export_compounds
  export name namespacedef d =
      export_element name namespacedef (export_version d.version) true (export_compounds d.compound)

-- `parse` and `parseString`: the objects, and the print-out on stdout.
unfoldable pub parse_and_print : Option Str → Result Dom → Exec Str DoxygenType
unfolding build export
parse_and_print default_name document = do
  root ← lift document
  d ← lift (build default_name root (new_doxygen default_name))
  write (codes "<?xml version=\"1.0\" ?>\n")
  export [] (codes "doxygenindex") [] d zero
  pure d
