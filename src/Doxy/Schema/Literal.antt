-- ===== src/Doxy/Schema/Literal.antt =====
-- How the generated classes write themselves as a Python expression: `exportLiteral` and its parts in
-- compoundsuper.py with `exportLiteral` of its `MixedContainer`, and `parseLiteral`.
use gr_digitizers.Prelude.{ℕ, zero, suc, Option, none, some, List, [], ◌∷◌, ◌++◌, if◌then◌else◌}
use gr_digitizers.Prelude.Str.{Str, codes, str_eq}
use gr_digitizers.Prelude.Result.{Result, err, attribute_error}
use gr_digitizers.Prelude.Exec.{Exec, pure, lift, ◌>>=◌, ◌>>◌}
use gr_digitizers.Doxy.Dom.{Dom}
use gr_digitizers.Doxy.Index.Export.{write, encode, show_indent}
use gr_digitizers.Doxy.Index.Literal.{literal_line, quote_python_optional}
use gr_digitizers.Doxy.Schema.{
  AttributeKind, encoded, quoted, always, numeric, Form, as_object, as_text, ClassName,
  doxygen_type,
}
use gr_digitizers.Doxy.Schema.Tables.{class_of}
use gr_digitizers.Doxy.Schema.Object.{
  Values, Object, structured, simple, markup, mixed, Fields, no_fields, text_field, texts_field,
  unset_field, object_field, objects_field, Objects, no_objects, and_object, new_object,
}
use gr_digitizers.Doxy.Schema.Build.{build_root}
use gr_digitizers.Doxy.Schema.Export.{has_content}

-- The field for an attribute or a child: a name that Python uses is changed.
unfoldable pub field_name : Str → Str
unfolding str_eq
field_name n =
    if str_eq n (codes "type")
    then codes "type_"
    else if str_eq n (codes "class")
    then codes "classxx"
    else if str_eq n (codes "raise")
    then codes "raisexx"
    else n

-- `exportLiteralAttributes`: an attribute that `exportAttributes` encodes is not in quotes.
unfoldable pub literal_attribute : Str → AttributeKind → Option Str → ℕ → Exec Str (Unit {0})
unfolding literal_line field_name
literal_attribute key kind none level = pure tt
literal_attribute key encoded (some s) level =
    literal_line (field_name key ++ (codes " = " ++ (s ++ codes ",\n"))) level
literal_attribute key numeric (some s) level =
    literal_line (field_name key ++ (codes " = " ++ (s ++ codes ",\n"))) level
literal_attribute key quoted (some s) level =
    literal_line (field_name key ++ (codes " = \"" ++ (s ++ codes "\",\n"))) level
literal_attribute key always (some s) level =
    literal_line (field_name key ++ (codes " = \"" ++ (s ++ codes "\",\n"))) level

unfoldable pub literal_attributes : Values → ℕ → Exec Str (Unit {0})
unfolding literal_attribute
literal_attributes [] level = pure tt
literal_attributes (((key, kind), v) ∷ vs) level = do
  literal_attribute key kind v level
  literal_attributes vs level

-- The line for a text, with what is before it and behind it; `None` has no `find`.
unfoldable pub literal_text : Str → Option Str → ℕ → Exec Str (Unit {0})
unfolding show_indent quote_python_optional encode
literal_text before s level = do
  show_indent level
  q ← lift (quote_python_optional s)
  t ← lift (encode q)
  write (before ++ (t ++ codes ",\n"))

unfoldable pub literal_texts : List Str → ℕ → Exec Str (Unit {0})
unfolding literal_text
literal_texts [] level = pure tt
literal_texts (s ∷ ss) level = literal_text [] (some s) level >> literal_texts ss level

-- `valueOf_`, which is not quoted; there is none before `build`.
unfoldable pub literal_value : Option Str → ℕ → Exec Str (Unit {0})
unfolding literal_line
literal_value none level = lift (err attribute_error)
literal_value (some s) level = literal_line (codes "valueOf_ = \"" ++ (s ++ codes "\",\n")) level

-- The class that is named for the object of a field
abbrev literal_class : Form → ClassName → Str
literal_class as_object c = (class_of c).name
literal_class as_text c = codes "xsd_string"

unfoldable mutual
  unfolding class_of literal_attributes literal_text literal_texts literal_value literal_line
      field_name has_content

  -- `exportLiteral`: the test for content in a class with mixed content asks for fields that are
  -- never set.
  pub literal_object : Object → ℕ → Exec Str (Unit {0})
  literal_object (structured c vs fs) level =
      literal_attributes vs (suc level)
      >> (if has_content fs then literal_fields fs (suc level) else pure tt)
  literal_object (simple c vs s) level =
      literal_attributes vs (suc level) >> literal_value (some s) (suc level)
  literal_object (markup c vs s ts) level =
      literal_attributes vs (suc level) >> literal_value s (suc level)
  literal_object (mixed c vs is) level =
      literal_attributes vs (suc level) >> lift (err attribute_error)

  -- `exportLiteralChildren`
  pub literal_fields : Fields → ℕ → Exec Str (Unit {0})
  literal_fields no_fields level = pure tt
  literal_fields (text_field n s fs) level =
      literal_text (field_name n ++ codes "=") s level >> literal_fields fs level
  literal_fields (texts_field n ss fs) level =
      literal_line (n ++ codes "=[\n") level
      >> (literal_texts ss (suc level)
          >> (literal_line (codes "],\n") level >> literal_fields fs level))
  literal_fields (unset_field form n c fs) level = literal_fields fs level
  literal_fields (object_field form n c o fs) level =
      literal_line (field_name n ++ (codes "=model_." ++ (literal_class form c ++ codes "(\n")))
        level
      >> (literal_object o level >> (literal_line (codes "),\n") level >> literal_fields fs level))
  literal_fields (objects_field n c os fs) level =
      literal_line (n ++ codes "=[\n") level
      >> (literal_objects n os (suc level)
          >> (literal_line (codes "],\n") level >> literal_fields fs level))

  pub literal_objects : Str → Objects → ℕ → Exec Str (Unit {0})
  literal_objects n no_objects level = pure tt
  literal_objects n (and_object o os) level =
      literal_line (codes "model_." ++ (n ++ codes "(\n")) level
      >> (literal_object o level
          >> (literal_line (codes "),\n") level >> literal_objects n os level))

-- `parseLiteral`, where `document` is what `minidom.parse` gives.
unfoldable pub parse_document_literal : Result Dom → Exec Str Object
unfolding build_root literal_object new_object
parse_document_literal document = do
  root ← lift document
  d ← lift (build_root root (new_object doxygen_type))
  write (codes "from compound import *\n\n")
  write (codes "rootObj = doxygen(\n")
  literal_object d zero
  write (codes ")\n")
  pure d
