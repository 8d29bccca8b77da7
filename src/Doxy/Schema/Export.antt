-- ===== src/Doxy/Schema/Export.antt =====
-- How the generated classes write themselves as XML: `export`, `exportAttributes`, `exportChildren` and
-- `hasContent_` of compoundsuper.py with `export` of its `MixedContainer`, and `parse`.
use gr_digitizers.Prelude.{
  ℕ, zero, suc, Bool, true, false, Option, none, some, List, [], ◌∷◌, ◌++◌, if◌then◌else◌,
}
use gr_digitizers.Prelude.Str.{Str, codes, starts_with, contains}
use gr_digitizers.Prelude.Result.{Result, err, attribute_error}
use gr_digitizers.Prelude.Exec.{Exec, pure, lift, ◌>>=◌, ◌>>◌}
use gr_digitizers.Doxy.Dom.{Dom}
use gr_digitizers.Doxy.Quote.{quote_xml, quote_attrib}
use gr_digitizers.Doxy.Index.Export.{write, encode, show_indent, export_element, quote_optional}
use gr_digitizers.Doxy.Schema.{
  AttributeKind, encoded, quoted, always, numeric, as_object, as_text, doxygen_type,
}
use gr_digitizers.Doxy.Schema.Object.{
  Values, Object, structured, simple, markup, mixed, Fields, no_fields, text_field, texts_field,
  unset_field, object_field, objects_field, Objects, no_objects, and_object, Items, no_items,
  text_item, simple_item, complex_item, new_object,
}
use gr_digitizers.Doxy.Schema.Build.{build_root}

-- The length of a text that is not empty, less one
abbrev rest_length : Str → ℕ
rest_length [] = zero
rest_length (c ∷ s) = go s
  where
    go : Str → ℕ
    go [] = zero
    go (c ∷ s) = suc (go s)

-- `s.replace (old, new)`, where some characters of `s` are left out first.
unfoldable pub replace_after : ℕ → Str → Str → Str → Str
unfolding starts_with
replace_after k old new [] = []
replace_after (suc k) old new (c ∷ s) = replace_after k old new s
replace_after zero old new (c ∷ s) =
    let rest =
      replace_after (if starts_with (c ∷ s) old then rest_length old else zero) old new s in
    if starts_with (c ∷ s) old then new ++ rest else c ∷ rest

abbrev pub replace_text : Str → Str → Str → Str
replace_text = replace_after zero

-- What `exportChildren` writes for `valueOf_`.
unfoldable pub quote_value : Str → Str
unfolding contains quote_xml replace_after
quote_value s =
    if contains (codes "![CDATA") s
    then replace_text (codes "]]") (codes "]]>")
        (replace_text (codes "![CDATA") (codes "<![CDATA") (quote_xml s))
    else quote_xml s

unfoldable pub export_attribute : Str → AttributeKind → Option Str → Exec Str (Unit {0})
unfolding encode
export_attribute key always v = write (codes " " ++ (key ++ (codes "=" ++ quote_optional v)))
export_attribute key encoded none = pure tt
export_attribute key quoted none = pure tt
export_attribute key numeric none = pure tt
export_attribute key encoded (some s) = do
  t ← lift (encode (quote_attrib s))
  write (codes " " ++ (key ++ (codes "=" ++ t)))
export_attribute key quoted (some s) = write (codes " " ++ (key ++ (codes "=" ++ quote_attrib s)))
export_attribute key numeric (some s) =
    write (codes " " ++ (key ++ (codes "=\"" ++ (s ++ codes "\""))))

unfoldable pub export_attributes : Values → Exec Str (Unit {0})
unfolding export_attribute
export_attributes [] = pure tt
export_attributes (((key, kind), v) ∷ vs) = do export_attribute key kind v; export_attributes vs

-- `hasContent_` of a class with fields: a list is never `None`.
unfoldable pub has_content : Fields → Bool
has_content no_fields = false
has_content (text_field n (some s) fs) = true
has_content (text_field n none fs) = has_content fs
has_content (texts_field n ss fs) = true
has_content (unset_field form n c fs) = has_content fs
has_content (object_field form n c o fs) = true
has_content (objects_field n c os fs) = true

-- `exportChildren` of a class with `valueOf_`
unfoldable pub export_value : Option Str → Exec Str (Unit {0})
unfolding quote_value
export_value none = lift (err attribute_error)
export_value (some s) = write (quote_value s)

module _ (namespace : Str) where
  -- An element with a text in it, on a line of its own
  unfoldable pub export_text : Str → Str → ℕ → Exec Str (Unit {0})
  unfolding show_indent encode quote_xml
  export_text n s level = do
    show_indent level
    t ← lift (encode (quote_xml s))
    write (
        codes "<"
        ++ (namespace
            ++ (n ++ (codes ">" ++ (t ++ (codes "</" ++ (namespace ++ (n ++ codes ">\n"))))))))

  unfoldable pub export_texts : Str → List Str → ℕ → Exec Str (Unit {0})
  unfolding export_text
  export_texts n [] level = pure tt
  export_texts n (s ∷ ss) level = do export_text n s level; export_texts n ss level

  -- `export` of a class with `content_`
  unfoldable pub export_inline :
      Str → Str → Exec Str (Unit {0}) → Exec Str (Unit {0}) → ℕ → Exec Str (Unit {0})
  unfolding show_indent
  export_inline name namespacedef attributes children level = do
    show_indent level
    write (codes "<" ++ (namespace ++ (name ++ (codes " " ++ namespacedef))))
    attributes
    write (codes ">")
    children
    write (codes "</" ++ (namespace ++ (name ++ codes ">\n")))

-- `repr` is what `'%s' % x` gives of an object.
module _ (repr : Object → Str) (namespace : Str) where
  unfoldable mutual
    unfolding export_element export_inline export_attributes export_value export_text export_texts
        has_content

    -- `export`
    pub export_object : Str → Str → Object → ℕ → Exec Str (Unit {0})
    export_object name namespacedef (structured c vs fs) level =
        export_element namespace name namespacedef (export_attributes vs) (has_content fs)
          (export_fields fs) level
    export_object name namespacedef (simple c vs s) level =
        export_element namespace name namespacedef (export_attributes vs) true
          (λ _. export_value (some s)) level
    export_object name namespacedef (markup c vs s ts) level =
        export_inline namespace name namespacedef (export_attributes vs) (export_value s) level
    export_object name namespacedef (mixed c vs is) level =
        export_inline namespace name namespacedef (export_attributes vs)
          (export_items is (suc level)) level

    -- `exportChildren` of a class with fields
    pub export_fields : Fields → ℕ → Exec Str (Unit {0})
    export_fields no_fields level = pure tt
    export_fields (text_field n none fs) level = export_fields fs level
    export_fields (text_field n (some s) fs) level =
        export_text namespace n s level >> export_fields fs level
    export_fields (texts_field n ss fs) level =
        export_texts namespace n ss level >> export_fields fs level
    export_fields (unset_field form n c fs) level = export_fields fs level
    export_fields (object_field as_object n c o fs) level =
        export_object n [] o level >> export_fields fs level
    export_fields (object_field as_text n c o fs) level =
        export_text namespace n (repr o) level >> export_fields fs level
    export_fields (objects_field n c os fs) level =
        export_objects n os level >> export_fields fs level

    pub export_objects : Str → Objects → ℕ → Exec Str (Unit {0})
    export_objects n no_objects level = pure tt
    export_objects n (and_object o os) level =
        export_object n [] o level >> export_objects n os level

    -- `MixedContainer.export`, which writes a text as it is
    pub export_items : Items → ℕ → Exec Str (Unit {0})
    export_items no_items level = pure tt
    export_items (text_item s is) level = write s >> export_items is level
    export_items (simple_item n s is) level =
        write (codes "<" ++ (n ++ (codes ">" ++ (s ++ (codes "</" ++ (n ++ codes ">"))))))
        >> export_items is level
    export_items (complex_item n o is) level = export_object n [] o level >> export_items is level

-- `parse` and `parseString`, where `document` is what minidom gives.
module _ (repr : Object → Str) where
  unfoldable pub parse_document : Result Dom → Exec Str Object
  unfolding build_root export_object new_object
  parse_document document = do
    root ← lift document
    d ← lift (build_root root (new_object doxygen_type))
    write (codes "<?xml version=\"1.0\" ?>\n")
    export_object repr [] (codes "doxygen") [] d zero
    pure d
