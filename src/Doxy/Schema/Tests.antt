-- ===== src/Doxy/Schema/Tests.antt =====
-- Runs of the classes of compoundsuper.py on small documents, and each theorem at one of them.
use gr_digitizers.Prelude.{zero, ◌≡◌, refl, false, some, List, [], ◌∷◌, ◌++◌, ◌&&◌}
use gr_digitizers.Prelude.Str.{Str, codes, str_eq, contains, starts_with, strip, lstrip, is_space}
use gr_digitizers.Prelude.Dict.{Dict, lookup}
use gr_digitizers.Prelude.Result.{ok, err, value_error, ◌>>=◌}
use gr_digitizers.Prelude.Exec.{OnOk}
use gr_digitizers.Doxy.Dom.{element, text, cdata, Doms, nil, cons, local_name}
use gr_digitizers.Doxy.Quote.{quote_xml, replace}
use gr_digitizers.Doxy.Compound.Member.{integer, digits}
use gr_digitizers.Doxy.Compound.MemberTotal.{plain_text}
use gr_digitizers.Doxy.Index.Export.{show_indent, export_element}
use gr_digitizers.Doxy.Index.Outcome.{guard}
use gr_digitizers.Doxy.Schema.{
  compounddef_type, description_type, location_type, doc_title_type, doxygen_type, ChildKind,
  PartKind, complex_part, doc_para_type, doc_sect1_type, doc_internal_type, doc_x_ref_sect_type,
  encoded, as_object,
}
use gr_digitizers.Doxy.Schema.Tables.{class_of}
use gr_digitizers.Doxy.Schema.Tables.Compounds.{
  compounddef_children_from_compoundname, compounddef_children_from_innerdir,
  compounddef_children_from_briefdescription,
}
use gr_digitizers.Doxy.Schema.Object.{
  Values, Object, structured, markup, mixed, no_fields, texts_field, object_field, no_items,
  text_item, new_object, new_fields, new_values, append_items, part_of, field_part, put_object,
}
use gr_digitizers.Doxy.Schema.Build.{
  build_element, build_children, begin_build, read_attributes, read_attribute, int, without_zeros,
  put_text_node, put_cdata, put_child, build_child,
}
use gr_digitizers.Doxy.Schema.Shape.{Built, Conforms, new_object-Conforms}
use gr_digitizers.Doxy.Schema.Built.{build-Built}
use gr_digitizers.Doxy.Schema.Accepts.{is_ok, integral, accepts, build-accepts}
use gr_digitizers.Doxy.Schema.Columns.{object_slot, get_field, get_of, read_slot}
use gr_digitizers.Doxy.Schema.Holds.{build-read_slot}
use gr_digitizers.Doxy.Schema.Content.{behind, read_items, text_nodes, build_children-mixed}
use gr_digitizers.Doxy.Schema.Export.{
  export_object, export_inline, export_attributes, export_attribute, export_items, export_value,
  quote_value, replace_after, parse_document,
}
use gr_digitizers.Doxy.Schema.Encodable.{encodable}
use gr_digitizers.Doxy.Schema.Documents.{parse-result, parse_literal-safe}
use gr_digitizers.Doxy.Schema.Literal.{literal_object, parse_document_literal}
use gr_digitizers.Doxy.Schema.Safe.{safe}
use gr_digitizers.Doxy.Schema.Raw.{inline_element, concat, export-text_content}
use gr_digitizers.Doxy.Schema.Unsafe.{literal-mixed_field}
use gr_digitizers.Doxy.Dom.Grammar.{Attributes}
use gr_digitizers.Doxy.Index.Table.{printable-Printable}
use gr_digitizers.Doxy.Schema.AttributeText.{Writable}
use gr_digitizers.Doxy.Schema.Attributes.{export-read_attributes}

-- `<compounddef kind="class" id="c1">` with a name, a brief description and a place
abbrev name_node : Doms
name_node = cons (text (codes "foo")) nil

abbrev brief_node : Doms
brief_node = cons (text (codes "a & b")) nil

abbrev sample_attributes : Dict Str
sample_attributes = (codes "kind", codes "class") ∷ (codes "id", codes "c1") ∷ []

abbrev compound_kids : Doms
compound_kids = cons (element (codes "compoundname") [] name_node) (
    cons (element (codes "briefdescription") [] brief_node)
      (cons (element (codes "location") ((codes "line", codes "007") ∷ []) nil) nil))

abbrev document_kids : Doms
document_kids = cons (element (codes "compounddef") sample_attributes compound_kids) nil

abbrev no_repr : Object → Str
no_repr o = codes "object"

abbrev compounddef_fields : List (Str × ChildKind)
compounddef_fields =
    compounddef_children_from_compoundname
    ++ (compounddef_children_from_innerdir ++ compounddef_children_from_briefdescription)

abbrev description_parts : List (Str × PartKind)
description_parts =
    (codes "title", complex_part doc_title_type)
    ∷ (codes "para", complex_part doc_para_type)
    ∷ (codes "sect1", complex_part doc_sect1_type)
    ∷ (codes "internal", complex_part doc_internal_type)
    ∷ []

abbrev brief_object : Object
brief_object = mixed description_type [] (text_item (codes "a & b") no_items)

-- The text of a description is written as it is, the ampersand included.
description_written :
    (build_element [] brief_node (new_object description_type) >>= λ o.
    ok (export_object no_repr [] (codes "briefdescription") [] o zero []).1)
    ≡ ok (codes "<briefdescription >a & b</briefdescription>\n")
unfolding class_of new_object new_fields new_values build_element begin_build read_attributes
    build_children put_text_node append_items export_object export_inline export_attributes
    export_items show_indent
description_written = refl

-- A CDATA section is escaped as well as marked, so that it reads as another text.
cdata_written :
    (build_element [] (cons (cdata (codes "a&b")) nil) (new_object doc_title_type) >>= λ o.
    ok (export_object no_repr [] (codes "title") [] o zero []).1)
    ≡ ok (codes "<title ><![CDATA[a&amp;b]]></title>\n")
unfolding class_of new_object new_values build_element begin_build read_attributes build_children
    put_cdata export_object export_inline export_attributes export_value quote_value contains
    starts_with replace_after quote_xml replace show_indent
cdata_written = refl

-- An integer loses its zeros; an element without text gets a line break.
location_written :
    (build_element ((codes "line", codes "007") ∷ []) nil (new_object location_type) >>= λ o.
    ok (export_object no_repr [] (codes "location") [] o zero []).1)
    ≡ ok (codes "<location  line=\"7\">\n</location>\n")
unfolding class_of new_object new_values build_element begin_build read_attributes read_attribute
    int integer digits strip lstrip is_space without_zeros str_eq lookup build_children
    export_object export_element export_attributes export_attribute export_value quote_value
    contains starts_with quote_xml replace show_indent
location_written = refl

-- The object of the title is written in place of its text.
title_written :
    (build_element []
        (cons (element (codes "title") [] name_node) nil)
        (new_object compounddef_type)
      >>= λ o. ok (get_of (codes "title") o))
    ≡ ok (
        object_slot doc_title_type
          (some (markup doc_title_type [] (some (codes "foo")) (codes "foo" ∷ []))))
unfolding class_of new_object new_fields new_values build_element begin_build read_attributes lookup
    str_eq build_children part_of field_part build_child local_name put_text_node put_child
    put_object get_field
title_written = refl

-- An attribute that is no integer
bad_integer :
    build_element ((codes "line", codes "x") ∷ []) nil (new_object location_type) ≡ err value_error
unfolding class_of new_object new_values build_element begin_build read_attributes read_attribute
    int integer digits strip lstrip is_space str_eq lookup
bad_integer = refl

build-Built_example :
    OnOk
      (Built compounddef_type)
      (build_element sample_attributes compound_kids (new_object compounddef_type))
build-Built_example =
    build-Built compounddef_type sample_attributes compound_kids (new_object compounddef_type)
      (new_object-Conforms compounddef_type)

build-accepts_example :
    is_ok (build_element sample_attributes compound_kids (new_object compounddef_type)) ≡ (
      integral sample_attributes (class_of compounddef_type).attributes
      && accepts compounddef_type compound_kids)
build-accepts_example =
    build-accepts compounddef_type sample_attributes compound_kids (new_object compounddef_type)
      (new_object-Conforms compounddef_type)

build-read_slot_example :
    OnOk
      (λ p.
        ok (get_of (codes "compoundname") p)
        ≡ read_slot
            (get_field (codes "compoundname") (new_fields compounddef_fields))
            (codes "compoundname")
            compound_kids)
      (build_element sample_attributes compound_kids (new_object compounddef_type))
unfolding class_of
build-read_slot_example =
    build-read_slot compounddef_type compounddef_fields (codes "compoundname") sample_attributes
      compound_kids refl

build_children-mixed_example :
    build_children brief_node (mixed description_type [] no_items)
    ≡ behind description_type [] no_items (read_items description_parts brief_node)
unfolding class_of
build_children-mixed_example =
    build_children-mixed description_type [] description_parts brief_node no_items refl

parse-result_example :
    (parse_document no_repr (ok (element (codes "doxygen") [] document_kids)) []).0 ≡ (
      build_element [] document_kids (new_object doxygen_type) >>= λ d.
      guard (encodable no_repr d) >>= λ u. ok d)
parse-result_example = parse-result no_repr (codes "doxygen") [] document_kids []

parse_literal-safe_example :
    is_ok (parse_document_literal (ok (element (codes "doxygen") [] document_kids)) []).0
    ≡ is_ok (build_element [] document_kids (new_object doxygen_type) >>= λ d. guard (safe d))
parse_literal-safe_example = parse_literal-safe (codes "doxygen") [] document_kids []

export-text_content_example :
    export_object no_repr [] (codes "briefdescription") [] brief_object zero [] ≡ (
      ok tt,
      [] ++ inline_element [] (codes "briefdescription") zero (concat (text_nodes brief_node)),
    )
unfolding class_of build_children part_of put_text_node append_items plain_text
export-text_content_example =
    export-text_content no_repr [] (codes "briefdescription") zero description_type
      description_parts brief_node brief_object refl refl refl []

-- A cross reference that has a description
abbrev cross_reference : Object
cross_reference = structured doc_x_ref_sect_type (((codes "id", encoded), some (codes "x1")) ∷ []) (
    texts_field (codes "xreftitle") []
      (object_field as_object (codes "xrefdescription") description_type brief_object no_fields))

cross_reference-Conforms : Conforms doc_x_ref_sect_type cross_reference
unfolding class_of Conforms
cross_reference-Conforms =
    (refl, refl, refl, (((refl, refl, (description_parts, refl, tt)), tt), tt))

literal-mixed_field_example : is_ok (literal_object cross_reference zero []).0 ≡ false
unfolding class_of get_field str_eq
literal-mixed_field_example =
    literal-mixed_field (codes "xrefdescription") doc_x_ref_sect_type description_type
      description_parts cross_reference brief_object zero [] refl cross_reference-Conforms tt refl

abbrev location_attrs : Dict Str
location_attrs = (codes "line", codes " +007") ∷ (codes "file", codes "a<b") ∷ []

location_values :
    (vs : Values) × (read_attributes location_attrs (new_values (class_of location_type).attributes)
      ≡ ok vs)
unfolding read_attributes class_of new_values lookup str_eq int integer digits strip lstrip is_space
    without_zeros
location_values = (_, refl)

location_values-Writable : Writable location_values.0
unfolding location_values
location_values-Writable = (
  tt,
  (printable-Printable (codes "7") refl, (tt, (tt, (printable-Printable (codes "a<b") refl, tt)))),
)

export-read_attributes_example :
    (t : Str) × (d : Dict Str) × (export_attributes location_values.0 [] ≡ (ok tt, t))
    × Attributes t d
    × (read_attributes d (new_values (class_of location_type).attributes) ≡ ok location_values.0)
export-read_attributes_example =
    export-read_attributes location_type location_attrs location_values.0 location_values.1
      location_values-Writable
