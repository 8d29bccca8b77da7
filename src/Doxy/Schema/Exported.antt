-- ===== src/Doxy/Schema/Exported.antt =====
-- The exports of the generated classes return when the texts that they encode are ASCII.
use gr_digitizers.Prelude.{
  ℕ, suc, sym, Bool, true, false, ◌&&◌, none, some, List, [], ◌∷◌, if◌then◌else◌,
}
use gr_digitizers.Prelude.Str.{Str, codes}
use gr_digitizers.Prelude.Exec.{Exec}
use gr_digitizers.Doxy.Quote.{quote_xml}
use gr_digitizers.Doxy.Index.Outcome.{
  Outcome, write-Outcome, then-Outcome, encode-Outcome, show_indent-Outcome,
}
use gr_digitizers.Doxy.Index.Ascii.{is_ascii-quote_xml, and_true}
use gr_digitizers.Doxy.Index.Export.{is_ascii, export_element}
use gr_digitizers.Doxy.Schema.{ClassName, as_object, as_text, PartKind}
use gr_digitizers.Doxy.Schema.Object.{
  Object, structured, simple, markup, mixed, Fields, no_fields, text_field, texts_field,
  unset_field, object_field, objects_field, Objects, no_objects, and_object, Items, no_items,
  text_item, simple_item, complex_item,
}
use gr_digitizers.Doxy.Schema.Shape.{Conforms, FieldsConform, ObjectsConform, ItemsConform, Valued}
use gr_digitizers.Doxy.Schema.Export.{
  export_attributes, has_content, export_text, export_texts, export_value, export_inline,
  export_object, export_fields, export_objects, export_items, quote_value,
}
use gr_digitizers.Doxy.Schema.Encodable.{
  encodable_values, encodable_texts, encodable, encodable_fields, encodable_objects,
  encodable_items, pure-Outcome, attributes-Outcome, content-encodable,
}

module _ (repr : Object → Str) (namespace : Str) where
  element-Outcome :
      (name namespacedef : Str) (attributes : Exec Str (Unit {0})) (has a b : Bool)
      (children : ℕ → Exec Str (Unit {0})) (level : ℕ)
      → Outcome attributes a
      → ((l : ℕ) → Outcome (children l) b)
      → Outcome
          (export_element namespace name namespacedef attributes has children level)
          (a && (if has then b else true))
  unfolding export_element
  element-Outcome name namespacedef attributes true a b children level h k =
      let end = then-Outcome _ _ _ _ (show_indent-Outcome level) (write-Outcome _) in
      let inner =
        then-Outcome _ _ _ _ (write-Outcome (codes ">\n"))
          (then-Outcome _ _ _ _ (k (suc level)) end) in
      rw (sym (and_true b)) (
        then-Outcome _ _ _ _ (show_indent-Outcome level)
          (then-Outcome _ _ _ _ (write-Outcome _) (then-Outcome _ _ _ _ h inner)))
  element-Outcome name namespacedef attributes false a b children level h k =
      then-Outcome _ _ _ _ (show_indent-Outcome level) (
        then-Outcome _ _ _ _ (write-Outcome _)
          (then-Outcome _ _ _ _ h (write-Outcome (codes " />\n"))))

  inline-Outcome :
      (name namespacedef : Str) (attributes children : Exec Str (Unit {0})) (a b : Bool) (level : ℕ)
      → Outcome attributes a
      → Outcome children b
      → Outcome (export_inline namespace name namespacedef attributes children level) (a && b)
  unfolding export_inline
  inline-Outcome name namespacedef attributes children a b level h k = rw (sym (and_true b)) (
      then-Outcome _ _ _ _ (show_indent-Outcome level) (
        then-Outcome _ _ _ _ (write-Outcome _) (
          then-Outcome _ _ _ _ h (
            then-Outcome _ _ _ _ (write-Outcome (codes ">"))
              (then-Outcome _ _ _ _ k (write-Outcome _))))))

  text-Outcome : (n s : Str) (level : ℕ) → Outcome (export_text namespace n s level) (is_ascii s)
  unfolding export_text
  text-Outcome n s level = rw (sym (is_ascii-quote_xml s)) (
      then-Outcome _ _ _ _ (show_indent-Outcome level)
        (encode-Outcome (quote_xml s) _ (write-Outcome _)))

  texts-Outcome :
      (n : Str) (ss : List Str) (level : ℕ)
      → Outcome (export_texts namespace n ss level) (encodable_texts ss)
  unfolding export_texts encodable_texts
  texts-Outcome n [] level = pure-Outcome
  texts-Outcome n (s ∷ ss) level =
      then-Outcome _ _ _ _ (text-Outcome n s level) (texts-Outcome n ss level)

  mutual
    unfolding export_object encodable Conforms FieldsConform ObjectsConform ItemsConform
        export_value

    pub export-Outcome :
        (o : Object) (d : ClassName) (name namespacedef : Str) (level : ℕ)
        → Conforms d o
        → Valued o
        → Outcome (export_object repr namespace name namespacedef o level) (encodable repr o)
    export-Outcome (structured c vs fs) d name namespacedef level (e, k, f, h) v =
        rw (sym (content-encodable repr fs)) (
          element-Outcome name namespacedef (export_attributes vs) (has_content fs)
            (encodable_values vs) (encodable_fields repr fs) _ level (attributes-Outcome vs)
            (λ l. fields-Outcome fs l h))
    export-Outcome (simple c vs s) d name namespacedef level h v =
        rw (sym (and_true (encodable_values vs))) (
          element-Outcome name namespacedef (export_attributes vs) true (encodable_values vs) true _
            level (attributes-Outcome vs) (λ l. write-Outcome (quote_value s)))
    export-Outcome (markup c vs none ts) d name namespacedef level h v = absurd v
    export-Outcome (markup c vs (some s) ts) d name namespacedef level h v =
        rw (sym (and_true (encodable_values vs))) (
          inline-Outcome name namespacedef (export_attributes vs) _ (encodable_values vs) true level
            (attributes-Outcome vs) (write-Outcome _))
    export-Outcome (mixed c vs is) d name namespacedef level (e, k, (ps, f, h)) v =
        inline-Outcome name namespacedef (export_attributes vs) _ (encodable_values vs)
          (encodable_items repr is) level (attributes-Outcome vs)
          (items-Outcome is ps (suc level) h)

    pub fields-Outcome :
        (fs : Fields) (level : ℕ)
        → FieldsConform fs
        → Outcome (export_fields repr namespace fs level) (encodable_fields repr fs)
    fields-Outcome no_fields level h = pure-Outcome
    fields-Outcome (text_field n none fs) level h = fields-Outcome fs level h
    fields-Outcome (text_field n (some s) fs) level h =
        then-Outcome _ _ _ _ (text-Outcome n s level) (fields-Outcome fs level h)
    fields-Outcome (texts_field n ss fs) level h =
        then-Outcome _ _ _ _ (texts-Outcome n ss level) (fields-Outcome fs level h)
    fields-Outcome (unset_field form n c fs) level h = fields-Outcome fs level h
    fields-Outcome (object_field as_object n c o fs) level h =
        then-Outcome _ _ _ _ (export-Outcome o c n [] level h.0.0 h.0.1)
          (fields-Outcome fs level h.1)
    fields-Outcome (object_field as_text n c o fs) level h =
        then-Outcome _ _ _ _ (text-Outcome n (repr o) level) (fields-Outcome fs level h.1)
    fields-Outcome (objects_field n c os fs) level h =
        then-Outcome _ _ _ _ (objects-Outcome os c n level h.0) (fields-Outcome fs level h.1)

    pub objects-Outcome :
        (os : Objects) (c : ClassName) (n : Str) (level : ℕ)
        → ObjectsConform c os
        → Outcome (export_objects repr namespace n os level) (encodable_objects repr os)
    objects-Outcome no_objects c n level h = pure-Outcome
    objects-Outcome (and_object o os) c n level h =
        then-Outcome _ _ _ _ (export-Outcome o c n [] level h.0.0 h.0.1)
          (objects-Outcome os c n level h.1)

    pub items-Outcome :
        (is : Items) (ps : List (Str × PartKind)) (level : ℕ)
        → ItemsConform ps is
        → Outcome (export_items repr namespace is level) (encodable_items repr is)
    items-Outcome no_items ps level h = pure-Outcome
    items-Outcome (text_item s is) ps level h =
        then-Outcome _ _ _ _ (write-Outcome s) (items-Outcome is ps level h)
    items-Outcome (simple_item n s is) ps level h =
        then-Outcome _ _ _ _ (write-Outcome _) (items-Outcome is ps level h.1)
    items-Outcome (complex_item n o is) ps level ((c, e, (g, v)), h) =
        then-Outcome _ _ _ _ (export-Outcome o c n [] level g v) (items-Outcome is ps level h)
