-- ===== src/Doxy/Schema/Encodable.antt =====
-- When `export` of the generated classes returns: which texts are encoded.
use gr_digitizers.Prelude.{
  ◌≡◌, refl, sym, Bool, true, false, ◌&&◌, Option, none, some, List, [], ◌∷◌, if◌then◌else◌,
  Bool-cases, inl, inr,
}
use gr_digitizers.Prelude.Str.{Str}
use gr_digitizers.Prelude.Exec.{pure}
use gr_digitizers.Doxy.Quote.{quote_attrib}
use gr_digitizers.Doxy.Index.Outcome.{Outcome, write-Outcome, then-Outcome, encode-Outcome}
use gr_digitizers.Doxy.Index.Ascii.{is_ascii-quote_attrib}
use gr_digitizers.Doxy.Index.Export.{is_ascii}
use gr_digitizers.Doxy.Schema.{AttributeKind, encoded, quoted, always, numeric, as_object, as_text}
use gr_digitizers.Doxy.Schema.Object.{
  Values, Object, structured, simple, markup, mixed, Fields, no_fields, text_field, texts_field,
  unset_field, object_field, objects_field, Objects, no_objects, and_object, Items, no_items,
  text_item, simple_item, complex_item,
}
use gr_digitizers.Doxy.Schema.Export.{export_attribute, export_attributes, has_content}

abbrev encodable_value : AttributeKind → Option Str → Bool
encodable_value encoded (some s) = is_ascii s
encodable_value encoded none = true
encodable_value quoted v = true
encodable_value always v = true
encodable_value numeric v = true

unfoldable pub encodable_values : Values → Bool
unfolding is_ascii
encodable_values [] = true
encodable_values (((key, kind), v) ∷ vs) = encodable_value kind v && encodable_values vs

unfoldable pub encodable_texts : List Str → Bool
unfolding is_ascii
encodable_texts [] = true
encodable_texts (s ∷ ss) = is_ascii s && encodable_texts ss

module _ (repr : Object → Str) where
  unfoldable mutual
    unfolding encodable_values encodable_texts is_ascii

    -- The attributes and texts that are encoded are ASCII; `valueOf_` and `content_` are not encoded.
    pub encodable : Object → Bool
    encodable (structured c vs fs) = encodable_values vs && encodable_fields fs
    encodable (simple c vs s) = encodable_values vs
    encodable (markup c vs s ts) = encodable_values vs
    encodable (mixed c vs is) = encodable_values vs && encodable_items is

    pub encodable_fields : Fields → Bool
    encodable_fields no_fields = true
    encodable_fields (text_field n none fs) = encodable_fields fs
    encodable_fields (text_field n (some s) fs) = is_ascii s && encodable_fields fs
    encodable_fields (texts_field n ss fs) = encodable_texts ss && encodable_fields fs
    encodable_fields (unset_field form n c fs) = encodable_fields fs
    encodable_fields (object_field as_object n c o fs) = encodable o && encodable_fields fs
    encodable_fields (object_field as_text n c o fs) = is_ascii (repr o) && encodable_fields fs
    encodable_fields (objects_field n c os fs) = encodable_objects os && encodable_fields fs

    pub encodable_objects : Objects → Bool
    encodable_objects no_objects = true
    encodable_objects (and_object o os) = encodable o && encodable_objects os

    pub encodable_items : Items → Bool
    encodable_items no_items = true
    encodable_items (text_item s is) = encodable_items is
    encodable_items (simple_item n s is) = encodable_items is
    encodable_items (complex_item n o is) = encodable o && encodable_items is

pub pure-Outcome : Outcome (pure tt) true
unfolding Outcome
pure-Outcome out = refl

attribute-Outcome :
    (key : Str) (kind : AttributeKind) (v : Option Str)
    → Outcome (export_attribute key kind v) (encodable_value kind v)
unfolding export_attribute
attribute-Outcome key encoded none = pure-Outcome
attribute-Outcome key encoded (some s) =
    rw (sym (is_ascii-quote_attrib s)) (encode-Outcome (quote_attrib s) _ (write-Outcome _))
attribute-Outcome key quoted none = pure-Outcome
attribute-Outcome key quoted (some s) = write-Outcome _
attribute-Outcome key always v = write-Outcome _
attribute-Outcome key numeric none = pure-Outcome
attribute-Outcome key numeric (some s) = write-Outcome _

pub attributes-Outcome : (vs : Values) → Outcome (export_attributes vs) (encodable_values vs)
unfolding export_attributes encodable_values
attributes-Outcome [] = pure-Outcome
attributes-Outcome (((key, kind), v) ∷ vs) =
    then-Outcome _ _ _ _ (attribute-Outcome key kind v) (attributes-Outcome vs)

has_content-encodable :
    (repr : Object → Str) (fs : Fields) → has_content fs ≡ false → encodable_fields repr fs ≡ true
unfolding has_content encodable_fields
has_content-encodable repr no_fields h = refl
has_content-encodable repr (text_field n none fs) h = has_content-encodable repr fs h
has_content-encodable repr (text_field n (some s) fs) h = cc
has_content-encodable repr (texts_field n ss fs) h = cc
has_content-encodable repr (unset_field form n c fs) h = has_content-encodable repr fs h
has_content-encodable repr (object_field form n c o fs) h = cc
has_content-encodable repr (objects_field n c os fs) h = cc

pub content-encodable :
    (repr : Object → Str) (fs : Fields)
    → (if has_content fs then encodable_fields repr fs else true) ≡ encodable_fields repr fs
content-encodable repr fs = elim (Bool-cases (has_content fs)) [
  | inl e ↦ rw e
  | inr e ↦ rw (e, has_content-encodable repr fs e)
]
