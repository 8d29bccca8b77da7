-- ===== src/Doxy/Schema/Literally.antt =====
-- `exportLiteral` of the generated classes returns for an object that is safe, and for no other.
use gr_digitizers.Prelude.{ℕ, suc, Bool, true, false, ◌&&◌, none, some, ◌++◌, if◌then◌else◌}
use gr_digitizers.Prelude.Str.{Str, codes}
use gr_digitizers.Prelude.Result.{err, attribute_error}
use gr_digitizers.Prelude.Exec.{Exec, pure, lift, ◌>>◌}
use gr_digitizers.Doxy.Index.Literal.{literal_line}
use gr_digitizers.Doxy.Schema.{ClassName}
use gr_digitizers.Doxy.Schema.Object.{
  Object, structured, simple, markup, mixed, Fields, no_fields, text_field, texts_field,
  unset_field, object_field, objects_field, Objects, no_objects, and_object,
}
use gr_digitizers.Doxy.Schema.Shape.{Conforms, FieldsConform, ObjectsConform, Valued}
use gr_digitizers.Doxy.Schema.Export.{has_content}
use gr_digitizers.Doxy.Schema.Encodable.{encodable_texts}
use gr_digitizers.Doxy.Schema.Literal.{
  field_name, literal_attributes, literal_text, literal_texts, literal_value, literal_object,
  literal_fields, literal_objects,
}
use gr_digitizers.Doxy.Schema.Safe.{
  safe_text, safe, safe_fields, safe_objects, Returns, then-Returns, pure-Returns, fail-Returns,
  line-Returns, attributes-Returns, text-Returns, texts-Returns,
}

-- The lines round what is written for an object or a list of objects
around-Returns :
    (before behind : Str) (m n : Exec Str (Unit {0})) (level : ℕ) (a b : Bool)
    → Returns m a
    → Returns n b
    → Returns (literal_line before level >> (m >> (literal_line behind level >> n))) (a && b)
around-Returns before behind m n level a b h k =
    then-Returns (literal_line before level) _ true (a && b) (line-Returns before level) (
      then-Returns m _ a b h
        (then-Returns (literal_line behind level) n true b (line-Returns behind level) k))

optional-Returns :
    (has : Bool) (m : Exec Str (Unit {0})) (b : Bool)
    → Returns m b
    → Returns (if has then m else pure tt) (if has then b else true)
optional-Returns true m b h = h
optional-Returns false m b h = pure-Returns

mutual
  unfolding literal_object safe Conforms FieldsConform ObjectsConform literal_value

  pub literal-Returns :
      (o : Object) (d : ClassName) (level : ℕ)
      → Conforms d o
      → Valued o
      → Returns (literal_object o level) (safe o)
  literal-Returns (structured c vs fs) d level (e, k, f, h) v =
      then-Returns (literal_attributes vs (suc level)) _ true (safe (structured c vs fs))
        (attributes-Returns vs (suc level))
        (optional-Returns (has_content fs) (literal_fields fs (suc level)) (safe_fields fs)
          (fields-Returns fs (suc level) h))
  literal-Returns (simple c vs s) d level h v =
      then-Returns (literal_attributes vs (suc level)) _ true true
        (attributes-Returns vs (suc level))
        (line-Returns (codes "valueOf_ = \"" ++ (s ++ codes "\",\n")) (suc level))
  literal-Returns (markup c vs none ts) d level h v = absurd v
  literal-Returns (markup c vs (some s) ts) d level h v =
      then-Returns (literal_attributes vs (suc level)) _ true true
        (attributes-Returns vs (suc level))
        (line-Returns (codes "valueOf_ = \"" ++ (s ++ codes "\",\n")) (suc level))
  literal-Returns (mixed c vs is) d level h v =
      then-Returns (literal_attributes vs (suc level)) (lift (err attribute_error)) true false
        (attributes-Returns vs (suc level)) fail-Returns

  pub fields-Returns :
      (fs : Fields) (level : ℕ)
      → FieldsConform fs
      → Returns (literal_fields fs level) (safe_fields fs)
  fields-Returns no_fields level h = pure-Returns
  fields-Returns (text_field n t fs) level h =
      then-Returns (literal_text (field_name n ++ codes "=") t level) (literal_fields fs level)
        (safe_text t) (safe_fields fs) (text-Returns (field_name n ++ codes "=") t level)
        (fields-Returns fs level h)
  fields-Returns (texts_field n ss fs) level h =
      around-Returns (n ++ codes "=[\n") (codes "],\n") (literal_texts ss (suc level))
        (literal_fields fs level) level (encodable_texts ss) (safe_fields fs)
        (texts-Returns ss (suc level)) (fields-Returns fs level h)
  fields-Returns (unset_field form n c fs) level h = fields-Returns fs level h
  fields-Returns (object_field form n c o fs) level h =
      around-Returns _ (codes "),\n") (literal_object o level) (literal_fields fs level) level
        (safe o) (safe_fields fs) (literal-Returns o c level h.0.0 h.0.1)
        (fields-Returns fs level h.1)
  fields-Returns (objects_field n c os fs) level h =
      around-Returns (n ++ codes "=[\n") (codes "],\n") (literal_objects n os (suc level))
        (literal_fields fs level) level (safe_objects os) (safe_fields fs)
        (objects-Returns os c n (suc level) h.0) (fields-Returns fs level h.1)

  pub objects-Returns :
      (os : Objects) (c : ClassName) (n : Str) (level : ℕ)
      → ObjectsConform c os
      → Returns (literal_objects n os level) (safe_objects os)
  objects-Returns no_objects c n level h = pure-Returns
  objects-Returns (and_object o os) c n level h =
      around-Returns (codes "model_." ++ (n ++ codes "(\n")) (codes "),\n") (literal_object o level)
        (literal_objects n os level) level (safe o) (safe_objects os)
        (literal-Returns o c level h.0.0 h.0.1) (objects-Returns os c n level h.1)
