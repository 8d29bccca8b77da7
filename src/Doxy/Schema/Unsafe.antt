-- ===== src/Doxy/Schema/Unsafe.antt =====
-- A field with mixed content in it keeps `exportLiteral` from returning.
use gr_digitizers.Prelude.{
  subst, ◌≡◌, refl, ap, ◌∙◌, Bool, true, false, ◌&&◌, inl, inr, ℕ, none, some, List,
}
use gr_digitizers.Prelude.Str.{Str, str_eq}
use gr_digitizers.Doxy.Schema.{ClassName, PartKind, mixed_class}
use gr_digitizers.Doxy.Schema.Tables.{class_of}
use gr_digitizers.Doxy.Schema.Object.{
  Object, structured, simple, markup, mixed, Fields, no_fields, text_field, texts_field,
  unset_field, object_field, objects_field,
}
use gr_digitizers.Doxy.Schema.Shape.{Conforms, FieldsConform, Valued}
use gr_digitizers.Doxy.Schema.Conforms.{test_cases}
use gr_digitizers.Doxy.Schema.Accepts.{is_ok}
use gr_digitizers.Doxy.Schema.Columns.{
  text_slot, texts_slot, object_slot, objects_slot, object_list, get_field, get_of,
}
use gr_digitizers.Doxy.Schema.Export.{has_content}
use gr_digitizers.Doxy.Schema.Literal.{literal_object}
use gr_digitizers.Doxy.Schema.Safe.{safe, safe_fields, run-Returns}
use gr_digitizers.Doxy.Schema.Literally.{literal-Returns}

and_false : (b : Bool) → (b && false) ≡ false
and_false true = refl
and_false false = refl

slot_class :
    (c d : ClassName) (o b : Object) → object_slot c (some o) ≡ object_slot d (some b) → c ≡ d
slot_class c d o b h = cc

-- An object of a class with mixed content
mixed-unsafe :
    (d : ClassName) (ps : List (Str × PartKind)) (b : Object)
    → (class_of d).family ≡ mixed_class ps
    → Conforms d b
    → safe b ≡ false
unfolding safe Conforms
mixed-unsafe d ps (structured c vs fs) f (e, k, g, h) = cc
mixed-unsafe d ps (simple c vs s) f (e, k, g) = cc
mixed-unsafe d ps (markup c vs s ts) f (e, k, g) = cc
mixed-unsafe d ps (mixed c vs is) f h = refl

module _ (n : Str) (d : ClassName) (ps : List (Str × PartKind)) (b : Object) where
  slot-unsafe :
      (c : ClassName) (o : Object)
      → (class_of d).family ≡ mixed_class ps
      → Conforms c o
      → object_slot c (some o) ≡ object_slot d (some b)
      → safe o ≡ false
  slot-unsafe c o f h k = mixed-unsafe d ps o f (subst (λ x. Conforms x o) (slot_class c d o b k) h)

  -- Such a field makes its object one with content that is not safe.
  field-unsafe :
      (fs : Fields)
      → (class_of d).family ≡ mixed_class ps
      → FieldsConform fs
      → get_field n fs ≡ object_slot d (some b)
      → (has_content fs ≡ true) × (safe_fields fs ≡ false)
  unfolding FieldsConform get_field safe_fields has_content
  field-unsafe no_fields f h e = cc
  field-unsafe (text_field m none fs) f h e =
      elim (test_cases (str_eq n m) (text_slot none) (get_field n fs) (object_slot d (some b)) e) [
        | inl (g, k) ↦ cc
        | inr (g, k) ↦ ((field-unsafe fs f h k).0, refl)
      ]
  field-unsafe (text_field m (some t) fs) f h e =
      elim (test_cases (str_eq n m) (text_slot (some t)) (get_field n fs) (object_slot d (some b))
        e) [ inl (g, k) ↦ cc | inr (g, k) ↦ (refl, rw (field-unsafe fs f h k).1 (and_false _)) ]
  field-unsafe (texts_field m ts fs) f h e =
      elim (test_cases (str_eq n m) (texts_slot ts) (get_field n fs) (object_slot d (some b)) e) [
        | inl (g, k) ↦ cc
        | inr (g, k) ↦ (refl, rw (field-unsafe fs f h k).1 (and_false _))
      ]
  field-unsafe (unset_field form m c fs) f h e =
      elim (test_cases (str_eq n m) (object_slot c none) (get_field n fs) (object_slot d (some b))
        e) [ inl (g, k) ↦ cc | inr (g, k) ↦ field-unsafe fs f h k ]
  field-unsafe (object_field form m c o fs) f h e =
      elim (test_cases (str_eq n m) (object_slot c (some o)) (get_field n fs)
        (object_slot d (some b)) e) [
          | inl (g, k) ↦ (refl, ap (λ x. x && safe_fields fs) (slot-unsafe c o f h.0.0 k))
          | inr (g, k) ↦ (refl, rw (field-unsafe fs f h.1 k).1 (and_false _))
        ]
  field-unsafe (objects_field m c os fs) f h e =
      elim (test_cases (str_eq n m) (objects_slot c (object_list os)) (get_field n fs)
        (object_slot d (some b)) e) [
          | inl (g, k) ↦ cc
          | inr (g, k) ↦ (refl, rw (field-unsafe fs f h.1 k).1 (and_false _))
        ]

  pub object-unsafe :
      (c : ClassName) (o : Object)
      → (class_of d).family ≡ mixed_class ps
      → Conforms c o
      → get_of n o ≡ object_slot d (some b)
      → safe o ≡ false
  unfolding Conforms safe
  object-unsafe c (structured x vs fs) f (e, k, g, h) q =
      let (has, not_safe) = field-unsafe fs f h q in rw (has, not_safe)
  object-unsafe c (simple x vs s) f h q = cc
  object-unsafe c (markup x vs s ts) f h q = cc
  object-unsafe c (mixed x vs is) f h q = refl

-- exportLiteral of an object with a built object of a class with mixed content in one of its fields
-- never returns.
pub literal-mixed_field :
    (n : Str) (c d : ClassName) (ps : List (Str × PartKind)) (o b : Object) (level : ℕ) (out : Str)
    → (class_of d).family ≡ mixed_class ps
    → Conforms c o
    → Valued o
    → get_of n o ≡ object_slot d (some b)
    → is_ok (literal_object o level out).0 ≡ false
literal-mixed_field n c d ps o b level out f h v q =
    run-Returns (literal_object o level) (safe o) out (literal-Returns o c level h v)
    ∙ object-unsafe n d ps b c o f h q
