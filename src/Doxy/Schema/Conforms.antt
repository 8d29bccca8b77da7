-- ===== src/Doxy/Schema/Conforms.antt =====
-- What `build` leaves as the class declares it: the attributes, the fields and the classes of the objects.
use gr_digitizers.Prelude.{
  ◌≡◌, refl, sym, ap, ◌∙◌, Bool, true, false, Bool-cases, inl, inr, List, [], ◌∷◌, ◌⊎◌,
  if◌then◌else◌,
}
use gr_digitizers.Prelude.Str.{Str, str_eq}
use gr_digitizers.Prelude.Dict.{Dict, lookup}
use gr_digitizers.Prelude.Exec.{OnOk, result-OnOk, Always, OnOk-Always}
use gr_digitizers.Doxy.Schema.{ClassName, PartKind, mixed_class}
use gr_digitizers.Doxy.Schema.Tables.{class_of}
use gr_digitizers.Doxy.Schema.Object.{
  Values, Object, structured, simple, markup, mixed, Fields, no_fields, text_field, texts_field,
  unset_field, object_field, objects_field, Objects, no_objects, and_object, Items, no_items,
  text_item, simple_item, complex_item, Part, text_part, object_part, field_part, mixed_part,
  family_part, part_of, add_object, append_items, put_text, put_object,
}
use gr_digitizers.Doxy.Schema.Shape.{
  keys, shape, Conforms, FieldsConform, ObjectsConform, ItemsConform, Built,
}
use gr_digitizers.Doxy.Schema.Build.{
  read_attribute, read_attributes, begin_build, put_text_node, put_cdata, put_child_text, put_child,
}

pub object_part-injective : (c d : ClassName) → object_part c ≡ object_part d → c ≡ d
object_part-injective c d h = cc

add_object-Conform :
    (c : ClassName) (o : Object) (os : Objects)
    → Built c o
    → ObjectsConform c os
    → ObjectsConform c (add_object o os)
unfolding ObjectsConform add_object
add_object-Conform c o no_objects h k = (h, tt)
add_object-Conform c o (and_object p os) h k = (k.0, add_object-Conform c o os h k.1)

append_items-Conform :
    (ps : List (Str × PartKind)) (is js : Items)
    → ItemsConform ps is
    → ItemsConform ps js
    → ItemsConform ps (append_items is js)
unfolding ItemsConform append_items
append_items-Conform ps no_items js h k = k
append_items-Conform ps (text_item s is) js h k = append_items-Conform ps is js h k
append_items-Conform ps (simple_item n s is) js h k = (h.0, append_items-Conform ps is js h.1 k)
append_items-Conform ps (complex_item n o is) js h k = (h.0, append_items-Conform ps is js h.1 k)

pub put_text-shape : (n s : Str) (fs : Fields) → shape (put_text n s fs) ≡ shape fs
unfolding shape put_text
put_text-shape n s no_fields = refl
put_text-shape n s (text_field m t fs) = elim (Bool-cases (str_eq n m)) [
  | inl e ↦ rw e
  | inr e ↦ rw (e, put_text-shape n s fs)
]
put_text-shape n s (texts_field m ts fs) = elim (Bool-cases (str_eq n m)) [
  | inl e ↦ rw e
  | inr e ↦ rw (e, put_text-shape n s fs)
]
put_text-shape n s (unset_field form m c fs) = rw (put_text-shape n s fs)
put_text-shape n s (object_field form m c o fs) = rw (put_text-shape n s fs)
put_text-shape n s (objects_field m c os fs) = rw (put_text-shape n s fs)

put_text-Conform : (n s : Str) (fs : Fields) → FieldsConform fs → FieldsConform (put_text n s fs)
unfolding FieldsConform put_text
put_text-Conform n s no_fields h = tt
put_text-Conform n s (text_field m t fs) h = elim (Bool-cases (str_eq n m)) [
  | inl e ↦ rw e h
  | inr e ↦ rw e (put_text-Conform n s fs h)
]
put_text-Conform n s (texts_field m ts fs) h = elim (Bool-cases (str_eq n m)) [
  | inl e ↦ rw e h
  | inr e ↦ rw e (put_text-Conform n s fs h)
]
put_text-Conform n s (unset_field form m c fs) h = put_text-Conform n s fs h
put_text-Conform n s (object_field form m c o fs) h = (h.0, put_text-Conform n s fs h.1)
put_text-Conform n s (objects_field m c os fs) h = (h.0, put_text-Conform n s fs h.1)

pub put_object-shape : (n : Str) (o : Object) (fs : Fields) → shape (put_object n o fs) ≡ shape fs
unfolding shape put_object
put_object-shape n o no_fields = refl
put_object-shape n o (text_field m t fs) = rw (put_object-shape n o fs)
put_object-shape n o (texts_field m ts fs) = rw (put_object-shape n o fs)
put_object-shape n o (unset_field form m c fs) = elim (Bool-cases (str_eq n m)) [
  | inl e ↦ rw e
  | inr e ↦ rw (e, put_object-shape n o fs)
]
put_object-shape n o (object_field form m c p fs) = elim (Bool-cases (str_eq n m)) [
  | inl e ↦ rw e
  | inr e ↦ rw (e, put_object-shape n o fs)
]
put_object-shape n o (objects_field m c os fs) = elim (Bool-cases (str_eq n m)) [
  | inl e ↦ rw e
  | inr e ↦ rw (e, put_object-shape n o fs)
]

-- The value of a test, with what the test gave.
pub test_cases :
    {A : Type 0} (b : Bool) (x y z : A)
    → (if b then x else y) ≡ z
    → ((b ≡ true) × (x ≡ z)) ⊎ ((b ≡ false) × (y ≡ z))
test_cases true x y z h = inl (refl, h)
test_cases false x y z h = inr (refl, h)

put_object-Conform :
    (n : Str) (c : ClassName) (o : Object) (fs : Fields)
    → Built c o
    → field_part n fs ≡ object_part c
    → FieldsConform fs
    → FieldsConform (put_object n o fs)
unfolding FieldsConform put_object field_part
put_object-Conform n c o no_fields k p h = tt
put_object-Conform n c o (text_field m t fs) k p h =
    elim (test_cases (str_eq n m) text_part (field_part n fs) (object_part c) p) [
      | inl (e, q) ↦ cc
      | inr (e, q) ↦ put_object-Conform n c o fs k q h
    ]
put_object-Conform n c o (texts_field m ts fs) k p h =
    elim (test_cases (str_eq n m) text_part (field_part n fs) (object_part c) p) [
      | inl (e, q) ↦ cc
      | inr (e, q) ↦ put_object-Conform n c o fs k q h
    ]
put_object-Conform n c o (unset_field form m d fs) k p h =
    elim (test_cases (str_eq n m) (object_part d) (field_part n fs) (object_part c) p) [
      | inl (e, q) ↦ rw (e, object_part-injective d c q) (k, h)
      | inr (e, q) ↦ rw e (put_object-Conform n c o fs k q h)
    ]
put_object-Conform n c o (object_field form m d x fs) k p h =
    elim (test_cases (str_eq n m) (object_part d) (field_part n fs) (object_part c) p) [
      | inl (e, q) ↦ rw (e, object_part-injective d c q) (k, h.1)
      | inr (e, q) ↦ rw e (h.0, put_object-Conform n c o fs k q h.1)
    ]
put_object-Conform n c o (objects_field m d os fs) k p h =
    elim (test_cases (str_eq n m) (object_part d) (field_part n fs) (object_part c) p) [
      | inl (e, q) ↦
          rw (e, object_part-injective d c q)
            (add_object-Conform c o os k (rw (sym (object_part-injective d c q)) h.0), h.1)
      | inr (e, q) ↦ rw e (h.0, put_object-Conform n c o fs k q h.1)
    ]

mixed_part-of :
    (c d : ClassName) (ps : List (Str × PartKind)) (n : Str) (part : Part)
    → c ≡ d
    → (class_of d).family ≡ mixed_class ps
    → family_part n (class_of c).family ≡ part
    → mixed_part n ps ≡ part
mixed_part-of c d ps n part e h k =
    sym (ap (λ x. family_part n (class_of x).family) e ∙ ap (family_part n) h) ∙ k

pub put_text_node-Conforms :
    (d : ClassName) (s : Str) (o : Object) → Conforms d o → Conforms d (put_text_node s o)
unfolding Conforms put_text_node
put_text_node-Conforms d s (structured c vs fs) h = h
put_text_node-Conforms d s (simple c vs t) h = h
put_text_node-Conforms d s (markup c vs t ts) h = h
put_text_node-Conforms d s (mixed c vs is) (e, k, (ps, f, h)) =
    (e, k, (ps, f, append_items-Conform ps is (text_item s no_items) h (unfold ItemsConform in tt)))

pub put_cdata-Conforms :
    (d : ClassName) (s : Str) (o : Object) → Conforms d o → Conforms d (put_cdata s o)
unfolding Conforms put_cdata
put_cdata-Conforms d s (structured c vs fs) h = h
put_cdata-Conforms d s (simple c vs t) h = h
put_cdata-Conforms d s (markup c vs t ts) h = h
put_cdata-Conforms d s (mixed c vs is) h = h

pub put_child_text-Conforms :
    (d : ClassName) (n s : Str) (o : Object)
    → part_of n o ≡ text_part
    → Conforms d o
    → Conforms d (put_child_text n s o)
unfolding Conforms put_child_text part_of
put_child_text-Conforms d n s (structured c vs fs) p (e, k, f, h) =
    (e, k, rw (put_text-shape n s fs) f, put_text-Conform n s fs h)
put_child_text-Conforms d n s (simple c vs t) p h = h
put_child_text-Conforms d n s (markup c vs t ts) p h = h
put_child_text-Conforms d n s (mixed c vs is) p (e, k, (ps, f, h)) = (
  e,
  k,
  (
    ps,
    f,
    append_items-Conform ps is (simple_item n s no_items) h
        (unfold ItemsConform in (mixed_part-of c d ps n text_part e f p, tt)),
  ),
)

pub put_child-Conforms :
    (d c : ClassName) (n : Str) (q o : Object)
    → part_of n o ≡ object_part c
    → Built c q
    → Conforms d o
    → Conforms d (put_child n q o)
unfolding Conforms put_child part_of
put_child-Conforms d c n q (structured b vs fs) p g (e, k, f, h) =
    (e, k, rw (put_object-shape n q fs) f, put_object-Conform n c q fs g p h)
put_child-Conforms d c n q (simple b vs t) p g h = h
put_child-Conforms d c n q (markup b vs t ts) p g h = h
put_child-Conforms d c n q (mixed b vs is) p g (e, k, (ps, f, h)) = (
  e,
  k,
  (
    ps,
    f,
    append_items-Conform ps is (complex_item n q no_items) h
        (unfold ItemsConform in ((c, mixed_part-of b d ps n (object_part c) e f p, g), tt)),
  ),
)

read_attributes-keys :
    (attrs : Dict Str) (vs : Values) → OnOk (λ ws. keys ws ≡ keys vs) (read_attributes attrs vs)
unfolding keys read_attributes
read_attributes-keys attrs [] = refl
read_attributes-keys attrs (((key, kind), old) ∷ vs) =
    result-OnOk Always _ (read_attribute kind old (lookup key attrs)) _
      (OnOk-Always (read_attribute kind old (lookup key attrs)))
      (λ v _.
        result-OnOk (λ ws. keys ws ≡ keys vs) _ (read_attributes attrs vs) _
          (read_attributes-keys attrs vs) (λ ws e. ap (λ ks. (key, kind) ∷ ks) e))

pub begin_build-Conforms :
    (d : ClassName) (attrs : Dict Str) (o : Object)
    → Conforms d o
    → OnOk (Built d) (begin_build attrs o)
unfolding begin_build Conforms
begin_build-Conforms d attrs (structured c vs fs) (e, k, f, h) =
    result-OnOk (λ ws. keys ws ≡ keys vs) _ (read_attributes attrs vs) _
      (read_attributes-keys attrs vs) (λ ws q. ((e, q ∙ k, f, h), tt))
begin_build-Conforms d attrs (simple c vs s) (e, k, f) =
    result-OnOk (λ ws. keys ws ≡ keys vs) _ (read_attributes attrs vs) _
      (read_attributes-keys attrs vs) (λ ws q. ((e, q ∙ k, f), tt))
begin_build-Conforms d attrs (markup c vs s ts) (e, k, f) =
    result-OnOk (λ ws. keys ws ≡ keys vs) _ (read_attributes attrs vs) _
      (read_attributes-keys attrs vs) (λ ws q. ((e, q ∙ k, f), tt))
begin_build-Conforms d attrs (mixed c vs is) (e, k, f) =
    result-OnOk (λ ws. keys ws ≡ keys vs) _ (read_attributes attrs vs) _
      (read_attributes-keys attrs vs) (λ ws q. ((e, q ∙ k, f), tt))
