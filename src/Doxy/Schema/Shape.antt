-- ===== src/Doxy/Schema/Shape.antt =====
-- What an object of a generated class has to look like: the attributes and the fields that the class
-- declares, and in them objects of the declared classes.
use gr_digitizers.Prelude.{◌≡◌, refl, sym, ap, ◌∙◌, none, some, List, [], ◌∷◌}
use gr_digitizers.Prelude.Str.{Str}
use gr_digitizers.Doxy.Schema.{
  ClassName, Attribute, ChildKind, one_text, texts, one_object, objects, PartKind, Family,
  structured_class, simple_class, markup_class, mixed_class,
}
use gr_digitizers.Doxy.Schema.Tables.{class_of}
use gr_digitizers.Doxy.Schema.Object.{
  Values, Object, structured, simple, markup, mixed, Fields, no_fields, text_field, texts_field,
  unset_field, object_field, objects_field, Objects, no_objects, and_object, Items, no_items,
  text_item, simple_item, complex_item, new_values, new_field, new_fields, new_of, new_object,
  text_part, object_part, mixed_part,
}

-- The attributes that an object has.
unfoldable pub keys : Values → List Attribute
keys [] = []
keys ((a, v) ∷ vs) = a ∷ keys vs

-- The fields that an object has.
unfoldable pub shape : Fields → List (Str × ChildKind)
shape no_fields = []
shape (text_field n t fs) = (n, one_text) ∷ shape fs
shape (texts_field n ts fs) = (n, texts) ∷ shape fs
shape (unset_field form n c fs) = (n, one_object form c) ∷ shape fs
shape (object_field form n c o fs) = (n, one_object form c) ∷ shape fs
shape (objects_field n c os fs) = (n, objects c) ∷ shape fs

-- `build` has set `valueOf_`.
abbrev pub Valued : Object → Type 0
Valued (structured c vs fs) = Unit
Valued (simple c vs s) = Unit
Valued (markup c vs none ts) = ⊥
Valued (markup c vs (some s) ts) = Unit
Valued (mixed c vs is) = Unit

unfoldable mutual
  unfolding keys shape class_of mixed_part

  -- An object of a class, in which all that it contains is built.
  pub Conforms : ClassName → Object → Type 0
  Conforms d (structured c vs fs) =
      (c ≡ d)
      × (keys vs ≡ (class_of d).attributes)
      × ((class_of d).family ≡ structured_class (shape fs))
      × FieldsConform fs
  Conforms d (simple c vs s) =
      (c ≡ d) × (keys vs ≡ (class_of d).attributes) × ((class_of d).family ≡ simple_class)
  Conforms d (markup c vs s ts) =
      (c ≡ d) × (keys vs ≡ (class_of d).attributes) × ((class_of d).family ≡ markup_class)
  Conforms d (mixed c vs is) =
      (c ≡ d)
      × (keys vs ≡ (class_of d).attributes)
      × ((ps : List (Str × PartKind)) × ((class_of d).family ≡ mixed_class ps) × ItemsConform ps is)

  pub FieldsConform : Fields → Type 0
  FieldsConform no_fields = Unit
  FieldsConform (text_field n t fs) = FieldsConform fs
  FieldsConform (texts_field n ts fs) = FieldsConform fs
  FieldsConform (unset_field form n c fs) = FieldsConform fs
  FieldsConform (object_field form n c o fs) = (Conforms c o × Valued o) × FieldsConform fs
  FieldsConform (objects_field n c os fs) = ObjectsConform c os × FieldsConform fs

  pub ObjectsConform : ClassName → Objects → Type 0
  ObjectsConform c no_objects = Unit
  ObjectsConform c (and_object o os) = (Conforms c o × Valued o) × ObjectsConform c os

  -- A part has a name that the class declares, and the class of its object.
  pub ItemsConform : List (Str × PartKind) → Items → Type 0
  ItemsConform ps no_items = Unit
  ItemsConform ps (text_item s is) = ItemsConform ps is
  ItemsConform ps (simple_item n s is) = (mixed_part n ps ≡ text_part) × ItemsConform ps is
  ItemsConform ps (complex_item n o is) =
      ((c : ClassName) × (mixed_part n ps ≡ object_part c) × (Conforms c o × Valued o))
      × ItemsConform ps is

abbrev pub Built : ClassName → Object → Type 0
Built d o = Conforms d o × Valued o

keys-new_values : (xs : List Attribute) → keys (new_values xs) ≡ xs
unfolding keys new_values
keys-new_values [] = refl
keys-new_values (a ∷ xs) = rw (keys-new_values xs)

shape-new_field :
    (n : Str) (kind : ChildKind) (fs : Fields) → shape (new_field n kind fs) ≡ (n, kind) ∷ shape fs
unfolding shape
shape-new_field n one_text fs = refl
shape-new_field n texts fs = refl
shape-new_field n (one_object form c) fs = refl
shape-new_field n (objects c) fs = refl

pub shape-new_fields : (cs : List (Str × ChildKind)) → shape (new_fields cs) ≡ cs
unfolding shape new_fields
shape-new_fields [] = refl
shape-new_fields ((n, kind) ∷ cs) =
    shape-new_field n kind (new_fields cs) ∙ ap (λ xs. (n, kind) ∷ xs) (shape-new_fields cs)

new_field-Conforms :
    (n : Str) (kind : ChildKind) (fs : Fields)
    → FieldsConform fs
    → FieldsConform (new_field n kind fs)
unfolding FieldsConform
new_field-Conforms n one_text fs h = h
new_field-Conforms n texts fs h = h
new_field-Conforms n (one_object form c) fs h = h
new_field-Conforms n (objects c) fs h = (tt, h)

new_fields-Conforms : (cs : List (Str × ChildKind)) → FieldsConform (new_fields cs)
unfolding FieldsConform new_fields
new_fields-Conforms [] = tt
new_fields-Conforms ((n, kind) ∷ cs) =
    new_field-Conforms n kind (new_fields cs) (new_fields-Conforms cs)

new_of-Conforms :
    (c : ClassName) (vs : Values) (family : Family)
    → (class_of c).family ≡ family
    → keys vs ≡ (class_of c).attributes
    → Conforms c (new_of c vs family)
unfolding Conforms
new_of-Conforms c vs (structured_class cs) e h =
    (refl, h, e ∙ ap structured_class (sym (shape-new_fields cs)), new_fields-Conforms cs)
new_of-Conforms c vs simple_class e h = (refl, h, e)
new_of-Conforms c vs markup_class e h = (refl, h, e)
new_of-Conforms c vs (mixed_class ps) e h = (refl, h, (ps, e, tt))

-- `__init__` makes an object of its class.
pub new_object-Conforms : (c : ClassName) → Conforms c (new_object c)
unfolding new_object
new_object-Conforms c = new_of-Conforms c _ (class_of c).family refl (keys-new_values _)
