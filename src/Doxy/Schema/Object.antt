-- ===== src/Doxy/Schema/Object.antt =====
-- The objects of the generated classes, with `__init__` and the accessors `get_`, `set_`, `add_` and
-- `insert_` of their fields.
use gr_digitizers.Prelude.{Option, none, some, List, [], ◌∷◌, ◌++◌, if◌then◌else◌}
use gr_digitizers.Prelude.Str.{Str, str_eq}
use gr_digitizers.Doxy.Schema.{
  ClassName, Attribute, Form, ChildKind, one_text, texts, one_object, objects, PartKind,
  simple_part, complex_part, Family, structured_class, simple_class, markup_class, mixed_class,
}
use gr_digitizers.Doxy.Schema.Tables.{class_of}

-- The attributes of an object with their values; an integer is its decimal numeral.
abbrev pub Values : Type 0
Values = List (Attribute × Option Str)

mutual
  pub data Object : Type 0 where
    structured : ClassName → Values → Fields → Object
    simple : ClassName → Values → Str → Object
    -- There is no `valueOf_` before `build`.
    markup : ClassName → Values → Option Str → List Str → Object
    mixed : ClassName → Values → Items → Object

  -- The fields for children, in the order of the declaration; `unset_field` has no object yet.
  pub data Fields : Type 0 where
    no_fields : Fields
    text_field : Str → Option Str → Fields → Fields
    texts_field : Str → List Str → Fields → Fields
    unset_field : Form → Str → ClassName → Fields → Fields
    object_field : Form → Str → ClassName → Object → Fields → Fields
    objects_field : Str → ClassName → Objects → Fields → Fields

  pub data Objects : Type 0 where
    no_objects : Objects
    and_object : Object → Objects → Objects

  -- `content_`: a `MixedContainer` of each category with its `name` and its `value`.
  pub data Items : Type 0 where
    no_items : Items
    text_item : Str → Items → Items
    simple_item : Str → Str → Items → Items
    complex_item : Str → Object → Items → Items

unfoldable pub class_name : Object → ClassName
class_name (structured c vs fs) = c
class_name (simple c vs s) = c
class_name (markup c vs s ts) = c
class_name (mixed c vs is) = c

unfoldable pub values_of : Object → Values
values_of (structured c vs fs) = vs
values_of (simple c vs s) = vs
values_of (markup c vs s ts) = vs
values_of (mixed c vs is) = vs

unfoldable pub new_values : List Attribute → Values
new_values [] = []
new_values (a ∷ attributes) = (a, none) ∷ new_values attributes

abbrev pub new_field : Str → ChildKind → Fields → Fields
new_field n one_text fs = text_field n none fs
new_field n texts fs = texts_field n [] fs
new_field n (one_object form c) fs = unset_field form n c fs
new_field n (objects c) fs = objects_field n c no_objects fs

unfoldable pub new_fields : List (Str × ChildKind) → Fields
new_fields [] = no_fields
new_fields ((n, kind) ∷ cs) = new_field n kind (new_fields cs)

-- `__init__` with its defaults
abbrev pub new_of : ClassName → Values → Family → Object
new_of c vs (structured_class cs) = structured c vs (new_fields cs)
new_of c vs simple_class = simple c vs []
new_of c vs markup_class = markup c vs none []
new_of c vs (mixed_class ps) = mixed c vs no_items

-- `factory ()`
unfoldable pub new_object : ClassName → Object
unfolding class_of new_values new_fields
new_object c = new_of c (new_values (class_of c).attributes) (class_of c).family

-- What is done with a child of a name.
pub data Part : Type 0 where
  ignored text_part : Part
  object_part : ClassName → Part

unfoldable pub field_part : Str → Fields → Part
unfolding str_eq
field_part n no_fields = ignored
field_part n (text_field m s fs) =
    let rest = field_part n fs in if str_eq n m then text_part else rest
field_part n (texts_field m ss fs) =
    let rest = field_part n fs in if str_eq n m then text_part else rest
field_part n (unset_field form m c fs) =
    let rest = field_part n fs in if str_eq n m then object_part c else rest
field_part n (object_field form m c o fs) =
    let rest = field_part n fs in if str_eq n m then object_part c else rest
field_part n (objects_field m c os fs) =
    let rest = field_part n fs in if str_eq n m then object_part c else rest

abbrev pub part_of_kind : PartKind → Part
part_of_kind simple_part = text_part
part_of_kind (complex_part c) = object_part c

unfoldable pub mixed_part : Str → List (Str × PartKind) → Part
unfolding str_eq
mixed_part n [] = ignored
mixed_part n ((m, kind) ∷ ps) =
    let rest = mixed_part n ps in if str_eq n m then part_of_kind kind else rest

abbrev pub family_part : Str → Family → Part
family_part n (mixed_class ps) = mixed_part n ps
family_part n (structured_class cs) = ignored
family_part n simple_class = ignored
family_part n markup_class = ignored

-- The tests of `nodeName_` in `buildChildren`
unfoldable pub part_of : Str → Object → Part
unfolding field_part mixed_part class_of
part_of n (structured c vs fs) = field_part n fs
part_of n (simple c vs s) = ignored
part_of n (markup c vs s ts) = ignored
part_of n (mixed c vs is) = family_part n (class_of c).family

unfoldable pub add_object : Object → Objects → Objects
add_object o no_objects = and_object o no_objects
add_object o (and_object p os) = and_object p (add_object o os)

-- `self.content_.append (obj_)`
unfoldable pub append_items : Items → Items → Items
append_items no_items js = js
append_items (text_item s is) js = text_item s (append_items is js)
append_items (simple_item n s is) js = simple_item n s (append_items is js)
append_items (complex_item n o is) js = complex_item n o (append_items is js)

-- A text for the field of a name: `self.x = x_` or `self.x.append (x_)`.
unfoldable pub put_text : Str → Str → Fields → Fields
unfolding str_eq
put_text n s no_fields = no_fields
put_text n s (text_field m t fs) =
    let rest = put_text n s fs in
    if str_eq n m then text_field m (some s) fs else text_field m t rest
put_text n s (texts_field m ts fs) =
    let rest = put_text n s fs in
    if str_eq n m then texts_field m (ts ++ (s ∷ [])) fs else texts_field m ts rest
put_text n s (unset_field form m c fs) = unset_field form m c (put_text n s fs)
put_text n s (object_field form m c o fs) = object_field form m c o (put_text n s fs)
put_text n s (objects_field m c os fs) = objects_field m c os (put_text n s fs)

-- An object for the field of a name: `self.set_x (obj_)` or `self.x.append (obj_)`.
unfoldable pub put_object : Str → Object → Fields → Fields
unfolding str_eq add_object
put_object n o no_fields = no_fields
put_object n o (text_field m t fs) = text_field m t (put_object n o fs)
put_object n o (texts_field m ts fs) = texts_field m ts (put_object n o fs)
put_object n o (unset_field form m c fs) =
    let rest = put_object n o fs in
    if str_eq n m then object_field form m c o fs else unset_field form m c rest
put_object n o (object_field form m c p fs) =
    let rest = put_object n o fs in
    if str_eq n m then object_field form m c o fs else object_field form m c p rest
put_object n o (objects_field m c os fs) =
    let rest = put_object n o fs in
    if str_eq n m then objects_field m c (add_object o os) fs else objects_field m c os rest
