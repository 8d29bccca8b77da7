-- ===== src/Doxy/Schema/Accepts.antt =====
-- Which documents a generated class is built of: its integers are integers and its texts are texts.
use gr_digitizers.Prelude.{
  ◌≡◌, refl, sym, ap, ◌∙◌, Bool, true, false, ◌&&◌, Bool-cases, inl, inr, Option, none, some, List,
  [], ◌∷◌, if◌then◌else◌,
}
use gr_digitizers.Prelude.Str.{Str, str_eq}
use gr_digitizers.Prelude.Dict.{Dict, lookup}
use gr_digitizers.Prelude.Result.{Result, ok, err, ◌>>=◌}
use gr_digitizers.Prelude.Exec.{OnOk, Always, OnOk-Always}
use gr_digitizers.Doxy.Dom.{element, text, cdata, comment, Doms, nil, cons, local_name, text_of}
use gr_digitizers.Doxy.Compound.Member.{integer}
use gr_digitizers.Doxy.Compound.MemberTotal.{plain_text}
use gr_digitizers.Doxy.Schema.{
  ClassName, AttributeKind, encoded, quoted, always, numeric, Attribute, ChildKind, one_text, texts,
  one_object, objects, Family, structured_class, simple_class, markup_class, mixed_class,
}
use gr_digitizers.Doxy.Schema.Tables.{class_of}
use gr_digitizers.Doxy.Schema.Object.{
  Values, Object, structured, simple, markup, mixed, Fields, no_fields, text_field, texts_field,
  unset_field, object_field, objects_field, new_object, Part, ignored, text_part, object_part,
  field_part, mixed_part, family_part, part_of,
}
use gr_digitizers.Doxy.Schema.Shape.{keys, shape, Conforms, Built, new_object-Conforms}
use gr_digitizers.Doxy.Schema.Build.{
  int, read_attribute, read_attributes, begin_build, build_child, build_children, build_element,
}
use gr_digitizers.Doxy.Schema.Conforms.{begin_build-Conforms}
use gr_digitizers.Doxy.Schema.Built.{
  put_child_text-Built, put_child-Built, put_text_node-Built, put_cdata-Built, build_children-Built,
}

abbrev kind_part : ChildKind → Part
kind_part one_text = text_part
kind_part texts = text_part
kind_part (one_object form c) = object_part c
kind_part (objects c) = object_part c

unfoldable shape_part : Str → List (Str × ChildKind) → Part
unfolding str_eq
shape_part n [] = ignored
shape_part n ((m, kind) ∷ cs) =
    let rest = shape_part n cs in if str_eq n m then kind_part kind else rest

abbrev declared_in : Str → Family → Part
declared_in n (structured_class cs) = shape_part n cs
declared_in n simple_class = ignored
declared_in n markup_class = ignored
declared_in n (mixed_class ps) = mixed_part n ps

-- What the class declares for a child of a name.
unfoldable declared_part : ClassName → Str → Part
unfolding class_of shape_part mixed_part
declared_part c n = declared_in n (class_of c).family

-- Only an attribute that is there is read.
abbrev integral_value : AttributeKind → Option Str → Bool
integral_value kind none = true
integral_value encoded (some s) = true
integral_value quoted (some s) = true
integral_value always (some s) = true
integral_value numeric (some s) = integer s

-- The attributes that the class declares as integers are integers.
unfoldable pub integral : Dict Str → List Attribute → Bool
unfolding integer lookup str_eq
integral attrs [] = true
integral attrs ((key, kind) ∷ xs) = integral_value kind (lookup key attrs) && integral attrs xs

abbrev accepts_child : Part → Dict Str → Doms → (ClassName → Bool) → Bool → Bool
accepts_child ignored attrs ks inside rest = rest
accepts_child text_part attrs ks inside rest = plain_text ks && rest
accepts_child (object_part c) attrs ks inside rest =
    integral attrs (class_of c).attributes && (inside c && rest)

-- A declared text has no element in it, and a declared object is built of what its class accepts.
unfoldable pub accepts : ClassName → Doms → Bool
unfolding declared_part integral plain_text class_of local_name
accepts c nil = true
accepts c (cons (element n attrs ks) kids) =
    accepts_child (declared_part c (local_name n)) attrs ks (λ d. accepts d ks) (accepts c kids)
accepts c (cons (text s) kids) = accepts c kids
accepts c (cons (cdata s) kids) = accepts c kids
accepts c (cons (comment s) kids) = accepts c kids

abbrev pub is_ok : {A : Type 0} → Result A → Bool
is_ok (ok a) = true
is_ok (err e) = false

bind-is_ok :
    {A B : Type 0} (P : A → Type 0) (r : Result A) (f : A → Result B) (b : Bool)
    → OnOk P r
    → ((a : A) → P a → is_ok (f a) ≡ b)
    → is_ok (r >>= f) ≡ (is_ok r && b)
bind-is_ok P (ok a) f b h k = k a h
bind-is_ok P (err e) f b h k = refl

map-is_ok : {A B : Type 0} (r : Result A) (f : A → B) → is_ok (r >>= λ a. ok (f a)) ≡ is_ok r
map-is_ok (ok a) f = refl
map-is_ok (err e) f = refl

field_part-shape : (n : Str) (fs : Fields) → field_part n fs ≡ shape_part n (shape fs)
unfolding field_part shape_part shape
field_part-shape n no_fields = refl
field_part-shape n (text_field m t fs) = rw (field_part-shape n fs)
field_part-shape n (texts_field m t fs) = rw (field_part-shape n fs)
field_part-shape n (unset_field form m c fs) = rw (field_part-shape n fs)
field_part-shape n (object_field form m c o fs) = rw (field_part-shape n fs)
field_part-shape n (objects_field m c os fs) = rw (field_part-shape n fs)

part_of-declared :
    (d : ClassName) (n : Str) (o : Object) → Conforms d o → part_of n o ≡ declared_part d n
unfolding part_of declared_part Conforms
part_of-declared d n (structured c vs fs) (e, k, f, h) =
    field_part-shape n fs ∙ sym (ap (declared_in n) f)
part_of-declared d n (simple c vs s) (e, k, f) = sym (ap (declared_in n) f)
part_of-declared d n (markup c vs s ts) (e, k, f) = sym (ap (declared_in n) f)
part_of-declared d n (mixed c vs is) (e, k, (ps, f, h)) =
    ap (λ x. family_part n (class_of x).family) e
    ∙ ap (family_part n) f
    ∙ sym (ap (declared_in n) f)

text_of-is_ok : (ks : Doms) → is_ok (text_of ks) ≡ plain_text ks
unfolding text_of plain_text
text_of-is_ok nil = refl
text_of-is_ok (cons (element n attrs ks) kids) = refl
text_of-is_ok (cons (text s) kids) = map-is_ok (text_of kids) _ ∙ text_of-is_ok kids
text_of-is_ok (cons (cdata s) kids) = map-is_ok (text_of kids) _ ∙ text_of-is_ok kids
text_of-is_ok (cons (comment s) kids) = map-is_ok (text_of kids) _ ∙ text_of-is_ok kids

read_attribute-is_ok :
    (kind : AttributeKind) (old v : Option Str)
    → is_ok (read_attribute kind old v) ≡ integral_value kind v
unfolding read_attribute int
read_attribute-is_ok kind old none = refl
read_attribute-is_ok encoded old (some s) = refl
read_attribute-is_ok quoted old (some s) = refl
read_attribute-is_ok always old (some s) = refl
read_attribute-is_ok numeric old (some s) = elim (Bool-cases (integer s)) [
  | inl e ↦ rw e
  | inr e ↦ rw e
]

read_attributes-is_ok :
    (attrs : Dict Str) (vs : Values) → is_ok (read_attributes attrs vs) ≡ integral attrs (keys vs)
unfolding read_attributes integral keys
read_attributes-is_ok attrs [] = refl
read_attributes-is_ok attrs (((key, kind), old) ∷ vs) =
    bind-is_ok Always (read_attribute kind old (lookup key attrs)) _ (integral attrs (keys vs))
      (OnOk-Always (read_attribute kind old (lookup key attrs)))
      (λ v _. map-is_ok (read_attributes attrs vs) _ ∙ read_attributes-is_ok attrs vs)
    ∙ ap (λ b. b && integral attrs (keys vs)) (read_attribute-is_ok kind old (lookup key attrs))

begin_build-is_ok :
    (d : ClassName) (attrs : Dict Str) (o : Object)
    → Conforms d o
    → is_ok (begin_build attrs o) ≡ integral attrs (class_of d).attributes
unfolding begin_build Conforms
begin_build-is_ok d attrs (structured c vs fs) (e, k, f, h) =
    map-is_ok (read_attributes attrs vs) _ ∙ read_attributes-is_ok attrs vs ∙ ap (integral attrs) k
begin_build-is_ok d attrs (simple c vs s) (e, k, f) =
    map-is_ok (read_attributes attrs vs) _ ∙ read_attributes-is_ok attrs vs ∙ ap (integral attrs) k
begin_build-is_ok d attrs (markup c vs s ts) (e, k, f) =
    map-is_ok (read_attributes attrs vs) _ ∙ read_attributes-is_ok attrs vs ∙ ap (integral attrs) k
begin_build-is_ok d attrs (mixed c vs is) (e, k, f) =
    map-is_ok (read_attributes attrs vs) _ ∙ read_attributes-is_ok attrs vs ∙ ap (integral attrs) k

-- Whether a block returns on the objects of a class.
abbrev Returns : ClassName → (Object → Result Object) → Bool → Type 0
Returns d f b = (o : Object) → Built d o → is_ok (f o) ≡ b

build_child-is_ok :
    (d : ClassName) (part : Part) (n : Str) (attrs : Dict Str) (ks : Doms)
    → (behind : Object → Result Object) (o : Object) (rest : Bool) → part_of n o ≡ part
    → ((c : ClassName) → Returns c (λ p. build_children ks p) (accepts c ks))
    → Returns d behind rest
    → Built d o
    → is_ok (build_child part n attrs ks (λ p. build_children ks p) behind o)
      ≡ accepts_child part attrs ks (λ c. accepts c ks) rest
unfolding build_child
build_child-is_ok d ignored n attrs ks behind o rest e i b h = b o h
build_child-is_ok d text_part n attrs ks behind o rest e i b h =
    bind-is_ok Always (text_of ks) _ rest (OnOk-Always (text_of ks))
      (λ s _. b _ (put_child_text-Built d n s o e h))
    ∙ ap (λ x. x && rest) (text_of-is_ok ks)
build_child-is_ok d (object_part c) n attrs ks behind o rest e i b h =
    bind-is_ok (Built c) (begin_build attrs (new_object c)) _ (accepts c ks && rest)
      (begin_build-Conforms c attrs (new_object c) (new_object-Conforms c))
      (λ p g.
        bind-is_ok (Built c) (build_children ks p) _ rest (build_children-Built c ks p g)
          (λ q k. b _ (put_child-Built d c n q o e k h))
        ∙ ap (λ x. x && rest) (i c p g))
    ∙ ap (λ x. x && (accepts c ks && rest))
        (begin_build-is_ok c attrs (new_object c) (new_object-Conforms c))

pub build_children-is_ok :
    (d : ClassName) (ks : Doms) (o : Object)
    → Built d o
    → is_ok (build_children ks o) ≡ accepts d ks
unfolding build_children accepts
build_children-is_ok d nil o h = refl
build_children-is_ok d (cons (text s) kids) o h =
    build_children-is_ok d kids _ (put_text_node-Built d s o h)
build_children-is_ok d (cons (cdata s) kids) o h =
    build_children-is_ok d kids _ (put_cdata-Built d s o h)
build_children-is_ok d (cons (comment s) kids) o h = build_children-is_ok d kids o h
build_children-is_ok d (cons (element n attrs ks) kids) o h =
    build_child-is_ok d (part_of (local_name n) o) (local_name n) attrs ks _ o (accepts d kids) refl
      (λ c p g. build_children-is_ok c ks p g) (λ p g. build_children-is_ok d kids p g) h
    ∙ ap (λ part. accepts_child part attrs ks (λ c. accepts c ks) (accepts d kids))
        (part_of-declared d (local_name n) o h.0)

-- The build of an object of a class returns exactly when its integer attributes are integers, every
-- declared text has no element in it, and the same holds in the children that are built.
pub build-accepts :
    (d : ClassName) (attrs : Dict Str) (ks : Doms) (o : Object)
    → Conforms d o
    → is_ok (build_element attrs ks o) ≡ (integral attrs (class_of d).attributes && accepts d ks)
unfolding build_element
build-accepts d attrs ks o h =
    bind-is_ok (Built d) (begin_build attrs o) _ (accepts d ks) (begin_build-Conforms d attrs o h)
      (λ p g. build_children-is_ok d ks p g)
    ∙ ap (λ b. b && accepts d ks) (begin_build-is_ok d attrs o h)
