-- ===== src/Doxy/Schema/Access.antt =====
-- The accessors of the generated classes that `build` does not call: `get_`, `set_` and `insert_`.
use gr_digitizers.Prelude.{ℕ, zero, suc, ◌≡◌, refl, Option, none, some, [], ◌∷◌, if◌then◌else◌}
use gr_digitizers.Prelude.Str.{Str, codes, str_eq}
use gr_digitizers.Prelude.Result.{Result, ok, err, attribute_error, index_error, ◌>>=◌}
use gr_digitizers.Doxy.Index.{insert_at}
use gr_digitizers.Doxy.Schema.{quoted, encoded}
use gr_digitizers.Doxy.Schema.Object.{
  Values, Object, Fields, no_fields, text_field, texts_field, unset_field, object_field,
  objects_field, Objects, no_objects, and_object,
}

-- `get_x` of an attribute; an object without it raises `AttributeError`.
unfoldable pub get_attribute : Str → Values → Result (Option Str)
unfolding str_eq
get_attribute n [] = err attribute_error
get_attribute n (((key, kind), v) ∷ vs) =
    let rest = get_attribute n vs in if str_eq n key then ok v else rest

-- `set_x` of an attribute
unfoldable pub set_attribute : Str → Option Str → Values → Values
unfolding str_eq
set_attribute n w [] = []
set_attribute n w (((key, kind), v) ∷ vs) =
    let rest = set_attribute n w vs in
    if str_eq n key then ((key, kind), w) ∷ vs else ((key, kind), v) ∷ rest

-- `insert_x` of a list of texts: an assignment to an index
unfoldable pub insert_text : Str → ℕ → Str → Fields → Result Fields
unfolding str_eq insert_at
insert_text n i s no_fields = err attribute_error
insert_text n i s (text_field m t fs) = insert_text n i s fs >>= λ gs. ok (text_field m t gs)
insert_text n i s (texts_field m ts fs) =
    let rest = insert_text n i s fs in
    if str_eq n m
    then insert_at i s ts >>= (λ us. ok (texts_field m us fs))
    else rest >>= (λ gs. ok (texts_field m ts gs))
insert_text n i s (unset_field form m c fs) =
    insert_text n i s fs >>= λ gs. ok (unset_field form m c gs)
insert_text n i s (object_field form m c o fs) =
    insert_text n i s fs >>= λ gs. ok (object_field form m c o gs)
insert_text n i s (objects_field m c os fs) =
    insert_text n i s fs >>= λ gs. ok (objects_field m c os gs)

unfoldable pub insert_in : ℕ → Object → Objects → Result Objects
insert_in i o no_objects = err index_error
insert_in zero o (and_object p os) = ok (and_object o os)
insert_in (suc i) o (and_object p os) = insert_in i o os >>= λ qs. ok (and_object p qs)

-- `insert_x` of a list of objects
unfoldable pub insert_object : Str → ℕ → Object → Fields → Result Fields
unfolding str_eq insert_in
insert_object n i o no_fields = err attribute_error
insert_object n i o (text_field m t fs) = insert_object n i o fs >>= λ gs. ok (text_field m t gs)
insert_object n i o (texts_field m ts fs) =
    insert_object n i o fs >>= λ gs. ok (texts_field m ts gs)
insert_object n i o (unset_field form m c fs) =
    insert_object n i o fs >>= λ gs. ok (unset_field form m c gs)
insert_object n i o (object_field form m c p fs) =
    insert_object n i o fs >>= λ gs. ok (object_field form m c p gs)
insert_object n i o (objects_field m c os fs) =
    let rest = insert_object n i o fs in
    if str_eq n m
    then insert_in i o os >>= (λ qs. ok (objects_field m c qs fs))
    else rest >>= (λ gs. ok (objects_field m c os gs))

-- An attribute that is set is read back, and one that a class lacks is not.
abbrev sample_values : Values
sample_values = ((codes "kind", quoted), none) ∷ ((codes "id", encoded), none) ∷ []

set_read :
    get_attribute (codes "id") (set_attribute (codes "id") (some (codes "c1")) sample_values)
    ≡ ok (some (codes "c1"))
unfolding get_attribute set_attribute
set_read = refl

-- What is inserted replaces what was there.
inserted :
    insert_text
      (codes "edgelabel")
      zero
      (codes "new")
      (texts_field (codes "edgelabel") (codes "old" ∷ codes "more" ∷ []) no_fields)
    ≡ ok (texts_field (codes "edgelabel") (codes "new" ∷ codes "more" ∷ []) no_fields)
unfolding insert_text
inserted = refl
