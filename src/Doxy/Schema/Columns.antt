-- ===== src/Doxy/Schema/Columns.antt =====
-- What the fields of an object hold after `build`, each by the children of its name alone.
use gr_digitizers.Prelude.{
  ◌≡◌, refl, sym, true, false, Bool-cases, inl, inr, Option, none, some, List, [], ◌∷◌, ◌++◌,
  if◌then◌else◌,
}
use gr_digitizers.Prelude.Str.{Str, str_eq, str_eq_iff}
use gr_digitizers.Prelude.Dict.{Dict}
use gr_digitizers.Prelude.Result.{Result, ok, ◌>>=◌}
use gr_digitizers.Doxy.Dom.{element, text, cdata, comment, Doms, nil, cons, local_name, text_of}
use gr_digitizers.Doxy.Schema.{ClassName}
use gr_digitizers.Doxy.Schema.Object.{
  Object, structured, simple, markup, mixed, Fields, no_fields, text_field, texts_field,
  unset_field, object_field, objects_field, Objects, no_objects, and_object, new_object, Part,
  ignored, text_part, object_part, field_part, add_object, put_text, put_object,
}
use gr_digitizers.Doxy.Schema.Build.{build_element}

-- What `get_x` gives.
pub data Slot : Type 0 where
  no_slot : Slot
  text_slot : Option Str → Slot
  texts_slot : List Str → Slot
  object_slot : ClassName → Option Object → Slot
  objects_slot : ClassName → List Object → Slot

unfoldable pub object_list : Objects → List Object
object_list no_objects = []
object_list (and_object o os) = o ∷ object_list os

-- `get_x`, for the field of a name
unfoldable pub get_field : Str → Fields → Slot
unfolding str_eq object_list
get_field n no_fields = no_slot
get_field n (text_field m t fs) =
    let rest = get_field n fs in if str_eq n m then text_slot t else rest
get_field n (texts_field m ts fs) =
    let rest = get_field n fs in if str_eq n m then texts_slot ts else rest
get_field n (unset_field form m c fs) =
    let rest = get_field n fs in if str_eq n m then object_slot c none else rest
get_field n (object_field form m c o fs) =
    let rest = get_field n fs in if str_eq n m then object_slot c (some o) else rest
get_field n (objects_field m c os fs) =
    let rest = get_field n fs in if str_eq n m then objects_slot c (object_list os) else rest

abbrev pub get_of : Str → Object → Slot
get_of n (structured c vs fs) = get_field n fs
get_of n (simple c vs s) = no_slot
get_of n (markup c vs s ts) = no_slot
get_of n (mixed c vs is) = no_slot

-- What the elements of a name are read as, in the order of the document.
unfoldable pub read_named :
    {A : Type 0} → (Dict Str → Doms → Result A) → Str → Doms → Result (List A)
unfolding str_eq local_name
read_named read n nil = ok []
read_named read n (cons (element m attrs ks) kids) =
    let rest = read_named read n kids in
    if str_eq n (local_name m) then read attrs ks >>= (λ a. rest >>= λ xs. ok (a ∷ xs)) else rest
read_named read n (cons (text s) kids) = read_named read n kids
read_named read n (cons (cdata s) kids) = read_named read n kids
read_named read n (cons (comment s) kids) = read_named read n kids

-- The last of a list, or what was there before.
abbrev pub last_or : {A : Type 0} → Option A → List A → Option A
last_or x [] = x
last_or x (a ∷ xs) = last_or (some a) xs

-- What the children leave in a field: the last text or object, or one more of each.
unfoldable pub read_slot : Slot → Str → Doms → Result Slot
unfolding read_named text_of build_element new_object
read_slot no_slot n ks = ok no_slot
read_slot (text_slot t) n ks =
    read_named (λ attrs ks. text_of ks) n ks >>= λ ts. ok (text_slot (last_or t ts))
read_slot (texts_slot ts) n ks =
    read_named (λ attrs ks. text_of ks) n ks >>= λ us. ok (texts_slot (ts ++ us))
read_slot (object_slot c x) n ks =
    read_named (λ attrs ks. build_element attrs ks (new_object c)) n ks >>= λ os.
    ok (object_slot c (last_or x os))
read_slot (objects_slot c os) n ks =
    read_named (λ attrs ks. build_element attrs ks (new_object c)) n ks >>= λ ps.
    ok (objects_slot c (os ++ ps))

unfoldable pub slot_part : Slot → Part
slot_part no_slot = ignored
slot_part (text_slot t) = text_part
slot_part (texts_slot ts) = text_part
slot_part (object_slot c x) = object_part c
slot_part (objects_slot c os) = object_part c

pub slot_part-get_field : (n : Str) (fs : Fields) → field_part n fs ≡ slot_part (get_field n fs)
unfolding field_part get_field slot_part
slot_part-get_field n no_fields = refl
slot_part-get_field n (text_field m t fs) = elim (Bool-cases (str_eq n m)) [
  | inl e ↦ rw e
  | inr e ↦ rw e (slot_part-get_field n fs)
]
slot_part-get_field n (texts_field m ts fs) = elim (Bool-cases (str_eq n m)) [
  | inl e ↦ rw e
  | inr e ↦ rw e (slot_part-get_field n fs)
]
slot_part-get_field n (unset_field form m c fs) = elim (Bool-cases (str_eq n m)) [
  | inl e ↦ rw e
  | inr e ↦ rw e (slot_part-get_field n fs)
]
slot_part-get_field n (object_field form m c o fs) = elim (Bool-cases (str_eq n m)) [
  | inl e ↦ rw e
  | inr e ↦ rw e (slot_part-get_field n fs)
]
slot_part-get_field n (objects_field m c os fs) = elim (Bool-cases (str_eq n m)) [
  | inl e ↦ rw e
  | inr e ↦ rw e (slot_part-get_field n fs)
]

object_list-add_object :
    (o : Object) (os : Objects) → object_list (add_object o os) ≡ object_list os ++ (o ∷ [])
unfolding object_list add_object
object_list-add_object o no_objects = refl
object_list-add_object o (and_object p os) = rw (object_list-add_object o os)

-- What a text or an object for a name makes of a field.
unfoldable pub with_text : Str → Slot → Slot
with_text s (text_slot t) = text_slot (some s)
with_text s (texts_slot ts) = texts_slot (ts ++ (s ∷ []))
with_text s no_slot = no_slot
with_text s (object_slot c x) = object_slot c x
with_text s (objects_slot c os) = objects_slot c os

unfoldable pub with_object : Object → Slot → Slot
with_object o (object_slot c x) = object_slot c (some o)
with_object o (objects_slot c os) = objects_slot c (os ++ (o ∷ []))
with_object o no_slot = no_slot
with_object o (text_slot t) = text_slot t
with_object o (texts_slot ts) = texts_slot ts

-- The tests of two names against a third
names_apart : (n m k : Str) → str_eq n m ≡ false → str_eq m k ≡ true → str_eq n k ≡ false
names_apart n m k h e = rw (sym ((str_eq_iff m k).0 e)) h

pub get_field-put_text :
    (n s : Str) (fs : Fields) → get_field n (put_text n s fs) ≡ with_text s (get_field n fs)
unfolding get_field put_text with_text
get_field-put_text n s no_fields = refl
get_field-put_text n s (text_field m t fs) = elim (Bool-cases (str_eq n m)) [
  | inl e ↦ rw (e, e)
  | inr e ↦ rw (e, e, get_field-put_text n s fs)
]
get_field-put_text n s (texts_field m ts fs) = elim (Bool-cases (str_eq n m)) [
  | inl e ↦ rw (e, e)
  | inr e ↦ rw (e, e, get_field-put_text n s fs)
]
get_field-put_text n s (unset_field form m c fs) = elim (Bool-cases (str_eq n m)) [
  | inl e ↦ rw e
  | inr e ↦ rw (e, get_field-put_text n s fs)
]
get_field-put_text n s (object_field form m c o fs) = elim (Bool-cases (str_eq n m)) [
  | inl e ↦ rw e
  | inr e ↦ rw (e, get_field-put_text n s fs)
]
get_field-put_text n s (objects_field m c os fs) = elim (Bool-cases (str_eq n m)) [
  | inl e ↦ rw e
  | inr e ↦ rw (e, get_field-put_text n s fs)
]

pub get_field-put_object :
    (n : Str) (o : Object) (fs : Fields)
    → get_field n (put_object n o fs) ≡ with_object o (get_field n fs)
unfolding get_field put_object with_object
get_field-put_object n o no_fields = refl
get_field-put_object n o (text_field m t fs) = elim (Bool-cases (str_eq n m)) [
  | inl e ↦ rw e
  | inr e ↦ rw (e, get_field-put_object n o fs)
]
get_field-put_object n o (texts_field m ts fs) = elim (Bool-cases (str_eq n m)) [
  | inl e ↦ rw e
  | inr e ↦ rw (e, get_field-put_object n o fs)
]
get_field-put_object n o (unset_field form m c fs) = elim (Bool-cases (str_eq n m)) [
  | inl e ↦ rw (e, e)
  | inr e ↦ rw (e, e, get_field-put_object n o fs)
]
get_field-put_object n o (object_field form m c p fs) = elim (Bool-cases (str_eq n m)) [
  | inl e ↦ rw (e, e)
  | inr e ↦ rw (e, e, get_field-put_object n o fs)
]
get_field-put_object n o (objects_field m c os fs) = elim (Bool-cases (str_eq n m)) [
  | inl e ↦ rw (e, e, object_list-add_object o os)
  | inr e ↦ rw (e, e, get_field-put_object n o fs)
]

pub get_field-put_text_other :
    (n m s : Str) (fs : Fields)
    → str_eq n m ≡ false
    → get_field n (put_text m s fs) ≡ get_field n fs
unfolding get_field put_text
get_field-put_text_other n m s no_fields h = refl
get_field-put_text_other n m s (text_field k t fs) h = elim (Bool-cases (str_eq m k)) [
  | inl e ↦ rw (e, names_apart n m k h e)
  | inr e ↦ rw (e, get_field-put_text_other n m s fs h)
]
get_field-put_text_other n m s (texts_field k ts fs) h = elim (Bool-cases (str_eq m k)) [
  | inl e ↦ rw (e, names_apart n m k h e)
  | inr e ↦ rw (e, get_field-put_text_other n m s fs h)
]
get_field-put_text_other n m s (unset_field form k c fs) h =
    rw (get_field-put_text_other n m s fs h)
get_field-put_text_other n m s (object_field form k c o fs) h =
    rw (get_field-put_text_other n m s fs h)
get_field-put_text_other n m s (objects_field k c os fs) h =
    rw (get_field-put_text_other n m s fs h)

pub get_field-put_object_other :
    (n m : Str) (o : Object) (fs : Fields)
    → str_eq n m ≡ false
    → get_field n (put_object m o fs) ≡ get_field n fs
unfolding get_field put_object
get_field-put_object_other n m o no_fields h = refl
get_field-put_object_other n m o (text_field k t fs) h = rw (get_field-put_object_other n m o fs h)
get_field-put_object_other n m o (texts_field k ts fs) h =
    rw (get_field-put_object_other n m o fs h)
get_field-put_object_other n m o (unset_field form k c fs) h = elim (Bool-cases (str_eq m k)) [
  | inl e ↦ rw (e, names_apart n m k h e)
  | inr e ↦ rw (e, get_field-put_object_other n m o fs h)
]
get_field-put_object_other n m o (object_field form k c p fs) h = elim (Bool-cases (str_eq m k)) [
  | inl e ↦ rw (e, names_apart n m k h e)
  | inr e ↦ rw (e, get_field-put_object_other n m o fs h)
]
get_field-put_object_other n m o (objects_field k c os fs) h = elim (Bool-cases (str_eq m k)) [
  | inl e ↦ rw (e, names_apart n m k h e)
  | inr e ↦ rw (e, get_field-put_object_other n m o fs h)
]
