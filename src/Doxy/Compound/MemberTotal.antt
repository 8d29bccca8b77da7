-- ===== src/Doxy/Compound/MemberTotal.antt =====
-- Documents of members whose texts are plain, so that building the member cannot raise.
use gr_digitizers.Prelude.{◌≡◌, refl, Bool, true, false, ◌&&◌, [], ◌++◌}
use gr_digitizers.Prelude.Str.{Str, codes, str_eq}
use gr_digitizers.Prelude.Dict.{Dict}
use gr_digitizers.Prelude.Result.{Result, ok, ◌>>=◌}
use gr_digitizers.Doxy.Dom.{element, text, cdata, comment, Doms, nil, cons, local_name, text_of}
use gr_digitizers.Doxy.Data.{ParamData, ParseData}
use gr_digitizers.Doxy.Compound.Member.{
  ParamPart, param_name, param_brief, param_text, param_other, param_part, param_update,
  param_children, new_param, build_param, checked, template_params, enum_value, MemberPart,
  member_brief, member_detail, member_param, member_name, member_template, member_enum, member_text,
  member_location, member_reference, member_other, value_error_unless, location_attributes,
  reference_attributes, member_part, member_update, member_children,
}

-- No element among the children.
unfoldable pub plain_text : Doms → Bool
plain_text nil = true
plain_text (cons (element n attrs ks) kids) = false
plain_text (cons (text s) kids) = plain_text kids
plain_text (cons (cdata s) kids) = plain_text kids
plain_text (cons (comment s) kids) = plain_text kids

abbrev pub plain_param_part : ParamPart → Doms → Bool
plain_param_part param_name ks = plain_text ks
plain_param_part param_text ks = plain_text ks
plain_param_part param_brief ks = true
plain_param_part param_other ks = true

unfoldable pub plain_param : Doms → Bool
unfolding param_part plain_text local_name
plain_param nil = true
plain_param (cons (element n attrs ks) kids) =
    plain_param_part (param_part (local_name n)) ks && plain_param kids
plain_param (cons (text s) kids) = plain_param kids
plain_param (cons (cdata s) kids) = plain_param kids
plain_param (cons (comment s) kids) = plain_param kids

abbrev pub unless : Bool → Bool → Bool
unless true b = b
unless false b = true

unfoldable pub plain_template : Doms → Bool
unfolding plain_param local_name str_eq
plain_template nil = true
plain_template (cons (element n attrs ks) kids) =
    unless (str_eq (local_name n) (codes "param")) (plain_param ks) && plain_template kids
plain_template (cons (text s) kids) = plain_template kids
plain_template (cons (cdata s) kids) = plain_template kids
plain_template (cons (comment s) kids) = plain_template kids

unfoldable pub plain_enum : Doms → Bool
unfolding plain_text local_name str_eq
plain_enum nil = true
plain_enum (cons (element n attrs ks) kids) =
    unless (str_eq (local_name n) (codes "name")) (plain_text ks) && plain_enum kids
plain_enum (cons (text s) kids) = plain_enum kids
plain_enum (cons (cdata s) kids) = plain_enum kids
plain_enum (cons (comment s) kids) = plain_enum kids

abbrev pub plain_part : MemberPart → Dict Str → Doms → Bool
plain_part member_brief attrs ks = true
plain_part member_detail attrs ks = true
plain_part member_param attrs ks = plain_param ks
plain_part member_name attrs ks = plain_text ks
plain_part member_template attrs ks = plain_template ks
plain_part member_enum attrs ks = plain_enum ks
plain_part member_text attrs ks = plain_text ks
plain_part member_location attrs ks = location_attributes attrs
plain_part member_reference attrs ks = reference_attributes attrs
plain_part member_other attrs ks = true

unfoldable pub plain_member : Doms → Bool
unfolding member_part plain_text plain_param plain_template plain_enum local_name
plain_member nil = true
plain_member (cons (element n attrs ks) kids) =
    plain_part (member_part (local_name n)) attrs ks && plain_member kids
plain_member (cons (text s) kids) = plain_member kids
plain_member (cons (cdata s) kids) = plain_member kids
plain_member (cons (comment s) kids) = plain_member kids

abbrev Returns : {A : Type 0} → Result A → Type 0
Returns r = (a : _) × (r ≡ ok a)

bind-Returns :
    {A B : Type 0} (r : Result A) (f : A → Result B)
    → Returns r
    → ((a : A) → Returns (f a))
    → Returns (r >>= f)
bind-Returns r f (a, e) k = rw e (k a)

and_true_both : (a b : Bool) → (a && b) ≡ true → (a ≡ true) × (b ≡ true)
and_true_both true b h = (refl, h)
and_true_both false b h = cc

text_of-plain : (ks : Doms) → plain_text ks ≡ true → Returns (text_of ks)
unfolding plain_text text_of
text_of-plain nil h = ([], refl)
text_of-plain (cons (element n attrs ks) kids) h = cc
text_of-plain (cons (text s) kids) h = let (t, e) = text_of-plain kids h in (s ++ t, rw e)
text_of-plain (cons (cdata s) kids) h = let (t, e) = text_of-plain kids h in (s ++ t, rw e)
text_of-plain (cons (comment s) kids) h = let (t, e) = text_of-plain kids h in (s ++ t, rw e)

param_update-plain :
    (part : ParamPart) (ks : Doms) (p : ParamData)
    → plain_param_part part ks ≡ true
    → Returns (param_update part ks p)
unfolding param_update
param_update-plain param_name ks p h =
    bind-Returns (text_of ks) _ (text_of-plain ks h) (λ s. (_, refl))
param_update-plain param_text ks p h =
    bind-Returns (text_of ks) _ (text_of-plain ks h) (λ s. (_, refl))
param_update-plain param_brief ks p h = (_, refl)
param_update-plain param_other ks p h = (_, refl)

param_children-plain :
    (kids : Doms) (p : ParamData) → plain_param kids ≡ true → Returns (param_children kids p)
unfolding plain_param param_children
param_children-plain nil p h = (p, refl)
param_children-plain (cons (element n attrs ks) kids) p h =
    let (a, b) = and_true_both _ _ h in
    bind-Returns (param_update (param_part (local_name n)) ks p) (param_children kids)
      (param_update-plain (param_part (local_name n)) ks p a) (λ q. param_children-plain kids q b)
param_children-plain (cons (text s) kids) p h = param_children-plain kids p h
param_children-plain (cons (cdata s) kids) p h = param_children-plain kids p h
param_children-plain (cons (comment s) kids) p h = param_children-plain kids p h

checked-plain :
    {A : Type 0} (b : Bool) (r : Result A) (c : Bool)
    → unless b c ≡ true
    → (c ≡ true → Returns r)
    → Returns (checked b r)
checked-plain true r c h k = let (a, e) = k h in (tt, rw e)
checked-plain false r c h k = (tt, refl)

template_params-plain : (kids : Doms) → plain_template kids ≡ true → Returns (template_params kids)
unfolding plain_template template_params build_param
template_params-plain nil h = (tt, refl)
template_params-plain (cons (element n attrs ks) kids) h =
    let (a, b) = and_true_both _ _ h in
    bind-Returns (checked (str_eq (local_name n) (codes "param")) (build_param ks)) _
      (checked-plain _ (build_param ks) (plain_param ks) a (param_children-plain ks new_param))
      (λ u. template_params-plain kids b)
template_params-plain (cons (text s) kids) h = template_params-plain kids h
template_params-plain (cons (cdata s) kids) h = template_params-plain kids h
template_params-plain (cons (comment s) kids) h = template_params-plain kids h

enum_value-plain : (kids : Doms) → plain_enum kids ≡ true → Returns (enum_value kids)
unfolding plain_enum enum_value
enum_value-plain nil h = (tt, refl)
enum_value-plain (cons (element n attrs ks) kids) h =
    let (a, b) = and_true_both _ _ h in
    bind-Returns (checked (str_eq (local_name n) (codes "name")) (text_of ks)) _
      (checked-plain _ (text_of ks) (plain_text ks) a (text_of-plain ks))
      (λ u. enum_value-plain kids b)
enum_value-plain (cons (text s) kids) h = enum_value-plain kids h
enum_value-plain (cons (cdata s) kids) h = enum_value-plain kids h
enum_value-plain (cons (comment s) kids) h = enum_value-plain kids h

member_update-plain :
    (part : MemberPart) (attrs : Dict Str) (ks : Doms) (m : ParseData)
    → plain_part part attrs ks ≡ true
    → Returns (member_update part attrs ks m)
unfolding member_update build_param
member_update-plain member_brief attrs ks m h = (_, refl)
member_update-plain member_detail attrs ks m h = (_, refl)
member_update-plain member_param attrs ks m h =
    bind-Returns (build_param ks) _ (param_children-plain ks new_param h) (λ p. (_, refl))
member_update-plain member_name attrs ks m h =
    bind-Returns (text_of ks) _ (text_of-plain ks h) (λ s. (_, refl))
member_update-plain member_template attrs ks m h =
    bind-Returns (template_params ks) _ (template_params-plain ks h) (λ u. (_, refl))
member_update-plain member_enum attrs ks m h =
    bind-Returns (enum_value ks) _ (enum_value-plain ks h) (λ u. (_, refl))
member_update-plain member_text attrs ks m h =
    bind-Returns (text_of ks) _ (text_of-plain ks h) (λ s. (_, refl))
member_update-plain member_location attrs ks m h =
    bind-Returns (value_error_unless (location_attributes attrs)) _ (rw h (tt, refl))
      (λ u. (_, refl))
member_update-plain member_reference attrs ks m h =
    bind-Returns (value_error_unless (reference_attributes attrs)) _ (rw h (tt, refl))
      (λ u. (_, refl))
member_update-plain member_other attrs ks m h = (_, refl)

pub member_children-plain :
    (kids : Doms) (m : ParseData)
    → plain_member kids ≡ true
    → (d : ParseData) × (member_children kids m ≡ ok d)
unfolding plain_member member_children
member_children-plain nil m h = (m, refl)
member_children-plain (cons (element n attrs ks) kids) m h =
    let (a, b) = and_true_both _ _ h in
    bind-Returns (member_update (member_part (local_name n)) attrs ks m) (member_children kids)
      (member_update-plain (member_part (local_name n)) attrs ks m a)
      (λ q. member_children-plain kids q b)
member_children-plain (cons (text s) kids) m h = member_children-plain kids m h
member_children-plain (cons (cdata s) kids) m h = member_children-plain kids m h
member_children-plain (cons (comment s) kids) m h = member_children-plain kids m h
