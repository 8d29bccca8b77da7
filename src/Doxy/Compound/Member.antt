-- ===== src/Doxy/Compound/Member.antt =====
-- How members and their parameters are built of a document: `memberdefType`, `paramType`,
-- `templateparamlistType`, `enumvalueType` and `sectiondefType` of compoundsuper.py, with the attributes
-- that doxyxml looks at. A text with an element in it raises `TypeError`, an attribute that is no integer `ValueError`.
use gr_digitizers.Prelude.{
  ℕ, leb, ◌==◌, ◌&&◌, Bool, true, false, Option, none, some, List, [], ◌∷◌, ◌++◌, if◌then◌else◌,
}
use gr_digitizers.Prelude.Str.{Str, codes, str_eq, member, strip}
use gr_digitizers.Prelude.Dict.{Dict, lookup}
use gr_digitizers.Prelude.Result.{Result, ok, err, value_error, ◌>>=◌}
use gr_digitizers.Doxy.Dom.{element, text, cdata, comment, Doms, nil, cons, local_name, text_of}
use gr_digitizers.Doxy.Data.{ParamData, ParseData}
use gr_digitizers.Doxy.Compound
use gr_digitizers.Doxy.Compound.{build_mixed}
use gr_digitizers.Doxy.Compound.Params.{detail_of}

-- What is done with a child of a parameter; `type` and `defval` are not looked at and cannot raise.
pub data ParamPart : Type 0 where
  param_name param_brief param_text param_other : ParamPart

unfoldable pub param_part : Str → ParamPart
unfolding str_eq
param_part n =
    if str_eq n (codes "declname")
    then param_name
    else if str_eq n (codes "defname")
    then param_text
    else if str_eq n (codes "array")
    then param_text
    else if str_eq n (codes "briefdescription")
    then param_brief
    else param_other

unfoldable pub param_update : ParamPart → Doms → ParamData → Result ParamData
unfolding text_of build_mixed
param_update param_name ks p = text_of ks >>= (λ s. ok (record p { declname = s }))
param_update param_text ks p = text_of ks >>= (λ s. ok p)
param_update param_brief ks p = ok (record p { brief = some (build_mixed Compound.description ks) })
param_update param_other ks p = ok p

unfoldable pub param_children : Doms → ParamData → Result ParamData
unfolding param_part param_update local_name
param_children nil p = ok p
param_children (cons (element n attrs ks) kids) p =
    param_update (param_part (local_name n)) ks p >>= param_children kids
param_children (cons (text s) kids) p = param_children kids p
param_children (cons (cdata s) kids) p = param_children kids p
param_children (cons (comment s) kids) p = param_children kids p

abbrev pub new_param : ParamData
new_param = record { declname = []; brief = none }

unfoldable pub build_param : Doms → Result ParamData
unfolding param_children
build_param ks = param_children ks new_param

abbrev pub checked : {A : Type 0} → Bool → Result A → Result (Unit {0})
checked true (ok a) = ok tt
checked true (err e) = err e
checked false r = ok tt

-- `templateparamlistType.build` and `enumvalueType.build`, of which only an error is seen.
unfoldable pub template_params : Doms → Result (Unit {0})
unfolding build_param str_eq local_name
template_params nil = ok tt
template_params (cons (element n attrs ks) kids) =
    checked (str_eq (local_name n) (codes "param")) (build_param ks) >>= λ u. template_params kids
template_params (cons (text s) kids) = template_params kids
template_params (cons (cdata s) kids) = template_params kids
template_params (cons (comment s) kids) = template_params kids

unfoldable pub enum_value : Doms → Result (Unit {0})
unfolding text_of str_eq local_name
enum_value nil = ok tt
enum_value (cons (element n attrs ks) kids) =
    checked (str_eq (local_name n) (codes "name")) (text_of ks) >>= λ u. enum_value kids
enum_value (cons (text s) kids) = enum_value kids
enum_value (cons (cdata s) kids) = enum_value kids
enum_value (cons (comment s) kids) = enum_value kids

-- `int (s)`: white space, a sign and ASCII digits, or `ValueError`.
abbrev pub is_digit : ℕ → Bool
is_digit c = if leb b'0' c then leb c b'9' else false

unfoldable pub digits : Str → Bool
digits [] = true
digits (c ∷ s) = is_digit c && digits s

abbrev pub unsigned : Str → Bool
unsigned [] = false
unsigned (c ∷ s) = digits (c ∷ s)

abbrev pub signed : Str → Bool
signed [] = false
signed (c ∷ s) =
    if c == b'-' then unsigned s else if c == b'+' then unsigned s else unsigned (c ∷ s)

unfoldable pub integer : Str → Bool
unfolding strip digits
integer s = signed (strip s)

abbrev pub integer_or_missing : Option Str → Bool
integer_or_missing none = true
integer_or_missing (some s) = integer s

-- The attributes that are read as integers.
unfoldable pub integers : List Str → Dict Str → Bool
unfolding lookup str_eq integer
integers [] attrs = true
integers (k ∷ ks) attrs = integer_or_missing (lookup k attrs) && integers ks attrs

abbrev pub value_error_unless : Bool → Result (Unit {0})
value_error_unless true = ok tt
value_error_unless false = err value_error

-- `locationType.buildAttributes` and `referenceType.buildAttributes`
unfoldable pub location_attributes : Dict Str → Bool
unfolding integers
location_attributes = integers (codes "bodystart" ∷ codes "line" ∷ codes "bodyend" ∷ [])

unfoldable pub reference_attributes : Dict Str → Bool
unfolding integers
reference_attributes = integers (codes "endline" ∷ codes "startline" ∷ [])

-- What is done with a child of a member; the others are not looked at and cannot raise.
pub data MemberPart : Type 0 where
  member_brief member_detail member_param member_name : MemberPart
  member_template member_enum member_text member_location member_reference member_other : MemberPart

abbrev pub text_parts : List Str
text_parts =
    codes "definition" ∷ codes "argsstring" ∷ codes "read" ∷ codes "write" ∷ codes "bitfield" ∷ []

unfoldable pub member_part : Str → MemberPart
unfolding str_eq member
member_part n =
    if str_eq n (codes "briefdescription")
    then member_brief
    else if str_eq n (codes "detaileddescription")
    then member_detail
    else if str_eq n (codes "param")
    then member_param
    else if str_eq n (codes "name")
    then member_name
    else if str_eq n (codes "templateparamlist")
    then member_template
    else if str_eq n (codes "enumvalue")
    then member_enum
    else if member n text_parts
    then member_text
    else if str_eq n (codes "location")
    then member_location
    else if str_eq n (codes "references")
    then member_reference
    else if str_eq n (codes "referencedby")
    then member_reference
    else member_other

unfoldable pub member_update : MemberPart → Dict Str → Doms → ParseData → Result ParseData
unfolding text_of build_mixed detail_of build_param template_params enum_value location_attributes
    reference_attributes
member_update member_brief attrs ks m =
    ok (record m { brief = some (build_mixed Compound.description ks) })
member_update member_detail attrs ks m = ok (record m { detail = some (detail_of ks) })
member_update member_param attrs ks m =
    build_param ks >>= λ p. ok (record m { params = m.params ++ (p ∷ []) })
member_update member_name attrs ks m = text_of ks >>= λ s. ok (record m { name = s })
member_update member_template attrs ks m = template_params ks >>= λ u. ok m
member_update member_enum attrs ks m = enum_value ks >>= λ u. ok m
member_update member_text attrs ks m = text_of ks >>= λ s. ok m
member_update member_location attrs ks m =
    value_error_unless (location_attributes attrs) >>= λ u. ok m
member_update member_reference attrs ks m =
    value_error_unless (reference_attributes attrs) >>= λ u. ok m
member_update member_other attrs ks m = ok m

unfoldable pub member_children : Doms → ParseData → Result ParseData
unfolding member_part member_update local_name
member_children nil m = ok m
member_children (cons (element n attrs ks) kids) m =
    member_update (member_part (local_name n)) attrs ks m >>= member_children kids
member_children (cons (text s) kids) m = member_children kids m
member_children (cons (cdata s) kids) m = member_children kids m
member_children (cons (comment s) kids) m = member_children kids m

-- No class takes a missing kind, as none takes an empty one.
abbrev pub kind_or_empty : Option Str → Str
kind_or_empty none = []
kind_or_empty (some k) = k

abbrev pub new_memberdef : Dict Str → ParseData
new_memberdef attrs = record {
  kind = kind_or_empty (lookup (codes "kind") attrs);
  refid = none;
  name = [];
  brief = none;
  detail = none;
  params = [];
}

unfoldable pub build_memberdef : Dict Str → Doms → Result ParseData
unfolding member_children lookup str_eq
build_memberdef attrs kids = member_children kids (new_memberdef attrs)

-- `sectiondefType.build`, for the list of members.
unfoldable pub section_children : Doms → List ParseData → Result (List ParseData)
unfolding build_memberdef text_of str_eq local_name
section_children nil ms = ok ms
section_children (cons (element n attrs ks) kids) ms =
    (if str_eq (local_name n) (codes "header")
      then text_of ks >>= (λ s. ok ms)
      else if str_eq (local_name n) (codes "memberdef")
      then build_memberdef attrs ks >>= (λ m. ok (ms ++ (m ∷ [])))
      else ok ms)
    >>= section_children kids
section_children (cons (text s) kids) ms = section_children kids ms
section_children (cons (cdata s) kids) ms = section_children kids ms
section_children (cons (comment s) kids) ms = section_children kids ms

unfoldable pub build_section : Doms → Result (List ParseData)
unfolding section_children
build_section kids = section_children kids []
