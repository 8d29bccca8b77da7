-- ===== src/Doxy/Compound/MemberLatest.antt =====
-- The descriptions that a member has after the build: the last ones.
use gr_digitizers.Prelude.{
  ◌≡◌, refl, Bool, true, false, Option, none, some, List, [], ◌∷◌, if◌then◌else◌, Bool-cases, inl,
  inr, arith,
}
use gr_digitizers.Prelude.Str.{Str, codes, str_eq, str_eq_iff}
use gr_digitizers.Prelude.Dict.{Dict}
use gr_digitizers.Prelude.Exec.{OnOk, Always, OnOk-Always, result-OnOk, OnOk-map}
use gr_digitizers.Doxy.Dom.{element, text, cdata, comment, Doms, nil, cons, local_name, text_of}
use gr_digitizers.Doxy.Data.{ParseData}
use gr_digitizers.Doxy.Compound
use gr_digitizers.Doxy.Compound.{build_mixed}
use gr_digitizers.Doxy.Compound.Params.{children_named, last, detail_of}
use gr_digitizers.Doxy.Compound.Member.{
  build_param, MemberPart, member_brief, member_detail, member_param, member_name, member_template,
  member_enum, member_text, member_location, member_reference, member_other, value_error_unless,
  location_attributes, reference_attributes, member_part, member_update, member_children,
  template_params, enum_value,
}

abbrev is_brief : MemberPart → Bool
is_brief member_brief = true
is_brief member_detail = false
is_brief member_param = false
is_brief member_name = false
is_brief member_template = false
is_brief member_enum = false
is_brief member_text = false
is_brief member_location = false
is_brief member_reference = false
is_brief member_other = false

member_part-is_brief : (n : Str) → is_brief (member_part n) ≡ str_eq n (codes "briefdescription")
unfolding member_part
member_part-is_brief n = ground arith

abbrev is_detail : MemberPart → Bool
is_detail member_brief = false
is_detail member_detail = true
is_detail member_param = false
is_detail member_name = false
is_detail member_template = false
is_detail member_enum = false
is_detail member_text = false
is_detail member_location = false
is_detail member_reference = false
is_detail member_other = false

member_part-is_detail :
    (n : Str) → is_detail (member_part n) ≡ str_eq n (codes "detaileddescription")
member_part-is_detail n = elim (Bool-cases (str_eq n (codes "briefdescription"))) [
  | inl e ↦ rw ((str_eq_iff n (codes "briefdescription")).0 e) (unfold member_part str_eq in refl)
  | inr e ↦ unfold member_part in ground arith
]

-- What a child of each sort leaves of the descriptions.
abbrev Updated : MemberPart → Doms → ParseData → ParseData → Type 0
Updated part ks m q =
    (q.brief ≡ (if is_brief part then some (build_mixed Compound.description ks) else m.brief))
    × (q.detail ≡ (if is_detail part then some (detail_of ks) else m.detail))

update-Updated :
    (part : MemberPart) (attrs : Dict Str) (ks : Doms) (m : ParseData)
    → OnOk (Updated part ks m) (member_update part attrs ks m)
unfolding member_update
update-Updated member_brief attrs ks m = (refl, refl)
update-Updated member_detail attrs ks m = (refl, refl)
update-Updated member_param attrs ks m =
    result-OnOk Always (Updated member_param ks m) (build_param ks) _ (OnOk-Always (build_param ks))
      (λ p u. (refl, refl))
update-Updated member_name attrs ks m =
    result-OnOk Always (Updated member_name ks m) (text_of ks) _ (OnOk-Always (text_of ks))
      (λ s u. (refl, refl))
update-Updated member_template attrs ks m =
    result-OnOk Always (Updated member_template ks m) (template_params ks) _
      (OnOk-Always (template_params ks)) (λ s u. (refl, refl))
update-Updated member_enum attrs ks m =
    result-OnOk Always (Updated member_enum ks m) (enum_value ks) _ (OnOk-Always (enum_value ks))
      (λ s u. (refl, refl))
update-Updated member_text attrs ks m =
    result-OnOk Always (Updated member_text ks m) (text_of ks) _ (OnOk-Always (text_of ks))
      (λ s u. (refl, refl))
update-Updated member_location attrs ks m =
    result-OnOk Always (Updated member_location ks m)
      (value_error_unless (location_attributes attrs)) _
      (OnOk-Always (value_error_unless (location_attributes attrs))) (λ s u. (refl, refl))
update-Updated member_reference attrs ks m =
    result-OnOk Always (Updated member_reference ks m)
      (value_error_unless (reference_attributes attrs)) _
      (OnOk-Always (value_error_unless (reference_attributes attrs))) (λ s u. (refl, refl))
update-Updated member_other attrs ks m = (refl, refl)

-- The last of several, or what was there.
abbrev pub latest : {A : Type 0} → (Doms → A) → List Doms → Option A → Option A
latest f [] old = old
latest f (k ∷ ks) old = latest f ks (some (f k))

abbrev pub Latest : Doms → ParseData → ParseData → Type 0
Latest kids m q =
    (q.brief
      ≡ latest (build_mixed Compound.description) (children_named (codes "briefdescription") kids)
          m.brief)
    × (q.detail ≡ latest detail_of (children_named (codes "detaileddescription") kids) m.detail)

latest-step :
    {A : Type 0} (f : Doms → A) (b : Bool) (k : Doms) (ks : List Doms) (old : Option A)
    → latest f (if b then k ∷ ks else ks) old ≡ latest f ks (if b then some (f k) else old)
latest-step f true k ks old = refl
latest-step f false k ks old = refl

step-Latest :
    (n : Str) (attrs : Dict Str) (ks kids : Doms) (m q d : ParseData)
    → Updated (member_part (local_name n)) ks m q
    → Latest kids q d
    → Latest (cons (element n attrs ks) kids) m d
unfolding children_named
step-Latest n attrs ks kids m q d (hb, hd) (lb, ld) =
    let briefs = children_named (codes "briefdescription") kids in
    let details = children_named (codes "detaileddescription") kids in
    (
      rw (
        latest-step (build_mixed Compound.description)
            (str_eq (local_name n) (codes "briefdescription")) ks briefs m.brief,
        lb,
        hb,
        member_part-is_brief (local_name n),
      ),
      rw (
        latest-step detail_of (str_eq (local_name n) (codes "detaileddescription")) ks details
            m.detail,
        ld,
        hd,
        member_part-is_detail (local_name n),
      ),
    )

pub children-Latest : (kids : Doms) (m : ParseData) → OnOk (Latest kids m) (member_children kids m)
unfolding member_children children_named
children-Latest nil m = (refl, refl)
children-Latest (cons (element n attrs ks) kids) m =
    result-OnOk (Updated (member_part (local_name n)) ks m)
      (Latest (cons (element n attrs ks) kids) m)
      (member_update (member_part (local_name n)) attrs ks m) (member_children kids)
      (update-Updated (member_part (local_name n)) attrs ks m)
      (λ q h.
        OnOk-map (Latest kids q) (Latest (cons (element n attrs ks) kids) m)
          (member_children kids q) (λ d l. step-Latest n attrs ks kids m q d h l)
          (children-Latest kids q))
children-Latest (cons (text s) kids) m = children-Latest kids m
children-Latest (cons (cdata s) kids) m = children-Latest kids m
children-Latest (cons (comment s) kids) m = children-Latest kids m

abbrev pub some_last : {A : Type 0} → (Doms → A) → Option Doms → Option A
some_last f none = none
some_last f (some k) = some (f k)

latest-last :
    {A : Type 0} (f : Doms → A) (k : Doms) (ks : List Doms) (old : Option A)
    → latest f (k ∷ ks) old ≡ some_last f (last (k ∷ ks))
unfolding last
latest-last f k [] old = refl
latest-last f k (j ∷ ks) old = latest-last f j ks (some (f k))

pub latest-none :
    {A : Type 0} (f : Doms → A) (ks : List Doms) → latest f ks none ≡ some_last f (last ks)
latest-none f [] = unfold last in refl
latest-none f (k ∷ ks) = latest-last f k ks none
