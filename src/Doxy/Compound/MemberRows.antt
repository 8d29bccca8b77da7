-- ===== src/Doxy/Compound/MemberRows.antt =====
-- What doxyxml reads of a member that is built of a document.
use gr_digitizers.Prelude.{◌≡◌, refl, subst, true, Option, none, some, List, [], map, All}
use gr_digitizers.Prelude.Str.{Str, codes}
use gr_digitizers.Prelude.Dict.{Dict}
use gr_digitizers.Prelude.Result.{Result, ok, err, attribute_error}
use gr_digitizers.Prelude.Exec.{OnOk}
use gr_digitizers.Doxy.Dom.{Doms}
use gr_digitizers.Doxy.Data.{ParseData}
use gr_digitizers.Doxy.Describe
use gr_digitizers.Doxy.Heap.{Param}
use gr_digitizers.Doxy.Fields.{params_of, detail_text}
use gr_digitizers.Doxy.Compound.Rows.{HasName, items_in, last_text, row, params_of-detail_of}
use gr_digitizers.Doxy.Compound
use gr_digitizers.Doxy.Compound.{build_mixed}
use gr_digitizers.Doxy.Compound.Text.{description-build_mixed}
use gr_digitizers.Doxy.Compound.Params.{children_named, last, detail_of}
use gr_digitizers.Doxy.Compound.MemberTotal.{plain_member, member_children-plain}
use gr_digitizers.Doxy.Compound.Member.{new_memberdef, build_memberdef}
use gr_digitizers.Doxy.Compound.MemberLatest.{Latest, some_last, children-Latest, latest-none}

-- The rows of the last detailed description; without one, `None` has no `content_`.
abbrev pub rows_of : Option Doms → Result (List Param)
rows_of none = err attribute_error
rows_of (some ks) = ok (map row (items_in ks))

abbrev pub last_items : Option Doms → List Doms
last_items none = []
last_items (some ks) = items_in ks

abbrev pub last_named : Str → Doms → Option Doms
last_named name kids = last (children_named name kids)

-- What doxyxml reads of a member.
abbrev pub Reads : Doms → ParseData → Type 0
Reads kids m =
    (Describe.description m.brief ≡ ok (last_text (last_named (codes "briefdescription") kids)))
    × (Describe.description (detail_text m.detail)
        ≡ ok (last_text (last_named (codes "detaileddescription") kids)))
    × (params_of m.detail ≡ rows_of (last_named (codes "detaileddescription") kids))

detail_of-last_text :
    (d : Option Doms)
    → Describe.description (detail_text (some_last detail_of d)) ≡ ok (last_text d)
detail_of-last_text none = unfold Describe.description in refl
detail_of-last_text (some ks) = unfold detail_of in description-build_mixed Compound.description ks

brief-last_text :
    (d : Option Doms)
    → Describe.description (some_last (build_mixed Compound.description) d) ≡ ok (last_text d)
brief-last_text none = unfold Describe.description in refl
brief-last_text (some ks) = description-build_mixed Compound.description ks

detail_of-rows_of :
    (d : Option Doms) → All HasName (last_items d) → params_of (some_last detail_of d) ≡ rows_of d
detail_of-rows_of none h = refl
detail_of-rows_of (some ks) h = params_of-detail_of ks h

Latest-Reads :
    (kids : Doms) (old m : ParseData)
    → old.brief ≡ none
    → old.detail ≡ none
    → All HasName (last_items (last_named (codes "detaileddescription") kids))
    → Latest kids old m
    → Reads kids m
Latest-Reads kids old m hb hd h (lb, ld) =
    let briefs = children_named (codes "briefdescription") kids in
    let details = children_named (codes "detaileddescription") kids in
    (
      rw (lb, hb, latest-none (build_mixed Compound.description) briefs)
          (brief-last_text (last briefs)),
      rw (ld, hd, latest-none detail_of details) (detail_of-last_text (last details)),
      rw (ld, hd, latest-none detail_of details) (detail_of-rows_of (last details) h),
    )

-- Where the texts of a member have no elements in them, its integer attributes are integers, and
-- every parameter item of its last detailed description has a name, the member is built, and of it
-- doxyxml reads the text of the last brief and of the last detailed description and the parameters
-- of the latter, or AttributeError for the parameters without one.
pub build_memberdef-Reads :
    (attrs : Dict Str) (kids : Doms)
    → plain_member kids ≡ true
    → All HasName (last_items (last_named (codes "detaileddescription") kids))
    → (m : ParseData) × (build_memberdef attrs kids ≡ ok m) × Reads kids m
unfolding build_memberdef
build_memberdef-Reads attrs kids p h =
    let (m, e) = member_children-plain kids (new_memberdef attrs) p in
    let l =
      subst (OnOk (Latest kids (new_memberdef attrs))) e
        (children-Latest kids (new_memberdef attrs)) in
    (m, e, Latest-Reads kids (new_memberdef attrs) m refl refl h l)
