-- ===== src/Doxy/Compound/Tests.antt =====
-- A description with a title, a paragraph and a section, and what is built of it.
use gr_digitizers.Prelude.{◌≡◌, refl, true, [], ◌∷◌, All, map, some}
use gr_digitizers.Prelude.Str.{Str, codes, strip, str_eq}
use gr_digitizers.Prelude.Result.{ok}
use gr_digitizers.Doxy.Dom.{element, text, Doms, nil, cons, local_name}
use gr_digitizers.Doxy.Describe.{description}
use gr_digitizers.Doxy.Compound
use gr_digitizers.Doxy.Compound.{branch, build_mixed}
use gr_digitizers.Doxy.Fields.{params_of}
use gr_digitizers.Doxy.Compound.Params.{children_named, last, detail_of}
use gr_digitizers.Doxy.Compound.Rows.{flat_map, items_in, HasName, row, params_of-detail_of}
use gr_digitizers.Doxy.Data.{ParseData}
use gr_digitizers.Doxy.Compound.Member.{build_memberdef, member_part, location_attributes}
use gr_digitizers.Doxy.Compound.MemberTotal.{plain_member, plain_text}
use gr_digitizers.Doxy.Compound.MemberRows.{last_items, last_named, Reads, build_memberdef-Reads}
use gr_digitizers.Prelude.Exec.{OnOk}
use gr_digitizers.Doxy.Compound.Definition.{new_definition, build_definition}
use gr_digitizers.Doxy.Compound.Sections.{Placed, build_definition-Placed}
use gr_digitizers.Doxy.Compound.Text.{own_text, para_text, visible, description-build_mixed}

-- Bold text is lost.
abbrev sample_para : Doms
sample_para = cons (text (codes "See ")) (
    cons (element (codes "ref") [] (cons (text (codes "fir")) nil))
      (cons (element (codes "bold") [] (cons (text (codes "now")) nil)) nil))

abbrev sample_description : Doms
sample_description = cons (text (codes "\n")) (
    cons (element (codes "para") [] sample_para) (
      cons
        (element (codes "sect1") []
          (cons (element (codes "para") [] (cons (text (codes "x")) nil)) nil))
        nil))

sample_visible : visible Compound.description sample_description ≡ codes "\nSee fir\n\nx\n\n"
unfolding visible own_text para_text branch local_name str_eq
sample_visible = refl

description-build_mixed_example :
    description (some (build_mixed Compound.description sample_description))
    ≡ ok (some (strip (visible Compound.description sample_description)))
description-build_mixed_example = description-build_mixed Compound.description sample_description

abbrev within : Str → Doms → Doms
within n ks = cons (element n [] ks) nil

-- A paragraph with a list of one parameter.
abbrev sample_params : Doms
sample_params = within (codes "para") (
    within (codes "parameterlist") (
      within (codes "parameteritem") (
        cons
          (element (codes "parameternamelist") []
            (within (codes "parametername") (cons (text (codes "gain")) nil)))
          (within (codes "parameterdescription")
            (within (codes "para") (cons (text (codes " the gain ")) nil))))))

sample_params-HasName : All HasName (items_in sample_params)
unfolding children_named flat_map str_eq local_name
sample_params-HasName = (λ e. cc, tt)

params_of-detail_of_example :
    params_of (some (detail_of sample_params)) ≡ ok (map row (items_in sample_params))
params_of-detail_of_example = params_of-detail_of sample_params sample_params-HasName

-- A member with a name, and with the description of the parameter above.
abbrev sample_member : Doms
sample_member = cons (element (codes "name") [] (cons (text (codes "set_gain")) nil)) (
    cons (element (codes "location") ((codes "line", codes "12") ∷ []) nil)
      (within (codes "detaileddescription") sample_params))

sample_member-plain : plain_member sample_member ≡ true
unfolding plain_member plain_text member_part local_name str_eq location_attributes
sample_member-plain = refl

sample_member-HasName :
    All HasName (last_items (last_named (codes "detaileddescription") sample_member))
unfolding children_named flat_map str_eq local_name last
sample_member-HasName = (λ e. cc, tt)

build_memberdef-Reads_example :
    (m : ParseData) × (build_memberdef ((codes "kind", codes "function") ∷ []) sample_member ≡ ok m)
    × Reads sample_member m
build_memberdef-Reads_example =
    build_memberdef-Reads ((codes "kind", codes "function") ∷ []) sample_member sample_member-plain
      sample_member-HasName

abbrev sample_compound : Doms
sample_compound = cons (element (codes "innerclass") ((codes "refid", codes "classfir") ∷ []) nil) (
    cons (element (codes "compoundname") [] (cons (text (codes "gr")) nil)) (
      within (codes "sectiondef") (
        cons (element (codes "memberdef") ((codes "kind", codes "function") ∷ []) sample_member)
          nil)))

build_definition-Placed_example :
    OnOk (Placed sample_compound (new_definition [])) (build_definition [] sample_compound)
build_definition-Placed_example = build_definition-Placed [] sample_compound
