-- ===== src/Doxy/Compound/DefinitionParts.antt =====
-- Which children of a compound are groups, classes and sections.
use gr_digitizers.Prelude.{◌≡◌, refl, Bool, true, false, Bool-cases, inl, inr, arith}
use gr_digitizers.Prelude.Str.{Str, codes, str_eq, str_eq_iff}
use gr_digitizers.Doxy.Compound.Definition.{
  DefinitionPart, definition_title, definition_brief, definition_detail, definition_group,
  definition_class, definition_section, definition_text, definition_template, definition_location,
  definition_other, definition_unseen, definition_part,
}

abbrev pub is_group : DefinitionPart → Bool
is_group definition_title = false
is_group definition_brief = false
is_group definition_detail = false
is_group definition_group = true
is_group definition_class = false
is_group definition_section = false
is_group definition_text = false
is_group definition_template = false
is_group definition_location = false
is_group definition_other = false
is_group (definition_unseen u) = false

abbrev pub is_class : DefinitionPart → Bool
is_class definition_title = false
is_class definition_brief = false
is_class definition_detail = false
is_class definition_group = false
is_class definition_class = true
is_class definition_section = false
is_class definition_text = false
is_class definition_template = false
is_class definition_location = false
is_class definition_other = false
is_class (definition_unseen u) = false

abbrev pub is_section : DefinitionPart → Bool
is_section definition_title = false
is_section definition_brief = false
is_section definition_detail = false
is_section definition_group = false
is_section definition_class = false
is_section definition_section = true
is_section definition_text = false
is_section definition_template = false
is_section definition_location = false
is_section definition_other = false
is_section (definition_unseen u) = false

pub definition_part-is_group :
    (n : Str) → is_group (definition_part n) ≡ str_eq n (codes "innergroup")
definition_part-is_group n = elim (Bool-cases (str_eq n (codes "innergroup"))) [
  | inl e ↦ rw ((str_eq_iff n (codes "innergroup")).0 e) (unfold definition_part str_eq in refl)
  | inr e ↦ unfold definition_part in ground arith
]

pub definition_part-is_class :
    (n : Str) → is_class (definition_part n) ≡ str_eq n (codes "innerclass")
definition_part-is_class n = elim (Bool-cases (str_eq n (codes "innerclass"))) [
  | inl e ↦ rw ((str_eq_iff n (codes "innerclass")).0 e) (unfold definition_part str_eq in refl)
  | inr e ↦ unfold definition_part in ground arith
]

pub definition_part-is_section :
    (n : Str) → is_section (definition_part n) ≡ str_eq n (codes "sectiondef")
definition_part-is_section n = unfold definition_part in ground arith
