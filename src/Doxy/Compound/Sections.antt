-- ===== src/Doxy/Compound/Sections.antt =====
-- The sections and the inner compounds that are built of a document of a compound.
use gr_digitizers.Prelude.{
  ◌≡◌, refl, sym, ◌∙◌, ap, Bool, true, false, Option, List, [], ◌∷◌, ◌++◌, append-nil, append_assoc,
  if◌then◌else◌,
}
use gr_digitizers.Prelude.Str.{Str, codes, str_eq}
use gr_digitizers.Prelude.Dict.{Dict, lookup}
use gr_digitizers.Prelude.Result.{Result, ok, err, ◌>>=◌, ok-injective}
use gr_digitizers.Prelude.Exec.{OnOk, result-OnOk, OnOk-map}
use gr_digitizers.Doxy.Dom.{element, text, cdata, comment, Doms, nil, cons, local_name, text_of}
use gr_digitizers.Doxy.Data.{ParseData}
use gr_digitizers.Doxy.Compound.Params.{children_named}
use gr_digitizers.Doxy.Compound.Member.{
  build_section, template_params, location_attributes, value_error_unless,
}
use gr_digitizers.Doxy.Compound.Definition.{
  unseen, Definition, DefinitionPart, definition_title, definition_brief, definition_detail,
  definition_group, definition_class, definition_section, definition_text, definition_template,
  definition_location, definition_other, definition_unseen, definition_part, definition_update,
  definition_children, new_definition, build_definition,
}
use gr_digitizers.Doxy.Compound.DefinitionParts.{
  is_group, is_class, is_section, definition_part-is_group, definition_part-is_class,
  definition_part-is_section,
}

-- The references of the elements of a name.
unfoldable pub refids_in : Str → Doms → List (Option Str)
unfolding local_name str_eq lookup
refids_in name nil = []
refids_in name (cons (element n attrs ks) kids) =
    let rest = refids_in name kids in
    if str_eq (local_name n) name then lookup (codes "refid") attrs ∷ rest else rest
refids_in name (cons (text s) kids) = refids_in name kids
refids_in name (cons (cdata s) kids) = refids_in name kids
refids_in name (cons (comment s) kids) = refids_in name kids

-- All sections, or the first error.
unfoldable pub sections_of : List Doms → Result (List (List ParseData))
unfolding build_section
sections_of [] = ok []
sections_of (k ∷ ks) = build_section k >>= λ s. sections_of ks >>= λ ss. ok (s ∷ ss)

abbrev one_if : {A : Type 0} → Bool → A → List A
one_if true x = x ∷ []
one_if false x = []

abbrev section_if : Bool → Doms → Result (List (List ParseData))
section_if true ks = build_section ks >>= λ s. ok (s ∷ [])
section_if false ks = ok []

-- What a child of each sort adds.
abbrev Grown : DefinitionPart → Dict Str → Doms → Definition → Definition → Type 0
Grown part attrs ks d q =
    (q.innergroup ≡ d.innergroup ++ one_if (is_group part) (lookup (codes "refid") attrs))
    × (q.innerclass ≡ d.innerclass ++ one_if (is_class part) (lookup (codes "refid") attrs))
    × ((s : List (List ParseData)) × (q.sections ≡ d.sections ++ s)
        × (section_if (is_section part) ks ≡ ok s))

same-Grown :
    (d : Definition)
    → (d.innergroup ≡ d.innergroup ++ [])
      × (d.innerclass ≡ d.innerclass ++ [])
      × ((s : List (List ParseData)) × (d.sections ≡ d.sections ++ s) × (ok [] ≡ ok s))
same-Grown d = (
  sym (append-nil d.innergroup),
  sym (append-nil d.innerclass),
  ([], sym (append-nil d.sections), refl),
)

result-Grown :
    {A : Type 0} (part : DefinitionPart) (attrs : Dict Str) (ks : Doms) (d : Definition)
    (r : Result A)
    → Grown part attrs ks d d
    → OnOk (Grown part attrs ks d) (r >>= λ u. ok d)
result-Grown part attrs ks d (ok a) h = h
result-Grown part attrs ks d (err e) h = tt

section-Grown :
    (attrs : Dict Str) (ks : Doms) (d : Definition) (r : Result (List ParseData))
    → build_section ks ≡ r
    → OnOk
        (Grown definition_section attrs ks d)
        (r >>= λ s. ok (record d { sections = d.sections ++ (s ∷ []) }))
section-Grown attrs ks d (ok s) e =
    (sym (append-nil d.innergroup), sym (append-nil d.innerclass), (s ∷ [], refl, rw e))
section-Grown attrs ks d (err x) e = tt

update-Grown :
    (part : DefinitionPart) (attrs : Dict Str) (ks : Doms) (d : Definition)
    → OnOk (Grown part attrs ks d) (definition_update part attrs ks d)
unfolding definition_update
update-Grown definition_title attrs ks d = same-Grown d
update-Grown definition_brief attrs ks d = same-Grown d
update-Grown definition_detail attrs ks d = same-Grown d
update-Grown definition_group attrs ks d =
    (refl, sym (append-nil d.innerclass), ([], sym (append-nil d.sections), refl))
update-Grown definition_class attrs ks d =
    (sym (append-nil d.innergroup), refl, ([], sym (append-nil d.sections), refl))
update-Grown definition_section attrs ks d = section-Grown attrs ks d (build_section ks) refl
update-Grown definition_text attrs ks d =
    result-Grown definition_text attrs ks d (text_of ks) (same-Grown d)
update-Grown definition_template attrs ks d =
    result-Grown definition_template attrs ks d (template_params ks) (same-Grown d)
update-Grown definition_location attrs ks d =
    result-Grown definition_location attrs ks d (value_error_unless (location_attributes attrs))
      (same-Grown d)
update-Grown (definition_unseen u) attrs ks d =
    result-Grown (definition_unseen u) attrs ks d (unseen u ks) (same-Grown d)
update-Grown definition_other attrs ks d = same-Grown d

-- What all children add.
abbrev pub Placed : Doms → Definition → Definition → Type 0
Placed kids old d =
    (d.innergroup ≡ old.innergroup ++ refids_in (codes "innergroup") kids)
    × (d.innerclass ≡ old.innerclass ++ refids_in (codes "innerclass") kids)
    × ((s : List (List ParseData)) × (d.sections ≡ old.sections ++ s)
        × (sections_of (children_named (codes "sectiondef") kids) ≡ ok s))

step-one :
    {A : Type 0} (b : Bool) (x : A) (old rest : List A)
    → (old ++ one_if b x) ++ rest ≡ old ++ (if b then x ∷ rest else rest)
step-one true x old rest = append_assoc old (x ∷ []) rest
step-one false x old rest = append_assoc old [] rest

join-section :
    (r : Result (List ParseData)) (rest : Result (List (List ParseData)))
    (s t : List (List ParseData))
    → (r >>= λ x. ok (x ∷ [])) ≡ ok s
    → rest ≡ ok t
    → (r >>= λ x. rest >>= λ ss. ok (x ∷ ss)) ≡ ok (s ++ t)
join-section (ok a) rest s t h k = rw k (ap (λ l. ok (l ++ t)) (ok-injective (a ∷ []) s h))
join-section (err e) rest s t h k = cc

step-sections :
    (b : Bool) (ks : Doms) (kss : List Doms) (s t : List (List ParseData))
    → section_if b ks ≡ ok s
    → sections_of kss ≡ ok t
    → sections_of (if b then ks ∷ kss else kss) ≡ ok (s ++ t)
unfolding sections_of
step-sections true ks kss s t h k = join-section (build_section ks) (sections_of kss) s t h k
step-sections false ks kss s t h k = k ∙ ap (λ l. ok (l ++ t)) (ok-injective [] s h)

step-Placed :
    (n : Str) (attrs : Dict Str) (ks kids : Doms) (old q d : Definition)
    → Grown (definition_part (local_name n)) attrs ks old q
    → Placed kids q d
    → Placed (cons (element n attrs ks) kids) old d
unfolding refids_in children_named
step-Placed n attrs ks kids old q d (g, c, (s, hs, es)) (lg, lc, (t, ht, et)) = (
  rw (lg, g, definition_part-is_group (local_name n))
      (step-one (str_eq (local_name n) (codes "innergroup")) (lookup (codes "refid") attrs)
        old.innergroup (refids_in (codes "innergroup") kids)),
  rw (lc, c, definition_part-is_class (local_name n))
      (step-one (str_eq (local_name n) (codes "innerclass")) (lookup (codes "refid") attrs)
        old.innerclass (refids_in (codes "innerclass") kids)),
  (
    s ++ t,
    rw (ht, hs) (append_assoc old.sections s t),
    step-sections (str_eq (local_name n) (codes "sectiondef")) ks
        (children_named (codes "sectiondef") kids) s t
        (rw (sym (definition_part-is_section (local_name n))) es) et,
  ),
)

children-Placed : (kids : Doms) (d : Definition) → OnOk (Placed kids d) (definition_children kids d)
unfolding definition_children refids_in children_named sections_of
children-Placed nil d = same-Grown d
children-Placed (cons (element n attrs ks) kids) d =
    result-OnOk (Grown (definition_part (local_name n)) attrs ks d)
      (Placed (cons (element n attrs ks) kids) d)
      (definition_update (definition_part (local_name n)) attrs ks d) (definition_children kids)
      (update-Grown (definition_part (local_name n)) attrs ks d)
      (λ q g.
        OnOk-map (Placed kids q) (Placed (cons (element n attrs ks) kids) d)
          (definition_children kids q) (λ e l. step-Placed n attrs ks kids d q e g l)
          (children-Placed kids q))
children-Placed (cons (text s) kids) d = children-Placed kids d
children-Placed (cons (cdata s) kids) d = children-Placed kids d
children-Placed (cons (comment s) kids) d = children-Placed kids d

-- Where building a compound returns, all its sections could be built and are there in the order of
-- the document, one after the other, and its inner groups and classes are the references of the
-- elements of that name, in order; the other parts add nothing to them.
pub build_definition-Placed :
    (attrs : Dict Str) (kids : Doms)
    → OnOk (Placed kids (new_definition attrs)) (build_definition attrs kids)
unfolding build_definition
build_definition-Placed attrs kids = children-Placed kids (new_definition attrs)
