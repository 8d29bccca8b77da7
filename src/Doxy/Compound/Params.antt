-- ===== src/Doxy/Compound/Params.antt =====
-- The parameter lists of a detailed description: `parameterlist` of `docParaTypeSub` in compound.py, and
-- `docParamListType`, `docParamListItem` and `docParamNameList` of compoundsuper.py.
use gr_digitizers.Prelude.{Option, none, some, List, [], ◌∷◌, map, if◌then◌else◌}
use gr_digitizers.Prelude.Str.{Str, codes, str_eq}
use gr_digitizers.Doxy.Dom.{element, text, cdata, comment, Doms, nil, cons, local_name}
use gr_digitizers.Doxy.Data.{Node, ParameterItem, Detail}
use gr_digitizers.Doxy.Compound
use gr_digitizers.Doxy.Compound.{texts, para, nested, param_name, branch, build_mixed}

-- The children of the elements of a name, for which `buildChildren` builds an object that it appends.
unfoldable pub children_named : Str → Doms → List Doms
unfolding str_eq local_name
children_named name nil = []
children_named name (cons (element n attrs ks) kids) =
    let rest = children_named name kids in if str_eq (local_name n) name then ks ∷ rest else rest
children_named name (cons (text s) kids) = children_named name kids
children_named name (cons (cdata s) kids) = children_named name kids
children_named name (cons (comment s) kids) = children_named name kids

-- `set_parameterdescription`: the last one stays.
unfoldable pub last : List Doms → Option Doms
last [] = none
last (x ∷ []) = some x
last (x ∷ y ∷ xs) = last (y ∷ xs)

abbrev pub described : Option Doms → Option Node
described none = none
described (some ks) = some (build_mixed Compound.description ks)

unfoldable pub name_list_of : Doms → List (Option Node)
unfolding children_named build_mixed
name_list_of kids =
    map (λ ks. some (build_mixed param_name ks)) (children_named (codes "parametername") kids)

unfoldable pub item_of : Doms → ParameterItem
unfolding children_named name_list_of last
item_of kids = record {
  names = map name_list_of (children_named (codes "parameternamelist") kids);
  description = described (last (children_named (codes "parameterdescription") kids));
}

unfoldable pub param_list_of : Doms → List ParameterItem
unfolding children_named item_of
param_list_of kids = map item_of (children_named (codes "parameteritem") kids)

unfoldable pub parameterlist_of : Doms → List (List ParameterItem)
unfolding children_named param_list_of
parameterlist_of kids = map param_list_of (children_named (codes "parameterlist") kids)

-- Of each part in `content_` the `parameterlist` of its value, which only a paragraph has.
unfoldable pub parts_of : Doms → List (Option (List (List ParameterItem)))
unfolding branch parameterlist_of local_name
parts_of nil = []
parts_of (cons (text s) kids) = none ∷ parts_of kids
parts_of (cons (element n attrs ks) kids) = elim (branch Compound.description (local_name n)) [
  | none ↦ parts_of kids
  | some texts ↦ none ∷ parts_of kids
  | some para ↦ some (parameterlist_of ks) ∷ parts_of kids
  | some (nested k) ↦ none ∷ parts_of kids
]
parts_of (cons (cdata s) kids) = parts_of kids
parts_of (cons (comment s) kids) = parts_of kids

-- `detaileddescription` as doxyindex.py looks at it.
unfoldable pub detail_of : Doms → Detail
unfolding build_mixed parts_of
detail_of kids = record { text = build_mixed Compound.description kids; parts = parts_of kids }
