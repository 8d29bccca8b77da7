-- ===== src/Doxy/Compound/Rows.antt =====
-- The parameters that doxyxml reads of a detailed description, as rows of texts.
use gr_digitizers.Prelude.{
  ◌≡◌, ◌≢◌, refl, sym, ◌∙◌, ap, true, false, Option, none, some, List, [], ◌∷◌, ◌++◌, map,
  append_assoc, All, Bool-cases, inl, inr,
}
use gr_digitizers.Prelude.Str.{Str, codes, str_eq, str_eq_iff, strip}
use gr_digitizers.Prelude.Result.{ok}
use gr_digitizers.Doxy.Dom.{element, text, cdata, comment, Doms, nil, cons, local_name}
use gr_digitizers.Doxy.Data.{Node, ParameterItem}
use gr_digitizers.Doxy.Describe
use gr_digitizers.Doxy.Heap.{Param, item}
use gr_digitizers.Doxy.Fields.{
  descriptions, flat, parse_item, parse_items, concat_items, all_items, params_of,
}
use gr_digitizers.Doxy.Compound
use gr_digitizers.Doxy.Compound.{texts, para, nested, param_name, branch, build_mixed}
use gr_digitizers.Doxy.Compound.Text.{
  visible, description-build_mixed, branch-is_para, Option-cases,
}
use gr_digitizers.Doxy.Compound.Params.{
  children_named, last, described, name_list_of, item_of, param_list_of, parameterlist_of, parts_of,
  detail_of,
}

unfoldable pub flat_map : {A B : Type 0} → (A → List B) → List A → List B
flat_map f [] = []
flat_map f (x ∷ xs) = f x ++ flat_map f xs

-- The items in the lists of the paragraphs, in the order of the document.
abbrev pub items_in : Doms → List Doms
items_in kids =
    flat_map
      (λ p.
        flat_map (children_named (codes "parameteritem"))
          (children_named (codes "parameterlist") p))
      (children_named (codes "para") kids)

abbrev pub names_in : Doms → List Doms
names_in kids =
    flat_map (children_named (codes "parametername"))
      (children_named (codes "parameternamelist") kids)

abbrev pub name_text : Doms → Str
name_text kids = strip (visible param_name kids)

abbrev pub first_text : List Doms → Option Str
first_text [] = none
first_text (n ∷ ns) = some (name_text n)

abbrev pub last_text : Option Doms → Option Str
last_text none = none
last_text (some d) = some (strip (visible Compound.description d))

-- The first name and the last description, without the white space around them.
abbrev pub row : Doms → Param
row kids =
    item (first_text (names_in kids))
      (last_text (last (children_named (codes "parameterdescription") kids)))

abbrev pub HasName : Doms → Type 0
HasName kids = names_in kids ≢ []

flat-map : {A : Type 0} (f : A → List (Option Node)) (xs : List A) → flat (map f xs) ≡ flat_map f xs
unfolding flat flat_map
flat-map f [] = refl
flat-map f (x ∷ xs) = ap (λ ys. f x ++ ys) (flat-map f xs)

map-append : {A B : Type 0} (f : A → B) (xs ys : List A) → map f (xs ++ ys) ≡ map f xs ++ map f ys
map-append f [] ys = refl
map-append f (x ∷ xs) ys = ap (λ zs. f x ∷ zs) (map-append f xs ys)

map-flat_map :
    {A B C : Type 0} (f : B → C) (g : A → List B) (xs : List A)
    → map f (flat_map g xs) ≡ flat_map (λ x. map f (g x)) xs
unfolding flat_map
map-flat_map f g [] = refl
map-flat_map f g (x ∷ xs) =
    map-append f (g x) (flat_map g xs) ∙ ap (λ ys. map f (g x) ++ ys) (map-flat_map f g xs)

descriptions-names :
    (ns : List Doms)
    → descriptions (map (λ ks. some (build_mixed param_name ks)) ns)
      ≡ ok (map (λ n. some (name_text n)) ns)
unfolding descriptions
descriptions-names [] = refl
descriptions-names (n ∷ ns) = rw (description-build_mixed param_name n, descriptions-names ns)

flat-item_of :
    (kids : Doms)
    → flat (item_of kids).names ≡ map (λ ks. some (build_mixed param_name ks)) (names_in kids)
unfolding item_of name_list_of
flat-item_of kids =
    flat-map _ (children_named (codes "parameternamelist") kids)
    ∙ sym (
        map-flat_map (λ ks. some (build_mixed param_name ks))
          (children_named (codes "parametername")) _)

pub described-last_text : (d : Option Doms) → Describe.description (described d) ≡ ok (last_text d)
described-last_text none = unfold Describe.description in refl
described-last_text (some d) = description-build_mixed Compound.description d

description-item_of :
    (kids : Doms)
    → Describe.description (item_of kids).description
      ≡ ok (last_text (last (children_named (codes "parameterdescription") kids)))
unfolding item_of
description-item_of kids =
    described-last_text (last (children_named (codes "parameterdescription") kids))

nonempty-cases : (xs : List Doms) → xs ≢ [] → (x : Doms) × (ys : List Doms) × (xs ≡ x ∷ ys)
nonempty-cases [] h = absurd (h refl)
nonempty-cases (x ∷ xs) h = (x, xs, refl)

parse_item-row : (kids : Doms) → HasName kids → parse_item (item_of kids) ≡ ok (row kids)
unfolding parse_item
parse_item-row kids h =
    let (n, ns, e) = nonempty-cases (names_in kids) h in
    rw (flat-item_of kids, descriptions-names (names_in kids), description-item_of kids, e)

parse_items-rows :
    (ds : List Doms) → All HasName ds → parse_items (map item_of ds) ≡ ok (map row ds)
unfolding parse_items
parse_items-rows [] h = refl
parse_items-rows (d ∷ ds) (h, hs) = rw (parse_item-row d h, parse_items-rows ds hs)

concat_items-append :
    (xs ys : List (List ParameterItem))
    → concat_items (xs ++ ys) ≡ concat_items xs ++ concat_items ys
unfolding concat_items
concat_items-append [] ys = refl
concat_items-append (x ∷ xs) ys =
    ap (λ zs. x ++ zs) (concat_items-append xs ys)
    ∙ sym (append_assoc x (concat_items xs) (concat_items ys))

-- The items of one paragraph.
concat_items-parameterlist_of :
    (ls : List Doms)
    → concat_items (map param_list_of ls)
      ≡ map item_of (flat_map (children_named (codes "parameteritem")) ls)
unfolding concat_items param_list_of flat_map
concat_items-parameterlist_of [] = refl
concat_items-parameterlist_of (l ∷ ls) =
    ap (λ ys. map item_of (children_named (codes "parameteritem") l) ++ ys)
      (concat_items-parameterlist_of ls)
    ∙ sym (map-append item_of (children_named (codes "parameteritem") l) _)

branch-para : (n : Str) → str_eq n (codes "para") ≡ true → branch Compound.description n ≡ some para
branch-para n h = rw ((str_eq_iff n (codes "para")).0 h) (unfold branch str_eq in refl)

para-append :
    (ks : Doms) (rest : List Doms)
    → concat_items (parameterlist_of ks) ++ map item_of rest
      ≡ map item_of (
          flat_map
            (children_named (codes "parameteritem"))
            (children_named (codes "parameterlist") ks)
          ++ rest)
unfolding parameterlist_of
para-append ks rest =
    let lists = children_named (codes "parameterlist") ks in
    ap (λ ys. ys ++ map item_of rest) (concat_items-parameterlist_of lists)
    ∙ sym (map-append item_of (flat_map (children_named (codes "parameteritem")) lists) rest)

para-absurd :
    (n : Str) → str_eq n (codes "para") ≡ false → branch Compound.description n ≡ some para → ⊥
para-absurd n e f = let h = sym e ∙ branch-is_para Compound.description n para f in cc

all_items-items_in : (kids : Doms) → all_items (parts_of kids) ≡ map item_of (items_in kids)
unfolding parts_of all_items children_named flat_map
all_items-items_in nil = refl
all_items-items_in (cons (text s) kids) = all_items-items_in kids
all_items-items_in (cons (element n attrs ks) kids) =
    elim (Bool-cases (str_eq (local_name n) (codes "para"))) [
      | inl e ↦
          rw (branch-para (local_name n) e, parts_of, e)
            (ap (λ ys. concat_items (parameterlist_of ks) ++ ys) (all_items-items_in kids)
              ∙ para-append ks (items_in kids))
      | inr e ↦ elim (Option-cases (branch Compound.description (local_name n))) [
        | inl f ↦ rw (f, parts_of, e) (all_items-items_in kids)
        | inr (texts, f) ↦ rw (f, parts_of, e) (all_items-items_in kids)
        | inr (para, f) ↦ absurd (para-absurd (local_name n) e f)
        | inr (nested k, f) ↦ rw (f, parts_of, e) (all_items-items_in kids)
      ]
    ]
all_items-items_in (cons (cdata s) kids) = all_items-items_in kids
all_items-items_in (cons (comment s) kids) = all_items-items_in kids

-- Where every parameter item in the paragraphs of a detailed description has a name, the parameters
-- that set_parameters reads of what is built are, in the order of the document, the first name and
-- the last description of each item.
pub params_of-detail_of :
    (kids : Doms)
    → All HasName (items_in kids)
    → params_of (some (detail_of kids)) ≡ ok (map row (items_in kids))
unfolding detail_of
params_of-detail_of kids h = rw (all_items-items_in kids) (parse_items-rows (items_in kids) h)
