-- ===== src/Doxy/Compound/Text.antt =====
-- The text of a description that is built of a document.
use gr_digitizers.Prelude.{
  ◌≡◌, refl, sym, ◌∙◌, Bool, true, false, Option, none, some, List, [], ◌∷◌, ◌++◌, append_assoc,
  All, if◌then◌else◌, Bool-cases, inl, inr, ◌⊎◌, arith,
}
use gr_digitizers.Prelude.Str.{Str, codes, str_eq, str_eq_iff, strip}
use gr_digitizers.Prelude.Result.{ok}
use gr_digitizers.Doxy.Dom.{element, text, cdata, comment, Doms, nil, cons, local_name}
use gr_digitizers.Doxy.Data
use gr_digitizers.Doxy.Data.{Node, string, object, Nodes, no_contents, contents, no_value, value}
use gr_digitizers.Doxy.Describe
use gr_digitizers.Doxy.Describe.{description_bit, items_text, paragraph}
use gr_digitizers.Doxy.Compound.{
  Kind, description, sect1, sect2, sect3, sect4, internal, internal_s1, internal_s2, internal_s3,
  internal_s4, linked_text, param_name, text_container, complex_container, mixed_object,
  para_object, Target, texts, para, nested, case_of, branches, branch, texts_of, para_content,
  para_of, content_of, build_mixed,
}

-- The texts right below an element.
unfoldable pub own_text : Doms → Str
own_text nil = []
own_text (cons (text s) kids) = s ++ own_text kids
own_text (cons (element n attrs ks) kids) = own_text kids
own_text (cons (cdata s) kids) = own_text kids
own_text (cons (comment s) kids) = own_text kids

-- The text of a paragraph: with that of its references, without that of any other element.
unfoldable pub para_text : Doms → Str
unfolding own_text str_eq local_name
para_text nil = []
para_text (cons (text s) kids) = s ++ para_text kids
para_text (cons (element n attrs ks) kids) =
    let rest = para_text kids in
    if str_eq (local_name n) (codes "ref") then own_text ks ++ rest else rest
para_text (cons (cdata s) kids) = para_text kids
para_text (cons (comment s) kids) = para_text kids

-- The text in an element of a kind: two line breaks end a paragraph, other titles and sections just
-- follow each other.
unfoldable pub visible : Kind → Doms → Str
unfolding own_text para_text branch local_name
visible k nil = []
visible k (cons (text s) kids) = s ++ visible k kids
visible k (cons (element n attrs ks) kids) = elim (branch k (local_name n)) [
  | none ↦ visible k kids
  | some texts ↦ own_text ks ++ visible k kids
  | some para ↦ para_text ks ++ (codes "\n\n" ++ visible k kids)
  | some (nested k') ↦ visible k' ks ++ visible k kids
]
visible k (cons (cdata s) kids) = visible k kids
visible k (cons (comment s) kids) = visible k kids

-- The text of each shape of object.
text_container-text : (s : Str) → description_bit (text_container s) ≡ ok s
unfolding description_bit paragraph str_eq
text_container-text s = refl

complex_container-text :
    (n : Str) (v : Node) (s : Str)
    → description_bit v ≡ ok s
    → description_bit (complex_container n v) ≡ ok (paragraph (some n) s)
unfolding description_bit
complex_container-text n v s h = rw h

mixed_object-text :
    (items : Nodes) (s : Str)
    → items_text items ≡ ok s
    → description_bit (mixed_object items) ≡ ok s
unfolding description_bit paragraph
mixed_object-text items s h = rw h

para_object-text :
    (content items : Nodes) (s : Str)
    → items_text content ≡ ok s
    → description_bit (para_object content items) ≡ ok s
unfolding description_bit paragraph
para_object-text content items s h = rw h

cons-text :
    (n : Node) (ns : Nodes) (s t : Str)
    → description_bit n ≡ ok s
    → items_text ns ≡ ok t
    → items_text (Data.cons n ns) ≡ ok (s ++ t)
unfolding items_text
cons-text n ns s t h k = rw (h, k)

texts_of-own_text : (kids : Doms) → items_text (texts_of kids) ≡ ok (own_text kids)
unfolding texts_of own_text
texts_of-own_text nil = unfold items_text in refl
texts_of-own_text (cons (text s) kids) =
    cons-text _ _ s (own_text kids) (text_container-text s) (texts_of-own_text kids)
texts_of-own_text (cons (element n attrs ks) kids) = texts_of-own_text kids
texts_of-own_text (cons (cdata s) kids) = texts_of-own_text kids
texts_of-own_text (cons (comment s) kids) = texts_of-own_text kids

para_content-para_text : (kids : Doms) → items_text (para_content kids) ≡ ok (para_text kids)
unfolding para_content para_text
para_content-para_text nil = unfold items_text in refl
para_content-para_text (cons (text s) kids) =
    cons-text _ _ s (para_text kids) (text_container-text s) (para_content-para_text kids)
para_content-para_text (cons (element n attrs ks) kids) =
    elim (Bool-cases (str_eq (local_name n) (codes "ref"))) [
      | inl e ↦ rw e (
          cons-text _ _ (own_text ks) (para_text kids)
            (mixed_object-text _ _ (texts_of-own_text ks)) (para_content-para_text kids))
      | inr e ↦ rw e (para_content-para_text kids)
    ]
para_content-para_text (cons (cdata s) kids) = para_content-para_text kids
para_content-para_text (cons (comment s) kids) = para_content-para_text kids

abbrev is_para : Target → Bool
is_para texts = false
is_para para = true
is_para (nested k) = false

-- Whether a branch is for `para`.
abbrev Consistent : List (Str × Target) → Type 0
Consistent = All (λ b. str_eq b.0 (codes "para") ≡ is_para b.1)

branches-Consistent : (k : Kind) → Consistent (branches k)
unfolding str_eq
branches-Consistent description = (refl, (refl, (refl, (refl, tt))))
branches-Consistent sect1 = (refl, (refl, (refl, (refl, tt))))
branches-Consistent sect2 = (refl, (refl, (refl, (refl, tt))))
branches-Consistent sect3 = (refl, (refl, (refl, (refl, tt))))
branches-Consistent sect4 = (refl, (refl, (refl, tt)))
branches-Consistent internal = (refl, (refl, tt))
branches-Consistent internal_s1 = (refl, (refl, tt))
branches-Consistent internal_s2 = (refl, (refl, tt))
branches-Consistent internal_s3 = (refl, (refl, tt))
branches-Consistent internal_s4 = (refl, tt)
branches-Consistent linked_text = (refl, tt)
branches-Consistent param_name = (refl, tt)

case_of-is_para :
    (n : Str) (t : Target) (cs : List (Str × Target))
    → Consistent cs
    → case_of n cs ≡ some t
    → str_eq n (codes "para") ≡ is_para t
case_of-is_para n t [] h e = cc
case_of-is_para n t ((m, u) ∷ cs) (h, hs) e = elim (Bool-cases (str_eq n m)) [
  | inl f ↦ rw ((str_eq_iff n m).0 f) (ground (arith, h))
  | inr f ↦ case_of-is_para n t cs hs (ground arith)
]

pub branch-is_para :
    (k : Kind) (n : Str) (t : Target) → branch k n ≡ some t → str_eq n (codes "para") ≡ is_para t
unfolding branch
branch-is_para k n t = case_of-is_para n t (branches k) (branches-Consistent k)

pub Option-cases : {A : Type 0} (x : Option A) → (x ≡ none) ⊎ ((a : A) × (x ≡ some a))
Option-cases none = inl refl
Option-cases (some a) = inr (a, refl)

-- A container adds the line breaks of a paragraph.
container-text :
    (k : Kind) (n : Str) (t : Target) (v : Node) (s : Str)
    → branch k n ≡ some t
    → description_bit v ≡ ok s
    → description_bit (complex_container n v) ≡ ok (if is_para t then s ++ codes "\n\n" else s)
container-text k n t v s e h =
    complex_container-text n v s h ∙ unfold paragraph in rw (branch-is_para k n t e)

content_of-visible : (k : Kind) (kids : Doms) → items_text (content_of k kids) ≡ ok (visible k kids)
unfolding content_of visible
content_of-visible k nil = unfold items_text in refl
content_of-visible k (cons (text s) kids) =
    cons-text _ _ s (visible k kids) (text_container-text s) (content_of-visible k kids)
content_of-visible k (cons (element n attrs ks) kids) =
    elim (Option-cases (branch k (local_name n))) [
      | inl e ↦ rw (e, content_of, visible) (content_of-visible k kids)
      | inr (texts, e) ↦
          rw (e, content_of, visible)
            (cons-text _ _ (own_text ks) (visible k kids)
              (container-text k (local_name n) texts _ (own_text ks) e
                (mixed_object-text _ _ (texts_of-own_text ks)))
              (content_of-visible k kids))
      | inr (para, e) ↦
          rw
            (
              e,
              content_of,
              visible,
              sym (append_assoc (para_text ks) (codes "\n\n") (visible k kids)),
            )
            (cons-text _ _ (para_text ks ++ codes "\n\n") (visible k kids)
              (container-text k (local_name n) para (para_of ks) (para_text ks) e
                (unfold para_of in para_object-text _ _ _ (para_content-para_text ks)))
              (content_of-visible k kids))
      | inr (nested k', e) ↦
          rw (e, content_of, visible)
            (cons-text _ _ (visible k' ks) (visible k kids)
              (container-text k (local_name n) (nested k') _ (visible k' ks) e
                (mixed_object-text _ _ (content_of-visible k' ks)))
              (content_of-visible k kids))
    ]
content_of-visible k (cons (cdata s) kids) = content_of-visible k kids
content_of-visible k (cons (comment s) kids) = content_of-visible k kids

-- For every description, section, internal part, linked text and parameter name, what is built of
-- its children never raises in description and gives the visible text of the document without white
-- space at its ends: its texts, titles, references and sections in order, two line breaks behind
-- each paragraph, and nothing of other elements.
pub description-build_mixed :
    (k : Kind) (kids : Doms)
    → Describe.description (some (build_mixed k kids)) ≡ ok (some (strip (visible k kids)))
unfolding Describe.description build_mixed
description-build_mixed k kids =
    rw (mixed_object-text (content_of k kids) (visible k kids) (content_of-visible k kids))
