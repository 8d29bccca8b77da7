-- ===== src/Doxy/Compound.antt =====
-- How descriptions are built of a document, docs/doxygen/doxyxml/generated/compoundsuper.py and
-- compound.py: the attributes `content_` of their classes and `content` of a paragraph.
pub mod Text
pub mod Params
pub mod Rows
pub mod Member
pub mod MemberTotal
pub mod MemberLatest
pub mod DefinitionParts
pub mod MemberRows
pub mod Definition
pub mod Sections
pub mod Find
mod Tests
use mathlib.Core.Option
use gr_digitizers.Prelude.{Bool, true, false, Option, none, some, List, [], ◌∷◌, if◌then◌else◌}
use gr_digitizers.Prelude.Str.{Str, codes, str_eq}
use gr_digitizers.Doxy.Dom.{Dom, element, text, cdata, comment, Doms, nil, cons, local_name}
use gr_digitizers.Doxy.Data
use gr_digitizers.Doxy.Data.{Node, string, object, Nodes, no_contents, contents, no_value, value}

-- The classes whose `content_` holds objects: `descriptionType`, `docSect1Type` and so on.
pub data Kind : Type 0 where
  description sect1 sect2 sect3 sect4 : Kind
  internal internal_s1 internal_s2 internal_s3 internal_s4 : Kind
  linked_text param_name : Kind

-- What the child is built as: an object with texts only (`docTitleType`, `docRefTextType`), a
-- paragraph, or an object of such a class.
pub data Target : Type 0 where
  texts para : Target
  nested : Kind → Target

-- `elif nodeName_ == ...`, with the class whose factory is called.
abbrev pub case_of : Str → List (Str × Target) → Option Target
case_of n [] = none
case_of n ((m, t) ∷ cs) = if str_eq n m then some t else case_of n cs

-- `descriptionType`
abbrev pub description_branches : List (Str × Target)
description_branches =
    (codes "title", texts)
    ∷ (codes "para", para)
    ∷ (codes "sect1", nested sect1)
    ∷ (codes "internal", nested internal)
    ∷ []

-- `docSect1Type`
abbrev pub sect1_branches : List (Str × Target)
sect1_branches =
    (codes "title", texts)
    ∷ (codes "para", para)
    ∷ (codes "sect2", nested sect2)
    ∷ (codes "internal", nested internal_s1)
    ∷ []

-- `docSect2Type`
abbrev pub sect2_branches : List (Str × Target)
sect2_branches =
    (codes "title", texts)
    ∷ (codes "para", para)
    ∷ (codes "sect3", nested sect3)
    ∷ (codes "internal", nested internal_s2)
    ∷ []

-- `docSect3Type`
abbrev pub sect3_branches : List (Str × Target)
sect3_branches =
    (codes "title", texts)
    ∷ (codes "para", para)
    ∷ (codes "sect4", nested sect4)
    ∷ (codes "internal", nested internal_s3)
    ∷ []

-- `docSect4Type`
abbrev pub sect4_branches : List (Str × Target)
sect4_branches =
    (codes "title", texts) ∷ (codes "para", para) ∷ (codes "internal", nested internal_s4) ∷ []

-- `docInternalType`
abbrev pub internal_branches : List (Str × Target)
internal_branches = (codes "para", para) ∷ (codes "sect1", nested sect1) ∷ []

-- `docInternalS1Type`
abbrev pub internal_s1_branches : List (Str × Target)
internal_s1_branches = (codes "para", para) ∷ (codes "sect2", nested sect2) ∷ []

-- `docInternalS2Type`
abbrev pub internal_s2_branches : List (Str × Target)
internal_s2_branches = (codes "para", para) ∷ (codes "sect3", nested sect3) ∷ []

-- `docInternalS3Type`
abbrev pub internal_s3_branches : List (Str × Target)
internal_s3_branches = (codes "para", para) ∷ (codes "sect3", nested sect4) ∷ []

-- `docInternalS4Type`
abbrev pub internal_s4_branches : List (Str × Target)
internal_s4_branches = (codes "para", para) ∷ []

-- `linkedTextType`
abbrev pub linked_text_branches : List (Str × Target)
linked_text_branches = (codes "ref", texts) ∷ []

-- `docParamName`
abbrev pub param_name_branches : List (Str × Target)
param_name_branches = (codes "ref", texts) ∷ []

abbrev pub branches : Kind → List (Str × Target)
branches description = description_branches
branches sect1 = sect1_branches
branches sect2 = sect2_branches
branches sect3 = sect3_branches
branches sect4 = sect4_branches
branches internal = internal_branches
branches internal_s1 = internal_s1_branches
branches internal_s2 = internal_s2_branches
branches internal_s3 = internal_s3_branches
branches internal_s4 = internal_s4_branches
branches linked_text = linked_text_branches
branches param_name = param_name_branches

unfoldable pub branch : Kind → Str → Option Target
unfolding str_eq
branch k n = case_of n (branches k)

-- `MixedContainer` by what `description_bit` asks of it, its `value` and its `name`.
abbrev pub text_container : Str → Node
text_container s = object no_contents no_contents (value (string s)) (some [])

abbrev pub complex_container : Str → Node → Node
complex_container n v = object no_contents no_contents (value v) (some n)

abbrev pub mixed_object : Nodes → Node
mixed_object items = object no_contents (contents items) no_value none

abbrev pub para_object : Nodes → Nodes → Node
para_object content items = object (contents content) (contents items) no_value none

-- `content_` of a class that takes the texts only.
unfoldable pub texts_of : Doms → Nodes
texts_of nil = Data.nil
texts_of (cons (text s) kids) = Data.cons (text_container s) (texts_of kids)
texts_of (cons (element n attrs ks) kids) = texts_of kids
texts_of (cons (cdata s) kids) = texts_of kids
texts_of (cons (comment s) kids) = texts_of kids

-- `content` of `docParaTypeSub`: an object that is built of a reference is not in a container.
unfoldable pub para_content : Doms → Nodes
unfolding texts_of str_eq local_name
para_content nil = Data.nil
para_content (cons (text s) kids) = Data.cons (text_container s) (para_content kids)
para_content (cons (element n attrs ks) kids) =
    let rest = para_content kids in
    if str_eq (local_name n) (codes "ref")
    then Data.cons (mixed_object (texts_of ks)) rest
    else rest
para_content (cons (cdata s) kids) = para_content kids
para_content (cons (comment s) kids) = para_content kids

unfoldable pub para_of : Doms → Node
unfolding para_content texts_of
para_of kids = para_object (para_content kids) (texts_of kids)

-- `buildChildren` of the classes with mixed content, for all children.
unfoldable pub content_of : Kind → Doms → Nodes
unfolding branch texts_of para_of local_name
content_of k nil = Data.nil
content_of k (cons (text s) kids) = Data.cons (text_container s) (content_of k kids)
content_of k (cons (element n attrs ks) kids) = elim (branch k (local_name n)) [
  | none ↦ content_of k kids
  | some texts ↦
      Data.cons (complex_container (local_name n) (mixed_object (texts_of ks))) (content_of k kids)
  | some para ↦ Data.cons (complex_container (local_name n) (para_of ks)) (content_of k kids)
  | some (nested k') ↦
      Data.cons (complex_container (local_name n) (mixed_object (content_of k' ks)))
        (content_of k kids)
]
content_of k (cons (cdata s) kids) = content_of k kids
content_of k (cons (comment s) kids) = content_of k kids

-- `factory ()` and `build` of such a class
unfoldable pub build_mixed : Kind → Doms → Node
unfolding content_of
build_mixed k kids = mixed_object (content_of k kids)
