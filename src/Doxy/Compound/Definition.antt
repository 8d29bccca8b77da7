-- ===== src/Doxy/Compound/Definition.antt =====
-- How a compound is built of its document, `compounddefType` of compoundsuper.py: the attributes that
-- doxyxml looks at, and the errors of all its parts.
use gr_digitizers.Prelude.{Option, none, some, List, [], ◌∷◌, ◌++◌, if◌then◌else◌}
use gr_digitizers.Prelude.Str.{Str, codes, str_eq, member}
use gr_digitizers.Prelude.Dict.{Dict, lookup}
use gr_digitizers.Prelude.Result.{Result, ok, ◌>>=◌}
use gr_digitizers.Doxy.Dom.{element, text, cdata, comment, Doms, nil, cons, local_name, text_of}
use gr_digitizers.Doxy.Data.{Node, string, ParseData, Detail}
use gr_digitizers.Doxy.Compound
use gr_digitizers.Doxy.Compound.{build_mixed, mixed_object, texts_of}
use gr_digitizers.Doxy.Compound.Params.{detail_of}
use gr_digitizers.Doxy.Compound.Member.{
  build_section, template_params, integers, location_attributes, value_error_unless,
}

-- The classes of which only an error is seen: graphs, listings and references to members.
pub data Unseen : Type 0 where
  graph node childnode listing codeline highlight member_list member_ref : Unseen

-- A text, or an object of such a class.
pub data UnseenPart : Type 0 where
  plain : UnseenPart
  part : Unseen → UnseenPart

abbrev pub piece_of : Str → List (Str × UnseenPart) → Option UnseenPart
piece_of n [] = none
piece_of n ((m, p) ∷ ps) = if str_eq n m then some p else piece_of n ps

-- `graphType`
abbrev pub graph_pieces : List (Str × UnseenPart)
graph_pieces = (codes "node", part node) ∷ []

-- `nodeType`
abbrev pub node_pieces : List (Str × UnseenPart)
node_pieces = (codes "label", plain) ∷ (codes "childnode", part childnode) ∷ []

-- `childnodeType`
abbrev pub childnode_pieces : List (Str × UnseenPart)
childnode_pieces = (codes "edgelabel", plain) ∷ []

-- `listingType`
abbrev pub listing_pieces : List (Str × UnseenPart)
listing_pieces = (codes "codeline", part codeline) ∷ []

-- `codelineType`
abbrev pub codeline_pieces : List (Str × UnseenPart)
codeline_pieces = (codes "highlight", part highlight) ∷ []

-- `highlightType`
abbrev pub highlight_pieces : List (Str × UnseenPart)
highlight_pieces = (codes "sp", plain) ∷ []

-- `listofallmembersType`
abbrev pub member_list_pieces : List (Str × UnseenPart)
member_list_pieces = (codes "member", part member_ref) ∷ []

-- `memberRefType`
abbrev pub member_ref_pieces : List (Str × UnseenPart)
member_ref_pieces = (codes "scope", plain) ∷ (codes "name", plain) ∷ []

abbrev pub pieces : Unseen → List (Str × UnseenPart)
pieces graph = graph_pieces
pieces node = node_pieces
pieces childnode = childnode_pieces
pieces listing = listing_pieces
pieces codeline = codeline_pieces
pieces highlight = highlight_pieces
pieces member_list = member_list_pieces
pieces member_ref = member_ref_pieces

-- The attributes that are read as integers.
abbrev pub integer_keys : Unseen → List Str
integer_keys codeline = codes "lineno" ∷ []
integer_keys graph = []
integer_keys node = []
integer_keys childnode = []
integer_keys listing = []
integer_keys highlight = []
integer_keys member_list = []
integer_keys member_ref = []

unfoldable pub unseen : Unseen → Doms → Result (Unit {0})
unfolding text_of integers str_eq local_name
unseen u nil = ok tt
unseen u (cons (element n attrs ks) kids) = elim (piece_of (local_name n) (pieces u)) [
  | none ↦ unseen u kids
  | some plain ↦ text_of ks >>= λ s. unseen u kids
  | some (part v) ↦ value_error_unless (integers (integer_keys v) attrs) >>= λ a.
      unseen v ks >>= λ b. unseen u kids
]
unseen u (cons (text s) kids) = unseen u kids
unseen u (cons (cdata s) kids) = unseen u kids
unseen u (cons (comment s) kids) = unseen u kids

-- `compounddef`; a missing `refid` is `None`.
pub record Definition : Type 0 where
  pub kind : Option Str
  pub id : Option Str
  pub title : Option Node
  pub brief : Option Node
  pub detail : Option Detail
  pub innergroup : List (Option Str)
  pub innerclass : List (Option Str)
  pub sections : List (List ParseData)

pub data DefinitionPart : Type 0 where
  definition_title definition_brief definition_detail : DefinitionPart
  definition_group definition_class definition_section : DefinitionPart
  definition_text definition_template definition_location definition_other : DefinitionPart
  definition_unseen : Unseen → DefinitionPart

abbrev pub graphs : List Str
graphs =
    codes "incdepgraph"
    ∷ codes "invincdepgraph"
    ∷ codes "inheritancegraph"
    ∷ codes "collaborationgraph"
    ∷ []

-- The other parts, references to compounds and files, cannot raise.
unfoldable pub definition_part : Str → DefinitionPart
unfolding str_eq member
definition_part n =
    if str_eq n (codes "sectiondef")
    then definition_section
    else if str_eq n (codes "title")
    then definition_title
    else if str_eq n (codes "briefdescription")
    then definition_brief
    else if str_eq n (codes "detaileddescription")
    then definition_detail
    else if str_eq n (codes "innergroup")
    then definition_group
    else if str_eq n (codes "innerclass")
    then definition_class
    else if str_eq n (codes "compoundname")
    then definition_text
    else if str_eq n (codes "templateparamlist")
    then definition_template
    else if str_eq n (codes "location")
    then definition_location
    else if str_eq n (codes "programlisting")
    then definition_unseen listing
    else if str_eq n (codes "listofallmembers")
    then definition_unseen member_list
    else if member n graphs
    then definition_unseen graph
    else definition_other

unfoldable pub definition_update : DefinitionPart → Dict Str → Doms → Definition → Result Definition
unfolding text_of texts_of build_mixed detail_of build_section template_params location_attributes
    unseen lookup str_eq
definition_update definition_title attrs ks d =
    ok (record d { title = some (mixed_object (texts_of ks)) })
definition_update definition_brief attrs ks d =
    ok (record d { brief = some (build_mixed Compound.description ks) })
definition_update definition_detail attrs ks d = ok (record d { detail = some (detail_of ks) })
definition_update definition_group attrs ks d =
    ok (record d { innergroup = d.innergroup ++ (lookup (codes "refid") attrs ∷ []) })
definition_update definition_class attrs ks d =
    ok (record d { innerclass = d.innerclass ++ (lookup (codes "refid") attrs ∷ []) })
definition_update definition_section attrs ks d =
    build_section ks >>= λ s. ok (record d { sections = d.sections ++ (s ∷ []) })
definition_update definition_text attrs ks d = text_of ks >>= λ s. ok d
definition_update definition_template attrs ks d = template_params ks >>= λ u. ok d
definition_update definition_location attrs ks d =
    value_error_unless (location_attributes attrs) >>= λ u. ok d
definition_update (definition_unseen v) attrs ks d = unseen v ks >>= λ u. ok d
definition_update definition_other attrs ks d = ok d

unfoldable pub definition_children : Doms → Definition → Result Definition
unfolding definition_part definition_update local_name
definition_children nil d = ok d
definition_children (cons (element n attrs ks) kids) d =
    definition_update (definition_part (local_name n)) attrs ks d >>= definition_children kids
definition_children (cons (text s) kids) d = definition_children kids d
definition_children (cons (cdata s) kids) d = definition_children kids d
definition_children (cons (comment s) kids) d = definition_children kids d

-- The default of `title` is an empty string.
abbrev pub new_definition : Dict Str → Definition
new_definition attrs = record {
  kind = lookup (codes "kind") attrs;
  id = lookup (codes "id") attrs;
  title = some (string []);
  brief = none;
  detail = none;
  innergroup = [];
  innerclass = [];
  sections = [];
}

unfoldable pub build_definition : Dict Str → Doms → Result Definition
unfolding definition_children lookup str_eq
build_definition attrs kids = definition_children kids (new_definition attrs)
