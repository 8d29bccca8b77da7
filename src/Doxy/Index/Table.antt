-- ===== src/Doxy/Index/Table.antt =====
-- The index as a plain table: the objects that stand for it, the document and the text that show it.
use gr_digitizers.Prelude.{
  ℕ, zero, suc, ◌≤◌, ◌<◌, ◌≡◌, ◌&&◌, Bool, true, leb, ltb, arith, some, List, [], ◌∷◌, ◌++◌, map,
  All,
}
use gr_digitizers.Prelude.Str.{Str, codes}
use gr_digitizers.Prelude.Dict.{Dict}
use gr_digitizers.Doxy.Dom.{Dom, element, text, Doms, nil, cons}
use gr_digitizers.Doxy.Quote.{quote_xml, quote_attrib}
use gr_digitizers.Doxy.Index.{MemberType, CompoundType, DoxygenType}
use gr_digitizers.Doxy.Index.Export.{spaces}

pub record MemberRow : Type 0 where
  pub kind : Str
  pub refid : Str
  pub name : Str

pub record CompoundRow : Type 0 where
  pub kind : Str
  pub refid : Str
  pub name : Str
  pub members : List MemberRow

pub record Table : Type 0 where
  pub version : Str
  pub compounds : List CompoundRow

-- Printable ASCII, so no line breaks either.
abbrev pub Printable : Str → Type 0
Printable = All (λ c. (32 ≤ c) × (c < 128))

abbrev pub printable : Str → Bool
printable [] = true
printable (c ∷ s) = leb 32 c && (ltb c 128 && printable s)

pub printable-Printable : (s : Str) → printable s ≡ true → Printable s
printable-Printable [] h = tt
printable-Printable (c ∷ s) h = ((ground arith, ground arith), printable-Printable s (ground arith))

abbrev pub MemberPrintable : MemberRow → Type 0
MemberPrintable r = Printable r.kind × Printable r.refid × Printable r.name

abbrev pub CompoundPrintable : CompoundRow → Type 0
CompoundPrintable r =
    Printable r.kind × Printable r.refid × Printable r.name × All MemberPrintable r.members

abbrev pub TablePrintable : Table → Type 0
TablePrintable t = Printable t.version × All CompoundPrintable t.compounds

unfoldable pub member_of : MemberRow → MemberType
member_of r = record { kind = some r.kind; refid = some r.refid; name = some r.name }

unfoldable pub compound_of : CompoundRow → CompoundType
unfolding member_of
compound_of r = record {
  kind = some r.kind;
  refid = some r.refid;
  name = some r.name;
  member = map member_of r.members;
}

unfoldable pub index_of : Table → DoxygenType
unfolding compound_of
index_of t = record { version = some t.version; compound = map compound_of t.compounds }

-- A node and its text.
abbrev pub Item : Type 0
Item = Str × Dom

-- The items one to a line, each indented.
unfoldable pub lines : ℕ → List Item → Str
unfolding spaces
lines level [] = []
lines level (i ∷ is) = spaces level ++ (i.0 ++ (codes "\n" ++ lines level is))

abbrev break : ℕ → Dom
break level = text (10 ∷ spaces level)

-- The nodes of such lines, with the line breaks between them as texts; the last one indents the end
-- tag, at the level below.
unfoldable pub layout : ℕ → List Item → Doms
unfolding spaces
layout level [] = cons (break level) nil
layout level (i ∷ is) = cons (break (suc level)) (cons i.1 (layout level is))

-- An element with such lines in it.
unfoldable pub core : Str → Str → ℕ → List Item → Str
unfolding lines spaces
core name attributes level items =
    codes "<"
    ++ (name
        ++ ((codes " " ++ attributes)
            ++ (codes ">"
                ++ ((codes "\n" ++ (lines (suc level) items ++ spaces level))
                    ++ (codes "</" ++ (name ++ codes ">"))))))

-- No text node for an empty text.
unfoldable pub text_nodes : Str → Doms
text_nodes [] = nil
text_nodes (c ∷ s) = cons (text (c ∷ s)) nil

unfoldable pub name_item : Str → Item
unfolding text_nodes
name_item n =
    (codes "<name>" ++ (quote_xml n ++ codes "</name>"), element (codes "name") [] (text_nodes n))

abbrev pub attribute_text : Str → Str → Str
attribute_text key value = codes " " ++ (key ++ (codes "=" ++ quote_attrib value))

abbrev pub kind_refid : Str → Str → Dict Str
kind_refid kind refid = (codes "kind", kind) ∷ (codes "refid", refid) ∷ []

abbrev pub kind_refid_text : Str → Str → Str
kind_refid_text kind refid =
    attribute_text (codes "kind") kind ++ attribute_text (codes "refid") refid

unfoldable pub member_item : ℕ → MemberRow → Item
unfolding core name_item layout
member_item level r = (
  core (codes "member") (kind_refid_text r.kind r.refid) level (name_item r.name ∷ []),
  element (codes "member") (kind_refid r.kind r.refid) (layout level (name_item r.name ∷ [])),
)

abbrev pub compound_lines : ℕ → CompoundRow → List Item
compound_lines level r = name_item r.name ∷ map (member_item (suc level)) r.members

unfoldable pub compound_item : ℕ → CompoundRow → Item
unfolding core name_item member_item layout
compound_item level r = (
  core (codes "compound") (kind_refid_text r.kind r.refid) level (compound_lines level r),
  element (codes "compound") (kind_refid r.kind r.refid) (layout level (compound_lines level r)),
)

unfoldable pub index_item : Table → Item
unfolding core compound_item layout
index_item t = (
  core (codes "doxygenindex") (attribute_text (codes "version") t.version) zero
      (map (compound_item (suc zero)) t.compounds),
  element (codes "doxygenindex") ((codes "version", t.version) ∷ [])
      (layout zero (map (compound_item (suc zero)) t.compounds)),
)
