-- ===== src/Doxy/Index/Roundtrip.antt =====
-- The document that a table's index is written as: its text, its nodes and the objects it is read as.
use gr_digitizers.Prelude.{
  ℕ, zero, suc, ◌≡◌, refl, true, Option, List, [], ◌∷◌, ◌++◌, map, append_assoc, All,
}
use gr_digitizers.Prelude.Str.{Str, codes}
use gr_digitizers.Prelude.Dict.{Dict}
use gr_digitizers.Prelude.Result.{ok}
use gr_digitizers.Doxy.Dom.{Dom, element}
use gr_digitizers.Doxy.Dom.Grammar.{
  Decodes, end, plain, Name, Attributes, blank, Element, full, Content, empty, only, before,
}
use gr_digitizers.Doxy.Quote.{replace, quote_xml}
use gr_digitizers.Doxy.Index.{parse}
use gr_digitizers.Doxy.Index.Export.{spaces, export}
use gr_digitizers.Doxy.Index.Table.{
  MemberRow, CompoundRow, Table, Printable, MemberPrintable, CompoundPrintable, TablePrintable,
  index_of, Item, lines, layout, core, text_nodes, name_item, attribute_text, kind_refid,
  kind_refid_text, member_item, compound_lines, compound_item, index_item,
}
use gr_digitizers.Doxy.Index.Readback.{build-index_item}
use gr_digitizers.Doxy.Index.Written.{export-Writes}
use gr_digitizers.Doxy.Index.Denotes.{
  letters-Name, Decodes-quote_xml, version-Attributes, kind_refid-Attributes,
}

-- The text of an item denotes its node.
abbrev Shows : Item → Type 0
Shows i = Element i.0 i.1

spaces-Decodes : (level : ℕ) → Decodes true (spaces level) (spaces level)
unfolding spaces
spaces-Decodes zero = end
spaces-Decodes (suc n) =
    plain 32 refl (plain 32 refl (plain 32 refl (plain 32 refl (spaces-Decodes n))))

break-Decodes : (level : ℕ) → Decodes true (10 ∷ spaces level) (10 ∷ spaces level)
break-Decodes level = plain 10 refl (spaces-Decodes level)

lines-Content :
    (level : ℕ) (items : List Item)
    → All Shows items
    → Content (codes "\n" ++ (lines (suc level) items ++ spaces level)) (layout level items)
unfolding lines layout
lines-Content level [] h = only (λ e. cc) (break-Decodes level)
lines-Content level (i ∷ is) (h, hs) =
    before (λ e. cc) (break-Decodes (suc level)) h (lines-Content level is hs) (simp append_assoc)

core-Element :
    (name attributes : Str) (d : Dict Str) (level : ℕ) (items : List Item)
    → Name name
    → Attributes (codes " " ++ attributes) d
    → All Shows items
    → Element (core name attributes level items) (element name d (layout level items))
unfolding core
core-Element name attributes d level items hn ha h = full hn ha (lines-Content level items h) refl

text-Content : (s : Str) → Printable s → Content (quote_xml s) (text_nodes s)
unfolding text_nodes
text-Content [] h = unfold quote_xml replace in empty
text-Content (c ∷ s) h = only (λ e. cc) (Decodes-quote_xml true (c ∷ s) h)

name-Shows : (n : Str) → Printable n → Shows (name_item n)
unfolding name_item
name-Shows n h = full {a = []} (letters-Name _ _ refl) (blank tt) (text-Content n h) refl

member-Shows : (level : ℕ) (r : MemberRow) → MemberPrintable r → Shows (member_item level r)
unfolding member_item
member-Shows level r (hk, hr, hn) =
    core-Element (codes "member") (kind_refid_text r.kind r.refid) (kind_refid r.kind r.refid) level
      (name_item r.name ∷ []) (letters-Name _ _ refl) (kind_refid-Attributes r.kind r.refid hk hr)
      (name-Shows r.name hn, tt)

members-Shows :
    (level : ℕ) (rs : List MemberRow)
    → All MemberPrintable rs
    → All Shows (map (member_item level) rs)
members-Shows level [] h = tt
members-Shows level (r ∷ rs) (h, hs) = (member-Shows level r h, members-Shows level rs hs)

compound-Shows : (level : ℕ) (r : CompoundRow) → CompoundPrintable r → Shows (compound_item level r)
unfolding compound_item
compound-Shows level r (hk, hr, hn, hm) =
    core-Element (codes "compound") (kind_refid_text r.kind r.refid) (kind_refid r.kind r.refid)
      level (compound_lines level r) (letters-Name _ _ refl)
      (kind_refid-Attributes r.kind r.refid hk hr)
      (name-Shows r.name hn, members-Shows (suc level) r.members hm)

compounds-Shows :
    (level : ℕ) (rs : List CompoundRow)
    → All CompoundPrintable rs
    → All Shows (map (compound_item level) rs)
compounds-Shows level [] h = tt
compounds-Shows level (r ∷ rs) (h, hs) = (compound-Shows level r h, compounds-Shows level rs hs)

index-Shows : (t : Table) → TablePrintable t → Shows (index_item t)
unfolding index_item
index-Shows t (hv, hc) =
    core-Element (codes "doxygenindex") (attribute_text (codes "version") t.version)
      ((codes "version", t.version) ∷ []) zero (map (compound_item (suc zero)) t.compounds)
      (letters-Name _ _ refl) (version-Attributes t.version hv)
      (compounds-Shows (suc zero) t.compounds hc)

-- For every table of versions, kinds, references and names in printable ASCII the export of its
-- index returns and appends a text and a line break; the text is an XML element of the grammar for
-- some document, and parse of that document, with any default for the names, gives the same index.
pub export-build :
    (t : Table) (out : Str)
    → TablePrintable t
    → (written : Str) × (document : Dom) × (export []
          (codes "doxygenindex")
          []
          (index_of t)
          zero
          out
        ≡ (ok tt, out ++ (written ++ codes "\n")))
      × Element written document
      × ((name : Option Str) → parse name (ok document) ≡ ok (index_of t))
export-build t out h = (
  (index_item t).0,
  (index_item t).1,
  export-Writes t h out,
  index-Shows t h,
  λ name. unfold parse in build-index_item name t,
)
