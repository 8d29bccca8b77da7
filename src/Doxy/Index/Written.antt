-- ===== src/Doxy/Index/Written.antt =====
-- What the exports of a table's objects write.
use gr_digitizers.Prelude.{
  ℕ, zero, suc, ◌≡◌, refl, ◌∙◌, sym, ap, true, some, List, [], ◌∷◌, ◌++◌, map, append-nil,
  append_assoc, All,
}
use gr_digitizers.Prelude.Str.{Str, codes}
use gr_digitizers.Prelude.Result.{ok}
use gr_digitizers.Prelude.Exec.{Exec, lift, ◌>>=◌, ◌>>◌}
use gr_digitizers.Doxy.Quote.{quote_xml, quote_attrib}
use gr_digitizers.Doxy.Index.Ascii.{is_ascii-quote_xml, is_ascii-quote_attrib, Printable-is_ascii}
use gr_digitizers.Doxy.Index.Export.{
  write, is_ascii, encode, spaces, show_indent, export_element, export_kind_refid, export_name,
  export_member, export_members, export_compound, export_compounds, export_version, export,
}
use gr_digitizers.Doxy.Index.Table.{
  MemberRow, CompoundRow, Table, Printable, MemberPrintable, CompoundPrintable, TablePrintable,
  member_of, compound_of, index_of, Item, lines, core, name_item, attribute_text, kind_refid_text,
  member_item, compound_lines, compound_item, index_item,
}

-- A method that returns and writes a text behind what is there.
abbrev pub Writes : Exec Str (Unit {0}) → Str → Type 0
Writes m t = (out : Str) → m out ≡ (ok tt, out ++ t)

pub then-Writes :
    (m n : Exec Str (Unit {0})) (s t : Str) → Writes m s → Writes n t → Writes (m >> n) (s ++ t)
then-Writes m n s t h k out = rw (h out) (k (out ++ s) ∙ rw (append_assoc out s t))

pub encode-Writes :
    (s t : Str) (k : Str → Exec Str (Unit {0}))
    → is_ascii s ≡ true
    → Writes (k s) t
    → Writes (lift (encode s) >>= k) t
unfolding encode
encode-Writes s t k h w out = rw h (w out)

pub is_ascii-quoted : (s : Str) → Printable s → is_ascii (quote_attrib s) ≡ true
is_ascii-quoted s h = is_ascii-quote_attrib s ∙ Printable-is_ascii s h

pub show_indent-Writes : (level : ℕ) → Writes (show_indent level) (spaces level)
unfolding show_indent spaces
show_indent-Writes zero = λ out. rw append-nil
show_indent-Writes (suc n) =
    then-Writes (write (codes "    ")) (show_indent n) (codes "    ") (spaces n) (λ out. refl)
      (show_indent-Writes n)

pub write-Writes : (s : Str) → Writes (write s) s
write-Writes s out = refl

regroup :
    (name a body level_text : Str)
    → (codes "<" ++ (name ++ codes " "))
        ++ (a ++ (codes ">\n" ++ (body ++ (level_text ++ (codes "</" ++ (name ++ codes ">\n"))))))
      ≡ (codes "<"
          ++ (name
              ++ ((codes " " ++ a)
                  ++ (codes ">"
                      ++ ((codes "\n" ++ (body ++ level_text))
                          ++ (codes "</" ++ (name ++ codes ">")))))))
        ++ codes "\n"
regroup name a body level_text = simp append_assoc

-- The shared body of the exports.
export_element-Writes :
    (name a : Str) (attributes : Exec Str (Unit {0})) (children : ℕ → Exec Str (Unit {0}))
    (level : ℕ) (items : List Item)
    → Writes attributes a
    → Writes (children (suc level)) (lines (suc level) items)
    → Writes
        (export_element [] name [] attributes true children level)
        (spaces level ++ (core name a level items ++ codes "\n"))
unfolding export_element core
export_element-Writes name a attributes children level items h k =
    let closing = write (codes "</" ++ (name ++ codes ">\n")) in
    let body = lines (suc level) items in
    let ending =
      then-Writes (show_indent level) closing (spaces level) (codes "</" ++ (name ++ codes ">\n"))
        (show_indent-Writes level) (write-Writes _) in
    let inside =
      then-Writes (children (suc level)) (show_indent level >> closing) body
        (spaces level ++ (codes "</" ++ (name ++ codes ">\n"))) k ending in
    let opened =
      then-Writes (write (codes ">\n")) (children (suc level) >> (show_indent level >> closing))
        (codes ">\n") (body ++ (spaces level ++ (codes "</" ++ (name ++ codes ">\n"))))
        (write-Writes _) inside in
    let attributed = then-Writes attributes _ a _ h opened in
    let tagged =
      then-Writes (write (codes "<" ++ (name ++ codes " "))) _ (codes "<" ++ (name ++ codes " ")) _
        (write-Writes _) attributed in
    let whole =
      then-Writes (show_indent level) _ (spaces level) _ (show_indent-Writes level) tagged in
    λ out.
      whole out ∙ ap (λ t. (ok tt, out ++ (spaces level ++ t))) (regroup name a body (spaces level))

kind_refid-Writes :
    (k r : Str)
    → Printable r
    → Writes (export_kind_refid [] (some k) (some r)) (kind_refid_text k r)
unfolding export_kind_refid
kind_refid-Writes k r h =
    then-Writes (write (codes " kind=" ++ quote_attrib k)) _ (codes " kind=" ++ quote_attrib k)
      (codes " refid=" ++ quote_attrib r) (write-Writes _)
      (encode-Writes (quote_attrib r) (codes " refid=" ++ quote_attrib r)
        (λ s. write (codes " refid=" ++ s)) (is_ascii-quoted r h) (write-Writes _))

-- The element `name` on a line, before further lines.
name-Writes :
    (n : Str) (level : ℕ)
    → Printable n
    → Writes (export_name [] (some n) level) (spaces level ++ ((name_item n).0 ++ codes "\n"))
unfolding export_name name_item
name-Writes n level h =
    let element = λ (s : Str). codes "<" ++ (codes "name>" ++ (s ++ codes "</name>\n")) in
    let named =
      encode-Writes (quote_xml n) (element (quote_xml n)) (λ s. write (element s))
        (is_ascii-quote_xml n ∙ Printable-is_ascii n h) (write-Writes _) in
    let whole =
      then-Writes (show_indent level) _ (spaces level) _ (show_indent-Writes level) named in
    λ out.
      whole out
      ∙ ap (λ t. (ok tt, out ++ (spaces level ++ (codes "<name>" ++ t))))
          (sym (append_assoc (quote_xml n) (codes "</name>") (codes "\n")))

line-Writes :
    (m n : Exec Str (Unit {0})) (level : ℕ) (i : Item) (is : List Item)
    → Writes m (spaces level ++ (i.0 ++ codes "\n"))
    → Writes n (lines level is)
    → Writes (m >> n) (lines level (i ∷ is))
unfolding lines
line-Writes m n level i is h k out =
    then-Writes m n _ _ h k out
    ∙ rw (
      append_assoc (spaces level) (i.0 ++ codes "\n") (lines level is),
      append_assoc i.0 (codes "\n") (lines level is),
    )

member-Writes :
    (r : MemberRow) (level : ℕ)
    → MemberPrintable r
    → Writes
        (export_member [] [] (member_of r) level)
        (spaces level ++ ((member_item level r).0 ++ codes "\n"))
unfolding export_member member_of member_item
member-Writes r level (hk, hr, hn) =
    export_element-Writes (codes "member") (kind_refid_text r.kind r.refid)
      (export_kind_refid [] (some r.kind) (some r.refid)) (export_name [] (some r.name)) level
      (name_item r.name ∷ []) (kind_refid-Writes r.kind r.refid hr)
      (unfold lines in name-Writes r.name (suc level) hn)

members-Writes :
    (rs : List MemberRow) (level : ℕ)
    → All MemberPrintable rs
    → Writes (export_members [] (map member_of rs) level) (lines level (map (member_item level) rs))
unfolding export_members
members-Writes [] level h = unfold lines in λ out. rw append-nil
members-Writes (r ∷ rs) level (h, hs) =
    line-Writes (export_member [] [] (member_of r) level)
      (export_members [] (map member_of rs) level) level (member_item level r)
      (map (member_item level) rs) (member-Writes r level h) (members-Writes rs level hs)

compound-Writes :
    (r : CompoundRow) (level : ℕ)
    → CompoundPrintable r
    → Writes
        (export_compound [] [] (compound_of r) level)
        (spaces level ++ ((compound_item level r).0 ++ codes "\n"))
unfolding export_compound compound_of compound_item
compound-Writes r level (hk, hr, hn, hm) =
    export_element-Writes (codes "compound") (kind_refid_text r.kind r.refid)
      (export_kind_refid [] (some r.kind) (some r.refid))
      (λ l. export_name [] (some r.name) l >> export_members [] (map member_of r.members) l) level
      (compound_lines level r) (kind_refid-Writes r.kind r.refid hr)
      (line-Writes (export_name [] (some r.name) (suc level))
        (export_members [] (map member_of r.members) (suc level)) (suc level) (name_item r.name)
        (map (member_item (suc level)) r.members) (name-Writes r.name (suc level) hn)
        (members-Writes r.members (suc level) hm))

compounds-Writes :
    (rs : List CompoundRow) (level : ℕ)
    → All CompoundPrintable rs
    → Writes
        (export_compounds [] (map compound_of rs) level)
        (lines level (map (compound_item level) rs))
unfolding export_compounds
compounds-Writes [] level h = unfold lines in λ out. rw append-nil
compounds-Writes (r ∷ rs) level (h, hs) =
    line-Writes (export_compound [] [] (compound_of r) level)
      (export_compounds [] (map compound_of rs) level) level (compound_item level r)
      (map (compound_item level) rs) (compound-Writes r level h) (compounds-Writes rs level hs)

pub export-Writes :
    (t : Table)
    → TablePrintable t
    → Writes
        (export [] (codes "doxygenindex") [] (index_of t) zero)
        ((index_item t).0 ++ codes "\n")
unfolding export export_version index_of index_item spaces
export-Writes t (hv, hc) =
    export_element-Writes (codes "doxygenindex") (attribute_text (codes "version") t.version)
      (export_version [] (some t.version)) (export_compounds [] (map compound_of t.compounds)) zero
      (map (compound_item (suc zero)) t.compounds)
      (encode-Writes (quote_attrib t.version) (attribute_text (codes "version") t.version)
        (λ s. write (codes " version=" ++ s)) (is_ascii-quoted t.version hv) (write-Writes _))
      (compounds-Writes t.compounds (suc zero) hc)
