-- ===== src/Doxy/Index/Encodable.antt =====
-- When the exports of the index return: which texts are encoded.
use gr_digitizers.Prelude.{
  ℕ, suc, ◌≡◌, refl, sym, Bool, true, false, ◌&&◌, Option, none, some, List, [], ◌∷◌, ◌++◌,
  if◌then◌else◌,
}
use gr_digitizers.Prelude.Str.{Str, codes}
use gr_digitizers.Prelude.Exec.{Exec, lift, ◌>>=◌}
use gr_digitizers.Doxy.Quote.{quote_xml, quote_attrib}
use gr_digitizers.Doxy.Index.{MemberType, CompoundType, DoxygenType}
use gr_digitizers.Doxy.Index.Outcome.{
  guard, Outcome, write-Outcome, then-Outcome, encode-Outcome, show_indent-Outcome,
}
use gr_digitizers.Doxy.Index.Ascii.{is_ascii-quote_xml, is_ascii-quote_attrib, and_true}
use gr_digitizers.Doxy.Index.Export.{
  write, is_ascii, encode, quote_optional, is_some, export_element, export_kind_refid, export_name,
  export_member, export_members, export_compound, export_compounds, export_version, export,
}

element-Outcome :
    (name : Str) (attributes : Exec Str (Unit {0})) (has a b : Bool)
    (children : ℕ → Exec Str (Unit {0})) (level : ℕ)
    → Outcome attributes a
    → ((l : ℕ) → Outcome (children l) b)
    → Outcome
        (export_element [] name [] attributes has children level)
        (a && (if has then b else true))
unfolding export_element
element-Outcome name attributes true a b children level h k =
    let end =
      then-Outcome _ _ _ _ (show_indent-Outcome level)
        (write-Outcome (codes "</" ++ (name ++ codes ">\n"))) in
    let inner =
      then-Outcome _ _ _ _ (write-Outcome (codes ">\n"))
        (then-Outcome _ _ _ _ (k (suc level)) end) in
    rw (sym (and_true b)) (
      then-Outcome _ _ _ _ (show_indent-Outcome level) (
        then-Outcome _ _ _ _ (write-Outcome (codes "<" ++ (name ++ codes " ")))
          (then-Outcome _ _ _ _ h inner)))
element-Outcome name attributes false a b children level h k =
    then-Outcome _ _ _ _ (show_indent-Outcome level) (
      then-Outcome _ _ _ _ (write-Outcome (codes "<" ++ (name ++ codes " ")))
        (then-Outcome _ _ _ _ h (write-Outcome (codes " />\n"))))

-- A missing text is written as `None`, or not at all.
unfoldable pub encodable : Option Str → Bool
unfolding is_ascii
encodable none = true
encodable (some s) = is_ascii s

unfoldable pub encodable_member : MemberType → Bool
unfolding encodable
encodable_member m = encodable m.refid && encodable m.name

unfoldable pub encodable_members : List MemberType → Bool
unfolding encodable_member
encodable_members [] = true
encodable_members (m ∷ ms) = encodable_member m && encodable_members ms

unfoldable pub encodable_compound : CompoundType → Bool
unfolding encodable encodable_members
encodable_compound c = encodable c.refid && (encodable c.name && encodable_members c.member)

unfoldable pub encodable_compounds : List CompoundType → Bool
unfolding encodable_compound
encodable_compounds [] = true
encodable_compounds (c ∷ cs) = encodable_compound c && encodable_compounds cs

unfoldable pub encodable_index : DoxygenType → Bool
unfolding encodable encodable_compounds
encodable_index d = encodable d.version && encodable_compounds d.compound

optional-Outcome :
    (s : Option Str) (k : Str → Exec Str (Unit {0}))
    → Outcome (k (quote_optional s)) true
    → Outcome (lift (encode (quote_optional s)) >>= k) (encodable s)
unfolding encodable quote_attrib
optional-Outcome none k h = encode-Outcome (quote_attrib (codes "None")) k h
optional-Outcome (some s) k h =
    rw (sym (is_ascii-quote_attrib s)) (encode-Outcome (quote_attrib s) k h)

kind_refid-Outcome :
    (kind refid : Option Str) → Outcome (export_kind_refid [] kind refid) (encodable refid)
unfolding export_kind_refid
kind_refid-Outcome kind refid =
    then-Outcome _ _ _ _ (write-Outcome (codes " kind=" ++ quote_optional kind))
      (optional-Outcome refid (λ s. write (codes " refid=" ++ s)) (write-Outcome _))

name-Outcome :
    (name : Option Str) (level : ℕ) → Outcome (export_name [] name level) (encodable name)
unfolding export_name encodable
name-Outcome none level = unfold Outcome in λ out. refl
name-Outcome (some s) level = rw (sym (is_ascii-quote_xml s)) (
    then-Outcome _ _ _ _ (show_indent-Outcome level) (
      encode-Outcome (quote_xml s)
        (λ t. write (codes "<" ++ (codes "name>" ++ (t ++ codes "</name>\n")))) (write-Outcome _)))

present-encodable :
    (name : Option Str) → (if is_some name then encodable name else true) ≡ encodable name
unfolding encodable
present-encodable none = refl
present-encodable (some s) = refl

member-Outcome :
    (m : MemberType) (level : ℕ) → Outcome (export_member [] [] m level) (encodable_member m)
unfolding export_member encodable_member
member-Outcome m level = rw (sym (present-encodable m.name)) (
    element-Outcome (codes "member") (export_kind_refid [] m.kind m.refid) (is_some m.name)
      (encodable m.refid) (encodable m.name) (export_name [] m.name) level
      (kind_refid-Outcome m.kind m.refid) (name-Outcome m.name))

members-Outcome :
    (ms : List MemberType) (level : ℕ) → Outcome (export_members [] ms level) (encodable_members ms)
unfolding export_members encodable_members
members-Outcome [] level = unfold Outcome in λ out. refl
members-Outcome (m ∷ ms) level =
    then-Outcome _ _ _ _ (member-Outcome m level) (members-Outcome ms level)

compound-Outcome :
    (c : CompoundType) (level : ℕ) → Outcome (export_compound [] [] c level) (encodable_compound c)
unfolding export_compound encodable_compound
compound-Outcome c level =
    element-Outcome (codes "compound") (export_kind_refid [] c.kind c.refid) true
      (encodable c.refid) (encodable c.name && encodable_members c.member) _ level
      (kind_refid-Outcome c.kind c.refid)
      (λ l. then-Outcome _ _ _ _ (name-Outcome c.name l) (members-Outcome c.member l))

compounds-Outcome :
    (cs : List CompoundType) (level : ℕ)
    → Outcome (export_compounds [] cs level) (encodable_compounds cs)
unfolding export_compounds encodable_compounds
compounds-Outcome [] level = unfold Outcome in λ out. refl
compounds-Outcome (c ∷ cs) level =
    then-Outcome _ _ _ _ (compound-Outcome c level) (compounds-Outcome cs level)

-- At every level and for every index, export returns exactly when the version and all references and
-- names that are not None are ASCII, and else raises ValueError; the kinds may be anything.
pub export-encodable_index :
    (d : DoxygenType) (level : ℕ) (out : Str)
    → (export [] (codes "doxygenindex") [] d level out).0 ≡ guard (encodable_index d)
unfolding export export_version encodable_index
export-encodable_index d level =
    let h =
      element-Outcome (codes "doxygenindex") (export_version [] d.version) true
        (encodable d.version) (encodable_compounds d.compound) (export_compounds [] d.compound)
        level (optional-Outcome d.version (λ s. write (codes " version=" ++ s)) (write-Outcome _))
        (compounds-Outcome d.compound) in
    unfold Outcome in h
