-- ===== src/Doxy/Index/Literally.antt =====
-- When the literal exports of the index return: which names are encoded.
use gr_digitizers.Prelude.{
  ℕ, suc, ◌≡◌, refl, sym, subst, Bool, true, ◌&&◌, Option, none, some, List, [], ◌∷◌, ◌++◌, All,
}
use gr_digitizers.Prelude.Str.{Str, codes}
use gr_digitizers.Prelude.Result.{Result, ok, err, attribute_error}
use gr_digitizers.Prelude.Exec.{Exec, OnOk}
use gr_digitizers.Doxy.Quote.{quote_python}
use gr_digitizers.Doxy.Dom.{Dom}
use gr_digitizers.Doxy.Index.{MemberType, CompoundType, DoxygenType, parse}
use gr_digitizers.Doxy.Index.Export.{write, is_ascii, is_some}
use gr_digitizers.Doxy.Index.Literal.{
  quote_python_optional, literal_line, literal_kind, literal_plain, literal_kind_refid,
  literal_name, literal_member_children, literal_member, literal_items, literal_compound, literal,
}
use gr_digitizers.Doxy.Index.Ascii.{is_ascii-quote_python, and_true}
use gr_digitizers.Doxy.Index.Encodable.{encodable}
use gr_digitizers.Doxy.Index.Named.{Named, IndexNamed, parse-Named}
use gr_digitizers.Doxy.Index.Outcome.{
  guard, Outcome, run-Outcome, write-Outcome, then-Outcome, encode-Outcome, show_indent-Outcome,
}

line-Outcome : (s : Str) (level : ℕ) → Outcome (literal_line s level) true
unfolding literal_line
line-Outcome s level = then-Outcome _ _ _ _ (show_indent-Outcome level) (write-Outcome s)

kind-Outcome : (kind : Option Str) (level : ℕ) → Outcome (literal_kind kind level) true
unfolding literal_kind
kind-Outcome none level = unfold Outcome in λ out. refl
kind-Outcome (some kind) level = line-Outcome _ level

plain-Outcome :
    (key : Str) (value : Option Str) (level : ℕ) → Outcome (literal_plain key value level) true
unfolding literal_plain
plain-Outcome key none level = unfold Outcome in λ out. refl
plain-Outcome key (some value) level = line-Outcome _ level

kind_refid-Outcome :
    (kind refid : Option Str) (level : ℕ) → Outcome (literal_kind_refid kind refid level) true
unfolding literal_kind_refid
kind_refid-Outcome kind refid level =
    then-Outcome _ _ _ _ (kind-Outcome kind level) (plain-Outcome (codes "refid") refid level)

name-Outcome : (s : Str) (level : ℕ) → Outcome (literal_name (some s) level) (is_ascii s)
unfolding literal_name quote_python_optional
name-Outcome s level = rw (sym (is_ascii-quote_python s)) (
    then-Outcome _ _ _ _ (show_indent-Outcome level) (
      encode-Outcome (quote_python s) (λ t. write (codes "name=" ++ (t ++ codes ",\n")))
        (write-Outcome _)))

member_children-Outcome :
    (name : Option Str) (level : ℕ) → Outcome (literal_member_children name level) (encodable name)
unfolding literal_member_children encodable
member_children-Outcome none level = unfold Outcome in λ out. refl
member_children-Outcome (some s) level = name-Outcome s level

member-Outcome : (m : MemberType) (level : ℕ) → Outcome (literal_member m level) (encodable m.name)
unfolding literal_member
member-Outcome m level =
    then-Outcome _ _ _ _ (kind_refid-Outcome m.kind m.refid (suc level))
      (member_children-Outcome m.name (suc level))

unfoldable pub every : {A : Type 0} → (A → Bool) → List A → Bool
every p [] = true
every p (x ∷ xs) = p x && every p xs

items-Outcome :
    {A : Type 0} (name : Str) (one : A → ℕ → Exec Str (Unit {0})) (p : A → Bool) (xs : List A)
    (level : ℕ)
    → All (λ x. (l : ℕ) → Outcome (one x l) (p x)) xs
    → Outcome (literal_items name one xs level) (every p xs)
unfolding literal_items every
items-Outcome name one p [] level h = unfold Outcome in λ out. refl
items-Outcome name one p (x ∷ xs) level (h, hs) = then-Outcome _ _ _ _ (line-Outcome _ level) (
    then-Outcome _ _ _ _ (h level) (
      then-Outcome _ _ _ _ (line-Outcome (codes "),\n") level)
        (items-Outcome name one p xs level hs)))

members-All :
    (ms : List MemberType) → All (λ m. (l : ℕ) → Outcome (literal_member m l) (encodable m.name)) ms
members-All [] = tt
members-All (m ∷ ms) = (member-Outcome m, members-All ms)

-- The names of a compound and of its members.
abbrev pub ascii_names : CompoundType → Bool
ascii_names c = encodable c.name && every (λ m. encodable m.name) c.member

named-Outcome :
    (name : Option Str) (level : ℕ)
    → is_some name ≡ true
    → Outcome (literal_name name level) (encodable name)
unfolding encodable
named-Outcome none level h = cc
named-Outcome (some s) level h = name-Outcome s level

compound-Outcome :
    (c : CompoundType) (level : ℕ)
    → is_some c.name ≡ true
    → Outcome (literal_compound c level) (ascii_names c)
unfolding literal_compound
compound-Outcome c level h =
    let members =
      items-Outcome (codes "member") literal_member (λ m. encodable m.name) c.member
        (suc (suc level)) (members-All c.member) in
    let rest =
      then-Outcome _ _ _ _ (line-Outcome (codes "member=[\n") (suc level))
        (then-Outcome _ _ _ _ members (line-Outcome (codes "],\n") (suc level))) in
    rw (sym (and_true (every (λ m. encodable m.name) c.member))) (
      then-Outcome _ _ _ _ (kind_refid-Outcome c.kind c.refid (suc level))
        (then-Outcome _ _ _ _ (named-Outcome c.name (suc level) h) rest))

compounds-All :
    (cs : List CompoundType)
    → All Named cs
    → All (λ c. (l : ℕ) → Outcome (literal_compound c l) (ascii_names c)) cs
compounds-All [] h = tt
compounds-All (c ∷ cs) ((h, hm), hs) = (λ l. compound-Outcome c l h, compounds-All cs hs)

literal-ascii_names :
    (d : DoxygenType) (level : ℕ) (out : Str)
    → All Named d.compound
    → (literal d level out).0 ≡ guard (every ascii_names d.compound)
unfolding literal
literal-ascii_names d level out h =
    let compounds =
      items-Outcome (codes "compound") literal_compound ascii_names d.compound (suc (suc level))
        (compounds-All d.compound h) in
    let rest =
      then-Outcome _ _ _ _ (line-Outcome (codes "compound=[\n") (suc level))
        (then-Outcome _ _ _ _ compounds (line-Outcome (codes "],\n") (suc level))) in
    let all = then-Outcome _ _ _ _ (plain-Outcome (codes "version") d.version (suc level)) rest in
    rw (sym (and_true (every ascii_names d.compound))) (run-Outcome _ _ out all)

-- For an index that parse returned with a string as the default of the names, the literal export
-- returns exactly when the names of all compounds and members are ASCII, and else raises ValueError.
pub parse-literal :
    (s : Str) (document : Result Dom) (d : DoxygenType) (level : ℕ) (out : Str)
    → parse (some s) document ≡ ok d
    → (literal d level out).0 ≡ guard (every ascii_names d.compound)
parse-literal s document d level out e =
    literal-ascii_names d level out (subst (OnOk IndexNamed) e (parse-Named s document))

-- The literal export of a compound whose name is None raises AttributeError, whatever else it holds.
literal_compound_nameless :
    (c : CompoundType) (level : ℕ) (out : Str)
    → c.name ≡ none
    → (literal_compound c level out).0 ≡ err attribute_error
unfolding literal_compound literal_name quote_python_optional
literal_compound_nameless c level out e = rw (
  e,
  run-Outcome _ _ out (kind_refid-Outcome c.kind c.refid (suc level)),
  run-Outcome _ _ _ (show_indent-Outcome (suc level)),
)
