-- ===== src/Doxy/Schema/Build.antt =====
-- How an object of a generated class is built of a document: `build`, `buildAttributes` and
-- `buildChildren` of compoundsuper.py.
use gr_digitizers.Prelude.{◌==◌, Option, none, some, [], ◌∷◌, ◌++◌, if◌then◌else◌}
use gr_digitizers.Prelude.Str.{Str, codes, str_eq, strip}
use gr_digitizers.Prelude.Dict.{Dict, lookup}
use gr_digitizers.Prelude.Result.{Result, ok, err, attribute_error, value_error, ◌>>=◌}
use gr_digitizers.Doxy.Dom.{
  Dom, element, text, cdata, comment, Doms, nil, cons, local_name, text_of,
}
use gr_digitizers.Doxy.Compound.Member.{integer}
use gr_digitizers.Doxy.Schema.{AttributeKind, encoded, quoted, always, numeric}
use gr_digitizers.Doxy.Schema.Object.{
  Values, Object, structured, simple, markup, mixed, no_items, text_item, simple_item, complex_item,
  new_object, Part, ignored, text_part, object_part, part_of, append_items, put_text, put_object,
}

-- A numeral without the zeros that it starts with
unfoldable pub without_zeros : Str → Str
without_zeros [] = codes "0"
without_zeros (c ∷ s) = let rest = without_zeros s in if c == b'0' then rest else c ∷ s

abbrev pub negated : Str → Str
negated s = if str_eq s (codes "0") then s else b'-' ∷ s

abbrev pub numeral : Str → Str
numeral [] = codes "0"
numeral (c ∷ s) =
    if c == b'-'
    then negated (without_zeros s)
    else if c == b'+'
    then without_zeros s
    else without_zeros (c ∷ s)

-- `int (s)`, as the decimal numeral of the integer
unfoldable pub int : Str → Result Str
unfolding integer strip without_zeros str_eq
int s = if integer s then ok (numeral (strip s)) else err value_error

-- `if attrs.get (key): self.key = ...`
unfoldable pub read_attribute : AttributeKind → Option Str → Option Str → Result (Option Str)
unfolding int
read_attribute kind old none = ok old
read_attribute encoded old (some s) = ok (some s)
read_attribute quoted old (some s) = ok (some s)
read_attribute always old (some s) = ok (some s)
read_attribute numeric old (some s) = int s >>= λ i. ok (some i)

-- `buildAttributes`
unfoldable pub read_attributes : Dict Str → Values → Result Values
unfolding read_attribute lookup str_eq
read_attributes attrs [] = ok []
read_attributes attrs (((key, kind), old) ∷ vs) = do
  v ← read_attribute kind old (lookup key attrs)
  rest ← read_attributes attrs vs
  ok (((key, kind), v) ∷ rest)

-- `buildAttributes`, and then `self.valueOf_ = ''` in the classes that have it
unfoldable pub begin_build : Dict Str → Object → Result Object
unfolding read_attributes
begin_build attrs (structured c vs fs) = read_attributes attrs vs >>= λ ws. ok (structured c ws fs)
begin_build attrs (simple c vs s) = read_attributes attrs vs >>= λ ws. ok (simple c ws [])
begin_build attrs (markup c vs s ts) =
    read_attributes attrs vs >>= λ ws. ok (markup c ws (some []) ts)
begin_build attrs (mixed c vs is) = read_attributes attrs vs >>= λ ws. ok (mixed c ws is)

abbrev pub add_value : Str → Option Str → Option Str
add_value s none = none
add_value s (some t) = some (t ++ s)

-- A text node: it is added to `valueOf_` and to `content_`, where the class has them.
unfoldable pub put_text_node : Str → Object → Object
unfolding append_items
put_text_node s (structured c vs fs) = structured c vs fs
put_text_node s (simple c vs t) = simple c vs (t ++ s)
put_text_node s (markup c vs t ts) = markup c vs (add_value s t) (ts ++ (s ∷ []))
put_text_node s (mixed c vs is) = mixed c vs (append_items is (text_item s no_items))

-- `'![CDATA['+child_.nodeValue+']]'`
abbrev pub cdata_text : Str → Str
cdata_text s = codes "![CDATA[" ++ (s ++ codes "]]")

unfoldable pub put_cdata : Str → Object → Object
put_cdata s (structured c vs fs) = structured c vs fs
put_cdata s (simple c vs t) = simple c vs (t ++ cdata_text s)
put_cdata s (markup c vs t ts) = markup c vs (add_value (cdata_text s) t) ts
put_cdata s (mixed c vs is) = mixed c vs is

-- The text of a child
unfoldable pub put_child_text : Str → Str → Object → Object
unfolding put_text append_items
put_child_text n s (structured c vs fs) = structured c vs (put_text n s fs)
put_child_text n s (simple c vs t) = simple c vs t
put_child_text n s (markup c vs t ts) = markup c vs t ts
put_child_text n s (mixed c vs is) = mixed c vs (append_items is (simple_item n s no_items))

-- The object that is built of a child
unfoldable pub put_child : Str → Object → Object → Object
unfolding put_object append_items
put_child n o (structured c vs fs) = structured c vs (put_object n o fs)
put_child n o (simple c vs t) = simple c vs t
put_child n o (markup c vs t ts) = markup c vs t ts
put_child n o (mixed c vs is) = mixed c vs (append_items is (complex_item n o no_items))

-- What `buildChildren` does with an element; `inside` and `behind` build of its children and of the
-- nodes behind it.
unfoldable pub build_child :
    Part
    → Str
    → Dict Str
    → Doms
    → (Object → Result Object)
    → (Object → Result Object)
    → Object
    → Result Object
unfolding text_of begin_build new_object put_child_text put_child
build_child ignored n attrs ks inside behind o = behind o
build_child text_part n attrs ks inside behind o = text_of ks >>= λ s. behind (put_child_text n s o)
build_child (object_part c) n attrs ks inside behind o =
    begin_build attrs (new_object c) >>= λ p. inside p >>= λ q. behind (put_child n q o)

-- `buildChildren` for all children
unfoldable pub build_children : Doms → Object → Result Object
unfolding part_of build_child put_text_node put_cdata local_name
build_children nil o = ok o
build_children (cons (element n attrs ks) kids) o =
    build_child (part_of (local_name n) o) (local_name n) attrs ks (λ p. build_children ks p)
      (λ p. build_children kids p) o
build_children (cons (text s) kids) o = build_children kids (put_text_node s o)
build_children (cons (cdata s) kids) o = build_children kids (put_cdata s o)
build_children (cons (comment s) kids) o = build_children kids o

-- `build` of an element
unfoldable pub build_element : Dict Str → Doms → Object → Result Object
unfolding begin_build build_children
build_element attrs ks o = begin_build attrs o >>= λ p. build_children ks p

-- `build`; a node that is no element has no attributes.
unfoldable pub build_root : Dom → Object → Result Object
unfolding build_element
build_root (element n attrs ks) o = build_element attrs ks o
build_root (text s) o = err attribute_error
build_root (cdata s) o = err attribute_error
build_root (comment s) o = err attribute_error
