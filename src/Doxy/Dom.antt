-- ===== src/Doxy/Dom.antt =====
-- The nodes of `xml.dom.minidom`, as far as the bindings in docs/doxygen/doxyxml/generated look at them:
-- `nodeType`, `nodeName`, `nodeValue`, `attributes` and `childNodes`.
pub mod Grammar
use gr_digitizers.Prelude.{ℕ, Option, none, some, [], ◌∷◌, ◌++◌, ◌==◌, if◌then◌else◌}
use gr_digitizers.Prelude.Str.{Str}
use gr_digitizers.Prelude.Dict.{Dict}
use gr_digitizers.Prelude.Result.{Result, ok, err, type_error, ◌>>=◌}

mutual
  pub data Dom : Type 0 where
    element : Str → Dict Str → Doms → Dom
    text : Str → Dom
    cdata : Str → Dom
    comment : Str → Dom

  pub data Doms : Type 0 where
    nil : Doms
    cons : Dom → Doms → Doms

abbrev last_of : ℕ → Str → Option Str → Option Str
last_of c s none = if c == b':' then some s else none
last_of c s (some t) = some t

-- What follows the last colon, if there is one.
unfoldable pub after_colon : Str → Option Str
after_colon [] = none
after_colon (c ∷ s) = last_of c s (after_colon s)

abbrev or_whole : Str → Option Str → Str
or_whole s none = s
or_whole s (some t) = t

-- `nodeName.split (':')[-1]`
unfoldable pub local_name : Str → Str
unfolding after_colon
local_name s = or_whole s (after_colon s)

-- `nodeValue`: `None` of an element.
abbrev pub node_value : Dom → Option Str
node_value (element n a kids) = none
node_value (text s) = some s
node_value (cdata s) = some s
node_value (comment s) = some s

abbrev value_or_raise : Option Str → Result Str
value_or_raise none = err type_error
value_or_raise (some s) = ok s

-- The values of the children one after the other; adding `None` to a string raises `TypeError`.
unfoldable pub text_of : Doms → Result Str
text_of nil = ok []
text_of (cons c kids) = do s ← value_or_raise (node_value c); rest ← text_of kids; ok (s ++ rest)
