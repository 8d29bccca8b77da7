-- ===== src/Doxy/Describe.antt =====
-- docs/doxygen/doxyxml/text.py
use gr_digitizers.Prelude.{Option, some, none, [], ◌++◌, if◌then◌else◌}
use gr_digitizers.Prelude.Str.{Str, codes, str_eq, strip}
use gr_digitizers.Prelude.Result.{Result, ok, err, standard_error, ◌>>=◌}
use gr_digitizers.Doxy.Data.{
  Node, string, object, Contents, no_contents, contents, Nodes, nil, cons, Value, no_value, value,
}

-- Two line breaks after a paragraph.
unfoldable pub paragraph : Option Str → Str → Str
unfolding str_eq
paragraph none result = result
paragraph (some name) result = if str_eq name (codes "para") then result ++ codes "\n\n" else result

-- `if hasattr (obj, 'content')`, `elif hasattr (obj, 'content_')`, `elif hasattr (obj, 'value')`:
-- the first attribute that the object has decides.
abbrev pub first_of_three :
    Option (Result Str) → Option (Result Str) → Option (Result Str) → Result Str
first_of_three (some r) mixed v = r
first_of_three none (some r) v = r
first_of_three none none (some r) = r
first_of_three none none none = err standard_error

unfoldable mutual
  pub description_bit : Node → Result Str
  description_bit (string s) = ok s
  description_bit (object c mixed v name) =
      first_of_three (contents_text c) (contents_text mixed) (value_text v) >>= λ result.
      ok (paragraph name result)

  pub contents_text : Contents → Option (Result Str)
  contents_text no_contents = none
  contents_text (contents items) = some (items_text items)

  pub value_text : Value → Option (Result Str)
  value_text no_value = none
  value_text (value n) = some (description_bit n)

  pub items_text : Nodes → Result Str
  items_text nil = ok []
  items_text (cons n ns) = description_bit n >>= λ s. items_text ns >>= λ t. ok (s ++ t)

unfoldable pub description : Option Node → Result (Option Str)
unfolding description_bit strip
description none = ok none
description (some n) = description_bit n >>= λ s. ok (some (strip s))
