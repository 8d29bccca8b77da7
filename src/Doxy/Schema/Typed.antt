-- ===== src/Doxy/Schema/Typed.antt =====
-- What `buildAttributes` of a new object leaves: the attributes of its class, with values of their kinds.
use gr_digitizers.Prelude.{◌≡◌, refl, Option, none, some, List, [], ◌∷◌, All}
use gr_digitizers.Prelude.Str.{Str}
use gr_digitizers.Prelude.Dict.{Dict, lookup}
use gr_digitizers.Prelude.Result.{Result, ok, err}
use gr_digitizers.Prelude.Exec.{OnOk, result-OnOk}
use gr_digitizers.Doxy.Schema.{Attribute, AttributeKind, encoded, quoted, always, numeric}
use gr_digitizers.Doxy.Schema.Object.{Values, new_values}
use gr_digitizers.Doxy.Schema.Build.{int, read_attribute, read_attributes}
use gr_digitizers.Doxy.Schema.Numeral.{int-int}

-- A value that the attribute can have after it was read: the numeral of an integer, or any text.
abbrev pub HasKind : AttributeKind → Option Str → Type 0
HasKind numeric (some s) = int s ≡ ok s
HasKind _ _ = Unit

abbrev pub Typed : Values → Type 0
Typed = All (λ row. HasKind row.0.1 row.1)

-- The attributes, with no values.
unfoldable pub cleared : Values → Values
cleared [] = []
cleared (row ∷ vs) = (row.0, none) ∷ cleared vs

read_attribute-HasKind :
    (kind : AttributeKind) (found : Option Str)
    → OnOk (HasKind kind) (read_attribute kind none found)
unfolding read_attribute
read_attribute-HasKind encoded none = tt
read_attribute-HasKind quoted none = tt
read_attribute-HasKind always none = tt
read_attribute-HasKind numeric none = tt
read_attribute-HasKind encoded (some s) = tt
read_attribute-HasKind quoted (some s) = tt
read_attribute-HasKind always (some s) = tt
read_attribute-HasKind numeric (some s) =
    result-OnOk (λ i. int i ≡ ok i) (HasKind numeric) (int s) _ (numeral-kept (int s) refl) λ i h. h
  where
    numeral-kept : (r : Result Str) → int s ≡ r → OnOk (λ i. int i ≡ ok i) r
    numeral-kept (ok i) e = int-int s i e
    numeral-kept (err x) e = tt

pub read_attributes-Typed :
    (attrs : Dict Str) (attributes : List Attribute)
    → OnOk
        (λ vs. (cleared vs ≡ new_values attributes) × Typed vs)
        (read_attributes attrs (new_values attributes))
unfolding read_attributes new_values cleared
read_attributes-Typed attrs [] = (refl, tt)
read_attributes-Typed attrs ((key, kind) ∷ attributes) =
    result-OnOk (HasKind kind) _ (read_attribute kind none (lookup key attrs)) _
      (read_attribute-HasKind kind (lookup key attrs))
      λ v h.
        result-OnOk (λ vs. (cleared vs ≡ new_values attributes) × Typed vs) _
          (read_attributes attrs (new_values attributes)) _ (read_attributes-Typed attrs attributes)
          λ vs (e, t). (rw e, (h, t))
