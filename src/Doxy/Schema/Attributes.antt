-- ===== src/Doxy/Schema/Attributes.antt =====
-- The attributes of a generated class, written by `exportAttributes` and read by `buildAttributes`.
use gr_digitizers.Prelude.{
  ◌≡◌, refl, sym, subst, true, false, Option, none, some, List, [], ◌∷◌, arith, All, Bool-cases,
  inl, inr,
}
use gr_digitizers.Prelude.Str.{Str, str_eq, str_eq_self, str_eq_iff}
use gr_digitizers.Prelude.Dict.{Dict, lookup}
use gr_digitizers.Prelude.Result.{ok}
use gr_digitizers.Prelude.Exec.{OnOk}
use gr_digitizers.Doxy.Dom.Grammar.{Attributes}
use gr_digitizers.Doxy.Schema.{
  ClassName, Attribute, AttributeKind, encoded, quoted, always, numeric,
}
use gr_digitizers.Doxy.Schema.Tables.{class_of}
use gr_digitizers.Doxy.Schema.Object.{Values, new_values}
use gr_digitizers.Doxy.Schema.Build.{read_attribute, read_attributes}
use gr_digitizers.Doxy.Schema.Export.{export_attributes}
use gr_digitizers.Doxy.Schema.Distinct.{absent, distinct, class_of-distinct}
use gr_digitizers.Doxy.Schema.Typed.{HasKind, Typed, cleared, read_attributes-Typed}
use gr_digitizers.Doxy.Schema.AttributeText.{
  Writable, values_text, row_entry, given, names, export_attributes-Writes, values-Attributes,
}

-- The dictionary has the values of the rows, and no value where a row has none.
abbrev Agrees : Dict Str → Values → Type 0
Agrees d = All (λ row. lookup row.0.0 d ≡ row.1)

lookup-absent :
    (key : Str) (vs : Values) → absent key (names vs) ≡ true → lookup key (given vs) ≡ none
unfolding lookup given
lookup-absent key [] h = refl
lookup-absent key (((k, kind), none) ∷ vs) h = lookup-absent key vs (ground arith)
lookup-absent key (((k, kind), some s) ∷ vs) h =
    let e : str_eq k key ≡ false = ground arith in rw e (lookup-absent key vs (ground arith))

Agrees-entry :
    (key : Str) (v : Option Str) (d : Dict Str) (vs : Values)
    → absent key (names vs) ≡ true
    → Agrees d vs
    → Agrees (row_entry key v d) vs
unfolding lookup
Agrees-entry key none d vs h a = a
Agrees-entry key (some s) d [] h a = tt
Agrees-entry key (some s) d (((k, kind), u) ∷ vs) h (a, ag) =
    let e : str_eq k key ≡ false = ground arith in
    (
      elim (Bool-cases (str_eq key k)) [
        | inl x ↦
            let same : key ≡ k = (str_eq_iff key k).0 x in
            let wrong : true ≡ false = (rw (same, str_eq_self k) at e) in cc
        | inr x ↦ rw x a
      ],
      Agrees-entry key (some s) d vs (ground arith) ag,
    )

given-Agrees : (vs : Values) → distinct (names vs) ≡ true → Agrees (given vs) vs
unfolding distinct lookup given
given-Agrees [] u = tt
given-Agrees (((key, kind), none) ∷ vs) u =
    (lookup-absent key vs (ground arith), given-Agrees vs (ground arith))
given-Agrees (((key, kind), some s) ∷ vs) u = (
  rw (str_eq_self key),
  Agrees-entry key (some s) (given vs) vs (ground arith) (given-Agrees vs (ground arith)),
)

read_attribute-kept :
    (kind : AttributeKind) (v : Option Str) → HasKind kind v → read_attribute kind none v ≡ ok v
unfolding read_attribute
read_attribute-kept kind none h = refl
read_attribute-kept encoded (some s) h = refl
read_attribute-kept quoted (some s) h = refl
read_attribute-kept always (some s) h = refl
read_attribute-kept numeric (some s) h = rw h

read_attributes-kept :
    (d : Dict Str) (vs : Values) → Typed vs → Agrees d vs → read_attributes d (cleared vs) ≡ ok vs
unfolding read_attributes cleared
read_attributes-kept d [] h a = refl
read_attributes-kept d (((key, kind), v) ∷ vs) (h, hs) (a, ag) =
    rw (a, read_attribute-kept kind v h, read_attributes-kept d vs hs ag)

names-new :
    (vs : Values) (attributes : List Attribute)
    → cleared vs ≡ new_values attributes
    → names vs ≡ attributes
unfolding cleared new_values
names-new [] [] h = refl
names-new [] (a ∷ attributes) h = cc
names-new (row ∷ vs) [] h = cc
names-new (row ∷ vs) (a ∷ attributes) h =
    let tails : cleared vs ≡ new_values attributes = ground arith in
    let heads : row.0 ≡ a = ground arith in rw (heads, names-new vs attributes tails)

-- For the attributes that buildAttributes of any class reads of an element, where their values are
-- printable ASCII and one that is always written has a value: exportAttributes writes them as
-- attributes of XML, and of these buildAttributes reads the same values again, integers included.
pub export-read_attributes :
    (c : ClassName) (attrs : Dict Str) (vs : Values)
    → read_attributes attrs (new_values (class_of c).attributes) ≡ ok vs
    → Writable vs
    → (t : Str) × (d : Dict Str) × (export_attributes vs [] ≡ (ok tt, t))
      × Attributes t d
      × (read_attributes d (new_values (class_of c).attributes) ≡ ok vs)
export-read_attributes c attrs vs h p =
    let (e, typed) =
      subst (OnOk (λ ws. (cleared ws ≡ new_values (class_of c).attributes) × Typed ws)) h
        (read_attributes-Typed attrs (class_of c).attributes) in
    let u : distinct (names vs) ≡ true =
      subst (λ xs. distinct xs ≡ true) (sym (names-new vs (class_of c).attributes e))
        (class_of-distinct c) in
    (
      values_text vs,
      given vs,
      export_attributes-Writes vs p [],
      values-Attributes vs u typed p,
      subst (λ ws. read_attributes (given vs) ws ≡ ok vs) e
          (read_attributes-kept (given vs) vs typed (given-Agrees vs u)),
    )
