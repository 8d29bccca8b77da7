-- ===== src/Doxy/Index.antt =====
-- The index of the documentation, docs/doxygen/doxyxml/generated/indexsuper.py: its three classes and how
-- they are built of a document. `index.py` derives classes that differ in the default of `name`.
use gr_digitizers.Prelude.{ℕ, zero, suc, Option, none, some, List, [], ◌∷◌, ◌++◌, if◌then◌else◌}
pub mod Export
pub mod Table
pub mod Readback
pub mod Written
pub mod Denotes
pub mod Roundtrip
pub mod Literal
pub mod Find
pub mod Found
pub mod Ascii
pub mod Outcome
pub mod Named
pub mod Literally
mod Tests
pub mod Encodable
use gr_digitizers.Prelude.Str.{Str, codes, str_eq}
use gr_digitizers.Prelude.Dict.{Dict, lookup}
use gr_digitizers.Prelude.Result.{Result, ok, err, attribute_error, index_error, ◌>>=◌}
use gr_digitizers.Doxy.Dom.{
  Dom, element, text, cdata, comment, Doms, nil, cons, local_name, text_of,
}

pub record MemberType : Type 0 where
  pub kind : Option Str
  pub refid : Option Str
  pub name : Option Str

pub record CompoundType : Type 0 where
  pub kind : Option Str
  pub refid : Option Str
  pub name : Option Str
  pub member : List MemberType

pub record DoxygenType : Type 0 where
  pub version : Option Str
  pub compound : List CompoundType

-- `if attrs.get (key): self.key = attrs.get (key).value`: an attribute node counts as true.
abbrev pub attribute_or : Option Str → Option Str → Option Str
attribute_or old none = old
attribute_or old (some v) = some v

-- `insert_member` and `insert_compound`: an assignment to an index.
unfoldable pub insert_at {ℓ} : {A : Type ℓ} → ℕ → A → List A → Result (List A)
insert_at i x [] = err index_error
insert_at zero x (y ∷ ys) = ok (x ∷ ys)
insert_at (suc i) x (y ∷ ys) = insert_at i x ys >>= λ zs. ok (y ∷ zs)

unfoldable pub add_member : MemberType → CompoundType → CompoundType
add_member m c = record c { member = c.member ++ (m ∷ []) }

unfoldable pub insert_member : ℕ → MemberType → CompoundType → Result CompoundType
unfolding insert_at
insert_member i m c = insert_at i m c.member >>= λ ms. ok (record c { member = ms })

unfoldable pub add_compound : CompoundType → DoxygenType → DoxygenType
add_compound c d = record d { compound = d.compound ++ (c ∷ []) }

unfoldable pub insert_compound : ℕ → CompoundType → DoxygenType → Result DoxygenType
unfolding insert_at
insert_compound i c d = insert_at i c d.compound >>= λ cs. ok (record d { compound = cs })

-- The default of the parameter `name` is `None` here and `''` in index.py.
module _ (default_name : Option Str) where
  abbrev pub new_member : MemberType
  new_member = record { kind = none; refid = none; name = default_name }

  abbrev pub new_compound : CompoundType
  new_compound = record { kind = none; refid = none; name = default_name; member = [] }

  abbrev pub new_doxygen : DoxygenType
  new_doxygen = record { version = none; compound = [] }

  -- `MemberType.buildChildren`
  unfoldable pub member_child : Dom → MemberType → Result MemberType
  unfolding local_name text_of str_eq
  member_child (element n attrs kids) m =
      if str_eq (local_name n) (codes "name")
      then text_of kids >>= (λ s. ok (record m { name = some s }))
      else ok m
  member_child (text s) m = ok m
  member_child (cdata s) m = ok m
  member_child (comment s) m = ok m

  unfoldable pub member_children : Doms → MemberType → Result MemberType
  unfolding member_child
  member_children nil m = ok m
  member_children (cons c kids) m = member_child c m >>= member_children kids

  -- `MemberType.buildAttributes`
  unfoldable pub member_attributes : Dict Str → MemberType → MemberType
  unfolding lookup str_eq
  member_attributes attrs m = record m {
    kind = attribute_or m.kind (lookup (codes "kind") attrs);
    refid = attribute_or m.refid (lookup (codes "refid") attrs);
  }

  -- `MemberType.build`
  unfoldable pub build_member : Dict Str → Doms → MemberType → Result MemberType
  unfolding member_attributes member_children
  build_member attrs kids m = member_children kids (member_attributes attrs m)

  -- `CompoundType.buildChildren`
  unfoldable pub compound_child : Dom → CompoundType → Result CompoundType
  unfolding local_name text_of build_member add_member str_eq
  compound_child (element n attrs kids) c =
      if str_eq (local_name n) (codes "name")
      then text_of kids >>= (λ s. ok (record c { name = some s }))
      else if str_eq (local_name n) (codes "member")
      then build_member attrs kids new_member >>= (λ m. ok (add_member m c))
      else ok c
  compound_child (text s) c = ok c
  compound_child (cdata s) c = ok c
  compound_child (comment s) c = ok c

  unfoldable pub compound_children : Doms → CompoundType → Result CompoundType
  unfolding compound_child
  compound_children nil c = ok c
  compound_children (cons k kids) c = compound_child k c >>= compound_children kids

  unfoldable pub compound_attributes : Dict Str → CompoundType → CompoundType
  unfolding lookup str_eq
  compound_attributes attrs c = record c {
    kind = attribute_or c.kind (lookup (codes "kind") attrs);
    refid = attribute_or c.refid (lookup (codes "refid") attrs);
  }

  unfoldable pub build_compound : Dict Str → Doms → CompoundType → Result CompoundType
  unfolding compound_attributes compound_children
  build_compound attrs kids c = compound_children kids (compound_attributes attrs c)

  -- `DoxygenType.buildChildren`
  unfoldable pub doxygen_child : Dom → DoxygenType → Result DoxygenType
  unfolding local_name build_compound add_compound str_eq
  doxygen_child (element n attrs kids) d =
      if str_eq (local_name n) (codes "compound")
      then build_compound attrs kids new_compound >>= (λ c. ok (add_compound c d))
      else ok d
  doxygen_child (text s) d = ok d
  doxygen_child (cdata s) d = ok d
  doxygen_child (comment s) d = ok d

  unfoldable pub doxygen_children : Doms → DoxygenType → Result DoxygenType
  unfolding doxygen_child
  doxygen_children nil d = ok d
  doxygen_children (cons k kids) d = doxygen_child k d >>= doxygen_children kids

  unfoldable pub doxygen_attributes : Dict Str → DoxygenType → DoxygenType
  unfolding lookup str_eq
  doxygen_attributes attrs d = record d {
    version = attribute_or d.version (lookup (codes "version") attrs);
  }

  -- `DoxygenType.build` of the root; only an element has attributes.
  unfoldable pub build : Dom → DoxygenType → Result DoxygenType
  unfolding doxygen_attributes doxygen_children
  build (element n attrs kids) d = doxygen_children kids (doxygen_attributes attrs d)
  build (text s) d = err attribute_error
  build (cdata s) d = err attribute_error
  build (comment s) d = err attribute_error

  -- `parse` of index.py, where `document` is what `minidom.parse` gives.
  unfoldable pub parse : Result Dom → Result DoxygenType
  unfolding build
  parse document = document >>= λ root. build root new_doxygen
