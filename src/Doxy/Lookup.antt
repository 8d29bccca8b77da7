-- ===== src/Doxy/Lookup.antt =====
-- `in_category`, `_get_dict_members`, `get_member` and `has_member` of base.py.
pub mod Path
pub mod Names
use gr_digitizers.Prelude.{
  ℕ, zero, suc, Bool, true, false, Option, none, some, List, [], ◌∷◌, ◌++◌, ◌&&◌, ◌==◌, length,
  if◌then◌else◌,
}
use gr_digitizers.Prelude.Str.{Str, codes, join}
use gr_digitizers.Prelude.Dict.{Dict, lookup, insert}
use gr_digitizers.Prelude.Result.{
  Error, Result, ok, err, attribute_error, no_such_member, duplicate, standard_error,
}
use gr_digitizers.Prelude.Exec.{Exec, pure, raise, lift, and_then, ◌>>=◌, ◌>>◌}
use gr_digitizers.Doxy.Data.{ParseData, CompoundDef, Xml}
use gr_digitizers.Doxy.Heap.{
  Cls, cls_eq, Category, of_class, block, block2, category_eq, Entry, unique, repeated, Obj, World,
  Ref, index, obj, fetch, update, read,
}
use gr_digitizers.Doxy.Parse.{confirm_no_error, members, name}

-- `name.split ('::')`: the first part and the others.
unfoldable pub split_colons : Str → Str × List Str
split_colons [] = ([], [])
split_colons (c ∷ []) = (c ∷ [], [])
split_colons (c ∷ d ∷ s) =
    let cut = split_colons s in
    let keep = split_colons (d ∷ s) in
    if c == b':' && d == b':' then ([], cut.0 ∷ cut.1) else (c ∷ keep.0, keep.1)

-- `'::'.join (bits[1:])`
unfoldable pub rest_of : Str → Str
unfolding split_colons join
rest_of name = join (codes "::") (split_colons name).1

abbrev cached {ℓ} : {A : Type ℓ} → Category → List (Category × A) → Option A
cached c [] = none
cached c ((k, v) ∷ m) = if category_eq k c then some v else cached c m

abbrev option_eq : Option Category → Option Category → Bool
option_eq none none = true
option_eq (some a) (some b) = category_eq a b
option_eq _ _ = false

abbrev cached_dict : Option Category → List (Option Category × Dict Entry) → Option (Dict Entry)
cached_dict c [] = none
cached_dict c ((k, v) ∷ m) = if option_eq k c then some v else cached_dict c m

-- The entry after one more member of the name.
abbrev pub entry_after : Option Entry → Option ℕ → Entry
entry_after none m = unique m
entry_after (some _) m = repeated

unfoldable pub add_entry : Str → Option ℕ → Dict Entry → Dict Entry
unfolding lookup insert
add_entry s m d = insert s (entry_after (lookup s d) m) d

abbrev pub found : Option Entry → Result (Option ℕ)
found none = err no_such_member
found (some repeated) = err duplicate
found (some (unique m)) = ok m

abbrev pub descend : (Ref → Exec World (Option ℕ)) → Option ℕ → Exec World (Option ℕ)
descend next none = raise attribute_error
descend next (some n) = next (obj n)

abbrev pub continue_at : (Ref → Exec World (Option ℕ)) → Str → Option ℕ → Exec World (Option ℕ)
continue_at next [] m = pure m
continue_at next (_ ∷ _) m = descend next m

-- `NoSuchMember` is the one exception that is caught.
abbrev pub caught : Result (Option ℕ) → Result Bool
caught (ok m) = ok true
caught (err no_such_member) = ok false
caught (err e) = err e

module _ (compound_xml : Str → Xml (Option CompoundDef)) (index_xml : Xml (List ParseData)) where
  -- `isinstance (inst, cls)`; no class includes `None`.
  abbrev pub isinstance : Cls → Option ℕ → Exec World Bool
  isinstance c none = pure false
  isinstance c (some n) = do o ← read (obj n); pure (cls_eq o.cls c)

  -- `[mem for mem in self._members if cat.includes (mem)]`
  unfoldable pub filter_mems :
      (Option ℕ → Exec World Bool) → List (Option ℕ) → Exec World (List (Option ℕ))
  filter_mems test [] = pure []
  filter_mems test (m ∷ ms) = do
    yes' ← test m
    rest ← filter_mems test ms
    pure (if yes' then m ∷ rest else rest)

  abbrev filled :
      (Option ℕ → Exec World Bool)
      → Ref
      → Category
      → Option (List (Option ℕ))
      → Exec World (List (Option ℕ))
  filled test r c (some ms) = pure ms
  filled test r c none = do
    o ← read r
    ms ← filter_mems test o.members
    update r (λ o'. record o' { in_category = (c, ms) ∷ o'.in_category })
    pure ms

  -- `in_category (cat)` for a category whose `includes` is `test`, through the cache.
  unfoldable pub in_category_by :
      (Option ℕ → Exec World Bool) → Ref → Category → Exec World (List (Option ℕ))
  unfolding confirm_no_error read update filter_mems
  in_category_by test r c = do
    confirm_no_error compound_xml index_xml r
    o ← read r
    filled test r c (cached c o.in_category)

  unfoldable pub in_category : Ref → Cls → Exec World (List (Option ℕ))
  unfolding in_category_by
  in_category r c = in_category_by (isinstance c) r (of_class c)

  abbrev in_option : Ref → Option Cls → Exec World (List (Option ℕ))
  in_option r none = members compound_xml index_xml r
  in_option r (some c) = in_category r c

  abbrev pub member_name : Option ℕ → Exec World Str
  member_name none = raise attribute_error
  member_name (some n) = name compound_xml index_xml (obj n)

  unfoldable pub fill_dict : List (Option ℕ) → Dict Entry → Exec World (Dict Entry)
  unfolding name add_entry
  fill_dict [] d = pure d
  fill_dict (m ∷ ms) d = do s ← member_name m; fill_dict ms (add_entry s m d)

  abbrev category_of : Option Cls → Option Category
  category_of none = none
  category_of (some c) = some (of_class c)

  abbrev filled_dict : Ref → Option Cls → Option (Dict Entry) → Exec World (Dict Entry)
  filled_dict r cat (some d) = pure d
  filled_dict r cat none = do
    ms ← in_option r cat
    d ← fill_dict ms []
    update r (λ o. record o { dict_members = (category_of cat, d) ∷ o.dict_members })
    pure d

  unfoldable pub get_dict_members : Ref → Option Cls → Exec World (Dict Entry)
  unfolding confirm_no_error read fill_dict in_category members update
  get_dict_members r cat = do
    confirm_no_error compound_xml index_xml r
    o ← read r
    filled_dict r cat (cached_dict (category_of cat) o.dict_members)

  -- One level: the member of the name, or an error.
  unfoldable pub get_local : Ref → Option Cls → Str → Exec World (Option ℕ)
  unfolding confirm_no_error get_dict_members lookup
  get_local r cat first = do
    confirm_no_error compound_xml index_xml r
    d ← get_dict_members r cat
    lift (found (lookup first d))

  -- `get_member (name, cat)` with fuel: each call is on a shorter name.
  unfoldable pub get_member_fuel : ℕ → Ref → Str → Option Cls → Exec World (Option ℕ)
  unfolding split_colons rest_of get_local
  get_member_fuel zero r name cat = raise standard_error
  get_member_fuel (suc f) r name cat = do
    m ← get_local r cat (split_colons name).0
    continue_at (λ r'. get_member_fuel f r' (rest_of name) cat) (rest_of name) m

  unfoldable pub get_member : Ref → Str → Option Cls → Exec World (Option ℕ)
  unfolding get_member_fuel
  get_member r name cat = get_member_fuel (suc (length name)) r name cat

  unfoldable pub has_member : Ref → Str → Option Cls → Exec World Bool
  unfolding get_member
  has_member r name cat w = (caught (get_member r name cat w).0, (get_member r name cat w).1)
