-- ===== src/Doxy/Lookup/Names.antt =====
-- The dictionary of member names against the list of the members and their names.
use gr_digitizers.Prelude.{
  ℕ, ◌≡◌, refl, ◌∙◌, Option, none, some, List, [], ◌∷◌, if◌then◌else◌, Bool-cases, inl, inr,
}
use gr_digitizers.Prelude.Str.{Str, str_eq, str_eq_iff}
use gr_digitizers.Prelude.Dict.{Dict, lookup, lookup-insert}
use gr_digitizers.Prelude.Result.{ok}
use gr_digitizers.Doxy.Data.{ParseData, CompoundDef, Xml}
use gr_digitizers.Doxy.Heap.{World, Entry, unique, repeated, fetch, obj, read}
use gr_digitizers.Doxy.Parse.{name}
use gr_digitizers.Doxy.Lookup.{entry_after, add_entry, fill_dict}

-- The members and their names, from the parse data that they were made of.
abbrev pub Names : World → List (Str × ℕ) → Type 0
Names w [] = Unit
Names w ((s, n) ∷ ms) =
    ((pd : ParseData) × ((fetch (obj n) w).parse_data ≡ some pd) × (pd.name ≡ s)) × Names w ms

abbrev pub members_of : List (Str × ℕ) → List (Option ℕ)
members_of [] = []
members_of ((s, n) ∷ ms) = some n ∷ members_of ms

-- The members of one name.
unfoldable pub named : Str → List (Str × ℕ) → List ℕ
named k [] = []
named k ((s, n) ∷ ms) = let rest = named k ms in if str_eq s k then n ∷ rest else rest

-- The entry for a name, from the members that have it.
unfoldable pub entry_of : List ℕ → Option Entry
entry_of [] = none
entry_of (n ∷ []) = some (unique (some n))
entry_of (n ∷ m ∷ ms) = some repeated

add_all : List (Str × ℕ) → Dict Entry → Dict Entry
add_all [] d = d
add_all ((s, n) ∷ ms) d = add_all ms (add_entry s (some n) d)

-- The entry after the further members of its name.
after : Option Entry → List ℕ → Option Entry
after e [] = e
after e (n ∷ ns) = after (some (entry_after e (some n))) ns

after_more : (n : ℕ) (ns : List ℕ) (e : Entry) → after (some e) (n ∷ ns) ≡ some repeated
unfolding after
after_more n [] e = refl
after_more n (m ∷ ns) e = after_more m ns repeated

after-eq-entry_of : (ns : List ℕ) → after none ns ≡ entry_of ns
unfolding after entry_of
after-eq-entry_of [] = refl
after-eq-entry_of (n ∷ []) = refl
after-eq-entry_of (n ∷ m ∷ ns) = after_more m ns (unique (some n))

lookup-add_all :
    (k : Str) (ms : List (Str × ℕ)) (d : Dict Entry)
    → lookup k (add_all ms d) ≡ after (lookup k d) (named k ms)
unfolding add_all named after add_entry
lookup-add_all k [] d = refl
lookup-add_all k ((s, n) ∷ ms) d =
    lookup-add_all k ms (add_entry s (some n) d)
    ∙ rw lookup-insert (elim (Bool-cases (str_eq s k)) [
      | inl e ↦ let same : s ≡ k = (str_eq_iff s k).0 e in rw (e, same)
      | inr e ↦ rw e
    ])

module _ (compound_xml : Str → Xml (Option CompoundDef)) (index_xml : Xml (List ParseData)) where
  fill_dict-add_all :
      (ms : List (Str × ℕ)) (d : Dict Entry) (w : World)
      → Names w ms
      → fill_dict compound_xml index_xml (members_of ms) d w ≡ (ok (add_all ms d), w)
  unfolding fill_dict add_all name read
  fill_dict-add_all [] d w h = refl
  fill_dict-add_all ((s, n) ∷ ms) d w ((pd, p, q), h) = rw (p, q) (fill_dict-add_all ms _ w h)

  -- For members that were made of parse data the dictionary is filled without a change of the world,
  -- and leads from a name to the one member that has it, to Duplicate where several do, and to
  -- nothing where none does.
  pub fill_dict-entry_of :
      (ms : List (Str × ℕ)) (w : World)
      → Names w ms
      → (d : Dict Entry) × (fill_dict compound_xml index_xml (members_of ms) [] w ≡ (ok d, w))
        × ((k : Str) → lookup k d ≡ entry_of (named k ms))
  unfolding lookup
  fill_dict-entry_of ms w h = (
    add_all ms [],
    fill_dict-add_all ms [] w h,
    λ k. lookup-add_all k ms [] ∙ after-eq-entry_of (named k ms),
  )
